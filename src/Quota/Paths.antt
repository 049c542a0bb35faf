-- ===== src/Quota/Paths.antt =====
-- Files of one directory have different paths.
use hft_bench.Prelude.{◌≡◌, ◌≢◌, refl, sym, ◌∙◌, List, [], ◌∷◌, ◌++◌, arith}
use hft_bench.Prelude.Text.{Str}
use hft_bench.Prelude.FilePath.{
  parts_from, resolve, rooted, join_path, HasNoSlash, IsOrdinary, parts_from-plain,
}

parts_from-append : (a s t : Str) → parts_from a (s ++ b'/' ∷ t) ≡ parts_from a s ++ parts_from [] t
unfolding parts_from
parts_from-append a [] t = refl
parts_from-append a (c ∷ s) t =
    ground (arith, parts_from-append [] s t, parts_from-append (a ++ c ∷ []) s t)

resolve-append : (xs ys kept : List Str) → resolve kept (xs ++ ys) ≡ resolve (resolve kept xs) ys
unfolding resolve
resolve-append [] ys kept = refl
resolve-append (x ∷ xs) ys kept = resolve-append xs ys _

-- An ordinary name goes behind the directory.
pub join_path-ordinary :
    (dir name : Str)
    → HasNoSlash name
    → IsOrdinary name
    → join_path dir name ≡ rooted (resolve [] (parts_from [] dir)) ++ b'/' ∷ name
unfolding join_path resolve rooted
join_path-ordinary dir name plain (a, b, c) = ground (
  arith,
  parts_from-append [] dir name,
  parts_from-plain [] name plain,
  resolve-append (parts_from [] dir) (name ∷ []) [],
)

append_cancel : (r s t : Str) → r ++ s ≡ r ++ t → s ≡ t
append_cancel [] s t e = e
append_cancel (c ∷ r) s t e = append_cancel r s t (cc)

pub join_path-differ :
    (dir a b : Str)
    → HasNoSlash a
    → IsOrdinary a
    → HasNoSlash b
    → IsOrdinary b
    → a ≢ b
    → join_path dir a ≢ join_path dir b
join_path-differ dir a b pa oa pb ob ne e =
    let same : b'/' ∷ a ≡ b'/' ∷ b =
      append_cancel (rooted (resolve [] (parts_from [] dir))) (b'/' ∷ a) (b'/' ∷ b)
        (sym (join_path-ordinary dir a pa oa) ∙ e ∙ join_path-ordinary dir b pb ob) in
    ne (cc)
