-- ===== src/Prelude/FilePath.antt =====
-- `filepath.Join` of a rooted directory and a name: the parts between slashes, with empty and `.`
-- parts dropped and each `..` taking back the part before it.
use hft_bench.Prelude.Tests.{◌==◌, if◌then◌else◌}
use hft_bench.Prelude.Lists.{All}
use hft_bench.Prelude.Text.{Str, codes, str_discrete}
use mathlib.Core.Path.{◌≡◌}
use mathlib.Core.Logic.{◌≢◌, ite}
use mathlib.Core.List.{List, [], ◌∷◌, ◌++◌, append-nil, append_assoc}
use native.Mathlib.Omega.{arith}

-- The parts before the first slash and after it.
unfoldable pub parts_from : Str → Str → List Str
parts_from part [] = part ∷ []
parts_from part (c ∷ s) =
    let last = parts_from [] s in
    let grown = parts_from (part ++ c ∷ []) s in if c == b'/' then part ∷ last else grown

unfoldable pub up : List Str → List Str
up [] = []
up (last ∷ kept) = kept

-- The parts that are kept, the last one first.
unfoldable pub resolve : List Str → List Str → List Str
resolve kept [] = kept
resolve kept (part ∷ parts) =
    resolve
      (ite (str_discrete part []) kept (
        ite (str_discrete part (codes ".")) kept
          (ite (str_discrete part (codes "..")) (up kept) (part ∷ kept))))
      parts

-- The kept parts as a rooted path, from the last one.
unfoldable pub rooted : List Str → Str
rooted [] = []
rooted (part ∷ kept) = rooted kept ++ b'/' ∷ part

-- `filepath.Join(dir, name)`, for a rooted `dir`; "/" itself is "".
unfoldable pub join_path : Str → Str → Str
join_path dir name = rooted (resolve [] (parts_from [] (dir ++ b'/' ∷ name)))

abbrev pub HasNoSlash : Str → Type 0
HasNoSlash = All λ c. c ≢ b'/'

pub parts_from-plain : (part s : Str) → HasNoSlash s → parts_from part s ≡ (part ++ s) ∷ []
unfolding parts_from
parts_from-plain part [] h = rw (append-nil part)
parts_from-plain part (c ∷ s) (h, hs) =
    ground (arith, parts_from-plain (part ++ c ∷ []) s hs, append_assoc part (c ∷ []) s)

-- An ordinary part: not empty, `.` or `..`.
abbrev pub IsOrdinary : Str → Type 0
IsOrdinary s = (s ≢ []) × (s ≢ codes ".") × (s ≢ codes "..")

pub join_path-tmp :
    (name : Str)
    → HasNoSlash name
    → IsOrdinary name
    → join_path (codes "/tmp") name ≡ codes "/tmp/" ++ name
unfolding join_path parts_from resolve rooted str_discrete
join_path-tmp name plain (a, b, c) = ground (arith, parts_from-plain [] name plain)
