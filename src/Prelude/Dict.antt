-- ===== src/Prelude/Dict.antt =====
-- A Go map with string keys, as an association list. A key stands in it at most once when it is
-- built by the operations below; Go leaves the order of a `range` over it open.
use hft_bench.Prelude.Text.{Str, str_discrete}
use hft_bench.Prelude.Lists.{In}
use mathlib.Core.Path.{◌≡◌, refl, sym, ◌∙◌}
use mathlib.Core.Logic.{◌≢◌, inl, inr, ite, if_pos, if_neg}
use mathlib.Core.Option.{Option, none, some}
use mathlib.Core.List.{List, [], ◌∷◌, map}
use native.Mathlib.Omega.{arith}

abbrev pub Dict {ℓ} : Type ℓ → Type ℓ
Dict V = List (Str × V)

module _ {ℓ} {V : Type ℓ} where
  -- `v, ok := m[k]`
  unfoldable pub lookup : Str → Dict V → Option V
  unfolding str_discrete
  lookup k [] = none
  lookup k ((j, v) ∷ m) = ite (str_discrete k j) (some v) (lookup k m)

  -- `m[k] = v`
  unfoldable pub insert : Str → V → Dict V → Dict V
  unfolding str_discrete
  insert k v [] = (k, v) ∷ []
  insert k v ((j, w) ∷ m) = ite (str_discrete k j) ((k, v) ∷ m) ((j, w) ∷ insert k v m)

  -- `delete(m, k)`
  unfoldable pub delete : Str → Dict V → Dict V
  unfolding str_discrete
  delete k [] = []
  delete k ((j, w) ∷ m) = ite (str_discrete k j) (delete k m) ((j, w) ∷ delete k m)

  pub lookup-insert_self : (k : Str) (v : V) (m : Dict V) → lookup k (insert k v m) ≡ some v
  unfolding lookup insert
  lookup-insert_self k v [] = ground arith
  lookup-insert_self k v ((j, w) ∷ m) = ground (arith, lookup-insert_self k v m)

  pub lookup-insert_ne :
      (i k : Str) (v : V) (m : Dict V) → i ≢ k → lookup i (insert k v m) ≡ lookup i m
  unfolding lookup insert
  lookup-insert_ne i k v [] h = ground arith
  lookup-insert_ne i k v ((j, w) ∷ m) h = ground (arith, lookup-insert_ne i k v m h)

  pub lookup-delete_self : (k : Str) (m : Dict V) → lookup k (delete k m) ≡ none
  unfolding lookup delete
  lookup-delete_self k [] = refl
  lookup-delete_self k ((j, w) ∷ m) = ground (arith, lookup-delete_self k m)

  pub lookup-delete_ne : (i k : Str) (m : Dict V) → i ≢ k → lookup i (delete k m) ≡ lookup i m
  unfolding lookup delete
  lookup-delete_ne i k [] h = refl
  lookup-delete_ne i k ((j, w) ∷ m) h = ground (arith, lookup-delete_ne i k m h)

  pub lookup-insert :
      (i k : Str) (v : V) (m : Dict V)
      → lookup i (insert k v m) ≡ ite (str_discrete i k) (some v) (lookup i m)
  lookup-insert i k v m = elim (str_discrete i k) [
    | yes e ↦ rw (if_pos _ e, e) (lookup-insert_self k v m)
    | no ne ↦ rw (if_neg _ ne) (lookup-insert_ne i k v m ne)
  ]

  pub lookup-delete :
      (i k : Str) (m : Dict V) → lookup i (delete k m) ≡ ite (str_discrete i k) none (lookup i m)
  lookup-delete i k m = elim (str_discrete i k) [
    | yes e ↦ rw (if_pos _ e, e) (lookup-delete_self k m)
    | no ne ↦ rw (if_neg _ ne) (lookup-delete_ne i k m ne)
  ]

  -- No key stands in the map twice.
  abbrev pub IsDistinct : Dict V → Type ℓ
  IsDistinct [] = Unit
  IsDistinct ((j, w) ∷ m) = (lookup j m ≡ none) × IsDistinct m

  pub insert-IsDistinct : (k : Str) (v : V) (m : Dict V) → IsDistinct m → IsDistinct (insert k v m)
  unfolding insert lookup
  insert-IsDistinct k v [] d = (refl, tt)
  insert-IsDistinct k v ((j, w) ∷ m) (e, d) = elim (str_discrete k j) [
    | yes same ↦ rw (if_pos _ same) (rw same e, d)
    | no other ↦
        rw (if_neg _ other)
          (lookup-insert_ne j k v m (λ h. other (sym h)) ∙ e, insert-IsDistinct k v m d)
  ]

  pub delete-IsDistinct : (k : Str) (m : Dict V) → IsDistinct m → IsDistinct (delete k m)
  unfolding delete
  delete-IsDistinct k [] d = tt
  delete-IsDistinct k ((j, w) ∷ m) (e, d) = elim (str_discrete k j) [
    | yes same ↦ rw (if_pos _ same) (delete-IsDistinct k m d)
    | no other ↦
        rw (if_neg _ other)
          (lookup-delete_ne j k m (λ h. other (sym h)) ∙ e, delete-IsDistinct k m d)
  ]

-- The values of a map are those that its keys lead to.
pub values-In :
    {V : Type 0} (k : Str) (v : V) (m : Dict V) → lookup k m ≡ some v → In v (map (λ e. e.1) m)
unfolding lookup
values-In k v [] h = absurd (cc)
values-In k v ((j, w) ∷ m) h = elim (str_discrete k j) [
  | yes same ↦ inl (ground arith)
  | no other ↦ inr (values-In k v m (ground arith))
]

pub In-values :
    {V : Type 0} (v : V) (m : Dict V)
    → IsDistinct m
    → In v (map (λ e. e.1) m)
    → (k : Str) × (lookup k m ≡ some v)
unfolding lookup
In-values v [] d h = absurd h
In-values v ((j, w) ∷ m) (e, d) (inl s) = (j, ground arith)
In-values v ((j, w) ∷ m) (e, d) (inr h) = let (k, l) = In-values v m d h in (k, ground arith)
