-- ===== src/Orchestrator/Hardening/Cores.antt =====
-- Which entry of FC_VCPU_CORES an index leads to (pinFirecrackerProcess of firecracker.go).
use hft_bench.Prelude.{
  ℕ, zero, suc, ◌+◌, ◌*◌, ◌/◌, ◌%◌, ◌^◌, ◌<◌, ◌≤◌, ◌≡◌, ◌≢◌, refl, ap, ◌∙◌, false, some, List, [],
  ◌∷◌, ◌==◌, arith, length, Bool-cases, leb, leb→le, inl, inr,
}
use hft_bench.Prelude.Text.{Str, trim_space}
use mathlib.Core.Option
use native.Mathlib.Nat.{mod-lt, div-add-mod', mul-le-mul_right}
use hft_bench.Orchestrator.Hardening.{split_comma, entry, advance, index_before, modulo, pick_cores}

index_before-advance : (i : ℕ) → i < 2 ^ 32 → index_before (advance i) ≡ i
index_before-advance i h = omega arith

pub split_comma-nonempty : (s : Str) → 0 < length (split_comma s)
unfolding split_comma
split_comma-nonempty [] = omega arith
split_comma-nonempty (c ∷ s) = elim (Bool-cases (c == 44)) [
  | inl e ↦ rw e (omega arith)
  | inr e ↦ rw e (more (split_comma s))
]
  where
    more :
        (parts : List Str)
        → 0
          < length (elim parts as (λ _. List Str) [
            | [] ↦ (c ∷ []) ∷ []
            | part ∷ rest ↦ (c ∷ part) ∷ rest
          ])
    more [] = omega arith
    more (part ∷ rest) = omega arith

entry-some : (xs : List Str) (n : ℕ) → n < length xs → (x : Str) × (entry xs n ≡ some x)
unfolding entry
entry-some [] n h = absurd (omega (arith, h))
entry-some (x ∷ xs) zero h = (x, refl)
entry-some (x ∷ xs) (suc n) h = entry-some xs n (omega (arith, h))

-- Numbers less than `l` apart have different remainders.
pub mod-ne : (l i j : ℕ) → 0 < l → i < j → j < i + l → i % l ≢ j % l
mod-ne l i j positive lt near e = elim (Bool-cases (leb (j / l) (i / l))) [
  | inl h ↦ absurd (
      omega (
        arith,
        e,
        div-add-mod' i l,
        div-add-mod' j l,
        mul-le-mul_right l (leb→le (j / l) (i / l) h),
      ))
  | inr h ↦
      absurd (
        omega (arith, e, div-add-mod' i l, div-add-mod' j l, mul-le-mul_right l (above h), suc-mul))
]
  where
    above : leb (j / l) (i / l) ≡ false → i / l + 1 ≤ j / l
    above h = ground arith

    suc-mul : (i / l + 1) * l ≡ i / l * l + l
    suc-mul = omega arith

modulo-mod : (n m : ℕ) → 0 < m → modulo n m ≡ n % m
unfolding modulo
modulo-mod n zero h = absurd (omega (arith, h))
modulo-mod n (suc m) h = refl

pub pick_cores-entry :
    (cores : Str) (i : ℕ)
    → i < 2 ^ 32
    → length (split_comma cores) < 2 ^ 32
    → (part : Str) × (entry (split_comma cores) (i % length (split_comma cores)) ≡ some part)
      × (pick_cores cores (advance i) ≡ some (trim_space part))
unfolding pick_cores
pick_cores-entry cores i small few =
    let l = length (split_comma cores) in
    let (part, e) =
      entry-some (split_comma cores) (i % l) (mod-lt i (split_comma-nonempty cores)) in
    let position : modulo (index_before (advance i)) (l % 2 ^ 32) ≡ i % l =
      ap (λ n. modulo n (l % 2 ^ 32)) (index_before-advance i small)
      ∙ ap (modulo i) (omega (arith, few))
      ∙ modulo-mod i l (split_comma-nonempty cores) in
    (part, e, ap (Option.map trim_space) (ap (entry (split_comma cores)) position ∙ e))
