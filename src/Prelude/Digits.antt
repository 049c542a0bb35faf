-- ===== src/Prelude/Digits.antt =====
-- Numbers as text: what the source uses of `%d`, `%x`, `%0nx`, `strconv` and `fmt.Sscanf`.
use hft_bench.Prelude.Tests.{ltb, leb, if◌then◌else◌, Bool-cases}
use hft_bench.Prelude.Lists.{length}
use hft_bench.Prelude.Text.{Str}
use Prim.Native.Nat.{ℕ, zero, suc, ◌+◌, ◌-◌, ◌*◌, ◌/◌, ◌%◌, ◌^◌, ◌≤◌, ◌<◌}
use mathlib.Core.Path.{◌≡◌, refl, ◌∙◌, ap}
use mathlib.Core.Bool.{false, ◌&&◌}
use mathlib.Core.Logic.{inl, inr}
use mathlib.Core.Option.{Option, none, some}
use mathlib.Core.List.{[], ◌∷◌}
use native.Mathlib.Omega.{arith}
use native.Mathlib.Nat.{pow-suc, pow-zero, mod-lt, div-add-mod', div-lt_iff_lt-mul, div-lt_self}

-- A digit in lower case.
unfoldable pub digit : ℕ → ℕ
digit d = if ltb d 10 then 48 + d else 87 + d

-- The value of a digit below `base`, if the character is one.
unfoldable pub digit_value : ℕ → ℕ → Option ℕ
digit_value base c =
    if leb 48 c && leb c 57 && ltb (c - 48) base
    then some (c - 48)
    else if leb 97 c && leb c 122 && ltb (c - 87) base
    then some (c - 87)
    else none

pub digit_value-digit : (base d : ℕ) → d < base → base ≤ 16 → digit_value base (digit d) ≡ some d
unfolding digit digit_value
digit_value-digit base d h k = ground arith

-- The digits of `n`, most significant first, in front of `acc`. A round at least halves `n`.
unfoldable pub digits_from : ℕ → ℕ → ℕ → Str → Str
digits_from base zero n acc = acc
digits_from base (suc f) n acc =
    let rest = digits_from base f (n / base) (digit (n % base) ∷ acc) in
    if ltb n base then digit n ∷ acc else rest

unfoldable pub print_in : ℕ → ℕ → Str
print_in base n = digits_from base (suc n) n []

-- `%d` and `strconv.Itoa` of a number that is not negative
abbrev pub decimal : ℕ → Str
decimal = print_in 10

-- Reads digits as long as there are any.
unfoldable pub read_digits : ℕ → ℕ → Str → ℕ × Str
read_digits base n [] = (n, [])
read_digits base n (c ∷ s) = elim (digit_value base c) [
  | some d ↦ read_digits base (n * base + d) s
  | none ↦ (n, c ∷ s)
]

-- At least one digit has to be there.
unfoldable pub read_number : ℕ → Str → Option (ℕ × Str)
read_number base [] = none
read_number base (c ∷ s) = elim (digit_value base c) [
  | some d ↦ some (read_digits base 0 (c ∷ s))
  | none ↦ none
]

module _ (base : ℕ) (two : 2 ≤ base) (sixteen : base ≤ 16) where
  read_digits-digit :
      (n d : ℕ) (s : Str)
      → d < base
      → read_digits base n (digit d ∷ s) ≡ read_digits base (n * base + d) s
  unfolding read_digits
  read_digits-digit n d s h = rw (digit_value-digit base d h sixteen, read_digits)

  -- Reading takes what was printed, and goes on with the number in the place of its digits.
  read_digits-digits_from :
      (f n : ℕ) (acc : Str)
      → n < f
      → read_digits base 0 (digits_from base f n acc) ≡ read_digits base n acc
  unfolding digits_from
  read_digits-digits_from zero n acc h = elim h [ ]
  read_digits-digits_from (suc f) n acc h = elim (Bool-cases (ltb n base)) [
    | inl small ↦
        rw small (
          read_digits-digit 0 n acc (ground arith) ∙ ap (λ k. read_digits base k acc) (omega arith))
    | inr large ↦ rw large (
        read_digits-digits_from f (n / base) (digit (n % base) ∷ acc) (smaller large)
        ∙ read_digits-digit (n / base) (n % base) acc (mod-lt n (omega arith))
        ∙ ap (λ k. read_digits base k acc) (div-add-mod' n base))
  ]
    where
      smaller : ltb n base ≡ false → n / base < f
      smaller large = omega (arith, div-lt_self {n = n} {k = base} (ground arith) two)

  pub print_in-head :
      (f n : ℕ) (acc : Str)
      → n < f
      → (d : ℕ) × (s : Str) × (d < base) × (digits_from base f n acc ≡ digit d ∷ s)
  unfolding digits_from
  print_in-head zero n acc h = elim h [ ]
  print_in-head (suc f) n acc h = elim (Bool-cases (ltb n base)) [
    | inl small ↦ (n, acc, ground arith, rw small)
    | inr large ↦
        let (d, s, lt, e) =
          print_in-head f (n / base) (digit (n % base) ∷ acc)
            (omega (arith, div-lt_self {n = n} {k = base} (ground arith) two)) in
        (d, s, lt, rw large e)
  ]

  -- A printed number is read back, and what follows it is left, if that begins with no digit.
  pub read_number-print_in : (n : ℕ) → read_number base (print_in base n) ≡ some (n, [])
  unfolding read_number print_in read_digits
  read_number-print_in n =
      let (d, s, lt, e) = print_in-head (suc n) n [] (omega arith) in
      rw
        (
          e,
          read_number,
          digit_value-digit base d lt sixteen,
          ← e,
          read_digits-digits_from (suc n) n [] (omega arith),
        )
        refl

-- A number below `base ^ k` has at most `k` digits.
pub length-digits_from :
    (base k f n : ℕ) (acc : Str)
    → 2 ≤ base
    → n < base ^ suc k
    → length (digits_from base f n acc) ≤ suc k + length acc
unfolding digits_from
length-digits_from base k zero n acc two h = omega arith
length-digits_from base zero (suc f) n acc two h = elim (Bool-cases (ltb n base)) [
  | inl small ↦ rw small (omega arith)
  | inr large ↦ absurd (ground (arith, pow-suc base 0, pow-zero base))
]
length-digits_from base (suc k) (suc f) n acc two h = elim (Bool-cases (ltb n base)) [
  | inl small ↦ rw small (omega arith)
  | inr large ↦ rw large (
      omega (
        arith,
        length-digits_from base k f (n / base) (digit (n % base) ∷ acc) two
            ((div-lt_iff_lt-mul (omega arith)).1 (rw (← pow-suc base (suc k)) h)),
      ))
]
