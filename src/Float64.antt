-- ===== src/Float64.antt =====
-- `float64` as the source uses it: an interface, with the facts of IEEE 754 arithmetic that the
-- scores rest on. `Le a b` is `a < b || a == b`, which fails where one of them is not a number.
pub mod Fixed
use hft_bench.Prelude.{ℕ, ◌<◌, ◌≤◌, ◌≡◌, ◌⊎◌, Bool, true, false}
use hft_bench.Prelude.Int.{ℤ, pos, ◌≤ℤ◌, ◌<ℤ◌}

pub record Float64 (F : Type 0) : Type 0 where
  -- the literal n / 10 ^ k
  pub lit : ℕ → ℕ → F
  -- float64(n)
  pub of_int : ℤ → F
  pub add : F → F → F
  pub mul : F → F → F
  pub div : F → F → F
  pub lt : F → F → Bool
  pub eq : F → F → Bool
  -- math.Round, math.Pow(10, float64(k)), math.Min
  pub round : F → F
  pub pow10 : ℕ → F
  pub min : F → F → F

module _ {F : Type 0} (f : Float64 F) where
  abbrev pub Le : F → F → Type 0
  Le a b = (f.lt a b ≡ true) ⊎ (f.eq a b ≡ true)

  abbrev pub nought : F
  nought = f.lit 0 0

  abbrev pub hundred : F
  hundred = f.lit 100 0

  -- Rounded arithmetic is monotone on numbers of one sign, since it is the exact result rounded to
  -- the nearest value. Literals are those of the source, positive and below 1000.
  pub record IsIeee : Type 0 where
    pub le_trans : (a b c : F) → Le a b → Le b c → Le a c
    pub eq_number : (a b : F) → Le a b → (f.eq a a ≡ true) × (f.eq b b ≡ true)
    pub le_total : (a b : F) → f.eq a a ≡ true → f.eq b b ≡ true → f.lt a b ≡ false → Le b a
    pub lit_number : (n k : ℕ) → f.eq (f.lit n k) (f.lit n k) ≡ true
    pub lit_nonneg : (n k : ℕ) → Le nought (f.lit n k)
    pub add_mono :
        (a b c d : F) → Le nought a → Le a b → Le nought c → Le c d → Le (f.add a c) (f.add b d)
    pub add_nonneg : (a b : F) → Le nought a → Le nought b → Le nought (f.add a b)
    pub mul_mono :
        (n k : ℕ) (a b : F)
        → 0 < n
        → n < 1000
        → k ≤ 2
        → Le a b
        → Le (f.mul (f.lit n k) a) (f.mul (f.lit n k) b)
    pub mul_nonneg :
        (n k : ℕ) (a : F) → 0 < n → n < 1000 → k ≤ 2 → Le nought a → Le nought (f.mul (f.lit n k) a)
    pub mul_comm : (a b : F) → f.mul a b ≡ f.mul b a
    pub div_mono :
        (n : ℕ) (a b : F)
        → 0 < n
        → n < 1000
        → Le a b
        → Le (f.div a (f.lit n 0)) (f.div b (f.lit n 0))
    pub div_nonneg :
        (n : ℕ) (a : F) → 0 < n → n < 1000 → Le nought a → Le nought (f.div a (f.lit n 0))
    pub lit_div_anti :
        (n : ℕ) (p q : ℤ)
        → n < 1000
        → pos 0 <ℤ p
        → p ≤ℤ q
        → Le (f.div (f.lit n 0) (f.of_int q)) (f.div (f.lit n 0) (f.of_int p))
    pub int_div_anti :
        (m p q : ℤ)
        → pos 0 <ℤ m
        → pos 0 <ℤ p
        → p ≤ℤ q
        → Le (f.div (f.of_int m) (f.of_int q)) (f.div (f.of_int m) (f.of_int p))
    pub int_div_mono :
        (m n p : ℤ)
        → pos 0 <ℤ m
        → m ≤ℤ n
        → pos 0 <ℤ p
        → Le (f.div (f.of_int m) (f.of_int p)) (f.div (f.of_int n) (f.of_int p))
    pub lit_div_nonneg :
        (n : ℕ) (p : ℤ) → n < 1000 → pos 0 <ℤ p → Le nought (f.div (f.lit n 0) (f.of_int p))
    pub int_div_nonneg :
        (m p : ℤ) → pos 0 <ℤ m → pos 0 <ℤ p → Le nought (f.div (f.of_int m) (f.of_int p))
    pub round_mono : (a b : F) → Le a b → Le (f.round a) (f.round b)
    pub round_nonneg : (a : F) → Le nought a → Le nought (f.round a)
    -- 0.40 * 100 + 0.30 * 100 + 0.20 * 100 + 0.10 * 100 is 100 exactly, and Round(100 * 100) / 100 too
    pub full_marks :
        f.add
          (f.add
            (f.add (f.mul (f.lit 40 2) hundred) (f.mul (f.lit 30 2) hundred))
            (f.mul (f.lit 20 2) hundred))
          (f.mul (f.lit 10 2) hundred)
        ≡ hundred
    pub full_round : f.div (f.round (f.mul hundred hundred)) hundred ≡ hundred
    pub one_hundred : f.mul hundred (f.lit 1 0) ≡ hundred
    pub pow10_two : f.pow10 2 ≡ hundred

  -- The comparisons of IEEE 754. `eq a a` fails where `a` is not a number.
  pub record IsOrdered : Type 0 where
    pub eq_comm : (a b : F) → f.eq a b ≡ f.eq b a
    pub lt_asym : (a b : F) → f.lt a b ≡ true → f.lt b a ≡ false
    pub lt_ne : (a b : F) → f.lt a b ≡ true → f.eq a b ≡ false
    pub lt_trans : (a b c : F) → f.lt a b ≡ true → f.lt b c ≡ true → f.lt a c ≡ true
    pub lt_total :
        (a b : F)
        → f.eq a a ≡ true
        → f.eq b b ≡ true
        → f.lt a b ≡ false
        → f.eq a b ≡ false
        → f.lt b a ≡ true
    pub lt_of_eq :
        (a b c : F)
        → f.eq a b ≡ true
        → (f.lt a c ≡ f.lt b c) × (f.lt c a ≡ f.lt c b) × (f.eq a c ≡ f.eq b c)
