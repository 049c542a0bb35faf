-- ===== src/Float64/Fixed.antt =====
-- A number type that meets `IsIeee`: natural numbers of millionths, with rounding down in products
-- and quotients. It shows that the facts assumed of `float64` can hold together.
use native.Mathlib.Nat.{
  mul_comm, mul-le-mul_left, div-lt_iff_lt-mul, div-add-mod', mod-lt, div-zero, suc-le-suc_iff,
}
use Prim.Native.Nat.{min}
use hft_bench.Prelude.{◌≡◌, ℕ, zero, suc, ◌+◌, ◌*◌, ◌/◌, ◌^◌, ◌<◌, ◌≤◌, refl, ap, arith, ltb, ◌==◌}
use hft_bench.Prelude.Int.{ℤ, pos, negsuc, pos_part, ◌≤ℤ◌}
use hft_bench.Float64.{Float64, IsIeee, IsOrdered, Le, nought}

abbrev pub scale : ℕ
scale = 1000000

abbrev pub fixed : Float64 ℕ
fixed = record {
  lit = λ n k. n * scale / 10 ^ k;
  of_int = λ z. pos_part z * scale;
  add = λ a b. a + b;
  mul = λ a b. a * b / scale;
  div = λ a b. a * scale / b;
  lt = ltb;
  eq = ◌==◌;
  round = λ a. (a + 500000) / scale * scale;
  pow10 = λ k. 10 ^ k * scale;
  min = min;
}

of_le : (a b : ℕ) → a ≤ b → Le fixed a b
of_le a b h = ground arith

to_le : (a b : ℕ) → Le fixed a b → a ≤ b
to_le a b h = ground arith

nonneg : (a : ℕ) → Le fixed (nought fixed) a
nonneg a = of_le 0 a (omega arith)

mul_mono : (c a b : ℕ) → a ≤ b → c * a / scale ≤ c * b / scale
mul_mono c a b h = omega (arith, mul-le-mul_left c h)

below_next : (a c : ℕ) → 0 < c → a < suc (a / c) * c
below_next a c h = omega (arith, div-add-mod' a c, mod-lt a h)

div_mono : (a b c : ℕ) → a ≤ b → a / c ≤ b / c
div_mono a b zero h = rw (div-zero a) (omega arith)
div_mono a b (suc c) h =
    suc-le-suc_iff.0
      ((div-lt_iff_lt-mul (omega arith)).1 (omega (arith, below_next b (suc c) (omega arith))))

div_anti : (a c d : ℕ) → 0 < c → c ≤ d → a / d ≤ a / c
div_anti a c d h g = suc-le-suc_iff.0 (
    (div-lt_iff_lt-mul (omega arith)).1
      (omega (arith, below_next a c h, mul-le-mul_left (suc (a / c)) g)))

pos_part_mono : (p q : ℤ) → p ≤ℤ q → pos_part p ≤ pos_part q
pos_part_mono (pos m) q h = omega arith
pos_part_mono (negsuc m) q h = omega arith

pub fixed-IsIeee : IsIeee fixed
fixed-IsIeee = record {
  le_trans = λ a b c h g. of_le a c (omega (arith, to_le a b h, to_le b c g));
  eq_number = λ a b h. (ground arith, ground arith);
  le_total = λ a b h g k. ground arith;
  lit_number = λ n k. ground arith;
  lit_nonneg = λ n k. nonneg _;
  add_mono = λ a b c d p h q g. of_le (a + c) (b + d) (omega (arith, to_le a b h, to_le c d g));
  add_nonneg = λ a b p q. nonneg _;
  mul_mono = λ n k a b p q r h. of_le _ _ (mul_mono _ a b (to_le a b h));
  mul_nonneg = λ n k a p q r h. nonneg _;
  mul_comm = λ a b. ap (λ x. x / scale) (mul_comm a b);
  div_mono = λ n a b p q h. of_le _ _ (div_mono _ _ _ (omega (arith, to_le a b h)));
  div_nonneg = λ n a p q h. nonneg _;
  lit_div_anti =
      λ n p q b h g. of_le _ _ (div_anti _ _ _ (omega arith) (omega (arith, pos_part_mono p q g)));
  int_div_anti =
      λ m p q o h g. of_le _ _ (div_anti _ _ _ (omega arith) (omega (arith, pos_part_mono p q g)));
  int_div_mono = λ m n p o h g. of_le _ _ (div_mono _ _ _ (omega (arith, pos_part_mono m n h)));
  lit_div_nonneg = λ n p b h. nonneg _;
  int_div_nonneg = λ m p o h. nonneg _;
  round_mono = λ a b h. of_le _ _ (omega (arith, to_le a b h));
  round_nonneg = λ a h. nonneg _;
  full_marks = refl;
  full_round = refl;
  one_hundred = refl;
  pow10_two = refl;
}

pub fixed-IsOrdered : IsOrdered fixed
fixed-IsOrdered = record {
  eq_comm = λ a b. ground arith;
  lt_asym = λ a b h. ground arith;
  lt_ne = λ a b h. ground arith;
  lt_trans = λ a b c h g. ground arith;
  lt_total = λ a b h g lt ne. ground arith;
  lt_of_eq =
      λ a b c e. let same : a ≡ b = ground arith in (ground arith, ground arith, ground arith);
}
