-- ===== src/Score/Parts.antt =====
-- The four parts of a score and their weighted sum: signs, caps and order.
use hft_bench.Prelude.{ℕ, ◌<◌, inl, inr, arith, Bool-cases}
use hft_bench.Prelude.Int.{ℤ, pos, ◌<ℤ◌}
use hft_bench.Float64.{Float64, IsIeee, Le, nought, hundred}
use hft_bench.Score.{capped, latency_score, tps_score, stability_score}

module _ {F : Type 0} (f : Float64 F) (i : IsIeee f) where
  open f use {lit, of_int, add, mul, div, lt, eq, round}

  pub hundred_refl : Le f (hundred f) (hundred f)
  hundred_refl = inr (i.lit_number 100 0)

  pub capped-le : (x : F) → Le f (nought f) x → Le f (capped f x) (hundred f)
  unfolding capped
  capped-le x h = elim (Bool-cases (lt (hundred f) x)) [
    | inl over ↦ rw over hundred_refl
    | inr under ↦
        rw under
          (i.le_total (hundred f) x (i.lit_number 100 0) (i.eq_number (nought f) x h).1 under)
  ]

  pub capped_nonneg : (x : F) → Le f (nought f) x → Le f (nought f) (capped f x)
  unfolding capped
  capped_nonneg x h = elim (Bool-cases (lt (hundred f) x)) [
    | inl over ↦ rw over (i.lit_nonneg 100 0)
    | inr under ↦ rw under h
  ]

  -- A cap keeps the order.
  pub capped_mono : (a b : F) → Le f (nought f) a → Le f a b → Le f (capped f a) (capped f b)
  unfolding capped
  capped_mono a b h le = elim (Bool-cases (lt (hundred f) b)) [
    | inl over ↦ rw over (capped-le a h)
    | inr under ↦ elim (Bool-cases (lt (hundred f) a)) [
      | inl above ↦ rw (under, above) (i.le_trans (hundred f) a b (inl above) le)
      | inr below ↦ rw (under, below) le
    ]
  ]

  pub percent_mono : (a b : F) → Le f a b → Le f (mul a (hundred f)) (mul b (hundred f))
  percent_mono a b h =
      rw (i.mul_comm a (hundred f), i.mul_comm b (hundred f))
        (i.mul_mono 100 0 a b (omega arith) (omega arith) (omega arith) h)

  pub percent_nonneg : (a : F) → Le f (nought f) a → Le f (nought f) (mul a (hundred f))
  percent_nonneg a h =
      rw (i.mul_comm a (hundred f))
        (i.mul_nonneg 100 0 a (omega arith) (omega arith) (omega arith) h)

  -- A weight below 1000 hundredths keeps the sign and the order.
  pub weighted_nonneg :
      (n : ℕ) (a : F) → 0 < n → n < 1000 → Le f (nought f) a → Le f (nought f) (mul (lit n 2) a)
  weighted_nonneg n a p q h = i.mul_nonneg n 2 a p q (omega arith) h

  pub weighted_mono :
      (n : ℕ) (a b : F) → 0 < n → n < 1000 → Le f a b → Le f (mul (lit n 2) a) (mul (lit n 2) b)
  weighted_mono n a b p q h = i.mul_mono n 2 a b p q (omega arith) h

  module _ (a b c d a' b' c' d' : F) (ha : Le f (nought f) a) (hb : Le f (nought f) b)
      (hc : Le f (nought f) c) (hd : Le f (nought f) d) where
    abbrev pub weighted : F → F → F → F → F
    weighted x y z u =
        add (add (add (mul (lit 40 2) x) (mul (lit 30 2) y)) (mul (lit 20 2) z)) (mul (lit 10 2) u)

    pub sum_nonneg : Le f (nought f) (weighted a b c d)
    sum_nonneg =
        i.add_nonneg _ _
          (i.add_nonneg _ _
            (i.add_nonneg _ _ (weighted_nonneg 40 a (omega arith) (omega arith) ha)
              (weighted_nonneg 30 b (omega arith) (omega arith) hb))
            (weighted_nonneg 20 c (omega arith) (omega arith) hc))
          (weighted_nonneg 10 d (omega arith) (omega arith) hd)

    pub sum_mono :
        Le f a a'
        → Le f b b'
        → Le f c c'
        → Le f d d'
        → Le f (weighted a b c d) (weighted a' b' c' d')
    sum_mono la lb lc ld =
        let na = weighted_nonneg 40 a (omega arith) (omega arith) ha in
        let nb = weighted_nonneg 30 b (omega arith) (omega arith) hb in
        let nc = weighted_nonneg 20 c (omega arith) (omega arith) hc in
        let nd = weighted_nonneg 10 d (omega arith) (omega arith) hd in
        i.add_mono _ _ _ _ (i.add_nonneg _ _ (i.add_nonneg _ _ na nb) nc)
          (i.add_mono _ _ _ _ (i.add_nonneg _ _ na nb)
            (i.add_mono _ _ _ _ na (weighted_mono 40 a a' (omega arith) (omega arith) la) nb
              (weighted_mono 30 b b' (omega arith) (omega arith) lb))
            nc (weighted_mono 20 c c' (omega arith) (omega arith) lc))
          nd (weighted_mono 10 d d' (omega arith) (omega arith) ld)

module _ {F : Type 0} (f : Float64 F) (i : IsIeee f) (p50 p99 : ℤ) (h50 : pos 0 <ℤ p50)
    (h99 : pos 0 <ℤ p99) where
  pub latency_nonneg : Le f (nought f) (latency_score f p99)
  unfolding latency_score
  latency_nonneg =
      capped_nonneg f i _ (percent_nonneg f i _ (i.lit_div_nonneg 400 p99 (omega arith) h99))

  pub latency-le : Le f (latency_score f p99) (hundred f)
  unfolding latency_score
  latency-le = capped-le f i _ (percent_nonneg f i _ (i.lit_div_nonneg 400 p99 (omega arith) h99))

  pub tps_nonneg : Le f (nought f) (tps_score f p99)
  unfolding tps_score
  tps_nonneg =
      capped_nonneg f i _ (percent_nonneg f i _ (i.lit_div_nonneg 600 p99 (omega arith) h99))

  pub tps-le : Le f (tps_score f p99) (hundred f)
  unfolding tps_score
  tps-le = capped-le f i _ (percent_nonneg f i _ (i.lit_div_nonneg 600 p99 (omega arith) h99))

  pub stability_nonneg : Le f (nought f) (stability_score f p50 p99)
  unfolding stability_score
  stability_nonneg = capped_nonneg f i _ (percent_nonneg f i _ (i.int_div_nonneg p50 p99 h50 h99))

  pub stability-le : Le f (stability_score f p50 p99) (hundred f)
  unfolding stability_score
  stability-le = capped-le f i _ (percent_nonneg f i _ (i.int_div_nonneg p50 p99 h50 h99))
