-- ===== src/Score/Bounds.antt =====
-- The range of the score, and that the two services compute the same one.
use hft_bench.Prelude.{◌≡◌, refl, ◌∙◌, inl, inr, ◌||◌, arith, Bool-cases, subst}
use hft_bench.Prelude.Int.{ℤ, pos, leb_ℤ, ◌<ℤ◌}
use hft_bench.Float64.{Float64, IsIeee, Le, nought, hundred}
use hft_bench.Score.{
  capped, latency_score, tps_score, stability_score, composite, calculate_score, round_float,
  leaderboard_latency, leaderboard_tps, leaderboard_stability, leaderboard_composite,
  leaderboard_score,
}
use hft_bench.Score.Parts.{
  percent_mono, percent_nonneg, sum_nonneg, sum_mono, latency_nonneg, latency-le, tps_nonneg,
  tps-le, stability_nonneg, stability-le,
}

-- The formula of the leaderboard, with its own factors, caps and weights, is the submission API's.
composite-eq-leaderboard_composite :
    {F : Type 0} (f : Float64 F) (p50 p99 : ℤ) (success_rate : F)
    → composite f p50 p99 success_rate ≡ leaderboard_composite f p50 p99 success_rate
unfolding composite capped latency_score tps_score stability_score leaderboard_composite
    leaderboard_latency leaderboard_tps leaderboard_stability
composite-eq-leaderboard_composite f p50 p99 s = refl

-- The submission API and the leaderboard, each by its own formula, give the same score to the same
-- metrics, if math.Pow(10, 2) is 100.
pub calculate_score-eq-leaderboard_score :
    {F : Type 0} (f : Float64 F)
    → f.pow10 2 ≡ f.lit 100 0
    → (p50 p99 : ℤ) (success_rate : F)
    → calculate_score f p50 p99 success_rate ≡ leaderboard_score f p50 p99 success_rate
unfolding calculate_score leaderboard_score round_float
calculate_score-eq-leaderboard_score f ten p50 p99 s =
    ground (arith, composite-eq-leaderboard_composite f p50 p99 s)

module _ {F : Type 0} (f : Float64 F) (i : IsIeee f) where
  pub composite_nonneg :
      (p50 p99 : ℤ) (s : F)
      → pos 0 <ℤ p50
      → pos 0 <ℤ p99
      → Le f (nought f) s
      → Le f (nought f) (composite f p50 p99 s)
  unfolding composite
  composite_nonneg p50 p99 s h50 h99 hs =
      sum_nonneg f i _ _ _ _ (nought f) (nought f) (nought f) (nought f)
        (latency_nonneg f i p50 p99 h50 h99) (tps_nonneg f i p50 p99 h50 h99)
        (percent_nonneg f i s hs) (stability_nonneg f i p50 p99 h50 h99)

  composite-le :
      (p50 p99 : ℤ) (s : F)
      → pos 0 <ℤ p50
      → pos 0 <ℤ p99
      → Le f (nought f) s
      → Le f s (f.lit 1 0)
      → Le f (composite f p50 p99 s) (hundred f)
  unfolding composite
  composite-le p50 p99 s h50 h99 hs one = subst (Le f (composite f p50 p99 s)) i.full_marks (
      sum_mono f i _ _ _ _ (hundred f) (hundred f) (hundred f) (hundred f)
        (latency_nonneg f i p50 p99 h50 h99) (tps_nonneg f i p50 p99 h50 h99)
        (percent_nonneg f i s hs) (stability_nonneg f i p50 p99 h50 h99)
        (latency-le f i p50 p99 h50 h99) (tps-le f i p50 p99 h50 h99)
        (subst (Le f (f.mul s (hundred f))) (i.mul_comm (f.lit 1 0) (hundred f) ∙ i.one_hundred)
          (percent_mono f i s (f.lit 1 0) one))
        (stability-le f i p50 p99 h50 h99))

  -- Rounding to two places keeps the sign and the order.
  pub rounded_mono :
      (a b : F)
      → Le f a b
      → Le f
          (f.div (f.round (f.mul a (hundred f))) (hundred f))
          (f.div (f.round (f.mul b (hundred f))) (hundred f))
  rounded_mono a b h =
      i.div_mono 100 _ _ (omega arith) (omega arith) (i.round_mono _ _ (percent_mono f i a b h))

  rounded_nonneg :
      (a : F)
      → Le f (nought f) a
      → Le f (nought f) (f.div (f.round (f.mul a (hundred f))) (hundred f))
  rounded_nonneg a h =
      i.div_nonneg 100 _ (omega arith) (omega arith) (i.round_nonneg _ (percent_nonneg f i a h))

  -- For a success rate from 0 to 1 the score lies between 0 and 100, whatever the latencies.
  pub calculate_score_bounds :
      (p50 p99 : ℤ) (s : F)
      → Le f (nought f) s
      → Le f s (f.lit 1 0)
      → Le f (nought f) (calculate_score f p50 p99 s)
        × Le f (calculate_score f p50 p99 s) (hundred f)
  unfolding calculate_score
  calculate_score_bounds p50 p99 s hs one =
      elim (Bool-cases (leb_ℤ p99 (pos 0) || leb_ℤ p50 (pos 0))) [
        | inl invalid ↦ rw invalid (i.lit_nonneg 0 0, i.lit_nonneg 100 0)
        | inr valid ↦
            let h50 : pos 0 <ℤ p50 = ground arith in
            let h99 : pos 0 <ℤ p99 = ground arith in
            rw valid (
              rounded_nonneg _ (composite_nonneg p50 p99 s h50 h99 hs),
              subst (Le f (f.div (f.round (f.mul (composite f p50 p99 s) (hundred f))) (hundred f)))
                  i.full_round (rounded_mono _ _ (composite-le p50 p99 s h50 h99 hs one)),
            )
      ]
