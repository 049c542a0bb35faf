-- ===== src/Score/Order.antt =====
-- How the score moves with its inputs.
use hft_bench.Prelude.{◌≡◌, arith}
use hft_bench.Prelude.Int.{ℤ, pos, ◌≤ℤ◌, ◌<ℤ◌}
use hft_bench.Float64.{Float64, IsIeee, Le, nought, hundred}
use hft_bench.Score.{latency_score, tps_score, stability_score, composite, calculate_score}
use hft_bench.Score.Parts.{
  capped_mono, percent_mono, percent_nonneg, sum_mono, latency_nonneg, tps_nonneg, stability_nonneg,
}
use hft_bench.Score.Bounds.{rounded_mono}

module _ {F : Type 0} (f : Float64 F) (i : IsIeee f) where
  -- `p50` and `p99` against `p50'` and `p99'`, all positive
  composite_mono :
      (p50 p99 p50' p99' : ℤ) (s s' : F)
      → pos 0 <ℤ p50
      → pos 0 <ℤ p99
      → p50 ≤ℤ p50'
      → pos 0 <ℤ p99'
      → p99' ≤ℤ p99
      → Le f (nought f) s
      → Le f s s'
      → Le f (composite f p50 p99 s) (composite f p50' p99' s')
  unfolding composite latency_score tps_score stability_score
  composite_mono p50 p99 p50' p99' s s' h50 h99 up h99' down hs le =
      sum_mono f i _ _ _ _ _ _ _ _ (latency_nonneg f i p50 p99 h50 h99)
        (tps_nonneg f i p50 p99 h50 h99) (percent_nonneg f i s hs)
        (stability_nonneg f i p50 p99 h50 h99)
        (capped_mono f i _ _ (percent_nonneg f i _ (i.lit_div_nonneg 400 p99 (omega arith) h99))
          (percent_mono f i _ _ (i.lit_div_anti 400 p99' p99 (omega arith) h99' down)))
        (capped_mono f i _ _ (percent_nonneg f i _ (i.lit_div_nonneg 600 p99 (omega arith) h99))
          (percent_mono f i _ _ (i.lit_div_anti 600 p99' p99 (omega arith) h99' down)))
        (percent_mono f i s s' le)
        (capped_mono f i _ _ (percent_nonneg f i _ (i.int_div_nonneg p50 p99 h50 h99)) (
          percent_mono f i _ _ (
            i.le_trans _ _ _ (i.int_div_anti p50 p99' p99 h50 h99' down)
              (i.int_div_mono p50 p50' p99' h50 up h99'))))

  score_of_positive :
      (p50 p99 : ℤ) (s : F)
      → pos 0 <ℤ p50
      → pos 0 <ℤ p99
      → calculate_score f p50 p99 s
        ≡ f.div (f.round (f.mul (composite f p50 p99 s) (hundred f))) (hundred f)
  unfolding calculate_score
  score_of_positive p50 p99 s h50 h99 = ground arith

  -- Between two runs with positive latencies, a 99th percentile that is no higher, a success rate
  -- that is no lower and a median that is no lower give a score that is no lower. So the score
  -- never falls when the tail gets shorter or more orders succeed, nor when the median gets slower.
  pub calculate_score_mono :
      (p50 p99 p50' p99' : ℤ) (s s' : F)
      → pos 0 <ℤ p50
      → pos 0 <ℤ p99
      → p50 ≤ℤ p50'
      → pos 0 <ℤ p99'
      → p99' ≤ℤ p99
      → Le f (nought f) s
      → Le f s s'
      → Le f (calculate_score f p50 p99 s) (calculate_score f p50' p99' s')
  calculate_score_mono p50 p99 p50' p99' s s' h50 h99 up h99' down hs le =
      rw (score_of_positive p50 p99 s h50 h99, score_of_positive p50' p99' s' (omega arith) h99')
        (rounded_mono f i _ _ (composite_mono p50 p99 p50' p99' s s' h50 h99 up h99' down hs le))
