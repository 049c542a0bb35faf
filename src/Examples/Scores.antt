-- ===== src/Examples/Scores.antt =====
-- Scores over the fixed-point numbers of Float64/Fixed.
use hft_bench.Prelude.{◌≡◌, refl, inl, arith}
use hft_bench.Prelude.Int.{pos, negsuc}
use hft_bench.Float64.{Le, nought, hundred}
use hft_bench.Float64.Fixed.{fixed, fixed-IsIeee}
use hft_bench.Score.{
  calculate_score, leaderboard_score, composite, latency_score, tps_score, stability_score, capped,
}
use hft_bench.Score.Bounds.{calculate_score_bounds, calculate_score-eq-leaderboard_score}
use hft_bench.Score.Order.{calculate_score_mono}

-- 0.4 * 50 + 0.3 * 75 + 0.2 * 100 + 0.1 * 25
slow_run : calculate_score fixed (pos 200) (pos 800) 1000000 ≡ 65000000
unfolding calculate_score composite latency_score tps_score stability_score capped
slow_run = refl

no_latency : calculate_score fixed (pos 200) (negsuc 0) 1000000 ≡ 0
unfolding calculate_score
no_latency = refl

calculate_score_bounds_example :
    Le fixed (nought fixed) (calculate_score fixed (pos 200) (pos 800) 900000)
    × Le fixed (calculate_score fixed (pos 200) (pos 800) 900000) (hundred fixed)
calculate_score_bounds_example =
    calculate_score_bounds fixed fixed-IsIeee (pos 200) (pos 800) 900000 (inl refl) (inl refl)

calculate_score_mono_example :
    Le fixed
      (calculate_score fixed (pos 100) (pos 900) 900000)
      (calculate_score fixed (pos 200) (pos 800) 1000000)
calculate_score_mono_example =
    calculate_score_mono fixed fixed-IsIeee (pos 100) (pos 900) (pos 200) (pos 800) 900000 1000000
      (omega arith) (omega arith) (omega arith) (omega arith) (omega arith) (inl refl) (inl refl)

calculate_score-eq-leaderboard_score_example :
    calculate_score fixed (pos 200) (pos 800) 900000
    ≡ leaderboard_score fixed (pos 200) (pos 800) 900000
calculate_score-eq-leaderboard_score_example =
    calculate_score-eq-leaderboard_score fixed refl (pos 200) (pos 800) 900000
