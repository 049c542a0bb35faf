-- ===== src/Score.antt =====
-- calculateScore of services/submission-api/main.go and of services/leaderboard/main.go, and
-- roundFloat of the latter.
pub mod Parts
pub mod Bounds
pub mod Order
use hft_bench.Prelude.{ℕ, Bool, true, false, ◌||◌, if◌then◌else◌}
use hft_bench.Prelude.Int.{ℤ, pos, leb_ℤ}
use hft_bench.Float64.{Float64}

module _ {F : Type 0} (f : Float64 F) where
  open f use {lit, of_int, add, mul, div, lt, round, pow10}

  -- `if x > 100.0 { x = 100.0 }`
  unfoldable pub capped : F → F
  capped x = if lt (lit 100 0) x then (lit 100 0) else x

  unfoldable pub latency_score : ℤ → F
  latency_score p99 = capped (mul (div (lit 400 0) (of_int p99)) (lit 100 0))

  unfoldable pub tps_score : ℤ → F
  tps_score p99 = capped (mul (div (lit 600 0) (of_int p99)) (lit 100 0))

  unfoldable pub stability_score : ℤ → ℤ → F
  stability_score p50 p99 = capped (mul (div (of_int p50) (of_int p99)) (lit 100 0))

  -- The composite score before it is rounded: 40% latency, 30% TPS, 20% correctness, 10% stability
  unfoldable pub composite : ℤ → ℤ → F → F
  composite p50 p99 success_rate =
      add
        (add (add (mul (lit 40 2) (latency_score p99)) (mul (lit 30 2) (tps_score p99)))
          (mul (lit 20 2) (mul success_rate (lit 100 0))))
        (mul (lit 10 2) (stability_score p50 p99))

  -- calculateScore of the submission API
  unfoldable pub calculate_score : ℤ → ℤ → F → F
  calculate_score p50 p99 success_rate =
      if leb_ℤ p99 (pos 0) || leb_ℤ p50 (pos 0)
      then lit 0 0
      else div (round (mul (composite p50 p99 success_rate) (lit 100 0))) (lit 100 0)

  -- roundFloat of the leaderboard
  unfoldable pub round_float : F → ℕ → F
  round_float value precision = let ratio = pow10 precision in div (round (mul value ratio)) ratio

  -- The parts of the leaderboard's own calculateScore: LatencyScore, TPSScore and StabilityScore
  unfoldable pub leaderboard_latency : ℤ → F
  leaderboard_latency p99 =
      let latency = mul (div (lit 400 0) (of_int p99)) (lit 100 0) in
      if lt (lit 100 0) latency then lit 100 0 else latency

  unfoldable pub leaderboard_tps : ℤ → F
  leaderboard_tps p99 =
      let tps = mul (div (lit 600 0) (of_int p99)) (lit 100 0) in
      if lt (lit 100 0) tps then lit 100 0 else tps

  unfoldable pub leaderboard_stability : ℤ → ℤ → F
  leaderboard_stability p50 p99 =
      let stability = mul (div (of_int p50) (of_int p99)) (lit 100 0) in
      if lt (lit 100 0) stability then lit 100 0 else stability

  unfoldable pub leaderboard_composite : ℤ → ℤ → F → F
  leaderboard_composite p50 p99 success_rate =
      let correctness = mul success_rate (lit 100 0) in
      let speed =
        add (mul (lit 40 2) (leaderboard_latency p99)) (mul (lit 30 2) (leaderboard_tps p99)) in
      add (add speed (mul (lit 20 2) correctness)) (mul (lit 10 2) (leaderboard_stability p50 p99))

  -- calculateScore of the leaderboard
  unfoldable pub leaderboard_score : ℤ → ℤ → F → F
  leaderboard_score p50 p99 success_rate =
      if leb_ℤ p99 (pos 0) || leb_ℤ p50 (pos 0)
      then lit 0 0
      else round_float (leaderboard_composite p50 p99 success_rate) 2
