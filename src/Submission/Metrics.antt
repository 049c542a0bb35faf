-- ===== src/Submission/Metrics.antt =====
-- The table benchmark_metrics as the queries of pollBenchmarkMetrics and runBenchmarkSync
-- (services/submission-api/main.go) read it, and the polling loop.
pub mod Polling
use hft_bench.Prelude.{
  ℕ, Bool, true, false, ◌&&◌, Option, none, some, List, [], ◌∷◌, if◌then◌else◌, ltb, ite, Result,
  ok, err,
}
use hft_bench.Prelude.Int.{ℤ}
use hft_bench.Prelude.Text.{Str, str_discrete}

pub record MetricRow (F : Type 0) : Type 0 where
  pub id : ℕ
  pub submission_id : Str
  pub p50_micros : ℤ
  pub p90_micros : ℤ
  pub p99_micros : ℤ
  pub total_orders : ℤ
  pub success_rate : F
  pub timestamp : ℤ

module _ {F : Type 0} where
  -- Whether the row is of the submission and has an id above `min_id`.
  unfoldable pub is_match : Str → ℕ → MetricRow F → Bool
  is_match submission_id min_id row =
      ite (str_discrete row.submission_id submission_id) (ltb min_id row.id) false

  newer : MetricRow F → Option (MetricRow F) → MetricRow F
  newer row none = row
  newer row (some other) = if ltb row.id other.id then other else row

  -- SELECT … WHERE submission_id = $1 AND id > $2 ORDER BY id DESC LIMIT 1
  unfoldable pub newest_after : Str → ℕ → List (MetricRow F) → Option (MetricRow F)
  unfolding newer
  newest_after submission_id min_id [] = none
  newest_after submission_id min_id (row ∷ rows) =
      let later = newest_after submission_id min_id rows in
      if is_match submission_id min_id row then some (newer row later) else later

  -- SELECT COALESCE(MAX(id), 0)
  unfoldable pub max_id : List (MetricRow F) → ℕ
  max_id [] = 0
  max_id (row ∷ rows) = let later = max_id rows in if ltb row.id later then later else row.id

-- What the `select` of the loop meets, in order: a tick comes with the table as the query reads
-- it, or with none if the query fails.
pub data PollEvent (F : Type 0) : Type 0 where
  ctx_done : PollEvent F
  timed_out : PollEvent F
  tick : Option (List (MetricRow F)) → PollEvent F

pub data PollError : Type 0 where
  cancelled polling_timeout : PollError

module _ {F : Type 0} (submission_id : Str) (min_id : ℕ) where
  queried : Option (List (MetricRow F)) → Option (MetricRow F)
  queried none = none
  queried (some rows) = newest_after submission_id min_id rows

  -- pollBenchmarkMetrics; the timer fires at the latest after the events given.
  unfoldable pub poll_benchmark_metrics : List (PollEvent F) → Result PollError (MetricRow F)
  unfolding queried
  poll_benchmark_metrics [] = err polling_timeout
  poll_benchmark_metrics (ctx_done ∷ events) = err cancelled
  poll_benchmark_metrics (timed_out ∷ events) = err polling_timeout
  poll_benchmark_metrics (tick rows ∷ events) =
      let rest = poll_benchmark_metrics events in
      elim (queried rows) [ some row ↦ ok row | none ↦ rest ]
