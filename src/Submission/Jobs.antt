-- ===== src/Submission/Jobs.antt =====
-- The table benchmark_jobs, with what the SQL statements of the service do to it. `F` is `float64`.
use hft_bench.Prelude.{none, some}
use hft_bench.Prelude.Int.{ℤ, pos}
use hft_bench.Prelude.Text.{Str}
use hft_bench.Prelude.Dict.{Dict, lookup, insert}
use hft_bench.Float64.{Float64}

pub data Status : Type 0 where
  pending running completed failed : Status

pub record Job (F : Type 0) : Type 0 where
  pub status : Status
  pub score : F
  pub p99_micros : ℤ
  pub success_rate : F

abbrev pub Jobs : Type 0 → Type 0
Jobs F = Dict (Job F)

module _ {F : Type 0} where
  -- UPDATE benchmark_jobs SET … WHERE submission_id = id: nothing, if there is no such row.
  unfoldable pub update_job : Str → (Job F → Job F) → Jobs F → Jobs F
  update_job id change jobs = elim (lookup id jobs) [
    | none ↦ jobs
    | some job ↦ insert id (change job) jobs
  ]

  -- SET status = …
  abbrev pub with_status : Status → Job F → Job F
  with_status s job = record job { status = s }

  -- INSERT … ON CONFLICT (submission_id) DO UPDATE: either way the row starts anew.
  unfoldable pub enqueue_job : Float64 F → Str → Jobs F → Jobs F
  enqueue_job f id jobs =
      insert id
        (record {
          status = pending;
          score = f.lit 0 0;
          p99_micros = pos 0;
          success_rate = f.lit 0 0;
        })
        jobs
