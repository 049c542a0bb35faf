-- ===== src/Submission/Pool/Resubmission.antt =====
-- A job that is submitted again while it is run.
use hft_bench.Prelude.{ℕ, ◌≡◌, ◌≢◌, ap, true, arith}
use hft_bench.Prelude.Text.{Str}
use hft_bench.Prelude.Dict.{lookup, lookup-insert_self}
use hft_bench.Float64.{Float64}
use hft_bench.Submission.Jobs.{Jobs, enqueue_job}
use hft_bench.Submission.Worker.{Remote, is_pending}
use hft_bench.Submission.Pool.{
  idle, working, System, IsUnlocked, submit, pick, commit, Runs, here, next, Any,
}

module _ {F W : Type 0} (f : Float64 F) (remote : Remote W) where
  -- A job waits once it is submitted.
  enqueued-waits :
      (id : Str) (jobs : Jobs F) → is_pending (lookup id (enqueue_job f id jobs)) ≡ true
  unfolding enqueue_job is_pending
  enqueued-waits id jobs = ap is_pending (lookup-insert_self id _ jobs)

  -- A job that a worker runs, and whose row no transaction has locked, can be submitted again, and
  -- then another worker that is idle can pick it: both run it at once.
  pub submit-Doubles :
      (s : System F) (i j : ℕ) (id : Str)
      → s.local i ≡ working id
      → s.local j ≡ idle
      → IsUnlocked id s
      → (t : System F) × Runs f remote (Any f remote) s t
        × (t.local i ≡ working id)
        × (t.local j ≡ working id)
        × (i ≢ j)
  submit-Doubles s i j id at ready free = (
    _,
    next (next (next here (submit id free) tt) (pick j id ready (enqueued-waits id s.jobs) free) tt)
        (commit j id true (ground arith)) tt,
    ground arith,
    ground arith,
    λ e. ground arith,
  )
