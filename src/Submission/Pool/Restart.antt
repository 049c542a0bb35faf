-- ===== src/Submission/Pool/Restart.antt =====
-- What becomes of a job whose run the end of the process has cut off: nothing waits for the
-- workers when main returns, and nothing looks for rows that say RUNNING when it starts again.
use hft_bench.Prelude.{ℕ, ◌≡◌, ◌≢◌, refl, sym, ◌∙◌, ap, some, arith}
use hft_bench.Prelude.Text.{Str}
use hft_bench.Prelude.Dict.{lookup, lookup-insert_ne}
use hft_bench.Float64.{Float64}
use hft_bench.Submission.Jobs.{Jobs, running, failed, enqueue_job}
use hft_bench.Submission.Worker.{Remote, is_pending}
use hft_bench.Submission.Worker.Claims.{set_status-Keeps, complete-Keeps}
use hft_bench.Submission.Pool.{
  working, System, Step, submit, pick, roll_back, commit, give_up, finish, Runs, here, next, start,
  IsNoSubmit, IsOrderly,
}
use hft_bench.Submission.Pool.Exclusive.{
  Runs-Inv, IsRunning, IsRunning-not_pending, IsRunning-same, true-ne-false, job_of,
}

module _ {F W : Type 0} (f : Float64 F) (remote : Remote W) where
  -- The row of the job is as in `jobs`, and no worker is at the job.
  abbrev pub IsStranded : Str → Jobs F → System F → Type 0
  IsStranded id jobs s =
      (lookup id s.jobs ≡ lookup id jobs) × ((i : ℕ) → job_of (s.local i) ≢ some id)

  module _ (id : Str) (jobs : Jobs F) (marked : IsRunning id jobs) where
    not_mine :
        (s : System F)
        → IsStranded id jobs s
        → (i : ℕ) (k : Str) → job_of (s.local i) ≡ some k
        → id ≢ k
    not_mine s (row, away) i k at e = away i (at ∙ ap some (sym e))

    step-IsStranded :
        {s t : System F} (st : Step f remote s t)
        → IsNoSubmit f remote id s t st
        → IsStranded id jobs s
        → IsStranded id jobs t
    unfolding enqueue_job
    step-IsStranded {s} (submit k free) other (row, away) =
        (lookup-insert_ne id k _ s.jobs (λ e. other (sym e)) ∙ row, away)
    step-IsStranded {s} (pick i k at p free) _ (row, away) =
        (row, λ j e. ground (arith, away j, ne))
      where
        ne : k ≢ id
        ne e = true-ne-false (
            sym p
            ∙ ap (λ x. is_pending (lookup x s.jobs)) e
            ∙ IsRunning-not_pending id s.jobs (IsRunning-same id jobs s.jobs row marked))
    step-IsStranded {s} (roll_back i k at) _ (row, away) = (row, λ j e. ground (arith, away j))
    step-IsStranded {s} (commit i k done at) _ v = (
      set_status-Keeps f remote done k running s.jobs id (not_mine s v i k (ap job_of at)) ∙ v.0,
      λ j e. ground (arith, v.1 j, not_mine s v i k (ap job_of at)),
    )
    step-IsStranded {s} (give_up i k done at free) _ v = (
      set_status-Keeps f remote done k failed s.jobs id (not_mine s v i k (ap job_of at)) ∙ v.0,
      λ j e. ground (arith, v.1 j),
    )
    step-IsStranded {s} (finish i k done m at free) _ v = (
      complete-Keeps f remote done k m s.jobs id (not_mine s v i k (ap job_of at)) ∙ v.0,
      λ j e. ground (arith, v.1 j),
    )

  start-IsStranded :
      (id : Str) (jobs : Jobs F) (s : System F)
      → IsRunning id jobs
      → Runs f remote (IsNoSubmit f remote id) (start jobs) s
      → IsStranded id jobs s
  start-IsStranded id jobs _ marked here = (refl, λ i e. absurd (cc))
  start-IsStranded id jobs _ marked (next r st other) =
      step-IsStranded id jobs marked st other (start-IsStranded id jobs _ marked r)

  -- If the process ends while a worker runs a job, and starts again on the table as it is then: the
  -- job's row says RUNNING, and no worker is ever at the job, however the workers and the
  -- submissions interleave, until the job is submitted again. This is for a first life in which no
  -- job is submitted again while it is run and no Commit fails.
  pub restart-Strands :
      (jobs : Jobs F) (s t : System F) (i : ℕ) (id : Str)
      → Runs f remote (IsOrderly f remote) (start jobs) s
      → s.local i ≡ working id
      → Runs f remote (IsNoSubmit f remote id) (start s.jobs) t
      → IsRunning id t.jobs × ((j : ℕ) → job_of (t.local j) ≢ some id)
  restart-Strands jobs s t i id life at again =
      let marked = (Runs-Inv f remote jobs s life).marked i id at in
      let (row, away) = start-IsStranded id s.jobs t marked again in
      (IsRunning-same id s.jobs t.jobs row marked, away)
