-- ===== src/Submission/Worker/Claims.antt =====
-- Which job a round of a worker touches.
use hft_bench.Prelude.{
  ◌≡◌, ◌≢◌, refl, ◌∙◌, Bool, true, false, Option, none, some, ◌⊎◌, inl, inr, arith, Bool-cases,
}
use hft_bench.Prelude.Text.{Str}
use hft_bench.Prelude.Dict.{lookup}
use hft_bench.Float64.{Float64}
use hft_bench.Submission.Jobs.{Job, Jobs, Status, pending, running, failed, with_status}
use hft_bench.Submission.Worker.Outcome.{lookup-update_job_ne}
use hft_bench.Submission.Worker.{
  Remote, SpawnResponse, BenchmarkResponse, Inputs, is_pending, pending_pick, set_status, Measured,
  complete, benchmarked, request_for, benchmark_in, run_benchmark_sync, claimed, process_next_job,
}

module _ {F W : Type 0} (f : Float64 F) (remote : Remote W) where
  abbrev pub Keeps : Str → Jobs F → Jobs F → Type 0
  Keeps id jobs jobs' = (j : Str) → j ≢ id → lookup j jobs' ≡ lookup j jobs

  pub set_status-Keeps :
      (done : Bool) (id : Str) (s : Status) (jobs : Jobs F)
      → Keeps id jobs (set_status done id s jobs)
  unfolding set_status
  set_status-Keeps true id s jobs j ne = lookup-update_job_ne j id (with_status s) jobs ne
  set_status-Keeps false id s jobs j ne = refl

  pub complete-Keeps :
      (done : Bool) (id : Str) (m : Measured f remote) (jobs : Jobs F)
      → Keeps id jobs (complete f remote done id m jobs)
  unfolding complete
  complete-Keeps true id (p50, p99, rate) jobs j ne = lookup-update_job_ne j id _ jobs ne
  complete-Keeps false id (p50, p99, rate) jobs j ne = refl

  benchmarked-Keeps :
      (inputs : Inputs F) (id : Str) (r : Option BenchmarkResponse) (jobs : Jobs F)
      → Keeps id jobs (benchmarked f remote inputs id r jobs)
  unfolding benchmarked
  benchmarked-Keeps inputs id none jobs = set_status-Keeps inputs.failed_ok id failed jobs
  benchmarked-Keeps inputs id (some response) jobs = elim (Bool-cases response.success) [
    | inl fine ↦ simp fine (complete-Keeps inputs.completed_ok id _ jobs)
    | inr bad ↦ simp bad (set_status-Keeps inputs.failed_ok id failed jobs)
  ]

  run-Keeps :
      (inputs : Inputs F) (id : Str) (jobs : Jobs F) (s : Option SpawnResponse × W)
      → Keeps id jobs (benchmark_in f remote inputs id s jobs).0
  unfolding benchmark_in
  run-Keeps inputs id jobs (none, w) = set_status-Keeps inputs.failed_ok id failed jobs
  run-Keeps inputs id jobs (some response, w) = elim (Bool-cases response.success) [
    | inl fine ↦ simp fine (
        benchmarked-Keeps inputs id (remote.start_benchmark (request_for f remote id response) w).0
          jobs)
    | inr bad ↦ simp bad (set_status-Keeps inputs.failed_ok id failed jobs)
  ]

  pub is_pending-true :
      (o : Option (Job F))
      → is_pending o ≡ true
      → (job : Job F) × (o ≡ some job) × (job.status ≡ pending)
  unfolding is_pending
  is_pending-true none h = absurd (cc)
  is_pending-true (some job) h = (job, refl, ground arith)

  -- What one round of a worker may do: nothing at all, or work on one job, which was pending and
  -- which the query picked; then no other row changes.
  abbrev pub Claims : Inputs F → Jobs F → W → Jobs F × W → Type 0
  Claims inputs jobs w out =
      (out ≡ (jobs, w))
      ⊎ ((id : Str) × (job : Job F) × (inputs.picked ≡ some id)
          × (lookup id jobs ≡ some job)
          × (job.status ≡ pending)
          × ((j : Str) → j ≢ id → lookup j out.0 ≡ lookup j jobs))

  claimed-Claims :
      (inputs : Inputs F) (jobs : Jobs F) (w : W) (id : Str) (job : Job F)
      → inputs.picked ≡ some id
      → lookup id jobs ≡ some job
      → job.status ≡ pending
      → Claims inputs jobs w (claimed f remote inputs (some id) jobs w)
  unfolding claimed run_benchmark_sync
  claimed-Claims inputs jobs w id job p e s = elim (Bool-cases inputs.running_ok) [
    | inr refused ↦ simp refused (inl refl)
    | inl marked ↦ simp marked (
        inr (
          id,
          job,
          p,
          e,
          s,
          λ j ne.
              run-Keeps inputs id (set_status inputs.commit_ok id running jobs)
                (remote.spawn_vm id 1 256 w) j ne
              ∙ set_status-Keeps inputs.commit_ok id running jobs j ne,
        ))
  ]

  picked-Claims :
      (inputs : Inputs F) (jobs : Jobs F) (w : W) (p : Option Str)
      → inputs.picked ≡ p
      → Claims inputs jobs w (claimed f remote inputs (pending_pick jobs p) jobs w)
  unfolding pending_pick claimed
  picked-Claims inputs jobs w none e = inl refl
  picked-Claims inputs jobs w (some id) e = elim (Bool-cases (is_pending (lookup id jobs))) [
    | inr other ↦ rw other (inl refl)
    | inl waits ↦
        let (job, here, status) = is_pending-true (lookup id jobs) waits in
        rw waits (claimed-Claims inputs jobs w id job e here status)
  ]

  -- A worker's round leaves the table and the host alone, or works on one pending job that the
  -- query picked, and then changes no other row.
  pub process_next_job-Claims :
      (inputs : Inputs F) (jobs : Jobs F) (w : W)
      → Claims inputs jobs w (process_next_job f remote inputs jobs w)
  unfolding process_next_job
  process_next_job-Claims inputs jobs w = elim (Bool-cases inputs.begin_ok) [
    | inr refused ↦ simp refused (inl refl)
    | inl begun ↦ simp begun (picked-Claims inputs jobs w inputs.picked refl)
  ]
