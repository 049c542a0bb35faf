-- ===== src/Submission/Worker/Outcome.antt =====
-- How a run of a job ends, in the table and on the host.
use hft_bench.Prelude.{
  ◌≡◌, ◌≢◌, refl, true, false, Option, none, some, ◌⊎◌, inl, inr, arith, Bool-cases, Option-cases,
}
use hft_bench.Prelude.Int.{ℤ}
use hft_bench.Prelude.Text.{Str}
use hft_bench.Prelude.Dict.{lookup, lookup-insert_self, lookup-insert_ne}
use hft_bench.Float64.{Float64}
use hft_bench.Score.{calculate_score}
use hft_bench.Submission.Jobs.{Job, Jobs, completed, failed, update_job, with_status}
use hft_bench.Submission.Worker.{
  Remote, SpawnResponse, BenchmarkRequest, BenchmarkResponse, Inputs, set_status, Measured, measure,
  polled, min_id_of, complete, benchmarked, request_for, benchmark_in, run_benchmark_sync,
}

module _ {F : Type 0} where
  pub lookup-update_job_self :
      (id : Str) (change : Job F → Job F) (jobs : Jobs F) (job : Job F)
      → lookup id jobs ≡ some job
      → lookup id (update_job id change jobs) ≡ some (change job)
  unfolding update_job
  lookup-update_job_self id change jobs job e =
      ground (arith, lookup-insert_self id (change job) jobs)

  pub lookup-update_job_ne :
      (j id : Str) (change : Job F → Job F) (jobs : Jobs F)
      → j ≢ id
      → lookup j (update_job id change jobs) ≡ lookup j jobs
  unfolding update_job
  lookup-update_job_ne j id change jobs ne = elim (Option-cases (lookup id jobs)) [
    | inl e ↦ ground arith
    | inr (job, e) ↦ ground (arith, lookup-insert_ne j id (change job) jobs ne)
  ]

module _ {F W : Type 0} (f : Float64 F) (remote : Remote W) where
  -- A job's row is final: it failed, or it is completed, with the score of its own metrics.
  abbrev pub IsFinal : Job F → Type 0
  IsFinal job =
      (job.status ≡ failed)
      ⊎ ((job.status ≡ completed)
          × ((p50 : ℤ) × (job.score ≡ calculate_score f p50 job.p99_micros job.success_rate)))

  -- From `jobs` to `jobs'` the row of `id` becomes final, and no other row changes.
  abbrev pub Finishes : Str → Jobs F → Jobs F → Type 0
  Finishes id jobs jobs' =
      ((job : Job F) × (lookup id jobs' ≡ some job) × IsFinal job)
      × ((j : Str) → j ≢ id → lookup j jobs' ≡ lookup j jobs)

  module _ (inputs : Inputs F) (id : Str) (jobs : Jobs F) (job : Job F)
      (here : lookup id jobs ≡ some job) (writes : inputs.failed_ok ≡ true)
      (stores : inputs.completed_ok ≡ true) where
    fail-Finishes : Finishes id jobs (set_status inputs.failed_ok id failed jobs)
    unfolding set_status
    fail-Finishes = rw writes (
      (
        with_status failed job,
        lookup-update_job_self id (with_status failed) jobs job here,
        inl refl,
      ),
      (λ j ne. lookup-update_job_ne j id (with_status failed) jobs ne),
    )

    complete-Finishes :
        (m : Measured f remote) → Finishes id jobs (complete f remote inputs.completed_ok id m jobs)
    unfolding complete
    complete-Finishes (p50, p99, rate) =
        let change = λ (old : Job F). record old {
          status = completed;
          score = calculate_score f p50 p99 rate;
          p99_micros = p99;
          success_rate = rate;
        } in
        rw stores (
          (change job, lookup-update_job_self id change jobs job here, inr (refl, (p50, refl))),
          (λ j ne. lookup-update_job_ne j id change jobs ne),
        )

    benchmarked-Finishes :
        (r : Option BenchmarkResponse) → Finishes id jobs (benchmarked f remote inputs id r jobs)
    unfolding benchmarked
    benchmarked-Finishes none = fail-Finishes
    benchmarked-Finishes (some response) = elim (Bool-cases response.success) [
      | inl fine ↦ simp fine (
          complete-Finishes (
            measure f remote response
              (polled f remote id (min_id_of f remote inputs.max_id) inputs.poll)))
      | inr bad ↦ rw bad fail-Finishes
    ]

    benchmark_in-Finishes :
        (s : Option SpawnResponse × W) → Finishes id jobs (benchmark_in f remote inputs id s jobs).0
    unfolding benchmark_in
    benchmark_in-Finishes (none, w) = fail-Finishes
    benchmark_in-Finishes (some response, w) = elim (Bool-cases response.success) [
      | inl fine ↦
          simp fine
            (benchmarked-Finishes (remote.start_benchmark (request_for f remote id response) w).0)
      | inr bad ↦ rw bad fail-Finishes
    ]

    -- Whatever the orchestrator, the bot fleet and the polling answer: if the job has a row and its
    -- last UPDATE succeeds, runBenchmarkSync leaves it failed, or completed with the score that
    -- calculateScore gives its metrics, and it changes no other job.
    pub run_benchmark_sync-Finishes :
        (w : W) → Finishes id jobs (run_benchmark_sync f remote inputs id jobs w).0
    unfolding run_benchmark_sync
    run_benchmark_sync-Finishes w = benchmark_in-Finishes (remote.spawn_vm id 1 256 w)

  -- What becomes of the machine that a run asks for.
  abbrev pub Releases : Option SpawnResponse × W → W → Type 0
  Releases (none, w) end = end ≡ w
  Releases (some response, w) end =
      ((response.success ≡ false) × (end ≡ w))
      ⊎ ((response.success ≡ true)
          × ((request : BenchmarkRequest) × (end
                ≡ remote.teardown_vm response.vm_id (remote.start_benchmark request w).1)))

  -- A machine that was spawned is torn down, under the id of SpawnVM's response, after the
  -- benchmark and whatever its result; if none was spawned, nothing more is asked of the host.
  pub run_benchmark_sync-Releases :
      (inputs : Inputs F) (id : Str) (jobs : Jobs F) (w : W)
      → Releases (remote.spawn_vm id 1 256 w) (run_benchmark_sync f remote inputs id jobs w).1
  unfolding run_benchmark_sync benchmark_in
  run_benchmark_sync-Releases inputs id jobs w = released (remote.spawn_vm id 1 256 w)
    where
      released :
          (s : Option SpawnResponse × W) → Releases s (benchmark_in f remote inputs id s jobs).1
      released (none, w') = refl
      released (some response, w') = elim (Bool-cases response.success) [
        | inl fine ↦ inr (fine, (request_for f remote id response, simp fine refl))
        | inr bad ↦ inl (bad, rw bad refl)
      ]
