-- ===== src/Submission/Pool/Alone.antt =====
-- processNextJob as a run of its worker among the others.
use hft_bench.Prelude.{
  ℕ, ◌≡◌, refl, sym, Bool, true, Option, none, some, ◌⊎◌, inl, inr, arith, update, Bool-cases,
}
use hft_bench.Prelude.Text.{Str}
use hft_bench.Prelude.Dict.{lookup}
use hft_bench.Float64.{Float64}
use hft_bench.Submission.Jobs.{Jobs, running, failed}
use hft_bench.Submission.Worker.{
  Remote, SpawnResponse, BenchmarkResponse, Inputs, is_pending, pending_pick, set_status, Measured,
  complete, benchmarked, benchmark_in, request_for, run_benchmark_sync, claimed, process_next_job,
}
use hft_bench.Submission.Pool.{
  idle, picked, working, System, IsUnlocked, pick, roll_back, commit, give_up, finish, Runs, here,
  next, IsTurn,
}

module _ {F W : Type 0} (f : Float64 F) (remote : Remote W) where
  -- The statement that runBenchmarkSync ends with.
  abbrev Ends : Inputs F → Str → Jobs F → Jobs F → Type 0
  Ends inputs id jobs jobs' =
      (jobs' ≡ set_status inputs.failed_ok id failed jobs)
      ⊎ ((m : Measured f remote) × (jobs' ≡ complete f remote inputs.completed_ok id m jobs))

  benchmarked-Ends :
      (inputs : Inputs F) (id : Str) (r : Option BenchmarkResponse) (jobs : Jobs F)
      → Ends inputs id jobs (benchmarked f remote inputs id r jobs)
  unfolding benchmarked
  benchmarked-Ends inputs id none jobs = inl refl
  benchmarked-Ends inputs id (some response) jobs = elim (Bool-cases response.success) [
    | inl fine ↦ rw fine (inr (_, refl))
    | inr bad ↦ rw bad (inl refl)
  ]

  benchmark_in-Ends :
      (inputs : Inputs F) (id : Str) (jobs : Jobs F) (s : Option SpawnResponse × W)
      → Ends inputs id jobs (benchmark_in f remote inputs id s jobs).0
  unfolding benchmark_in
  benchmark_in-Ends inputs id jobs (none, w) = inl refl
  benchmark_in-Ends inputs id jobs (some response, w) = elim (Bool-cases response.success) [
    | inl fine ↦ rw fine (
        benchmarked-Ends inputs id (remote.start_benchmark (request_for f remote id response) w).0
          jobs)
    | inr bad ↦ rw bad (inl refl)
  ]

  -- A run of worker `i` alone that leads from `s` to the table `jobs`, and the worker back.
  abbrev pub Returns : ℕ → Bool → System F → Jobs F → Type 0
  Returns i done s jobs =
      (t : System F) × Runs f remote (IsTurn f remote i done) s t
      × (t.jobs ≡ jobs)
      × ((j : ℕ) → t.local j ≡ s.local j)

  module _ (i : ℕ) (inputs : Inputs F) (s : System F) (w : W) (ready : s.local i ≡ idle) where
    rests : Returns i inputs.commit_ok s s.jobs
    rests = (s, here, refl, λ j. refl)

    module _ (id : Str) (waits : is_pending (lookup id s.jobs) ≡ true)
        (free : IsUnlocked id s) where
      abbrev s1 : System F
      s1 = record s { local = update s.local i (picked id) }

      picks : Runs f remote (IsTurn f remote i inputs.commit_ok) s s1
      picks = next here (pick i id ready waits free) refl

      gives_way : Returns i inputs.commit_ok s s.jobs
      gives_way = (_, next picks (roll_back i id (ground arith)) refl, refl, λ j. ground arith)

      abbrev s2 : System F
      s2 = record {
        jobs = set_status inputs.commit_ok id running s.jobs;
        local = update s1.local i (working id);
      }

      claims : Runs f remote (IsTurn f remote i inputs.commit_ok) s s2
      claims = next picks (commit i id inputs.commit_ok (ground arith)) (refl, refl)

      unlocked : IsUnlocked id s2
      unlocked j = ground (arith, free j)

      ends : (jobs : Jobs F) → Ends inputs id s2.jobs jobs → Returns i inputs.commit_ok s jobs
      ends jobs (inl e) = (
        _,
        next claims (give_up i id inputs.failed_ok (ground arith) unlocked) refl,
        sym e,
        λ j. ground arith,
      )
      ends jobs (inr (m, e)) = (
        _,
        next claims (finish i id inputs.completed_ok m (ground arith) unlocked) refl,
        sym e,
        λ j. ground arith,
      )

      claimed-Returns : Returns i inputs.commit_ok s (claimed f remote inputs (some id) s.jobs w).0
      unfolding claimed run_benchmark_sync
      claimed-Returns = elim (Bool-cases inputs.running_ok) [
        | inr refused ↦ rw refused gives_way
        | inl marked ↦
            rw marked (ends _ (benchmark_in-Ends inputs id s2.jobs (remote.spawn_vm id 1 256 w)))
      ]

    picked-Returns :
        (p : Option Str)
        → ((id : Str) → p ≡ some id → IsUnlocked id s)
        → Returns i inputs.commit_ok s (claimed f remote inputs (pending_pick s.jobs p) s.jobs w).0
    unfolding pending_pick claimed
    picked-Returns none free = rests
    picked-Returns (some id) free = elim (Bool-cases (is_pending (lookup id s.jobs))) [
      | inr other ↦ rw other rests
      | inl waits ↦ rw waits (claimed-Returns id waits (free id refl))
    ]

  -- A round of a worker that is idle, whose query picks no row that another transaction has
  -- locked, leaves the table as a run of this worker's steps in the pool does, and the worker is
  -- idle again after it, whatever fails. None of these steps submits a job, and the Commit of the
  -- run, if there is one, ends as that of the round.
  pub process_next_job-Returns :
      (i : ℕ) (inputs : Inputs F) (s : System F) (w : W)
      → s.local i ≡ idle
      → ((id : Str) → inputs.picked ≡ some id → IsUnlocked id s)
      → Returns i inputs.commit_ok s (process_next_job f remote inputs s.jobs w).0
  unfolding process_next_job
  process_next_job-Returns i inputs s w ready free = elim (Bool-cases inputs.begin_ok) [
    | inr refused ↦ simp refused (rests i inputs s w ready)
    | inl begun ↦ simp begun (picked-Returns i inputs s w ready inputs.picked free)
  ]
