-- ===== src/Examples/Pools.antt =====
-- Two workers and a table of two jobs.
use hft_bench.Prelude.{some, ◌≢◌, ℕ, ◌≡◌, refl, true, arith, update}
use hft_bench.Prelude.Text.{Str, codes, str_discrete}
use hft_bench.Prelude.Dict.{lookup, insert}
use hft_bench.Float64.Fixed.{fixed}
use hft_bench.Submission.Jobs.{running, update_job}
use hft_bench.Submission.Worker.{is_pending, set_status, process_next_job}
use hft_bench.Submission.Pool.{
  picked, working, System, IsUnlocked, start, pick, commit, Runs, here, next, IsOrderly, IsNoSubmit,
  Any,
}
use hft_bench.Submission.Pool.Exclusive.{Inv, IsRunning, job_of, Runs-Inv}
use hft_bench.Submission.Pool.Restart.{restart-Strands}
use hft_bench.Submission.Pool.Alone.{Returns, process_next_job-Returns}
use hft_bench.Submission.Pool.Resubmission.{submit-Doubles}
use hft_bench.Examples.Submissions.{remote, inputs, jobs}

abbrev a : Str
a = codes "a"

abbrev b : Str
b = codes "b"

abbrev first_picked : System ℕ
first_picked = record (start jobs) { local = update (start jobs).local 0 (picked a) }

abbrev first_works : System ℕ
first_works = record {
  jobs = set_status true a running jobs;
  local = update first_picked.local 0 (working a);
}

abbrev second_picked : System ℕ
second_picked = record first_works { local = update first_works.local 1 (picked b) }

abbrev both_work : System ℕ
both_work = record {
  jobs = set_status true b running first_works.jobs;
  local = update second_picked.local 1 (working b);
}

a_waits : is_pending (lookup a jobs) ≡ true
unfolding lookup is_pending str_discrete
a_waits = refl

b_waits : is_pending (lookup b first_works.jobs) ≡ true
unfolding lookup is_pending str_discrete set_status update_job insert
b_waits = refl

b-IsUnlocked : IsUnlocked b first_works
b-IsUnlocked i = ground arith

first_run : Runs fixed remote (IsOrderly fixed remote) (start jobs) first_works
first_run = next (next here (pick 0 a refl a_waits (λ i. cc)) tt) (commit 0 a true refl) refl

both_run : Runs fixed remote (IsOrderly fixed remote) (start jobs) both_work
both_run = next (next first_run (pick 1 b refl b_waits b-IsUnlocked) tt) (commit 1 b true refl) refl

Runs-Inv_example : Inv both_work
Runs-Inv_example = Runs-Inv fixed remote jobs both_work both_run

process_next_job-Returns_example :
    Returns fixed remote 0 true (start jobs) (process_next_job fixed remote inputs jobs 0).0
process_next_job-Returns_example =
    process_next_job-Returns fixed remote 0 inputs (start jobs) 0 refl (λ id e i. cc)

submit-Doubles_example :
    (t : System ℕ) × Runs fixed remote (Any fixed remote) first_works t
    × (t.local 0 ≡ working a)
    × (t.local 1 ≡ working a)
    × (Path ℕ 0 1 → ⊥)
submit-Doubles_example = submit-Doubles fixed remote first_works 0 1 a refl refl (λ i. ground arith)

abbrev restarted : System ℕ
restarted = record (start first_works.jobs) {
  local = update (start first_works.jobs).local 0 (picked b);
}

second_life : Runs fixed remote (IsNoSubmit fixed remote a) (start first_works.jobs) restarted
second_life = next here (pick 0 b refl b_waits (λ i. cc)) tt

restart-Strands_example :
    IsRunning a restarted.jobs × ((j : ℕ) → job_of (restarted.local j) ≢ some a)
restart-Strands_example =
    restart-Strands fixed remote jobs first_works restarted 0 a first_run refl second_life
