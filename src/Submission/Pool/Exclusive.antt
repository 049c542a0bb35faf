-- ===== src/Submission/Pool/Exclusive.antt =====
-- No two workers run one job.
use hft_bench.Prelude.{
  ℕ, ◌≡◌, ◌≢◌, refl, sym, ◌∙◌, ap, Bool, true, false, Option, none, some, arith, ℕ_discrete, subst,
  update,
}
use hft_bench.Prelude.Text.{Str}
use hft_bench.Prelude.Dict.{lookup, lookup-insert_ne}
use hft_bench.Float64.{Float64}
use hft_bench.Submission.Jobs.{Job, Jobs, running, failed, enqueue_job, with_status}
use hft_bench.Submission.Worker.{Remote, is_pending, set_status}
use hft_bench.Submission.Worker.Outcome.{lookup-update_job_self}
use hft_bench.Submission.Worker.Claims.{is_pending-true, set_status-Keeps, complete-Keeps}
use hft_bench.Submission.Pool.{
  Local, idle, picked, working, System, IsUnlocked, Step, submit, pick, roll_back, commit, give_up,
  finish, Runs, here, next, IsOrderly, start,
}

pub true-ne-false : true ≢ false
true-ne-false e = absurd (cc)

-- The job that a worker is at
abbrev pub job_of : Local → Option Str
job_of idle = none
job_of (picked id) = some id
job_of (working id) = some id

module _ {F : Type 0} where
  -- The row of the job says RUNNING.
  abbrev pub IsRunning : Str → Jobs F → Type 0
  IsRunning id jobs = (job : Job F) × (lookup id jobs ≡ some job) × (job.status ≡ running)

  pub IsRunning-not_pending :
      (id : Str) (jobs : Jobs F) → IsRunning id jobs → is_pending (lookup id jobs) ≡ false
  unfolding is_pending
  IsRunning-not_pending id jobs (job, e, s) = ground arith

  pub IsRunning-same :
      (id : Str) (jobs jobs' : Jobs F)
      → lookup id jobs' ≡ lookup id jobs
      → IsRunning id jobs
      → IsRunning id jobs'
  IsRunning-same id jobs jobs' e (job, there, s) = (job, e ∙ there, s)

  pub record Inv (s : System F) : Type 0 where
    pub waits : (i : ℕ) (id : Str) → s.local i ≡ picked id → is_pending (lookup id s.jobs) ≡ true
    pub marked : (i : ℕ) (id : Str) → s.local i ≡ working id → IsRunning id s.jobs
    pub own :
        (i j : ℕ) (id : Str) → job_of (s.local i) ≡ some id → job_of (s.local j) ≡ some id → i ≡ j

  -- A job that waits is no worker's.
  waits-free :
      (s : System F) (v : Inv s) (i : ℕ) (id : Str)
      → is_pending (lookup id s.jobs) ≡ true
      → s.local i ≢ working id
  waits-free s v i id p at =
      true-ne-false (sym p ∙ IsRunning-not_pending id s.jobs (v.marked i id at))

  nobody :
      (s : System F) (v : Inv s) (id : Str)
      → is_pending (lookup id s.jobs) ≡ true
      → IsUnlocked id s
      → (i : ℕ) → job_of (s.local i) ≢ some id
  nobody s v id p free i = ground (arith, free i, waits-free s v i id p)

module _ {F W : Type 0} (f : Float64 F) (remote : Remote W) where
  marks :
      (id : Str) (jobs : Jobs F) (done : Bool)
      → done ≡ true
      → is_pending (lookup id jobs) ≡ true
      → IsRunning id (set_status done id running jobs)
  unfolding set_status
  marks id jobs true ok p =
      let (job, there, st) = is_pending-true f remote (lookup id jobs) p in
      (
        with_status running job,
        lookup-update_job_self id (with_status running) jobs job there,
        refl,
      )
  marks id jobs false ok p = absurd (true-ne-false (sym ok))

  module _ (s : System F) (v : Inv s) where
    submit-Inv :
        (id : Str)
        → IsUnlocked id s
        → ((i : ℕ) → s.local i ≢ working id)
        → Inv (record s { jobs = enqueue_job f id s.jobs })
    unfolding enqueue_job is_pending
    submit-Inv id free unworked = record {
      waits = λ i j at.
          ap is_pending (lookup-insert_ne j id _ s.jobs (λ e. free i (at ∙ ap picked e)))
          ∙ v.waits i j at;
      marked = λ i j at.
          let (job, there, st) = v.marked i j at in
          (job, lookup-insert_ne j id _ s.jobs (λ e. unworked i (at ∙ ap working e)) ∙ there, st);
      own = v.own;
    }

    pick-Inv :
        (i : ℕ) (id : Str)
        → s.local i ≡ idle
        → is_pending (lookup id s.jobs) ≡ true
        → IsUnlocked id s
        → Inv (record s { local = update s.local i (picked id) })
    pick-Inv i id at p free = record {
      waits = λ j k h. ground (arith, v.waits j k);
      marked = λ j k h. v.marked j k (ground arith);
      own =
          λ j k x a b. ground (arith, v.own j k x, nobody s v id p free j, nobody s v id p free k);
    }

    -- Worker `i` is at another place, with the table `jobs`, in which the others' rows are as before.
    module _ (i : ℕ) (jobs : Jobs F)
        (same : (j : ℕ) (id : Str)
          → j ≢ i
          → job_of (s.local j) ≡ some id
          → lookup id jobs ≡ lookup id s.jobs) where
      other-IsRunning : (j : ℕ) (id : Str) → j ≢ i → s.local j ≡ working id → IsRunning id jobs
      other-IsRunning j id ne at =
          IsRunning-same id s.jobs jobs (same j id ne (ap job_of at)) (v.marked j id at)

      leave-Inv : Inv (record { jobs = jobs; local = update s.local i idle })
      leave-Inv = record {
        waits = λ j k h. ground (arith, v.waits j k, same j k);
        marked = λ j k h. other-IsRunning j k (ground arith) (ground arith);
        own = λ j k x a b. ground (arith, v.own j k x);
      }

      commit-Inv :
          (id : Str)
          → s.local i ≡ picked id
          → IsRunning id jobs
          → Inv (record { jobs = jobs; local = update s.local i (working id) })
      commit-Inv id at mine = record {
        waits = λ j k h. ground (arith, v.waits j k, same j k);
        marked = λ j k h. elim (ℕ_discrete j i) [
          | yes e ↦ subst (λ x. IsRunning x jobs) (ground arith) mine
          | no ne ↦ other-IsRunning j k ne (ground arith)
        ];
        own = λ j k x a b. ground (arith, v.own j k x);
      }

    -- The rows of the other workers' jobs are none that a worker writes.
    others-Keep :
        (i : ℕ) (id : Str) (jobs : Jobs F)
        → job_of (s.local i) ≡ some id
        → ((j : Str) → j ≢ id → lookup j jobs ≡ lookup j s.jobs)
        → (j : ℕ) (k : Str) → j ≢ i
        → job_of (s.local j) ≡ some k
        → lookup k jobs ≡ lookup k s.jobs
    others-Keep i id jobs at keeps j k ne other =
        keeps k (λ e. ne (v.own j i id (other ∙ ap some e) at))

  step-Inv : {s t : System F} (st : Step f remote s t) → IsOrderly f remote s t st → Inv s → Inv t
  step-Inv {s} (submit id free) unworked v = submit-Inv s v id free unworked
  step-Inv {s} (pick i id at p free) _ v = pick-Inv s v i id at p free
  step-Inv {s} (roll_back i id at) _ v = leave-Inv s v i s.jobs (λ j k ne h. refl)
  step-Inv {s} (commit i id done at) ok v =
      commit-Inv s v i _
        (others-Keep s v i id _ (ap job_of at) (set_status-Keeps f remote done id running s.jobs))
        id at (marks id s.jobs done ok (v.waits i id at))
  step-Inv {s} (give_up i id done at free) _ v =
      leave-Inv s v i _
        (others-Keep s v i id _ (ap job_of at) (set_status-Keeps f remote done id failed s.jobs))
  step-Inv {s} (finish i id done m at free) _ v =
      leave-Inv s v i _
        (others-Keep s v i id _ (ap job_of at) (complete-Keeps f remote done id m s.jobs))

  start-Inv : (jobs : Jobs F) → Inv (start jobs)
  start-Inv jobs = record {
    waits = λ i id h. absurd (cc);
    marked = λ i id h. absurd (cc);
    own = λ i j id h g. absurd (cc);
  }

  -- However the workers and the submissions interleave, as long as no job is submitted again while
  -- it is run and no Commit fails: no two workers are at one job, the row of a job that is run says
  -- RUNNING, and that of a job which a transaction has picked says PENDING.
  pub Runs-Inv :
      (jobs : Jobs F) (s : System F) → Runs f remote (IsOrderly f remote) (start jobs) s → Inv s
  Runs-Inv jobs _ here = start-Inv jobs
  Runs-Inv jobs _ (next r st ok) = step-Inv st ok (Runs-Inv jobs _ r)
