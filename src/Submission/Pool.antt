-- ===== src/Submission/Pool.antt =====
-- The workers of startWorkerPool in services/submission-api/main.go at once, with handleSubmit
-- beside them: one step per statement or transaction on the table that the others can see. A row
-- that a transaction has picked is locked until the transaction ends. What a worker asks of the
-- orchestrator and of the bot fleet comes between its steps.
pub mod Exclusive
pub mod Alone
pub mod Resubmission
pub mod Restart
use hft_bench.Prelude.{ℕ, ◌≡◌, ◌≢◌, Bool, true, update}
use hft_bench.Prelude.Text.{Str}
use hft_bench.Prelude.Dict.{lookup}
use hft_bench.Float64.{Float64}
use hft_bench.Submission.Jobs.{Jobs, running, failed, enqueue_job}
use hft_bench.Submission.Worker.{Remote, is_pending, set_status, Measured, complete}

-- Where a worker stands in processNextJob.
pub data Local : Type 0 where
  idle : Local
  -- in the transaction, from the SELECT to the Commit
  picked : Str → Local
  -- in runBenchmarkSync
  working : Str → Local

pub record System (F : Type 0) : Type 0 where
  pub jobs : Jobs F
  pub local : ℕ → Local

module _ {F : Type 0} where
  -- No transaction holds the lock of the row.
  abbrev pub IsUnlocked : Str → System F → Type 0
  IsUnlocked id s = (i : ℕ) → s.local i ≢ picked id

  -- A table, and workers that have not begun
  abbrev pub start : Jobs F → System F
  start jobs = record { jobs = jobs; local = λ i. idle }

module _ {F W : Type 0} (f : Float64 F) (remote : Remote W) where
  pub data Step (s : System F) : System F → Type 0 where
    -- the INSERT of handleSubmit, which waits for a locked row
    submit : (id : Str) → IsUnlocked id s → Step s (record s { jobs = enqueue_job f id s.jobs })
    -- SELECT … WHERE status = 'PENDING' … FOR UPDATE SKIP LOCKED
    pick :
        (i : ℕ) (id : Str)
        → s.local i ≡ idle
        → is_pending (lookup id s.jobs) ≡ true
        → IsUnlocked id s
        → Step s (record s { local = update s.local i (picked id) })
    -- the deferred Rollback, where the UPDATE fails
    roll_back :
        (i : ℕ) (id : Str)
        → s.local i ≡ picked id
        → Step s (record s { local = update s.local i idle })
    -- Commit, whose error is not looked at
    commit :
        (i : ℕ) (id : Str) (done : Bool)
        → s.local i ≡ picked id
        → Step s (record {
          jobs = set_status done id running s.jobs;
          local = update s.local i (working id);
        })
    -- the end of runBenchmarkSync, by markFailed or by the last UPDATE
    give_up :
        (i : ℕ) (id : Str) (done : Bool)
        → s.local i ≡ working id
        → IsUnlocked id s
        → Step s (record { jobs = set_status done id failed s.jobs; local = update s.local i idle })
    finish :
        (i : ℕ) (id : Str) (done : Bool) (m : Measured f remote)
        → s.local i ≡ working id
        → IsUnlocked id s
        → Step s
            (record { jobs = complete f remote done id m s.jobs; local = update s.local i idle })

  -- The steps of a run, of which each satisfies `Ok`.
  pub data Runs (Ok : (s t : System F) → Step s t → Type 0) (s : System F) : System F → Type 0 where
    here : Runs Ok s s
    next : {t u : System F} → Runs Ok s t → (st : Step t u) → Ok t u st → Runs Ok s u

  -- A step that submits no job which a worker runs, and whose Commit does not fail.
  abbrev pub IsOrderly : (s t : System F) → Step s t → Type 0
  IsOrderly s _ (submit id free) = (i : ℕ) → s.local i ≢ working id
  IsOrderly s _ (commit i id done at) = done ≡ true
  IsOrderly s _ _ = Unit

  -- A step of worker `i`, whose Commit ends as `done` says.
  abbrev pub IsTurn : ℕ → Bool → (s t : System F) → Step s t → Type 0
  IsTurn i done s _ (submit id free) = ⊥
  IsTurn i done s _ (pick j id at p free) = j ≡ i
  IsTurn i done s _ (roll_back j id at) = j ≡ i
  IsTurn i done s _ (commit j id did at) = (j ≡ i) × (did ≡ done)
  IsTurn i done s _ (give_up j id did at free) = j ≡ i
  IsTurn i done s _ (finish j id did m at free) = j ≡ i

  -- A step that does not submit the job.
  abbrev pub IsNoSubmit : Str → (s t : System F) → Step s t → Type 0
  IsNoSubmit id s _ (submit k free) = k ≢ id
  IsNoSubmit id s _ _ = Unit

  abbrev pub Any : (s t : System F) → Step s t → Type 0
  Any _ _ _ = Unit
