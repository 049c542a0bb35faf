-- ===== src/Platform/Fleet.antt =====
-- The workers of the submission API at once over the orchestrator: each has at most one job, no two
-- have the same job (Submission/Pool), and each calls SpawnVM and TeardownVM for its own job only
-- (runBenchmarkSync), one call after the other. The steps of a call are the locked sections of the
-- handler that serves it.
pub mod Fresh
use hft_bench.Prelude.{ℕ, ◌≡◌, ◌≢◌, Option, none, some, update}
use hft_bench.Prelude.Text.{Str}
use hft_bench.Orchestrator.Server.Interleaving.{
  Local, idle, reserve, register, roll_back, observe, stop_fails, remove,
}
use hft_bench.Orchestrator.Server.Interleaving

pub record System : Type 0 where
  pub server : Interleaving.System
  -- the job of each worker; handler `i` serves the calls of worker `i`
  pub job : ℕ → Option Str

-- The section is one of handler `i`, for the id.
abbrev pub IsCall : ℕ → Str → {s t : Interleaving.System} → Interleaving.Step s t → Type 0
IsCall i id (reserve j k x ip at a e) = (j ≡ i) × (x ≡ id)
IsCall i id (register j x ip vm at addr m e) = (j ≡ i) × (x ≡ id)
IsCall i id (roll_back j x ip at e) = (j ≡ i) × (x ≡ id)
IsCall i id (observe j x vm at l e) = (j ≡ i) × (x ≡ id)
IsCall i id (stop_fails j x vm at e) = (j ≡ i) × (x ≡ id)
IsCall i id (remove j x vm at e) = (j ≡ i) × (x ≡ id)

pub data Step (s : System) : System → Type 0 where
  -- a worker claims a job that no worker has
  claim :
      (i : ℕ) (id : Str)
      → s.job i ≡ none
      → ((j : ℕ) → s.job j ≢ some id)
      → Step s (record s { job = update s.job i (some id) })
  -- a section of a call for the worker's job
  call :
      (i : ℕ) (id : Str) {server : Interleaving.System}
      → s.job i ≡ some id
      → (st : Interleaving.Step s.server server) → IsCall i id st
      → Step s (record s { server = server })
  -- the end of runBenchmarkSync, after the last call
  leave :
      (i : ℕ) (id : Str)
      → s.job i ≡ some id
      → s.server.local i ≡ idle
      → Step s (record s { job = update s.job i none })

abbrev pub start : System
start = record { server = Interleaving.start; job = λ i. none }

pub data Reach : System → Type 0 where
  here : Reach start
  next : {s t : System} → Reach s → Step s t → Reach t
