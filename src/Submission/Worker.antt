-- ===== src/Submission/Worker.antt =====
-- processNextJob and runBenchmarkSync of services/submission-api/main.go. The orchestrator and the
-- bot fleet are a parameter over a world `W`; the failures of the database are inputs.
pub mod Outcome
pub mod Claims
pub mod Waiting
pub mod Queue
use hft_bench.Prelude.{
  ℕ, Bool, true, false, Option, none, some, List, [], ◌∷◌, if◌then◌else◌, Result, ok, err,
}
use hft_bench.Prelude.Int.{ℤ, pos, ltb_ℤ, ◌+ℤ◌, to_int64}
use hft_bench.Prelude.Text.{Str, codes, is_empty}
use hft_bench.Prelude.Dict.{lookup}
use hft_bench.Float64.{Float64}
use hft_bench.Score.{calculate_score}
use hft_bench.Submission.Jobs.{
  Job, Jobs, Status, pending, running, completed, failed, update_job, with_status,
}
use hft_bench.Submission.Metrics.{MetricRow, PollEvent, poll_benchmark_metrics}

-- orch.SpawnResponse
pub record SpawnResponse : Type 0 where
  pub success : Bool
  pub vm_id : Str
  pub ip_address : Str
  pub vsock_path : Str

-- bench.BenchmarkRequest, whose port, numbers and mode are constants of the source
pub record BenchmarkRequest : Type 0 where
  pub vm_id : Str
  pub target_ip : Str
  pub port : ℕ
  pub total_orders : ℕ
  pub concurrency : ℕ
  pub mode : Str
  pub vsock_path : Str

pub record Latencies : Type 0 where
  pub p50_micros : ℕ
  pub p99_micros : ℕ

-- bench.BenchmarkResponse, by the fields that are read
pub record BenchmarkResponse : Type 0 where
  pub success : Bool
  pub successful_acks : ℤ
  pub failed_orders : ℤ
  pub latencies : Option Latencies

-- The gRPC calls; `none` is an error of the call.
pub record Remote (W : Type 0) : Type 0 where
  -- SpawnVM of a submission, with 1 vCPU and 256 MiB
  pub spawn_vm : Str → ℕ → ℕ → W → Option SpawnResponse × W
  pub teardown_vm : Str → W → W
  pub start_benchmark : BenchmarkRequest → W → Option BenchmarkResponse × W

-- What the database does in one run: the id that `SELECT … FOR UPDATE SKIP LOCKED` returns, whether
-- each statement succeeds, MAX(id) if it can be read, and what the polling loop meets.
pub record Inputs (F : Type 0) : Type 0 where
  pub begin_ok : Bool
  pub picked : Option Str
  pub running_ok : Bool
  pub commit_ok : Bool
  pub failed_ok : Bool
  pub max_id : Option ℕ
  pub poll : List (PollEvent F)
  pub completed_ok : Bool

module _ {F : Type 0} where
  unfoldable pub is_pending : Option (Job F) → Bool
  is_pending none = false
  is_pending (some job) = pending_status job.status
    where
      pending_status : Status → Bool
      pending_status pending = true
      pending_status _ = false

  -- A pick is a row that is pending; any other pick is no answer of the query.
  unfoldable pub pending_pick : Jobs F → Option Str → Option Str
  unfolding is_pending
  pending_pick jobs none = none
  pending_pick jobs (some id) = if is_pending (lookup id jobs) then some id else none

  -- UPDATE … SET status = …, unless the statement fails
  unfoldable pub set_status : Bool → Str → Status → Jobs F → Jobs F
  set_status done id s jobs = if done then update_job id (with_status s) jobs else jobs

module _ {F W : Type 0} (f : Float64 F) (remote : Remote W) where
  open remote use {spawn_vm, teardown_vm, start_benchmark}

  -- The median, the 99th percentile and the success rate that a run ends with.
  abbrev pub Measured : Type 0
  Measured = ℤ × ℤ × F

  unfoldable pub latencies_of : Option Latencies → ℤ × ℤ
  latencies_of none = (pos 0, pos 0)
  latencies_of (some l) = (to_int64 l.p50_micros, to_int64 l.p99_micros)

  unfoldable pub rate_of : BenchmarkResponse → F
  rate_of response =
      let total = response.successful_acks +ℤ response.failed_orders in
      if ltb_ℤ (pos 0) total
      then f.div (f.of_int response.successful_acks) (f.of_int total)
      else f.lit 1 0

  -- The metrics of the table, or those of the response if polling fails
  unfoldable pub measure : BenchmarkResponse → Option (MetricRow F) → Measured
  measure response (some row) = (row.p50_micros, row.p99_micros, row.success_rate)
  measure response none =
      let (p50, p99) = latencies_of response.latencies in (p50, p99, rate_of response)

  unfoldable pub polled : Str → ℕ → List (PollEvent F) → Option (MetricRow F)
  polled id min_id events = elim (poll_benchmark_metrics id min_id events) [
    | ok row ↦ some row
    | err e ↦ none
  ]

  -- `var minID int64`, left at 0 if the query fails
  abbrev pub min_id_of : Option ℕ → ℕ
  min_id_of none = 0
  min_id_of (some n) = n

  -- The last UPDATE of runBenchmarkSync
  unfoldable pub complete : Bool → Str → Measured → Jobs F → Jobs F
  complete done id (p50, p99, rate) jobs =
      if done
      then update_job id
          (λ job. record job {
            status = completed;
            score = calculate_score f p50 p99 rate;
            p99_micros = p99;
            success_rate = rate;
          })
          jobs
      else jobs

  -- From the benchmark's response on
  unfoldable pub benchmarked : Inputs F → Str → Option BenchmarkResponse → Jobs F → Jobs F
  benchmarked inputs id none jobs = set_status inputs.failed_ok id failed jobs
  benchmarked inputs id (some response) jobs =
      if response.success
      then complete inputs.completed_ok id
          (measure response (polled id (min_id_of inputs.max_id) inputs.poll)) jobs
      else set_status inputs.failed_ok id failed jobs

  abbrev pub target_ip : Str → Str
  target_ip [] = codes "172.16.0.2"
  target_ip (c ∷ s) = c ∷ s

  abbrev pub request_for : Str → SpawnResponse → BenchmarkRequest
  request_for id response = record {
    vm_id = id;
    target_ip = target_ip response.ip_address;
    port = 8080;
    total_orders = 1000;
    concurrency = 1;
    mode = codes "burst";
    vsock_path = response.vsock_path;
  }

  -- From SpawnVM's response on; the teardown is deferred.
  unfoldable pub benchmark_in : Inputs F → Str → Option SpawnResponse × W → Jobs F → Jobs F × W
  benchmark_in inputs id (none, w) jobs = (set_status inputs.failed_ok id failed jobs, w)
  benchmark_in inputs id (some response, w) jobs =
      if response.success
      then (let (result, w') = start_benchmark (request_for id response) w in
          (benchmarked inputs id result jobs, teardown_vm response.vm_id w'))
      else (set_status inputs.failed_ok id failed jobs, w)

  -- runBenchmarkSync
  unfoldable pub run_benchmark_sync : Inputs F → Str → Jobs F → W → Jobs F × W
  unfolding benchmark_in benchmarked polled
  run_benchmark_sync inputs id jobs w = benchmark_in inputs id (spawn_vm id 1 256 w) jobs

  unfoldable pub claimed : Inputs F → Option Str → Jobs F → W → Jobs F × W
  claimed inputs none jobs w = (jobs, w)
  claimed inputs (some id) jobs w =
      if inputs.running_ok
      then run_benchmark_sync inputs id (set_status inputs.commit_ok id running jobs) w
      else (jobs, w)

  -- processNextJob. The error of `tx.Commit()` is not looked at: the job is run all the same.
  unfoldable pub process_next_job : Inputs F → Jobs F → W → Jobs F × W
  unfolding claimed
  process_next_job inputs jobs w =
      if inputs.begin_ok then claimed inputs (pending_pick jobs inputs.picked) jobs w else (jobs, w)

  -- The loop that startWorkerPool gives each worker, for as many rounds as there are inputs: in
  -- each the query answers from the table as it is then.
  unfoldable pub work : (Jobs F → Option Str) → List (Inputs F) → Jobs F → W → Jobs F × W
  work query [] jobs w = (jobs, w)
  work query (inputs ∷ rounds) jobs w =
      let (jobs', w') = process_next_job (record inputs { picked = query jobs }) jobs w in
      work query rounds jobs' w'
