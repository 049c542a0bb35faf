-- ===== src/Examples/Submissions.antt =====
-- An orchestrator and a bot fleet that count their calls.
use hft_bench.Prelude.{
  ℕ, suc, ◌≡◌, refl, inl, inr, Bool, true, false, none, some, List, [], ◌∷◌, ok, In, ap, subst,
}
use hft_bench.Prelude.Int.{pos}
use hft_bench.Prelude.Text.{codes, str_discrete, trim_space, trim_left, is_space}
use hft_bench.Prelude.FilePath.{join_path, rooted, resolve, parts_from}
use hft_bench.Prelude.Dict.{lookup, insert, delete}
use hft_bench.Float64.Fixed.{fixed}
use hft_bench.Submission.Jobs.{Jobs, enqueue_job}
use hft_bench.Submission.Metrics.{
  MetricRow, PollEvent, tick, newest_after, is_match, poll_benchmark_metrics,
}
use hft_bench.Submission.Metrics.Polling.{Answers, poll_benchmark_metrics_ok}
use hft_bench.Submission.Handlers.{
  SubmitRequest, Faults, copied, accepted, upload_path, save_uploaded_binary, handle_submit,
}
use hft_bench.Submission.Handlers.Laws.{Queues, handle_submit-Queues, fresh_job}
use hft_bench.Submission.Worker.{
  Remote, SpawnResponse, BenchmarkResponse, Inputs, run_benchmark_sync,
}
use hft_bench.Submission.Worker.Outcome.{Finishes, run_benchmark_sync-Finishes}

abbrev machine : SpawnResponse
machine = record {
  success = true;
  vm_id = codes "vm-a";
  ip_address = codes "172.16.0.2";
  vsock_path = codes "/tmp/a.vsock";
}

abbrev pub acks : BenchmarkResponse
acks = record {
  success = true;
  successful_acks = pos 900;
  failed_orders = pos 100;
  latencies = some (record { p50_micros = 200; p99_micros = 800 });
}

abbrev pub remote : Remote ℕ
remote = record {
  spawn_vm = λ id cpus mib w. (some machine, suc w);
  teardown_vm = λ vm_id w. suc w;
  start_benchmark = λ request w. (some acks, suc w);
}

abbrev row : ℕ → MetricRow ℕ
row n = record {
  id = n;
  submission_id = codes "a";
  p50_micros = pos 200;
  p90_micros = pos 500;
  p99_micros = pos 800;
  total_orders = pos 1000;
  success_rate = 900000;
  timestamp = pos 0;
}

abbrev pub inputs : Inputs ℕ
inputs = record {
  begin_ok = true;
  picked = some (codes "a");
  running_ok = true;
  commit_ok = true;
  failed_ok = true;
  max_id = some 3;
  poll = tick (some (row 3 ∷ [])) ∷ tick (some (row 4 ∷ row 3 ∷ [])) ∷ [];
  completed_ok = true;
}

abbrev pub jobs : Jobs ℕ
jobs = (codes "a", fresh_job fixed) ∷ (codes "b", fresh_job fixed) ∷ []

jobs-a : lookup (codes "a") jobs ≡ some (fresh_job fixed)
unfolding lookup
jobs-a = refl

run_benchmark_sync-Finishes_example :
    Finishes fixed remote
      (codes "a")
      jobs
      (run_benchmark_sync fixed remote inputs (codes "a") jobs 0).0
run_benchmark_sync-Finishes_example =
    run_benchmark_sync-Finishes fixed remote inputs (codes "a") jobs (fresh_job fixed) jobs-a refl
      refl 0

-- The second tick finds the row that is newer than 3.
abbrev polls : List (PollEvent ℕ)
polls = tick (some (row 3 ∷ [])) ∷ tick (some (row 4 ∷ row 3 ∷ [])) ∷ []

polls-row : poll_benchmark_metrics (codes "a") 3 polls ≡ ok (row 4)
unfolding poll_benchmark_metrics newest_after is_match str_discrete
polls-row = refl

poll_benchmark_metrics_ok_example :
    (rows : List (MetricRow ℕ)) × In (tick (some rows)) polls × Answers (codes "a") 3 (row 4) rows
poll_benchmark_metrics_ok_example = poll_benchmark_metrics_ok (codes "a") 3 polls (row 4) polls-row

-- The same row at every tick.
abbrev stale_polls : List (PollEvent ℕ)
stale_polls = tick (some (row 4 ∷ [])) ∷ tick none ∷ []

has_table : PollEvent ℕ → Bool
has_table (tick (some rows)) = true
has_table _ = false

stale_polls-same :
    (rows : List (MetricRow ℕ)) (r : MetricRow ℕ)
    → In (tick (some rows)) stale_polls
    → In r rows
    → r.submission_id ≡ codes "a"
    → In r (row 4 ∷ [])
unfolding has_table
stale_polls-same rows r (inl e) m s =
    let same : rows ≡ row 4 ∷ [] = cc in subst (λ x. In r x) same m
stale_polls-same rows r (inr (inl e)) m s = let never : true ≡ false = ap has_table e in absurd (cc)
stale_polls-same rows r (inr (inr e)) m s = absurd e

abbrev upload : SubmitRequest
upload = record {
  is_post = true;
  multipart_ok = true;
  form_id = codes " a ";
  binary = some (127 ∷ 69 ∷ []);
}

abbrev no_faults : Faults
no_faults = record { open_ok = true; copy = copied; insert_ok = true }

handle_submit-Queues_example :
    Queues fixed no_faults upload [] [] (handle_submit fixed no_faults upload [] [])
handle_submit-Queues_example = handle_submit-Queues fixed no_faults upload [] []

upload_run :
    handle_submit fixed no_faults upload [] []
    ≡ (accepted (codes "a"), (codes "a", fresh_job fixed) ∷ [], [])
unfolding handle_submit save_uploaded_binary upload_path enqueue_job insert delete trim_space
    trim_left is_space str_discrete join_path rooted resolve parts_from
upload_run = refl
