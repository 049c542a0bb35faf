-- ===== src/Platform.antt =====
-- services/submission-api and services/sandbox-orchestrator together: the worker's gRPC calls of
-- runBenchmarkSync reach the orchestrator's handlers. The bot fleet is a parameter over a world of
-- its own. A call here always brings the handler's answer back.
pub mod Rounds
pub mod Restores
pub mod Fleet
use hft_bench.Prelude.{ℕ, Bool, true, false, Option, none, some, []}
use hft_bench.Prelude.Int.{pos}
use hft_bench.Prelude.Text.{Str}
use hft_bench.Orchestrator.Provisioner.{Provisioner}
use hft_bench.Orchestrator.Server.{
  Registry, SpawnRequest, SpawnReply, spawned, not_reserved, vm_already_exists, boot_failed,
  spawn_vm, teardown_vm,
}
use hft_bench.Submission.Worker.{Remote, SpawnResponse, BenchmarkRequest, BenchmarkResponse}

-- A response without `Success`
abbrev unsuccessful : SpawnResponse
unsuccessful = record { success = false; vm_id = []; ip_address = []; vsock_path = [] }

-- The response of SpawnVM; `none` is a gRPC status.
abbrev pub response_of : {E : Type 0} → SpawnReply E → Option SpawnResponse
response_of (spawned r) = some (record {
  success = true;
  vm_id = r.vm_id;
  ip_address = r.ip_address;
  vsock_path = r.vsock_path;
})
response_of (not_reserved vm_already_exists) = some unsuccessful
response_of (boot_failed e) = some unsuccessful
response_of _ = none

-- The request of runBenchmarkSync
abbrev pub request_of : Str → ℕ → ℕ → SpawnRequest
request_of id cpus mib = record { submission_id = id; vcpu_count = pos cpus; memory_mib = pos mib }

module _ {W E B : Type 0} (host : Provisioner W E)
    (fleet : BenchmarkRequest → B → Option BenchmarkResponse × B) where
  -- The registry and the host of the orchestrator, and the bot fleet
  abbrev pub World : Type 0
  World = (Registry × W) × B

  -- The clients of the submission API, connected to the orchestrator and to the bot fleet
  abbrev pub connect : Remote World
  connect = record {
    spawn_vm = λ id cpus mib world.
        let (reply, r', w') = spawn_vm host (request_of id cpus mib) world.0.0 world.0.1 in
        (response_of reply, ((r', w'), world.1));
    teardown_vm = λ vm_id world.
        let (reply, r', w') = teardown_vm host vm_id world.0.0 world.0.1 in ((r', w'), world.1);
    start_benchmark =
        λ request world. let (response, b') = fleet request world.1 in (response, (world.0, b'));
  }
