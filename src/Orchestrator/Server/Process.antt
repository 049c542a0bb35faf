-- ===== src/Orchestrator/Server/Process.antt =====
-- main of services/sandbox-orchestrator/main.go: the life of the process. Its endings by
-- log.Fatalf and by a panic run no cleanup.
use hft_bench.Prelude.{Bool, if◌then◌else◌, Option, none, some, List, []}
use hft_bench.Orchestrator.Provisioner.{Provisioner}
use hft_bench.Orchestrator.Server.{Registry, shutdown_all_vms}
use hft_bench.Orchestrator.Server.Calls.{Call, serve}

-- What ends the time of service: SIGINT or SIGTERM, or an error of `grpcServer.Serve` that is not
-- ErrServerStopped.
pub data Ending : Type 0 where
  signalled serve_failed : Ending

pub data Exit (W : Type 0) : Type 0 where
  listen_fatal : W → Exit W
  -- with the machines that were registered
  serve_fatal : Registry → W → Exit W
  -- a panic in shutdownAllVMs
  crashed : Exit W
  complete : Registry → W → Exit W

module _ {W E : Type 0} (host : Provisioner W E) where
  shut_down_result : Option (Registry × W) → Exit W
  shut_down_result none = crashed
  shut_down_result (some (registry, w)) = complete registry w

  -- `order` is the order in which the `range` of shutdownAllVMs gives the entries.
  ended : (Registry → Registry) → Ending → Registry → W → Exit W
  ended order serve_failed registry w = serve_fatal registry w
  ended order signalled registry w =
      shut_down_result (shutdown_all_vms host (order registry) registry w)

  -- main, of a run in which each call is answered before the next one begins. The gRPC server runs
  -- its handlers concurrently; the interleavings of their steps are those of Server/Interleaving.
  -- GracefulStop waits for the calls that are under way, so that the cleanup comes after all of them.
  unfoldable pub run_server : (Registry → Registry) → Bool → List Call → Ending → W → Exit W
  unfolding ended shut_down_result
  run_server order listening calls ending w =
      if listening
      then (let (registry, w') = serve host calls [] w in ended order ending registry w')
      else listen_fatal w
