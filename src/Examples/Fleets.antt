-- ===== src/Examples/Fleets.antt =====
-- A worker with a job, whose machine is being spawned.
use hft_bench.Prelude.{ℕ, ◌≡◌, refl, none, some, [], update}
use hft_bench.Prelude.Text.{Str, codes}
use hft_bench.Prelude.Dict.{lookup, insert}
use hft_bench.Orchestrator.Address.{ip_text}
use hft_bench.Orchestrator.Server.{ActiveVm, tentative}
use hft_bench.Orchestrator.Server.Interleaving
use hft_bench.Orchestrator.Server.Interleaving.{booting, reserve, FreshReach}
use hft_bench.Orchestrator.Server.Interleaving.Stale.{allocate_first}
use hft_bench.Platform.Fleet.{System, claim, call, start, Reach, here, next}
use hft_bench.Platform.Fleet.Fresh.{Reach-Fresh}

abbrev claimed : System
claimed = record start { job = update start.job 0 (some (codes "a")) }

abbrev spawning : Interleaving.System
spawning = record {
  registry = insert (codes "a") (tentative (codes "a") (ip_text 2)) [];
  local = update start.server.local 0 (booting (codes "a") (ip_text 2));
}

spawning-reached : Reach (record claimed { server = spawning })
spawning-reached = next (next here (claim 0 (codes "a") refl (λ j. cc))) (
    call 0 (codes "a") refl
      (reserve 0 2 (codes "a") (ip_text 2) refl (allocate_first (codes "a")) refl) (refl, refl))

Reach-Fresh_example :
    FreshReach spawning
    × Interleaving.Inv spawning
    × ((id : Str) (vm : ActiveVm)
        → lookup id spawning.registry ≡ some vm
        → vm.machine ≡ none
        → (i : ℕ) × (ip : Str) × (spawning.local i ≡ booting id ip))
Reach-Fresh_example = Reach-Fresh {s = record claimed { server = spawning }} spawning-reached
