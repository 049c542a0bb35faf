-- ===== src/Orchestrator/Server/Calls.antt =====
-- SpawnVM and TeardownVM, called one after the other in any order.
use hft_bench.Prelude.{◌≡◌, ◌≢◌, none, some, List, [], ◌∷◌, arith, inl, inr}
use hft_bench.Prelude.Text.{Str, codes, trim_prefix}
use hft_bench.Prelude.Dict.{
  lookup, insert, IsDistinct, insert-IsDistinct, delete-IsDistinct, lookup-insert, lookup-delete,
}
use hft_bench.Orchestrator.Provisioner.{Provisioner}
use hft_bench.Orchestrator.Server.{
  ActiveVm, Registry, SpawnRequest, tentative, active, spawn_vm, teardown_vm,
}
use hft_bench.Orchestrator.Server.Reservation.{IsValid, empty-IsValid}
use hft_bench.Orchestrator.Server.Handlers.{spawn_cases, provision_cases, spawn_vm-IsValid}
use hft_bench.Orchestrator.Server.Teardown.{teardown_vm-registry, teardown_vm-IsValid}

-- A gRPC request to the server
pub data Call : Type 0 where
  spawn : SpawnRequest → Call
  teardown : Str → Call

module _ {W E : Type 0} (host : Provisioner W E) where
  abbrev pub handle : Call → Registry → W → Registry × W
  handle (spawn req) r w = let (reply, r', w') = spawn_vm host req r w in (r', w')
  handle (teardown vm_id) r w = let (reply, r', w') = teardown_vm host vm_id r w in (r', w')

  unfoldable pub serve : List Call → Registry → W → Registry × W
  serve [] r w = (r, w)
  serve (call ∷ calls) r w = let (r', w') = handle call r w in serve calls r' w'

  handle-IsValid : (call : Call) (r : Registry) (w : W) → IsValid r → IsValid (handle call r w).0
  handle-IsValid (spawn req) r w v = spawn_vm-IsValid host req r w v
  handle-IsValid (teardown vm_id) r w v = teardown_vm-IsValid host vm_id r w v

  serve_from : (calls : List Call) (r : Registry) (w : W) → IsValid r → IsValid (serve calls r w).0
  unfolding serve
  serve_from [] r w v = v
  serve_from (call ∷ calls) r w v =
      let (r', w') = handle call r w in serve_from calls r' w' (handle-IsValid call r w v)

  -- After any calls of SpawnVM and TeardownVM, one after the other on a server that starts empty,
  -- the registered addresses are of the subnet and distinct, whatever the host answers.
  pub serve-IsValid : (calls : List Call) (w : W) → IsValid (serve calls [] w).0
  serve-IsValid calls w = serve_from calls [] w empty-IsValid

-- The registry between two calls: no key twice, and each entry has a machine.
pub record IsSettled (r : Registry) : Type 0 where
  pub distinct : IsDistinct r
  pub booted : (j : Str) (vm : ActiveVm) → lookup j r ≡ some vm → vm.machine ≢ none

module _ {W E : Type 0} (host : Provisioner W E) where
  spawn-IsSettled :
      (req : SpawnRequest) (r : Registry) (w : W)
      → IsSettled r
      → IsSettled (spawn_vm host req r w).1
  spawn-IsSettled req r w v =
      let id = req.submission_id in
      spawn_cases host (λ h. IsSettled h.1) req r w (λ e. v) (λ e. v)
        λ k ip a.
          let reserved = insert-IsDistinct id (tentative id ip) r v.distinct in
          provision_cases host req k ip (λ h. IsSettled h.1) r w
            (λ reply w' other. record {
              distinct = delete-IsDistinct id (insert id (tentative id ip) r) reserved;
              booted = λ j vm f. ground (
                arith,
                lookup-delete j id (insert id (tentative id ip) r),
                lookup-insert j id (tentative id ip) r,
                v.booted j vm,
              );
            })
            (λ disk vm w'. record {
              distinct = insert-IsDistinct id _ _ reserved;
              booted = λ j u f. ground (
                arith,
                lookup-insert j id (active host req k ip disk vm) (insert id (tentative id ip) r),
                lookup-insert j id (tentative id ip) r,
                v.booted j u,
              );
            })

  teardown-IsSettled :
      (s : Str) (r : Registry) (w : W) → IsSettled r → IsSettled (teardown_vm host s r w).1
  teardown-IsSettled s r w v = elim (teardown_vm-registry host s r w) [
    | inl e ↦ rw e v
    | inr e ↦ rw e (record {
      distinct = delete-IsDistinct (trim_prefix s (codes "vm-")) r v.distinct;
      booted =
          λ j vm f. ground (arith, lookup-delete j (trim_prefix s (codes "vm-")) r, v.booted j vm);
    })
  ]

  pub serve-IsSettled :
      (calls : List Call) (r : Registry) (w : W) → IsSettled r → IsSettled (serve host calls r w).0
  unfolding serve
  serve-IsSettled [] r w v = v
  serve-IsSettled (spawn req ∷ calls) r w v =
      let (reply, r', w') = spawn_vm host req r w in
      serve-IsSettled calls r' w' (spawn-IsSettled req r w v)
  serve-IsSettled (teardown vm_id ∷ calls) r w v =
      let (reply, r', w') = teardown_vm host vm_id r w in
      serve-IsSettled calls r' w' (teardown-IsSettled vm_id r w v)
