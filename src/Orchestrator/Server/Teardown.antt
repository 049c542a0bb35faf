-- ===== src/Orchestrator/Server/Teardown.antt =====
-- TeardownVM and shutdownAllVMs, and how they undo SpawnVM.
use hft_bench.Prelude.{
  ◌≡◌, ◌≢◌, ◌⊎◌, refl, sym, Option, none, some, [], ◌∷◌, ◌++◌, arith, Result, ok, err, subst,
  Option-cases, inl, inr,
}
use hft_bench.Prelude.Text.{Str, codes, trim_prefix, trim_prefix-append}
use hft_bench.Prelude.Dict.{lookup, insert, delete, lookup-insert_self, lookup-delete}
use hft_bench.Orchestrator.Provisioner.{Provisioner}
use hft_bench.Orchestrator.Server.{
  ActiveVm, Registry, SpawnRequest, SpawnResponse, spawned, TeardownReply, panicked, torn_down,
  tentative, spawn_vm, stopped, teardown_vm, shut_down, shutdown_all_vms,
}
use hft_bench.Orchestrator.Server.Reservation.{IsValid, delete-IsValid}
use hft_bench.Orchestrator.Server.Handlers.{Spawns, spawn_vm-Spawns}

module _ {W E : Type 0} (host : Provisioner W E) where
  stopped-registry :
      (id : Str) (vm : ActiveVm) (s : Option (Result E (Unit {0})) × W) (r : Registry)
      → ((stopped host id vm s r).1 ≡ r)
        ⊎ (((stopped host id vm s r).1 ≡ delete id r) × ((stopped host id vm s r).0 ≡ torn_down))
  unfolding stopped
  stopped-registry id vm (none, w) r = inl refl
  stopped-registry id vm (some (err e), w) r = inl refl
  stopped-registry id vm (some (ok _), w) r = inr (refl, refl)

  -- TeardownVM removes at most the entry that its id names.
  pub teardown_vm-registry :
      (s : Str) (r : Registry) (w : W)
      → ((teardown_vm host s r w).1 ≡ r)
        ⊎ ((teardown_vm host s r w).1 ≡ delete (trim_prefix s (codes "vm-")) r)
  unfolding teardown_vm
  teardown_vm-registry [] r w = inl refl
  teardown_vm-registry (c ∷ s) r w =
      let id = trim_prefix (c ∷ s) (codes "vm-") in
      elim (Option-cases (lookup id r)) [
        | inl missing ↦ ground arith
        | inr (vm, e) ↦ ground (arith, stopped-registry id vm (host.stop_vmm vm.machine w) r)
      ]

  -- TeardownVM keeps the addresses of the registry in the subnet and distinct.
  pub teardown_vm-IsValid :
      (s : Str) (r : Registry) (w : W) → IsValid r → IsValid (teardown_vm host s r w).1
  teardown_vm-IsValid s r w v = elim (teardown_vm-registry s r w) [
    | inl e ↦ rw e v
    | inr e ↦ rw e (delete-IsValid (trim_prefix s (codes "vm-")) r v)
  ]

  pub teardown_vm-found :
      (id : Str) (vm : ActiveVm) (r : Registry) (w : W)
      → lookup id r ≡ some vm
      → teardown_vm host (codes "vm-" ++ id) r w ≡ stopped host id vm (host.stop_vmm vm.machine w) r
  unfolding teardown_vm
  teardown_vm-found id vm r w e = ground (arith, trim_prefix-append (codes "vm-") id)

  restores :
      (id : Str) (vm : ActiveVm) (r r' : Registry) (s : Option (Result E (Unit {0})) × W)
      → lookup id r ≡ none
      → ((j : Str) → j ≢ id → lookup j r' ≡ lookup j r)
      → (stopped host id vm s r').0 ≡ torn_down
      → (j : Str) → lookup j (stopped host id vm s r').1 ≡ lookup j r
  unfolding stopped
  restores id vm r r' (none, w) new others e j = absurd (cc)
  restores id vm r r' (some (err x), w) new others e j = absurd (cc)
  restores id vm r r' (some (ok _), w) new others e j =
      ground (arith, lookup-delete j id r', others j)

  -- The id that SpawnVM reports leads TeardownVM to the machine that was spawned: it stops that
  -- machine, and if this succeeds, the registry holds again what it held before the spawn.
  pub spawn_vm-teardown_vm :
      (req : SpawnRequest) (r r' : Registry) (resp : SpawnResponse) (w w' later : W)
      → spawn_vm host req r w ≡ (spawned resp, r', w')
      → (vm : ActiveVm) × (lookup req.submission_id r' ≡ some vm)
        × (teardown_vm host resp.vm_id r' later
            ≡ stopped host req.submission_id vm (host.stop_vmm vm.machine later) r')
        × ((teardown_vm host resp.vm_id r' later).0 ≡ torn_down
            → (j : Str) → lookup j (teardown_vm host resp.vm_id r' later).1 ≡ lookup j r)
  spawn_vm-teardown_vm req r r' resp w w' later e =
      let (new, named, sub, free, (vm, here, made, addr, sock, tapped), others) =
        subst (Spawns host req r) e (spawn_vm-Spawns host req r w) in
      let found : teardown_vm host resp.vm_id r' later
          ≡ stopped host req.submission_id vm (host.stop_vmm vm.machine later) r' =
        rw named (teardown_vm-found req.submission_id vm r' later here) in
      (
        vm,
        here,
        found,
        subst
            (λ (x : TeardownReply E × Registry × W).
              x.0 ≡ torn_down → (j : Str) → lookup j x.1 ≡ lookup j r)
            (sym found)
            (restores req.submission_id vm r r' (host.stop_vmm vm.machine later) new others),
      )

  -- A teardown that meets the reservation of a machine that is still booting calls StopVMM on a
  -- nil machine: where the SDK panics on it, so does the handler, and the registry stays.
  pub teardown_vm_while_booting :
      (id ip : Str) (r : Registry) (w : W)
      → (host.stop_vmm none w).0 ≡ none
      → (teardown_vm host (codes "vm-" ++ id) (insert id (tentative id ip) r) w).0 ≡ panicked
  unfolding teardown_vm stopped
  teardown_vm_while_booting id ip r w nil =
      ground (arith, trim_prefix-append (codes "vm-") id, lookup-insert_self id (tentative id ip) r)

  shutdown_forgets :
      (rest r r' : Registry) (w w' : W)
      → shutdown_all_vms host rest r w ≡ some (r', w')
      → (j : Str) → (lookup j rest ≡ none → lookup j r ≡ none)
      → lookup j r' ≡ none
  unfolding shutdown_all_vms lookup
  shutdown_forgets [] r r' w w' e j h = ground arith
  shutdown_forgets ((i, vm) ∷ rest) r r' w w' e j h =
      elim (Option-cases (shut_down host vm (host.stop_vmm vm.machine w))) [
        | inl dead ↦ absurd (ground arith)
        | inr (w1, s) ↦
            shutdown_forgets rest (delete i r) r' w1 w' (ground arith) j
              λ gone. ground (arith, lookup-delete j i r)
      ]

  -- After shutdownAllVMs, unless a stop panicked, no machine is registered.
  pub shutdown_all_vms_empties :
      (r r' : Registry) (w w' : W)
      → shutdown_all_vms host r r w ≡ some (r', w')
      → (j : Str) → lookup j r' ≡ none
  shutdown_all_vms_empties r r' w w' e j = shutdown_forgets r r r' w w' e j (λ h. h)
