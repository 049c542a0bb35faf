-- ===== src/Orchestrator/Server/Handlers.antt =====
-- SpawnVM, TeardownVM and shutdownAllVMs, each run on its own.
use hft_bench.Prelude.{
  ℕ, ◌≡◌, ◌≢◌, refl, ◌∙◌, none, some, ◌++◌, arith, Result, ok, err, All, inl, inr, Result-cases,
}
use hft_bench.Prelude.Text.{Str, codes}
use hft_bench.Prelude.Dict.{
  lookup, insert, delete, lookup-insert, lookup-insert_self, lookup-insert_ne, lookup-delete,
}
use hft_bench.Orchestrator.TapName.{tap_name_for_vm}
use hft_bench.Orchestrator.Provisioner.{Provisioner, Booted}
use hft_bench.Orchestrator.Server.{
  ActiveVm, Registry, SpawnRequest, SpawnResponse, SpawnReply, spawned, invalid_argument,
  not_reserved, network_failed, disk_failed, boot_failed, InvalidArgument, ReserveError, allocate,
  addresses, tentative, validate_spawn_request, Handled, active, finish, boot_machine, make_disk,
  provision, spawn_vm,
}
use hft_bench.Orchestrator.Server.Reservation.{
  InSubnet, IsValid, allocate_ok, lookup-All, insert-IsValid, delete-IsValid,
}

module _ {W E : Type 0} (host : Provisioner W E) where
  module _ (req : SpawnRequest) (k : ℕ) (ip : Str) (P : Handled host → Type 0) where
    abbrev id : Str
    id = req.submission_id

    finish_cases :
        (disk : Str) (r : Registry) (b : Result E Booted × W)
        → ((e : E) (w : W) → P (boot_failed e, delete id r, w))
        → ((vm : Booted) (w : W)
            → P (
              spawned (record {
                vm_id = codes "vm-" ++ id;
                ip_address = ip;
                vsock_path = vm.vsock_path;
              }),
              insert id (active host req k ip disk vm) r,
              w,
            ))
        → P (finish host req k ip disk b r)
    unfolding finish
    finish_cases disk r (err e, w) failed booted = failed e _
    finish_cases disk r (ok vm, w) failed booted = booted vm w

    -- Provisioning ends in a rollback or in a registered machine.
    pub provision_cases :
        (r : Registry) (w : W)
        → let reserved = insert id (tentative id ip) r in
          ((reply : SpawnReply E) (w' : W)
            → ((resp : SpawnResponse) → reply ≢ spawned resp)
            → P (reply, delete id reserved, w'))
          → ((disk : Str) (vm : Booted) (w' : W)
              → P (
                spawned (record {
                  vm_id = codes "vm-" ++ id;
                  ip_address = ip;
                  vsock_path = vm.vsock_path;
                }),
                insert id (active host req k ip disk vm) reserved,
                w',
              ))
          → P (provision host req k ip r w)
    unfolding provision make_disk boot_machine
    provision_cases r w failed booted = made (host.setup_tap _ w)
      where
        created :
            (d : Result E Str × W)
            → P (boot_machine host req k ip d (insert id (tentative id ip) r))
        created (err e, w') = failed (disk_failed e) _ (λ resp. cc)
        created (ok disk, w') =
            finish_cases disk (insert id (tentative id ip) r) (host.boot _ w')
              (λ e w''. failed (boot_failed e) _ (λ resp. cc)) (booted disk)

        made :
            (n : Result E (Unit {0}) × W)
            → P (make_disk host req k ip n (insert id (tentative id ip) r))
        made (err e, w') = failed (network_failed e) w' (λ resp. cc)
        made (ok _, w') = created (host.create_image _ w')

  -- The ways through SpawnVM.
  pub spawn_cases :
      (P : Handled host → Type 0) (req : SpawnRequest) (r : Registry) (w : W)
      → ((e : InvalidArgument) → P (invalid_argument e, r, w))
      → ((e : ReserveError) → P (not_reserved e, r, w))
      → ((k : ℕ) (ip : Str)
          → allocate req.submission_id r ≡ ok (k, ip)
          → P (provision host req k ip r w))
      → P (spawn_vm host req r w)
  unfolding spawn_vm
  spawn_cases P req r w invalid refused reserved =
      elim (Result-cases (validate_spawn_request req)) [
        | inr (e, h) ↦ rw (h, spawn_vm) (invalid e)
        | inl (u, h) ↦ elim (Result-cases (allocate req.submission_id r)) [
          | inr (e, g) ↦ rw (h, g, spawn_vm) (refused e)
          | inl ((k, ip), g) ↦ rw (h, g, spawn_vm) (reserved k ip g)
        ]
      ]

  -- What SpawnVM promises of its reply and of the registry it leaves.
  abbrev pub Spawns : SpawnRequest → Registry → Handled host → Type 0
  Spawns req r (spawned resp, r', w) =
      (lookup req.submission_id r ≡ none)
      × (resp.vm_id ≡ codes "vm-" ++ req.submission_id)
      × InSubnet resp.ip_address
      × All (λ used. used ≢ resp.ip_address) (addresses r)
      × ((vm : ActiveVm) × (lookup req.submission_id r' ≡ some vm)
          × (vm.machine ≢ none)
          × (vm.ip_address ≡ resp.ip_address)
          × (vm.vsock_path ≡ resp.vsock_path)
          × (vm.tap_name ≡ tap_name_for_vm req.submission_id))
      × ((j : Str) → j ≢ req.submission_id → lookup j r' ≡ lookup j r)
  Spawns req r (_, r', w) = (j : Str) → lookup j r' ≡ lookup j r

  unchanged :
      (req : SpawnRequest) (r r' : Registry) (w : W) (reply : SpawnReply E)
      → ((resp : SpawnResponse) → reply ≢ spawned resp)
      → ((j : Str) → lookup j r' ≡ lookup j r)
      → Spawns req r (reply, r', w)
  unchanged req r r' w (spawned resp) other h = absurd (other resp refl)
  unchanged req r r' w (invalid_argument e) other h = h
  unchanged req r r' w (not_reserved e) other h = h
  unchanged req r r' w (network_failed e) other h = h
  unchanged req r r' w (disk_failed e) other h = h
  unchanged req r r' w (boot_failed e) other h = h

  -- A machine that SpawnVM reports is new, is registered under its id with the reported address,
  -- which is of the subnet and no other machine's, and with the interface name of its id, and no
  -- other entry changes. After every other
  -- reply (bad request, id in use, no address, failed network, disk or boot) the registry holds
  -- what it held before: the reservation is taken back.
  pub spawn_vm-Spawns :
      (req : SpawnRequest) (r : Registry) (w : W) → Spawns req r (spawn_vm host req r w)
  spawn_vm-Spawns req r w =
      spawn_cases (Spawns req r) req r w (λ e j. refl) (λ e j. refl)
        λ k ip a.
          let (new, lo, hi, e, free) = allocate_ok req.submission_id r k ip a in
          provision_cases req k ip (Spawns req r) r w
            (λ reply w' other. unchanged req r _ w' reply other (λ j. ground (
              arith,
              lookup-delete j req.submission_id
                  (insert req.submission_id (tentative req.submission_id ip) r),
              lookup-insert j req.submission_id (tentative req.submission_id ip) r,
            )))
            (λ disk vm w'. (
              new,
              refl,
              (k, lo, hi, e),
              free,
              (active host req k ip disk vm, lookup-insert_self _ _ _, (λ h. cc), refl, refl, refl),
              λ j ne. lookup-insert_ne _ _ _ _ ne ∙ lookup-insert_ne _ _ _ _ ne,
            ))

  -- SpawnVM keeps the addresses of the registry in the subnet and distinct.
  pub spawn_vm-IsValid :
      (req : SpawnRequest) (r : Registry) (w : W) → IsValid r → IsValid (spawn_vm host req r w).1
  spawn_vm-IsValid req r w v =
      spawn_cases (λ h. IsValid h.1) req r w (λ e. v) (λ e. v)
        λ k ip a.
          let (new, lo, hi, e, free) = allocate_ok req.submission_id r k ip a in
          let unused : (j : Str) (u : ActiveVm)
              → lookup j r ≡ some u
              → u.ip_address ≡ ip
              → j ≡ req.submission_id =
            λ j u f same. absurd (lookup-All (λ used. used ≢ ip) j u r free f same) in
          let reserved =
            insert-IsValid req.submission_id (tentative req.submission_id ip) r v (k, lo, hi, e)
              unused in
          provision_cases req k ip (λ h. IsValid h.1) r w
            (λ reply w' other. delete-IsValid req.submission_id _ reserved)
            (λ disk vm w'.
              insert-IsValid req.submission_id (active host req k ip disk vm) _ reserved
                (k, lo, hi, e)
                λ j u f same.
                  reserved.distinct j req.submission_id u (tentative req.submission_id ip) f
                    (lookup-insert_self _ _ _) same)
