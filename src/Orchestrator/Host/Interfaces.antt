-- ===== src/Orchestrator/Host/Interfaces.antt =====
-- SpawnVM and TeardownVM leave no TAP interface behind.
use hft_bench.Prelude.{
  ℕ, ◌≡◌, ◌≢◌, refl, sym, ap, ◌∙◌, subst, Bool, true, false, Option, none, some, List, [], arith,
  Result, ok, err, ite, Result-cases, inl, inr,
}
use hft_bench.Prelude.Text.{Str, codes, str_discrete}
use hft_bench.Orchestrator.TapName.{tap_name_for_vm}
use hft_bench.Orchestrator.Network.{
  TapConfig, Net, NetworkError, is_listed, setup_tap_interface, cleanup_tap_interface,
}
use hft_bench.Orchestrator.Network.Cleanup.{
  IsReliable, Leaves, setup_tap_interface-Leaves, setup_tap_interface-fresh, cleanup_lem,
}
use hft_bench.Orchestrator.Disk.{DiskHost, create_submission_image}
use hft_bench.Orchestrator.Vmm.{Vmm, create_and_boot_vm}
use hft_bench.Orchestrator.Provisioner.{Provisioner, Booted}
use hft_bench.Orchestrator.Server.{
  ActiveVm, Registry, SpawnRequest, SpawnReply, SpawnResponse, spawned, TeardownReply, torn_down,
  allocate, validate_spawn_request, finish, boot_machine, make_disk, provision, spawn_vm, stopped,
  teardown_vm,
}
use hft_bench.Orchestrator.Server.Handlers.{Spawns, spawn_vm-Spawns}
use hft_bench.Orchestrator.Server.Teardown.{teardown_vm-found}
use hft_bench.Orchestrator.Host.{HostError, assemble, lift}

pub tap_name-ne-nil : (id : Str) → tap_name_for_vm id ≢ []
unfolding tap_name_for_vm
tap_name-ne-nil id e = cc

module _ {N D : Type 0} (net : Net N) (names : N → List Str) (r : IsReliable net names)
    (files : DiskHost D) (vmm : Vmm D) (script : Str) (in_order : Bool)
    (stop_vmm : Option ℕ → D → Option (Result HostError (Unit {0})) × D) where
  abbrev host : Provisioner (N × D) HostError
  host = assemble net files vmm script in_order stop_vmm

  -- Whether the interface `x` is to be there after a reply, if it was there `before`.
  abbrev pub expected : SpawnRequest → Str → Bool → SpawnReply HostError → Bool
  expected req x before (spawned resp) =
      ite (str_discrete (tap_name_for_vm req.submission_id) x) true before
  expected req x before _ = before

  module _ (req : SpawnRequest) (k : ℕ) (ip x : Str) (before : Bool)
      (fresh : tap_name_for_vm req.submission_id ≡ x → before ≡ false) where
    abbrev tap : Str
    tap = tap_name_for_vm req.submission_id

    -- The interface is there.
    abbrev HasTap : N → Type 0
    HasTap n = is_listed x (names n) ≡ ite (str_discrete tap x) true before

    undone : (n : N) → HasTap n → is_listed x (names (cleanup_tap_interface net tap n).1) ≡ before
    undone n h =
        ground (arith, cleanup_lem net names r tap x n (tap_name-ne-nil req.submission_id), fresh)

    finish-expected :
        (disk : Str) (reg : Registry) (b : Result HostError Booted × (N × D))
        → HasTap b.1.0
        → is_listed x (names (finish host req k ip disk b reg).2.0)
          ≡ expected req x before (finish host req k ip disk b reg).0
    unfolding finish
    finish-expected disk reg (err e, (n, d)) h = undone n h
    finish-expected disk reg (ok vm, (n, d)) h = h

    boot_machine-expected :
        (i : Result HostError Str × (N × D)) (reg : Registry)
        → HasTap i.1.0
        → is_listed x (names (boot_machine host req k ip i reg).2.0)
          ≡ expected req x before (boot_machine host req k ip i reg).0
    unfolding boot_machine
    boot_machine-expected (err e, (n, d)) reg h = undone n h
    boot_machine-expected (ok disk, (n, d)) reg h =
        finish-expected disk reg (host.boot _ (n, d)) (booted (create_and_boot_vm vmm _ d))
      where
        booted : (b : Result _ Booted × D) → HasTap (lift HostError.boot (b.0, (n, b.1))).1.0
        booted (ok vm, d') = h
        booted (err e, d') = h

  abbrev pub tap_config : SpawnRequest → TapConfig
  tap_config req = record {
    tap_name = tap_name_for_vm req.submission_id;
    bridge_name = codes "br0";
  }

  module _ (req : SpawnRequest) (k : ℕ) (ip x : Str) where
    made-expected :
        (n : N) (d : D) (reg : Registry) (s : Result NetworkError (Unit {0}) × N)
        → setup_tap_interface net (tap_config req) n ≡ s
        → is_listed x
            (names (make_disk host req k ip (lift HostError.network (s.0, (s.1, d))) reg).2.0)
          ≡ expected req x
              (is_listed x (names n))
              (make_disk host req k ip (lift HostError.network (s.0, (s.1, d))) reg).0
    unfolding make_disk
    made-expected n d reg (err e, n') h =
        subst (Leaves net names r (tap_config req) x (is_listed x (names n))) h
          (setup_tap_interface-Leaves net names r (tap_config req) x n)
    made-expected n d reg (ok _, n') h = disk (create_submission_image files script in_order _ d)
      where
        fresh : tap_name_for_vm req.submission_id ≡ x → is_listed x (names n) ≡ false
        fresh same =
            subst (λ t. is_listed t (names n) ≡ false) same
              (setup_tap_interface-fresh net names r (tap_config req) n (ap (λ y. y.0) h))

        has_tap :
            is_listed x (names n')
            ≡ ite (str_discrete (tap_name_for_vm req.submission_id) x) true (is_listed x (names n))
        has_tap =
            subst (Leaves net names r (tap_config req) x (is_listed x (names n))) h
              (setup_tap_interface-Leaves net names r (tap_config req) x n)

        disk :
            (i : Result _ Str × D)
            → is_listed x
                (names (boot_machine host req k ip (lift HostError.disk (i.0, (n', i.1))) reg).2.0)
              ≡ expected req x
                  (is_listed x (names n))
                  (boot_machine host req k ip (lift HostError.disk (i.0, (n', i.1))) reg).0
        disk (ok path, d') =
            boot_machine-expected req k ip x (is_listed x (names n)) fresh (ok path, (n', d')) reg
              has_tap
        disk (err e, d') =
            boot_machine-expected req k ip x (is_listed x (names n)) fresh
              (err (HostError.disk e), (n', d')) reg has_tap

  -- On a reliable host SpawnVM adds the machine's TAP interface if it reports a machine, and after
  -- every other reply, at whatever step it failed, the host has the interfaces it had before.
  pub spawn_vm-expected :
      (req : SpawnRequest) (reg : Registry) (x : Str) (w : N × D)
      → is_listed x (names (spawn_vm host req reg w).2.0)
        ≡ expected req x (is_listed x (names w.0)) (spawn_vm host req reg w).0
  unfolding spawn_vm provision
  spawn_vm-expected req reg x (n, d) = elim (Result-cases (validate_spawn_request req)) [
    | inr (e, h) ↦ rw (h, spawn_vm) refl
    | inl (u, h) ↦ elim (Result-cases (allocate req.submission_id reg)) [
      | inr (e, g) ↦ rw (h, g, spawn_vm) refl
      | inl ((k, ip), g) ↦ rw (h, g, spawn_vm) (made-expected req k ip x n d _ _ refl)
    ]
  ]

  stopped-interfaces :
      (id x : Str) (vm : ActiveVm) (reg : Registry) (n : N)
      (s : Option (Result HostError (Unit {0})) × D)
      → vm.tap_name ≢ []
      → (stopped host id vm (s.0, (n, s.1)) reg).0 ≡ torn_down
      → is_listed x (names (stopped host id vm (s.0, (n, s.1)) reg).2.0)
        ≡ ite (str_discrete vm.tap_name x) false (is_listed x (names n))
  unfolding stopped
  stopped-interfaces id x vm reg n (none, d) ne h = absurd (cc)
  stopped-interfaces id x vm reg n (some (err e), d) ne h = absurd (cc)
  stopped-interfaces id x vm reg n (some (ok _), d) ne h =
      (cleanup_lem net names r vm.tap_name x n ne).0

  -- On a reliable host a teardown of a machine that SpawnVM reported, if it succeeds, takes the
  -- machine's TAP interface away and no other, whatever happened in between.
  teardown_vm-interfaces :
      (req : SpawnRequest) (reg reg' : Registry) (resp : SpawnResponse) (x : Str)
      (w w' later : N × D)
      → spawn_vm host req reg w ≡ (spawned resp, reg', w')
      → (teardown_vm host resp.vm_id reg' later).0 ≡ torn_down
      → is_listed x (names (teardown_vm host resp.vm_id reg' later).2.0)
        ≡ ite
            (str_discrete (tap_name_for_vm req.submission_id) x)
            false
            (is_listed x (names later.0))
  teardown_vm-interfaces req reg reg' resp x w w' (n, d) e done =
      let (new, named, sub, free, (vm, here, made, addr, sock, tapped), others) =
        subst (Spawns host req reg) e (spawn_vm-Spawns host req reg w) in
      let found : teardown_vm host resp.vm_id reg' (n, d)
          ≡ stopped host req.submission_id vm (host.stop_vmm vm.machine (n, d)) reg' =
        rw named (teardown_vm-found host req.submission_id vm reg' (n, d) here) in
      let there =
        stopped-interfaces req.submission_id x vm reg' n (stop_vmm vm.machine d)
          (λ nil. tap_name-ne-nil req.submission_id (sym tapped ∙ nil))
          (sym (ap (λ y. y.0) found) ∙ done) in
      ap (λ (y : TeardownReply HostError × Registry × (N × D)). is_listed x (names y.2.0)) found
      ∙ there
      ∙ ap (λ t. ite (str_discrete t x) false (is_listed x (names n))) tapped
