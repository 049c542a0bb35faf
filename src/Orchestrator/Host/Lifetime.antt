-- ===== src/Orchestrator/Host/Lifetime.antt =====
-- Which TAP interfaces the host has after any calls of the server.
use hft_bench.Prelude.{
  ℕ, ◌≡◌, ◌≢◌, refl, sym, ap, ◌∙◌, subst, Bool, false, Option, none, some, List, [], ◌∷◌, ite,
  Result, ok, err, Option-cases, Result-cases, ◌⊎◌, inl, inr,
}
use hft_bench.Prelude.Text.{Str, codes, str_discrete, trim_prefix}
use hft_bench.Prelude.Dict.{lookup, delete}
use hft_bench.Orchestrator.TapName.{tap_name_for_vm}
use hft_bench.Orchestrator.Network.{Net, NetworkError, setup_tap_interface}
use hft_bench.Orchestrator.Network.Cleanup.{IsReliable, setup_tap_interface-fresh, cleanup_lem}
use hft_bench.Orchestrator.Disk.{DiskHost}
use hft_bench.Orchestrator.Vmm.{Vmm}
use hft_bench.Orchestrator.Provisioner.{Provisioner}
use hft_bench.Orchestrator.Server.{
  ActiveVm, Registry, SpawnRequest, SpawnReply, SpawnResponse, spawned, invalid_argument,
  not_reserved, network_failed, disk_failed, boot_failed, TeardownReply, allocate,
  validate_spawn_request, make_disk, provision, spawn_vm, stopped, teardown_vm,
}
use hft_bench.Orchestrator.Server.Handlers.{Spawns, spawn_vm-Spawns}
use hft_bench.Orchestrator.Server.Calls.{Call, spawn, teardown, handle, serve}
use hft_bench.Orchestrator.Host.{HostError, network, assemble, lift}
use hft_bench.Orchestrator.Host.Interfaces.{
  tap_name-ne-nil, expected, spawn_vm-expected, tap_config,
}
use hft_bench.Orchestrator.Host.Tidy.{has, IsTidy, same-IsTidy, more-IsTidy, less-IsTidy}

module _ {N D : Type 0} (net : Net N) (names : N → List Str) (r : IsReliable net names)
    (files : DiskHost D) (vmm : Vmm D) (script : Str) (in_order : Bool)
    (stop_vmm : Option ℕ → D → Option (Result HostError (Unit {0})) × D) where
  abbrev host : Provisioner (N × D) HostError
  host = assemble net files vmm script in_order stop_vmm

  made-fresh :
      (req : SpawnRequest) (k : ℕ) (ip : Str) (n : N) (d : D) (reg : Registry)
      (resp : SpawnResponse) (s : Result NetworkError (Unit {0}) × N)
      → setup_tap_interface net (tap_config net names r files vmm script in_order stop_vmm req) n
        ≡ s
      → (make_disk host req k ip (lift network (s.0, (s.1, d))) reg).0 ≡ spawned resp
      → has names (tap_name_for_vm req.submission_id) n ≡ false
  unfolding make_disk
  made-fresh req k ip n d reg resp (err e, n') h done = absurd (cc)
  made-fresh req k ip n d reg resp (ok _, n') h done =
      setup_tap_interface-fresh net names r _ n
        (ap (λ (y : Result NetworkError (Unit {0}) × N). y.0) h)

  -- Where SpawnVM reports a machine, its interface did not exist.
  spawn_vm-fresh :
      (req : SpawnRequest) (reg : Registry) (resp : SpawnResponse) (n : N) (d : D)
      → (spawn_vm host req reg (n, d)).0 ≡ spawned resp
      → has names (tap_name_for_vm req.submission_id) n ≡ false
  unfolding spawn_vm provision
  spawn_vm-fresh req reg resp n d = elim (Result-cases (validate_spawn_request req)) [
    | inr (e, h) ↦ rw (h, spawn_vm) (λ e. absurd (cc))
    | inl (u, h) ↦ elim (Result-cases (allocate req.submission_id reg)) [
      | inr (e, g) ↦ rw (h, g, spawn_vm) (λ e. absurd (cc))
      | inl ((k, ip), g) ↦ rw (h, g, spawn_vm) (made-fresh req k ip n d _ resp _ refl)
    ]
  ]

  -- What a teardown may do: nothing to the registry and to the interfaces, or it takes a machine out
  -- of both.
  abbrev TearsDown : Registry → N → TeardownReply HostError × Registry × (N × D) → Type 0
  TearsDown reg n out =
      ((out.1 ≡ reg) × ((x : Str) → has names x out.2.0 ≡ has names x n))
      ⊎ ((id : Str) × (vm : ActiveVm) × (lookup id reg ≡ some vm)
          × (out.1 ≡ delete id reg)
          × (vm.tap_name ≢ []
              → (x : Str)
              → has names x out.2.0 ≡ ite (str_discrete vm.tap_name x) false (has names x n)))

  stopped-TearsDown :
      (id : Str) (vm : ActiveVm) (reg : Registry) (n : N)
      (s : Option (Result HostError (Unit {0})) × D)
      → lookup id reg ≡ some vm
      → TearsDown reg n (stopped host id vm (s.0, (n, s.1)) reg)
  unfolding stopped
  stopped-TearsDown id vm reg n (none, d) here = inl (refl, λ x. refl)
  stopped-TearsDown id vm reg n (some (err e), d) here = inl (refl, λ x. refl)
  stopped-TearsDown id vm reg n (some (ok _), d) here =
      inr (id, vm, here, refl, λ ne x. (cleanup_lem net names r vm.tap_name x n ne).0)

  teardown_vm-TearsDown :
      (s : Str) (reg : Registry) (n : N) (d : D) → TearsDown reg n (teardown_vm host s reg (n, d))
  unfolding teardown_vm
  teardown_vm-TearsDown [] reg n d = inl (refl, λ x. refl)
  teardown_vm-TearsDown (c ∷ s) reg n d =
      elim (Option-cases (lookup (trim_prefix (c ∷ s) (codes "vm-")) reg)) [
        | inl e ↦ rw (e, teardown_vm) (inl (refl, λ x. refl))
        | inr (vm, e) ↦
            rw (e, teardown_vm)
              (stopped-TearsDown (trim_prefix (c ∷ s) (codes "vm-")) vm reg n
                (stop_vmm vm.machine d) e)
      ]

  module _ (base : Str → Bool) (req : SpawnRequest) (reg : Registry) (n : N) (d : D)
      (t : IsTidy names base reg n) where
    -- What SpawnVM leaves, on each of its replies.
    spawned-IsTidy :
        (o : SpawnReply HostError × Registry × (N × D))
        → spawn_vm host req reg (n, d) ≡ o
        → Spawns host req reg o
        → ((x : Str)
            → has names x o.2.0
              ≡ expected net names r files vmm script in_order stop_vmm req x (has names x n) o.0)
        → IsTidy names base o.1 o.2.0
    spawned-IsTidy (spawned resp, reg', (n', d')) e
          (new, named, sub, free, (vm, here, made, addr, sock, tapped), others) h =
        more-IsTidy names base req.submission_id vm reg reg' n n' new here tapped others
          (spawn_vm-fresh req reg resp n d
            (ap (λ (y : SpawnReply HostError × Registry × (N × D)). y.0) e))
          h t
    spawned-IsTidy (invalid_argument x, reg', (n', d')) e same h =
        same-IsTidy names base reg reg' n n' same h t
    spawned-IsTidy (not_reserved x, reg', (n', d')) e same h =
        same-IsTidy names base reg reg' n n' same h t
    spawned-IsTidy (network_failed x, reg', (n', d')) e same h =
        same-IsTidy names base reg reg' n n' same h t
    spawned-IsTidy (disk_failed x, reg', (n', d')) e same h =
        same-IsTidy names base reg reg' n n' same h t
    spawned-IsTidy (boot_failed x, reg', (n', d')) e same h =
        same-IsTidy names base reg reg' n n' same h t

  teardown-IsTidy :
      (base : Str → Bool) (reg : Registry) (n : N)
      (out : TeardownReply HostError × Registry × (N × D))
      → IsTidy names base reg n
      → TearsDown reg n out
      → IsTidy names base out.1 out.2.0
  teardown-IsTidy base reg n out t (inl (e, h)) =
      same-IsTidy names base reg out.1 n out.2.0 (λ j. ap (lookup j) e) h t
  teardown-IsTidy base reg n out t (inr (id, vm, here, e, h)) =
      subst (λ g. IsTidy names base g out.2.0) (sym e)
        (less-IsTidy names base id vm reg n out.2.0 here
          (h (λ nil. tap_name-ne-nil id (sym (t.named id vm here) ∙ nil))) t)

  handle-IsTidy :
      (base : Str → Bool) (call : Call) (reg : Registry) (n : N) (d : D)
      → IsTidy names base reg n
      → IsTidy names base (handle host call reg (n, d)).0 (handle host call reg (n, d)).1.0
  handle-IsTidy base (spawn req) reg n d t =
      spawned-IsTidy base req reg n d t (spawn_vm host req reg (n, d)) refl
        (spawn_vm-Spawns host req reg (n, d))
        (λ x. spawn_vm-expected net names r files vmm script in_order stop_vmm req reg x (n, d))
  handle-IsTidy base (teardown vm_id) reg n d t =
      teardown-IsTidy base reg n (teardown_vm host vm_id reg (n, d)) t
        (teardown_vm-TearsDown vm_id reg n d)

  serve_from :
      (base : Str → Bool) (calls : List Call) (reg : Registry) (n : N) (d : D)
      → IsTidy names base reg n
      → IsTidy names base (serve host calls reg (n, d)).0 (serve host calls reg (n, d)).1.0
  unfolding serve
  serve_from base [] reg n d t = t
  serve_from base (call ∷ calls) reg n d t =
      let (reg', (n', d')) = handle host call reg (n, d) in
      serve_from base calls reg' n' d' (handle-IsTidy base call reg n d t)

  -- On a reliable host, after any calls of SpawnVM and TeardownVM, one after the other on a server
  -- that starts empty, and whichever of their steps fail or panic: each registered machine has a
  -- TAP interface of its own, which was not on the host at the start, and every other interface is
  -- there exactly if it was there at the start.
  pub serve-IsTidy :
      (calls : List Call) (n : N) (d : D)
      → IsTidy names
          (λ x. has names x n)
          (serve host calls [] (n, d)).0
          (serve host calls [] (n, d)).1.0
  unfolding lookup
  serve-IsTidy calls n d = serve_from (λ x. has names x n) calls [] n d none_yet
    where
      none_yet : IsTidy names (λ x. has names x n) [] n
      none_yet = record {
        named = λ j vm f. absurd (cc);
        new = λ j vm f. absurd (cc);
        apart = λ j k vm vm' f g e. absurd (cc);
        there = λ j vm f. absurd (cc);
        others = λ x free_of. refl;
      }
