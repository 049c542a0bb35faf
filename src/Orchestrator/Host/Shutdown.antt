-- ===== src/Orchestrator/Host/Shutdown.antt =====
-- The whole life of the server on a host: what the cleanup at its end leaves there.
use hft_bench.Prelude.{
  ℕ, ◌≡◌, ◌≢◌, refl, sym, ◌∙◌, Bool, true, false, Option, none, some, List, [], ◌∷◌, Result, ite,
  if_pos, arith,
}
use hft_bench.Prelude.Text.{Str, str_discrete}
use hft_bench.Prelude.Dict.{lookup, IsDistinct, delete, lookup-delete}
use hft_bench.Orchestrator.Network.{Net}
use hft_bench.Orchestrator.Network.Cleanup.{IsReliable, cleanup_lem}
use hft_bench.Orchestrator.Disk.{DiskHost}
use hft_bench.Orchestrator.Vmm.{Vmm}
use hft_bench.Orchestrator.Provisioner.{Provisioner}
use hft_bench.Orchestrator.Server.{ActiveVm, Registry, shut_down, shutdown_all_vms}
use hft_bench.Orchestrator.Server.Calls.{Call, serve, IsSettled, serve-IsSettled}
use hft_bench.Orchestrator.Server.Process.{complete, signalled, run_server}
use hft_bench.Orchestrator.Host.{HostError, assemble}
use hft_bench.Orchestrator.Host.Interfaces.{tap_name-ne-nil}
use hft_bench.Orchestrator.Host.Tidy.{none-ne-some, has, IsTidy, less-IsTidy}
use hft_bench.Orchestrator.Host.Lifetime.{serve-IsTidy}

-- StopVMM returns for every machine that has booted, with an error or without.
abbrev pub StopReturns :
    {D : Type 0} → (Option ℕ → D → Option (Result HostError (Unit {0})) × D) → Type 0
StopReturns {D} stop_vmm = (m : ℕ) (d : D) → (stop_vmm (some m) d).0 ≢ none

-- A `range` over a map gives each of its entries once.
abbrev pub Ranges : (Registry → Registry) → Type 0
Ranges order =
    (reg : Registry)
    → IsDistinct reg
    → IsDistinct (order reg) × ((j : Str) → lookup j (order reg) ≡ lookup j reg)

module _ {N D : Type 0} (net : Net N) (names : N → List Str) (r : IsReliable net names)
    (files : DiskHost D) (vmm : Vmm D) (script : Str) (in_order : Bool)
    (stop_vmm : Option ℕ → D → Option (Result HostError (Unit {0})) × D)
    (returns : StopReturns stop_vmm) where
  abbrev host : Provisioner (N × D) HostError
  host = assemble net files vmm script in_order stop_vmm

  stop-ne-none : (o : Option ℕ) (d : D) → o ≢ none → (stop_vmm o d).0 ≢ none
  stop-ne-none none d booted = λ e. booted refl
  stop-ne-none (some m) d booted = returns m d

  -- One machine is cleared away, and its interface with it.
  abbrev Clears : ActiveVm → N → Option (N × D) → Type 0
  Clears vm n out =
      (w : N × D) × (out ≡ some w)
      × ((x : Str) → has names x w.0 ≡ ite (str_discrete vm.tap_name x) false (has names x n))

  shut_down-Clears :
      (vm : ActiveVm) (n : N) (s : Option (Result HostError (Unit {0})) × D)
      → s.0 ≢ none
      → vm.tap_name ≢ []
      → Clears vm n (shut_down host vm (s.0, (n, s.1)))
  unfolding shut_down
  shut_down-Clears vm n (none, d) stops named = absurd (stops refl)
  shut_down-Clears vm n (some x, d) stops named =
      (_, refl, λ x. (cleanup_lem net names r vm.tap_name x n named).0)

  -- What the loop of shutdownAllVMs does, while the registry holds the entries that are left.
  abbrev Empties : (Str → Bool) → Registry → Registry → N → D → Type 0
  Empties base rest reg n d =
      (reg' : Registry) × (w : N × D) × (shutdown_all_vms host rest reg (n, d) ≡ some (reg', w))
      × ((j : Str) → lookup j reg' ≡ none)
      × IsTidy names base reg' w.0

  shutdown-Empties :
      (base : Str → Bool) (rest reg : Registry) (n : N) (d : D)
      → IsSettled rest
      → ((j : Str) → lookup j reg ≡ lookup j rest)
      → IsTidy names base reg n
      → Empties base rest reg n d
  unfolding shutdown_all_vms lookup
  shutdown-Empties base [] reg n d v same t = (reg, (n, d), refl, same, t)
  shutdown-Empties base ((i, vm) ∷ rest) reg n d v same t =
      let here : lookup i reg ≡ some vm = same i ∙ found in
      let (w, e, gone) =
        shut_down-Clears vm n (stop_vmm vm.machine d)
          (stop-ne-none vm.machine d (v.booted i vm found))
          (λ nil. tap_name-ne-nil i (sym (t.named i vm here) ∙ nil)) in
      let (reg', w', e', empty, t') =
        shutdown-Empties base rest (delete i reg) w.0 w.1
          (record { distinct = v.distinct.1; booted = λ j u f. v.booted j u (later j u f) })
          (λ j. ground (arith, lookup-delete j i reg, same j, v.distinct.0))
          (less-IsTidy names base i vm reg n w.0 here gone t) in
      (reg', w', rw (e, shutdown_all_vms) e', empty, t')
    where
      found : lookup i ((i, vm) ∷ rest) ≡ some vm
      found = if_pos (str_discrete i i) refl (some vm) (lookup i rest)

      later : (j : Str) (u : ActiveVm) → lookup j rest ≡ some u → lookup j ((i, vm) ∷ rest) ≡ some u
      later j u f = ground (arith, v.distinct.0)

  -- On a reliable host where StopVMM returns for every machine that has booted, the server that
  -- listens, serves its calls one after the other and then is signalled ends without a panic,
  -- whichever of the calls' steps failed, StopVMM included, and in whatever order the range gives the
  -- machines: no machine is registered then, and the host has exactly the TAP interfaces that it had
  -- before the process started. Calls that overlap are not covered.
  pub run_server-Restores :
      (order : Registry → Registry) (calls : List Call) (n : N) (d : D)
      → Ranges order
      → (reg : Registry) × (w : N × D) × (run_server host order true calls signalled (n, d)
          ≡ complete reg w)
        × ((j : Str) → lookup j reg ≡ none)
        × ((x : Str) → has names x w.0 ≡ has names x n)
  unfolding run_server lookup
  run_server-Restores order calls n d ranges =
      let (reg, (n', d')) = serve host calls [] (n, d) in
      let v =
        serve-IsSettled host calls [] (n, d)
          (record { distinct = tt; booted = λ j vm f. absurd (none-ne-some f) }) in
      let (apart, same) = ranges reg v.distinct in
      let (reg', w, e, empty, t) =
        shutdown-Empties (λ x. has names x n) (order reg) reg n' d'
          (record { distinct = apart; booted = λ j vm f. v.booted j vm (sym (same j) ∙ f) })
          (λ j. sym (same j))
          (serve-IsTidy net names r files vmm script in_order stop_vmm calls n d) in
      (
        reg',
        w,
        rw e refl,
        empty,
        λ x. t.others x (λ j vm f. absurd (none-ne-some (sym (empty j) ∙ f))),
      )
