-- ===== src/Orchestrator/Vmm/Boot.antt =====
-- What CreateAndBootVM does for the configurations that SpawnVM makes.
use hft_bench.Prelude.{
  ℕ, ◌≡◌, ◌⊎◌, inl, inr, refl, Bool, true, false, Option, none, some, arith, Result, ok, err,
}
use hft_bench.Prelude.Text.{Str}
use hft_bench.Orchestrator.Provisioner.{Provisioner, VmConfig, Booted}
use hft_bench.Orchestrator.Server.{SpawnRequest, validate_spawn_request, vm_config}
use hft_bench.Orchestrator.Vmm.{
  BootError, stale_socket_failed, create_failed, start_failed, boot_timeout, Started, started,
  start_refused, timed_out, Vmm, validate_config, vsock_path_of, socket_path_of, machine_config,
  after_start, start_machine, socket_removed, create_and_boot_vm,
}

-- What SpawnVM accepts, validateConfig accepts.
validate_config-vm_config :
    {W E : Type 0} (host : Provisioner W E) (req : SpawnRequest) (index : ℕ) (ip disk : Str)
    → validate_spawn_request req ≡ ok tt
    → validate_config (vm_config host req index ip disk) ≡ ok tt
unfolding validate_spawn_request validate_config
validate_config-vm_config host req index ip disk h = ground arith

module _ {W : Type 0} (vmm : Vmm W) (cfg : VmConfig) where
  -- The machine that boots and where it is reached.
  abbrev booted_of : ℕ → Booted
  booted_of machine = record { machine = machine; vsock_path = vsock_path_of cfg }

  -- The answer for a machine, from what its start answered and the state after it.
  abbrev pub Ends : ℕ → Started × W → Result BootError Booted × W → Type 0
  Ends machine (answer, after) out =
      ((answer ≡ start_refused) × (out ≡ (err start_failed, after)))
      ⊎ (((answer ≡ timed_out) × (out ≡ (err boot_timeout, vmm.stop machine after)))
          ⊎ ((answer ≡ started)
              × (out ≡ (ok (booted_of machine), vmm.harden machine cfg.vm_id after))))

  -- How a boot ends, from `w`: both sockets are removed, a machine is made of the configuration in
  -- the state after that, and this machine is started in the state after it was made.
  abbrev pub Boots : W → Result BootError Booted × W → Type 0
  Boots w out =
      let removed = vmm.remove (socket_path_of cfg) (vmm.remove (vsock_path_of cfg) w).1 in
      let made = vmm.new_machine cfg.firecracker_bin (machine_config cfg) removed.1 in
      ((removed.0 ≡ false) × (out ≡ (err stale_socket_failed, removed.1)))
      ⊎ (((removed.0 ≡ true) × (made.0 ≡ none) × (out ≡ (err create_failed, made.1)))
          ⊎ ((removed.0 ≡ true)
              × ((machine : ℕ) × (made.0 ≡ some machine)
                  × Ends machine (vmm.start machine made.1) out)))

  after_start-Ends :
      (machine : ℕ) (s : Started × W) → Ends machine s (after_start vmm cfg machine s)
  unfolding after_start
  after_start-Ends machine (start_refused, after) = inl (refl, refl)
  after_start-Ends machine (timed_out, after) = inr (inl (refl, refl))
  after_start-Ends machine (started, after) = inr (inr (refl, refl))

  -- The machine that was made, or none
  abbrev Starts : Option ℕ × W → Result BootError Booted × W → Type 0
  Starts made out =
      ((made.0 ≡ none) × (out ≡ (err create_failed, made.1)))
      ⊎ ((machine : ℕ) × (made.0 ≡ some machine) × Ends machine (vmm.start machine made.1) out)

  start_machine-Starts : (m : Option ℕ × W) → Starts m (start_machine vmm cfg m)
  unfolding start_machine
  start_machine-Starts (none, w) = inl (refl, refl)
  start_machine-Starts (some machine, w) =
      inr (machine, refl, after_start-Ends machine (vmm.start machine w))

  -- After the sockets
  abbrev Removes : Bool × W → Result BootError Booted × W → Type 0
  Removes removed out =
      let made = vmm.new_machine cfg.firecracker_bin (machine_config cfg) removed.1 in
      ((removed.0 ≡ false) × (out ≡ (err stale_socket_failed, removed.1)))
      ⊎ (((removed.0 ≡ true) × (made.0 ≡ none) × (out ≡ (err create_failed, made.1)))
          ⊎ ((removed.0 ≡ true)
              × ((machine : ℕ) × (made.0 ≡ some machine)
                  × Ends machine (vmm.start machine made.1) out)))

  socket_removed-Removes : (r : Bool × W) → Removes r (socket_removed vmm cfg r)
  unfolding socket_removed
  socket_removed-Removes (false, w) = inl (refl, refl)
  socket_removed-Removes (true, w) =
      elim (start_machine-Starts (vmm.new_machine cfg.firecracker_bin (machine_config cfg) w)) [
        | inl (e, out) ↦ inr (inl (refl, e, out))
        | inr (machine, e, ends) ↦ inr (inr (refl, (machine, e, ends)))
      ]

-- For a request that SpawnVM accepts, CreateAndBootVM never refuses the configuration. It removes
-- both sockets and answers an error if the second one cannot be removed; then it makes a machine of
-- the configuration and answers an error if there is none; then it starts that machine. If the
-- start is refused it answers start_failed, if it times out it stops the machine and answers
-- boot_timeout, and only if it succeeds it hardens the machine and answers it, with the VSOCK path
-- of the configuration.
pub create_and_boot_vm-Boots :
    {W E : Type 0} (host : Provisioner W E) (vmm : Vmm W) (req : SpawnRequest) (index : ℕ)
    (ip disk : Str) (w : W)
    → validate_spawn_request req ≡ ok tt
    → Boots vmm
        (vm_config host req index ip disk)
        w
        (create_and_boot_vm vmm (vm_config host req index ip disk) w)
unfolding create_and_boot_vm
create_and_boot_vm-Boots host vmm req index ip disk w h =
    rw (validate_config-vm_config host req index ip disk h, create_and_boot_vm)
      (socket_removed-Removes vmm (vm_config host req index ip disk) _)
