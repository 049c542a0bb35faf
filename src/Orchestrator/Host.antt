-- ===== src/Orchestrator/Host.antt =====
-- The handlers of main.go over the functions that they call: network.go on the interfaces, disk.go
-- and firecracker.go on the rest of the host. The two parts of the world are apart, since no
-- command on the files or on a machine makes or removes an interface.
pub mod Interfaces
pub mod Tidy
pub mod Lifetime
pub mod Shutdown
use hft_bench.Prelude.{ℕ, Bool, Option, none, some, Result, ok, err}
use hft_bench.Prelude.Text.{Str}
use hft_bench.Orchestrator.Network.{
  TapConfig, Net, NetworkError, setup_tap_interface, cleanup_tap_interface,
}
use hft_bench.Orchestrator.Disk.{
  DiskHost, DiskError, create_submission_image, cleanup_submission_image,
}
use hft_bench.Orchestrator.Vmm.{Vmm, BootError, create_and_boot_vm}
use hft_bench.Orchestrator.Provisioner.{Provisioner}

pub data HostError : Type 0 where
  network : NetworkError → HostError
  disk : DiskError → HostError
  boot : BootError → HostError
  -- an error of the SDK's StopVMM
  stop : HostError

-- An error of a part is one of the host.
abbrev pub lift :
    {E A N D : Type 0} → (E → HostError) → Result E A × (N × D) → Result HostError A × (N × D)
lift wrap (ok a, w) = (ok a, w)
lift wrap (err e, w) = (err (wrap e), w)

module _ {N D : Type 0} where
  -- A call on one of the two parts.
  abbrev pub on_net : {A : Type 0} → (N → A × N) → N × D → A × (N × D)
  on_net call (n, d) = let (a, n') = call n in (a, (n', d))

  abbrev pub on_rest : {A : Type 0} → (D → A × D) → N × D → A × (N × D)
  on_rest call (n, d) = let (a, d') = call d in (a, (n, d'))

  -- What main.go calls. The text of the guest script, the order of a range over two files and the
  -- SDK's StopVMM are parameters.
  abbrev pub assemble :
      Net N
      → DiskHost D
      → Vmm D
      → Str
      → Bool
      → (Option ℕ → D → Option (Result HostError (Unit {0})) × D)
      → Provisioner (N × D) HostError
  assemble net files vmm script in_order stop_vmm = record {
    setup_tap = λ cfg w. lift network (on_net (setup_tap_interface net cfg) w);
    cleanup_tap = λ tap w. (on_net (cleanup_tap_interface net tap) w).1;
    create_image =
        λ cfg w. lift disk (on_rest (create_submission_image files script in_order cfg) w);
    cleanup_image = λ path w. (on_rest (cleanup_submission_image files script in_order path) w).1;
    boot = λ cfg w. lift boot (on_rest (create_and_boot_vm vmm cfg) w);
    stop_vmm = λ machine w. on_rest (stop_vmm machine) w;
  }
