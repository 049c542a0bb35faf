-- ===== src/Orchestrator/Provisioner.antt =====
-- What the gRPC handlers of services/sandbox-orchestrator/main.go call to prepare and remove a
-- machine's parts of the host: SetupTapInterface, CleanupTapInterface (network.go),
-- CreateSubmissionImage, CleanupSubmissionImage (disk.go), CreateAndBootVM (firecracker.go) and
-- `StopVMM` of the Firecracker SDK. `W` is the host, `E` the type of their errors.
use hft_bench.Prelude.{ℕ, Option, Result}
use hft_bench.Prelude.Int.{ℤ}
use hft_bench.Prelude.Text.{Str}
use hft_bench.Orchestrator.Network.{TapConfig}

-- SubmissionImageConfig
pub record ImageConfig : Type 0 where
  pub submission_id : Str
  pub strategy_path : Str

-- VMConfig; `VsockPath` is what the boot sets.
pub record VmConfig : Type 0 where
  pub vm_id : Str
  pub vcpu_count : ℤ
  pub memory_mib : ℤ
  pub kernel_image_path : Str
  pub firecracker_bin : Str
  pub socket_dir : Str
  pub tap_name : Str
  pub allocated_ip : Str
  pub submission_disk : Str
  pub cid : ℕ

-- A booted machine, and the host-side path of its VSOCK device.
pub record Booted : Type 0 where
  pub machine : ℕ
  pub vsock_path : Str

pub record Provisioner (W E : Type 0) : Type 0 where
  pub setup_tap : TapConfig → W → Result E (Unit {0}) × W
  pub cleanup_tap : Str → W → W
  pub create_image : ImageConfig → W → Result E Str × W
  pub cleanup_image : Str → W → W
  pub boot : VmConfig → W → Result E Booted × W
  -- `Machine.StopVMM()`, which is also called on a nil machine. `none` is a panic.
  pub stop_vmm : Option ℕ → W → Option (Result E (Unit {0})) × W
