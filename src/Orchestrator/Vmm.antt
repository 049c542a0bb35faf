-- ===== src/Orchestrator/Vmm.antt =====
-- CreateAndBootVM and validateConfig of services/sandbox-orchestrator/firecracker.go. The Firecracker
-- SDK and the removal of sockets are a parameter. Pinning the process to cores and its cgroup are
-- best-effort steps whose errors are only logged; they are one call of the parameter here, which
-- Orchestrator/Hardening defines.
pub mod Boot
use hft_bench.Prelude.{
  ℕ, Bool, true, false, Option, none, some, List, [], ◌∷◌, ◌++◌, if◌then◌else◌, Result, ok, err,
  fail_if, ◌>>◌,
}
use hft_bench.Prelude.Int.{ℤ, pos, leb_ℤ}
use hft_bench.Prelude.Text.{Str, codes, is_empty}
use hft_bench.Prelude.FilePath.{join_path}
use hft_bench.Orchestrator.Address.{dynamic_mac}
use hft_bench.Orchestrator.Provisioner.{VmConfig, Booted}

pub data BootError : Type 0 where
  vm_id_required vcpu_count_not_positive memory_mib_not_positive : BootError
  kernel_image_path_required firecracker_bin_required socket_dir_required : BootError
  stale_socket_failed create_failed start_failed boot_timeout : BootError

-- firecracker.Config, by the fields that vary
pub record MachineConfig : Type 0 where
  pub socket_path : Str
  pub kernel_image_path : Str
  pub submission_disk : Str
  pub mac_address : Str
  pub host_dev_name : Str
  pub vsock_path : Str
  pub cid : ℕ
  pub vcpu_count : ℤ
  pub mem_size_mib : ℤ
  -- the `ip=` argument of the kernel
  pub ip_argument : Str

-- What `select` meets first: machine.Start returns, or the boot context is done.
pub data Started : Type 0 where
  started start_refused timed_out : Started

pub record Vmm (W : Type 0) : Type 0 where
  -- os.Remove: whether the file is gone, so also where it did not exist
  pub remove : Str → W → Bool × W
  -- firecracker.NewMachine with the command of the binary
  pub new_machine : Str → MachineConfig → W → Option ℕ × W
  pub start : ℕ → W → Started × W
  -- machine.StopVMM
  pub stop : ℕ → W → W
  -- pinFirecrackerProcess and applyCgroupLimits
  pub harden : ℕ → Str → W → W

-- validateConfig
unfoldable pub validate_config : VmConfig → Result BootError (Unit {0})
validate_config cfg = do
  fail_if (is_empty cfg.vm_id) vm_id_required
  fail_if (leb_ℤ cfg.vcpu_count (pos 0)) vcpu_count_not_positive
  fail_if (leb_ℤ cfg.memory_mib (pos 0)) memory_mib_not_positive
  fail_if (is_empty cfg.kernel_image_path) kernel_image_path_required
  fail_if (is_empty cfg.firecracker_bin) firecracker_bin_required
  fail_if (is_empty cfg.socket_dir) socket_dir_required

abbrev pub vsock_path_of : VmConfig → Str
vsock_path_of cfg = join_path cfg.socket_dir (codes "vsock-" ++ cfg.vm_id ++ codes ".sock")

abbrev pub socket_path_of : VmConfig → Str
socket_path_of cfg = join_path cfg.socket_dir (codes "firecracker-" ++ cfg.vm_id ++ codes ".sock")

-- fcCfg
unfoldable pub machine_config : VmConfig → MachineConfig
machine_config cfg = record {
  socket_path = socket_path_of cfg;
  kernel_image_path = cfg.kernel_image_path;
  submission_disk = cfg.submission_disk;
  mac_address = dynamic_mac cfg.allocated_ip;
  host_dev_name = cfg.tap_name;
  vsock_path = vsock_path_of cfg;
  cid = cfg.cid;
  vcpu_count = cfg.vcpu_count;
  mem_size_mib = cfg.memory_mib;
  ip_argument =
      codes "ip="
      ++ cfg.allocated_ip
      ++ codes "::172.16.0.1:255.255.255.0:microvm-"
      ++ cfg.vm_id
      ++ codes ":eth0:off";
}

module _ {W : Type 0} (vmm : Vmm W) where
  open vmm use {remove, new_machine, start, stop, harden}

  -- After machine.Start, or the timeout, which stops the machine
  after_start : VmConfig → ℕ → Started × W → Result BootError Booted × W
  after_start cfg machine (start_refused, w) = (err start_failed, w)
  after_start cfg machine (timed_out, w) = (err boot_timeout, stop machine w)
  after_start cfg machine (started, w) = (
    ok (record { machine = machine; vsock_path = vsock_path_of cfg }),
    harden machine cfg.vm_id w,
  )

  start_machine : VmConfig → Option ℕ × W → Result BootError Booted × W
  start_machine cfg (none, w) = (err create_failed, w)
  start_machine cfg (some machine, w) = after_start cfg machine (start machine w)

  -- After the removal of the API socket of an earlier process
  socket_removed : VmConfig → Bool × W → Result BootError Booted × W
  socket_removed cfg (false, w) = (err stale_socket_failed, w)
  socket_removed cfg (true, w) =
      start_machine cfg (new_machine cfg.firecracker_bin (machine_config cfg) w)

  -- CreateAndBootVM
  unfoldable pub create_and_boot_vm : VmConfig → W → Result BootError Booted × W
  unfolding socket_removed start_machine after_start
  create_and_boot_vm cfg w = elim (validate_config cfg) [
    | err e ↦ (err e, w)
    | ok _ ↦ socket_removed cfg (remove (socket_path_of cfg) (remove (vsock_path_of cfg) w).1)
  ]
