-- ===== src/Quota.antt =====
-- sandbox/quota.go: the cgroup of a machine. The cgroup file system is a parameter.
pub mod Paths
pub mod Limits
use hft_bench.Prelude.{
  ℕ, suc, ◌-◌, ◌*◌, ◌^◌, ◌%◌, Bool, true, false, List, [], ◌∷◌, ◌++◌, if◌then◌else◌, Result, ok,
  err, fail_if, ◌>>◌,
}
use hft_bench.Prelude.Int.{ℤ, pos, negsuc, ltb_ℤ, leb_ℤ, to_int64}
use hft_bench.Prelude.Text.{Str, codes, is_empty, trim_space}
use hft_bench.Prelude.Digits.{decimal}
use hft_bench.Prelude.FilePath.{join_path}

pub record SandboxLimits : Type 0 where
  pub vm_id : Str
  pub memory_max_mib : ℤ
  pub vcpu_count : ℤ

pub data QuotaError : Type 0 where
  vm_id_required memory_too_small vcpu_count_not_positive vcpu_count_too_large invalid_pid :
      QuotaError
  mkdir_failed memory_failed swap_failed cpu_failed attach_failed check_failed remove_failed :
      QuotaError

-- os.Stat: there, not there, or another error
pub data StatResult : Type 0 where
  exists missing stat_failed : StatResult

pub record Cgroups (W : Type 0) : Type 0 where
  -- whether the call succeeded
  pub mkdir_all : Str → W → Bool × W
  pub write_file : Str → Str → W → Bool × W
  pub stat : Str → W → StatResult
  pub remove : Str → W → Bool × W

-- cgroupRoot
abbrev pub cgroup_root : Str
cgroup_root = codes "/sys/fs/cgroup/sandbox"

-- The 64 bits of an `int64`, as a number.
abbrev pub unsigned : ℤ → ℕ
unsigned (pos n) = n % 2 ^ 64
unsigned (negsuc n) = 2 ^ 64 - 1 - n % 2 ^ 64

-- A product of two `int64`, the second one a constant, wraps around.
unfoldable pub times : ℤ → ℕ → ℤ
times n k = to_int64 (unsigned n * k % 2 ^ 64)

-- strconv.FormatInt(n, 10), strconv.Itoa and `%d`
unfoldable pub format_int : ℤ → Str
format_int (pos n) = decimal n
format_int (negsuc n) = codes "-" ++ decimal (suc n)

-- cfg.MemoryMaxMiB * 1024 * 1024
unfoldable pub memory_limit_bytes : ℤ → ℤ
memory_limit_bytes mib = times (times mib 1024) 1024

-- The line of cpu.max: quota and period
unfoldable pub cpu_max_value : ℤ → Str
cpu_max_value vcpus = format_int (times vcpus 100000) ++ codes " 100000"

-- validateSandboxLimits
unfoldable pub validate_sandbox_limits : SandboxLimits → Result QuotaError (Unit {0})
validate_sandbox_limits cfg = do
  fail_if (is_empty (trim_space cfg.vm_id)) vm_id_required
  fail_if (ltb_ℤ cfg.memory_max_mib (pos 16)) memory_too_small
  fail_if (leb_ℤ cfg.vcpu_count (pos 0)) vcpu_count_not_positive
  fail_if (ltb_ℤ (pos 64) cfg.vcpu_count) vcpu_count_too_large

-- The directory of a machine's cgroup, and a file in it
abbrev pub cgroup_path : Str → Str
cgroup_path vm_id = join_path cgroup_root vm_id

module _ {W : Type 0} (cgroups : Cgroups W) where
  open cgroups use {mkdir_all, write_file, stat, remove}

  abbrev pub Outcome : Type 0
  Outcome = Result QuotaError (Unit {0}) × W

  cpu_written : Bool × W → Outcome
  cpu_written (true, w) = (ok tt, w)
  cpu_written (false, w) = (err cpu_failed, w)

  swap_written : SandboxLimits → Bool × W → Outcome
  swap_written cfg (true, w) = cpu_written (
      write_file (join_path (cgroup_path cfg.vm_id) (codes "cpu.max"))
        (cpu_max_value cfg.vcpu_count) w)
  swap_written cfg (false, w) = (err swap_failed, w)

  memory_written : SandboxLimits → Bool × W → Outcome
  memory_written cfg (true, w) =
      swap_written cfg
        (write_file (join_path (cgroup_path cfg.vm_id) (codes "memory.swap.max")) (codes "0") w)
  memory_written cfg (false, w) = (err memory_failed, w)

  made : SandboxLimits → Bool × W → Outcome
  made cfg (true, w) = memory_written cfg (
      write_file (join_path (cgroup_path cfg.vm_id) (codes "memory.max"))
        (format_int (memory_limit_bytes cfg.memory_max_mib)) w)
  made cfg (false, w) = (err mkdir_failed, w)

  -- EnforceSandboxLimits
  unfoldable pub enforce_sandbox_limits : SandboxLimits → W → Outcome
  unfolding made memory_written swap_written cpu_written
  enforce_sandbox_limits cfg w = elim (validate_sandbox_limits cfg) [
    | err e ↦ (err e, w)
    | ok _ ↦ made cfg (mkdir_all (cgroup_path cfg.vm_id) w)
  ]

  attached : Bool × W → Outcome
  attached (true, w) = (ok tt, w)
  attached (false, w) = (err attach_failed, w)

  -- AttachProcessToSandbox
  unfoldable pub attach_process_to_sandbox : Str → ℤ → W → Outcome
  unfolding attached
  attach_process_to_sandbox vm_id pid w =
      if is_empty (trim_space vm_id)
      then (err vm_id_required, w)
      else if leb_ℤ pid (pos 0)
      then (err invalid_pid, w)
      else attached
          (write_file (join_path (cgroup_path vm_id) (codes "cgroup.procs")) (format_int pid) w)

  removed : Bool × W → Outcome
  removed (true, w) = (ok tt, w)
  removed (false, w) = (err remove_failed, w)

  -- CleanupSandboxLimits
  unfoldable pub cleanup_sandbox_limits : Str → W → Outcome
  unfolding removed
  cleanup_sandbox_limits vm_id w =
      if is_empty (trim_space vm_id) then (ok tt, w) else elim (stat (cgroup_path vm_id) w) [
        | missing ↦ (ok tt, w)
        | stat_failed ↦ (err check_failed, w)
        | exists ↦ removed (remove (cgroup_path vm_id) w)
      ]
