-- ===== src/Orchestrator/Hardening.antt =====
-- pinFirecrackerProcess and applyCgroupLimits of services/sandbox-orchestrator/firecracker.go. The
-- processes and files of the host are a parameter over a world `W`; vmCoreIndex, a uint32 that the
-- process keeps, stands beside it.
pub mod Cores
pub mod RoundRobin
use hft_bench.Prelude.{
  ℕ, zero, suc, ◌+◌, ◌-◌, ◌%◌, ◌^◌, Bool, true, false, Option, none, some, List, [], ◌∷◌, ◌++◌,
  ◌==◌, if◌then◌else◌, Result, ok, err, length,
}
use mathlib.Core.Option
use hft_bench.Prelude.Int.{ℤ, pos, negsuc}
use hft_bench.Prelude.Text.{Str, codes, is_empty, trim_space}
use hft_bench.Prelude.Digits.{decimal}
use hft_bench.Orchestrator.Vmm.{Vmm}

pub record Processes (W : Type 0) : Type 0 where
  -- exec.LookPath("taskset")
  pub has_taskset : W → Bool
  -- machine.PID
  pub pid : ℕ → W → Option ℤ
  -- `taskset -pc cores id`
  pub taskset : Str → Str → W → Bool × W
  -- the names of os.ReadDir
  pub read_dir : Str → W → Option (List Str)
  pub mkdir_all : Str → W → Bool × W
  pub write_file : Str → Str → W → Bool × W

pub data PinError : Type 0 where
  taskset_not_found pid_failed invalid_pid taskset_failed core_out_of_range : PinError

pub data CgroupError : Type 0 where
  no_pid mkdir_failed cpu_max_failed memory_max_failed procs_failed : CgroupError

-- strings.Split(s, ",")
unfoldable pub split_comma : Str → List Str
split_comma [] = [] ∷ []
split_comma (c ∷ s) = let parts = split_comma s in if c == 44 then [] ∷ parts else extended c parts
  where
    extended : ℕ → List Str → List Str
    extended x [] = (x ∷ []) ∷ []
    extended x (part ∷ rest) = (x ∷ part) ∷ rest

unfoldable pub entry : List Str → ℕ → Option Str
entry [] n = none
entry (x ∷ xs) zero = some x
entry (x ∷ xs) (suc n) = entry xs n

-- atomic.AddUint32(&vmCoreIndex, 1), and the index `idx` that is one less
abbrev pub advance : ℕ → ℕ
advance index = (index + 1) % 2 ^ 32

abbrev pub index_before : ℕ → ℕ
index_before advanced = (advanced + (2 ^ 32 - 1)) % 2 ^ 32

-- The modulus is not 0, since a split has a part.
unfoldable pub modulo : ℕ → ℕ → ℕ
modulo n zero = n
modulo n (suc m) = n % suc m

-- `coreList[idx%uint32(len(coreList))]`, with TrimSpace; `none` is an index out of range.
unfoldable pub pick_cores : Str → ℕ → Option Str
unfolding entry
pick_cores cores advanced =
    let parts = split_comma cores in
    Option.map trim_space (entry parts (modulo (index_before advanced) (length parts % 2 ^ 32)))

module _ {W : Type 0} (host : Processes W) where
  open host use {has_taskset, pid, taskset, read_dir, mkdir_all, write_file}

  -- The threads of the process, one after the other; errors are only counted.
  unfoldable pin_threads : Str → List Str → W → W
  pin_threads cores [] w = w
  pin_threads cores (tid ∷ tids) w =
      let (pinned, w') = taskset cores tid w in pin_threads cores tids w'

  unfoldable threads_of : Str → Option (List Str) → W → W
  unfolding pin_threads
  threads_of cores none w = w
  threads_of cores (some tids) w = pin_threads cores tids w

  -- With a positive process id
  unfoldable pin_process : Str → ℕ → W → Result PinError (Unit {0}) × W
  unfolding threads_of
  pin_process cores id w =
      let (pinned, w') = taskset cores (decimal id) w in
      if pinned
      then (
        ok tt,
        threads_of cores (read_dir (codes "/proc/" ++ decimal id ++ codes "/task") w') w',
      )
      else (err taskset_failed, w')

  -- After machine.PID
  unfoldable pin_pid : Str → Option ℤ → W → Result PinError (Unit {0}) × W
  unfolding pin_process
  pin_pid cores none w = (err pid_failed, w)
  pin_pid cores (some (pos zero)) w = (err invalid_pid, w)
  pin_pid cores (some (pos (suc id))) w = pin_process cores (suc id) w
  pin_pid cores (some (negsuc id)) w = (err invalid_pid, w)

  -- With the cores of this machine
  unfoldable pin_to : Option Str → ℕ → W → Result PinError (Unit {0}) × W
  unfolding pin_pid
  pin_to none machine w = (err core_out_of_range, w)
  pin_to (some cores) machine w =
      if has_taskset w then pin_pid cores (pid machine w) w else (err taskset_not_found, w)

  -- pinFirecrackerProcess, where FC_VCPU_CORES is `cores`
  unfoldable pub pin_firecracker_process : Str → ℕ → W × ℕ → Result PinError (Unit {0}) × (W × ℕ)
  unfolding pin_to
  pin_firecracker_process [] machine (w, index) = (ok tt, (w, index))
  pin_firecracker_process (c ∷ cores) machine (w, index) =
      let advanced = advance index in
      let (result, w') = pin_to (pick_cores (c ∷ cores) advanced) machine w in
      (result, (w', advanced))

  -- os.WriteFile of the last file
  unfoldable attach_process : Str → ℕ → Bool × W → Result CgroupError (Unit {0}) × W
  attach_process dir id (false, w) = (err memory_max_failed, w)
  attach_process dir id (true, w) =
      let (written, w') = write_file (dir ++ codes "/cgroup.procs") (decimal id) w in
      (if written then ok tt else err procs_failed, w')

  unfoldable limit_memory : Str → ℕ → Bool × W → Result CgroupError (Unit {0}) × W
  unfolding attach_process
  limit_memory dir id (false, w) = (err cpu_max_failed, w)
  limit_memory dir id (true, w) =
      attach_process dir id (write_file (dir ++ codes "/memory.max") (codes "268435456") w)

  unfoldable limit_cpu : Str → ℕ → Bool × W → Result CgroupError (Unit {0}) × W
  unfolding limit_memory
  limit_cpu dir id (false, w) = (err mkdir_failed, w)
  limit_cpu dir id (true, w) =
      limit_memory dir id (write_file (dir ++ codes "/cpu.max") (codes "100000 100000") w)

  -- `fmt.Sprintf("/sys/fs/cgroup/hft-bench/vm-%s", vmID)`
  abbrev pub cgroup_dir : Str → Str
  cgroup_dir vm_id = codes "/sys/fs/cgroup/hft-bench/vm-" ++ vm_id

  unfoldable limit_pid : Str → Option ℤ → W → Result CgroupError (Unit {0}) × W
  unfolding limit_cpu
  limit_pid vm_id none w = (err no_pid, w)
  limit_pid vm_id (some (pos zero)) w = (err no_pid, w)
  limit_pid vm_id (some (negsuc id)) w = (err no_pid, w)
  limit_pid vm_id (some (pos (suc id))) w =
      limit_cpu (cgroup_dir vm_id) (suc id) (mkdir_all (cgroup_dir vm_id) w)

  -- applyCgroupLimits
  unfoldable pub apply_cgroup_limits : ℕ → Str → W → Result CgroupError (Unit {0}) × W
  unfolding limit_pid
  apply_cgroup_limits machine vm_id w = limit_pid vm_id (pid machine w) w

  -- What CreateAndBootVM does with a started machine; the errors are only logged.
  unfoldable pub harden : Str → ℕ → Str → W × ℕ → W × ℕ
  harden cores machine vm_id s =
      let (pinned, (w, index)) = pin_firecracker_process cores machine s in
      let (limited, w') = apply_cgroup_limits machine vm_id w in (w', index)

-- The machines of a process with its vmCoreIndex.
abbrev pub with_hardening : {W : Type 0} → Vmm W → Processes W → Str → Vmm (W × ℕ)
with_hardening vmm host cores = record {
  remove = λ path (w, index). let (gone, w') = vmm.remove path w in (gone, (w', index));
  new_machine =
      λ bin cfg (w, index). let (machine, w') = vmm.new_machine bin cfg w in (machine, (w', index));
  start = λ machine (w, index). let (result, w') = vmm.start machine w in (result, (w', index));
  stop = λ machine (w, index). (vmm.stop machine w, index);
  harden = λ machine vm_id s. harden host cores machine vm_id s;
}
