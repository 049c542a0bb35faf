-- ===== src/Examples/Machines.antt =====
-- A Firecracker on which every call succeeds.
use hft_bench.Prelude.{ℕ, suc, ◌≡◌, ◌≢◌, inl, inr, refl, true, some, [], ◌∷◌, ok, arith}
use hft_bench.Prelude.Int.{pos}
use hft_bench.Prelude.Dict.{Dict, lookup, insert, lookup-insert_self, lookup-insert_ne}
use hft_bench.Prelude.Text.{Str, str_discrete, codes, trim_space, trim_left, is_space}
use hft_bench.Orchestrator.Address.{ip_text}
use hft_bench.Orchestrator.Server.{validate_spawn_request, vm_config}
use hft_bench.Orchestrator.Hardening.{
  Processes, split_comma, entry, modulo, advance, pick_cores, pin_firecracker_process,
  apply_cgroup_limits, harden, with_hardening,
}
use hft_bench.Orchestrator.Hardening.RoundRobin.{IsScheduler, Gives, harden-Gives}
use hft_bench.Orchestrator.Vmm.{Vmm, started, validate_config, create_and_boot_vm}
use hft_bench.Orchestrator.Vmm.Boot.{Boots, create_and_boot_vm-Boots}
use hft_bench.Examples.Orchestrators.{quiet, team}

abbrev pub vmm : Vmm ℕ
vmm = record {
  remove = λ p w. (true, suc w);
  new_machine = λ b c w. (some 7, suc w);
  start = λ m w. (started, suc w);
  stop = λ m w. suc w;
  harden = λ m i w. suc w;
}

team-valid : validate_spawn_request team ≡ ok tt
unfolding validate_spawn_request
team-valid = refl

create_and_boot_vm-Boots_example :
    Boots vmm
      (vm_config quiet team 2 (ip_text 2) (codes "/tmp/a.ext4"))
      0
      (create_and_boot_vm vmm (vm_config quiet team 2 (ip_text 2) (codes "/tmp/a.ext4")) 0)
create_and_boot_vm-Boots_example =
    create_and_boot_vm-Boots quiet vmm team 2 (ip_text 2) (codes "/tmp/a.ext4") 0 team-valid

-- A host where every command succeeds and each process has one thread.
abbrev processes : Processes ℕ
processes = record {
  has_taskset = λ w. true;
  pid = λ m w. some (pos 42);
  taskset = λ cores id w. (true, suc w);
  read_dir = λ d w. some (codes "42" ∷ []);
  mkdir_all = λ d w. (true, suc w);
  write_file = λ p c w. (true, suc w);
}

-- Of the cores "2, 3" the second machine is given 3, and the third 2.
second_core : pick_cores (codes "2, 3") (advance 1) ≡ some (codes "3")
unfolding pick_cores split_comma entry modulo trim_space trim_left is_space
second_core = refl

third_core : pick_cores (codes "2, 3") (advance 2) ≡ some (codes "2")
unfolding pick_cores split_comma entry modulo trim_space trim_left is_space
third_core = refl

-- A started machine is pinned, with its thread, and limited: four calls before, and six of these.
hardened :
    (create_and_boot_vm
      (with_hardening vmm processes (codes "2, 3"))
      (vm_config quiet team 2 (ip_text 2) (codes "/tmp/a.ext4"))
      (0, 1)).1
    ≡ (10, 2)
unfolding create_and_boot_vm validate_config harden pin_firecracker_process apply_cgroup_limits
    pick_cores split_comma entry modulo trim_space trim_left is_space
hardened = refl

-- A host where the affinities are kept by the ids of the processes and threads.
abbrev scheduler : Processes (Dict Str)
scheduler = record {
  has_taskset = λ w. true;
  pid = λ m w. some (pos 42);
  taskset = λ cores id w. (true, insert id cores w);
  read_dir = λ d w. some (codes "42" ∷ codes "43" ∷ []);
  mkdir_all = λ d w. (true, w);
  write_file = λ p c w. (true, w);
}

scheduler-IsScheduler : IsScheduler scheduler lookup
scheduler-IsScheduler = record {
  pins = λ cores t w h. lookup-insert_self t cores w;
  others = λ cores t u w. elim (str_discrete u t) [
    | yes same ↦ inr (rw same (lookup-insert_self t cores w))
    | no other ↦ inl (lookup-insert_ne u t cores w other)
  ];
  mkdir_all = λ d u w. refl;
  write_file = λ p v u w. refl;
}

harden-Gives_example :
    ((harden scheduler (codes "2, 3") 7 (codes "a") ([], 1)).1 ≡ 2)
    × ((p : ℕ) × (q : ℕ) × Gives scheduler lookup scheduler-IsScheduler
          (codes "2, 3")
          p
          7
          (codes "a")
          []
          1
        × Gives scheduler lookup scheduler-IsScheduler (codes "2, 3") q 8 (codes "b") [] 2
        × (p ≢ q))
unfolding split_comma
harden-Gives_example =
    harden-Gives scheduler lookup scheduler-IsScheduler 50 (codes ", 3") 1 2 7 8 (codes "a")
      (codes "b") [] [] (omega arith) (omega arith) (omega arith) (omega arith)
