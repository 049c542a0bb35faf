-- ===== src/Examples/Hosts.antt =====
-- The handlers over a host with its list of interfaces, and files and machines that never fail.
use hft_bench.Prelude.{
  ℕ, suc, ◌≡◌, refl, true, Option, none, some, List, [], ◌∷◌, arith, Result, ok,
}
use hft_bench.Prelude.Text.{
  Str, codes, str_discrete, trim_space, trim_left, is_space, trim_prefix, after_prefix,
}
use hft_bench.Prelude.Dict.{lookup, insert, delete}
use hft_bench.Orchestrator.Address.{ip_text}
use hft_bench.Orchestrator.TapName.{
  tap_name_for_vm, hex8, pad_zeros, fnv32a, fnv32a_from, bytes, utf8,
}
use hft_bench.Prelude.Digits.{print_in, digits_from, digit}
use hft_bench.Prelude.FilePath.{join_path, rooted, resolve, parts_from}
use hft_bench.Orchestrator.Network.{
  is_listed, setup_tap_interface, validate_tap_config, interface_exists, cleanup_tap_interface,
}
use hft_bench.Orchestrator.Disk.{
  cleanup_submission_image, create_submission_image, with_workspace,
  validate_submission_image_config, copy_files_into_mount, image_path,
}
use hft_bench.Orchestrator.Vmm.{vsock_path_of, validate_config, create_and_boot_vm}
use hft_bench.Orchestrator.Provisioner.{VmConfig, Provisioner}
use hft_bench.Orchestrator.Server.{
  ActiveVm, Registry, SpawnResponse, spawned, torn_down, active, allocate, validate_spawn_request,
  finish, boot_machine, make_disk, provision, spawn_vm, stopped, teardown_vm, vm_config,
}
use hft_bench.Orchestrator.Server.Interleaving.Stale.{allocate_first}
use hft_bench.Orchestrator.Host.{HostError, assemble}
use hft_bench.Orchestrator.Server.Calls.{Call, spawn, teardown, serve}
use hft_bench.Orchestrator.Host.Tidy.{IsTidy}
use hft_bench.Orchestrator.Server.Process.{complete, signalled, run_server}
use hft_bench.Orchestrator.Host.Shutdown.{StopReturns, run_server-Restores}
use hft_bench.Orchestrator.Host.Lifetime.{serve-IsTidy}
use hft_bench.Orchestrator.Host.Interfaces.{expected, spawn_vm-expected}
use hft_bench.Examples.Orchestrators.{team}
use hft_bench.Examples.Networks.{linux, linux-IsReliable, delete_all}
use hft_bench.Examples.Disks.{disk}
use hft_bench.Examples.Machines.{vmm}

abbrev pub stop_any : Option ℕ → ℕ → Option (Result HostError (Unit {0})) × ℕ
stop_any m w = (some (ok tt), suc w)

abbrev pub machines : Provisioner (List Str × ℕ) HostError
machines = assemble linux disk vmm (codes "script") true stop_any

abbrev pub eth0 : List Str
eth0 = codes "eth0" ∷ []

-- The interface of the team's machine.
abbrev team_tap : Str
team_tap = tap_name_for_vm (codes "a")

spawn_vm-expected_example :
    is_listed team_tap (spawn_vm machines team [] (eth0, 0)).2.0
    ≡ expected linux
        (λ w. w)
        linux-IsReliable
        disk
        vmm
        (codes "script")
        true
        stop_any
        team
        team_tap
        (is_listed team_tap eth0)
        (spawn_vm machines team [] (eth0, 0)).0
spawn_vm-expected_example =
    spawn_vm-expected linux (λ w. w) linux-IsReliable disk vmm (codes "script") true stop_any team
      [] team_tap (eth0, 0)

abbrev team_config : VmConfig
team_config = vm_config machines team 2 (ip_text 2) (image_path (codes "a"))

abbrev team_machine : ActiveVm
team_machine =
    active machines team 2 (ip_text 2) (image_path (codes "a"))
      (record { machine = 7; vsock_path = vsock_path_of team_config })

abbrev team_reply : SpawnResponse
team_reply = record {
  vm_id = codes "vm-a";
  ip_address = ip_text 2;
  vsock_path = vsock_path_of team_config;
}

allocate_team : allocate (codes "a") [] ≡ ok (2, ip_text 2)
allocate_team = allocate_first (codes "a")

made_team :
    provision machines team 2 (ip_text 2) [] (eth0, 0)
    ≡ (spawned team_reply, (codes "a", team_machine) ∷ [], (team_tap ∷ eth0, 22))
unfolding provision make_disk boot_machine finish insert str_discrete setup_tap_interface
    validate_tap_config interface_exists is_listed trim_space trim_left is_space
    create_submission_image with_workspace validate_submission_image_config copy_files_into_mount
    create_and_boot_vm validate_config tap_name_for_vm hex8 pad_zeros print_in digits_from fnv32a
    fnv32a_from bytes utf8 digit
made_team = refl

spawn_team :
    spawn_vm machines team [] (eth0, 0)
    ≡ (spawned team_reply, (codes "a", team_machine) ∷ [], (team_tap ∷ eth0, 22))
unfolding spawn_vm validate_spawn_request
spawn_team = ground (arith, allocate_team, made_team)

-- The machine is stopped, and its interface deleted.
teardown_team :
    teardown_vm machines (codes "vm-a") ((codes "a", team_machine) ∷ []) (team_tap ∷ eth0, 22)
    ≡ (torn_down, [], (eth0, 24))
unfolding teardown_vm stopped lookup delete str_discrete trim_prefix after_prefix
    cleanup_tap_interface is_listed delete_all trim_space trim_left is_space interface_exists
    cleanup_submission_image join_path rooted resolve parts_from tap_name_for_vm hex8 pad_zeros
    print_in digits_from fnv32a fnv32a_from bytes utf8 digit
teardown_team = refl

abbrev calls : List Call
calls = spawn team ∷ teardown (codes "vm-a") ∷ spawn team ∷ []

serve-IsTidy_example :
    IsTidy
      (λ w. w)
      (λ x. is_listed x eth0)
      (serve machines calls [] (eth0, 0)).0
      (serve machines calls [] (eth0, 0)).1.0
serve-IsTidy_example =
    serve-IsTidy linux (λ w. w) linux-IsReliable disk vmm (codes "script") true stop_any calls eth0
      0

stop_any-StopReturns : StopReturns stop_any
stop_any-StopReturns m d e = absurd (cc)

run_server-Restores_example :
    (reg : Registry) × (w : List Str × ℕ) × (run_server machines
        (λ reg. reg)
        true
        calls
        signalled
        (eth0, 0)
      ≡ complete reg w)
    × ((j : Str) → lookup j reg ≡ none)
    × ((x : Str) → is_listed x w.0 ≡ is_listed x eth0)
run_server-Restores_example =
    run_server-Restores linux (λ w. w) linux-IsReliable disk vmm (codes "script") true stop_any
      stop_any-StopReturns (λ reg. reg) calls eth0 0 (λ reg d. (d, λ j. refl))
