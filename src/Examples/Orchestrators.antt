-- ===== src/Examples/Orchestrators.antt =====
-- A host on which every step succeeds, where StopVMM panics on a nil machine.
use hft_bench.Prelude.{
  update, ℕ, suc, ◌≤◌, ◌<◌, ◌≡◌, ◌≢◌, sym, ◌∙◌, refl, Bool, true, false, ap, ◌==◌, Option, none,
  some, List, [], ◌∷◌, arith, Result, ok, All,
}
use hft_bench.Prelude.Int.{pos}
use hft_bench.Prelude.Text.{
  Str, codes, str_discrete, trim_prefix, after_prefix, is_space, trim_space, trim_left,
}
use hft_bench.Prelude.Digits.{digit, print_in, digits_from, read_number, digit_value, read_digits}
use hft_bench.Prelude.Dict.{lookup, insert, delete}
use hft_bench.Orchestrator.Address.{
  ip_text, find_free_ip_index, used_indices, contains, first_free, scan_ip, scan_int,
}
use hft_bench.Orchestrator.Address.Free.{find_free_ip_index-some}
use hft_bench.Orchestrator.TapName.{
  tap_name_for_vm, hex8, pad_zeros, fnv32a, fnv32a_from, bytes, utf8,
}
use hft_bench.Orchestrator.Provisioner.{Provisioner}
use hft_bench.Orchestrator.Server.{
  ActiveVm, SpawnRequest, SpawnResponse, spawned, torn_down, tentative, active, allocate,
  validate_spawn_request, finish, boot_machine, make_disk, provision, spawn_vm, stopped,
  teardown_vm, shut_down, shutdown_all_vms,
}
use hft_bench.Orchestrator.Server.Handlers.{Spawns, spawn_vm-Spawns}
use hft_bench.Orchestrator.Server.Teardown.{spawn_vm-teardown_vm}
use hft_bench.Orchestrator.Server.Interleaving.{
  System, FreshReach, Inv, here, next, reserve, start, booting, FreshReach-Inv,
}
use hft_bench.Orchestrator.Server.Interleaving.Stale.{
  IsSpawnable, RealReach, stale_removal, allocate_first,
}

abbrev stop : Option ℕ → ℕ → Option (Result ℕ (Unit {0})) × ℕ
stop none w = (none, w)
stop (some m) w = (some (ok tt), w)

abbrev pub quiet : Provisioner ℕ ℕ
quiet = record {
  setup_tap = λ c w. (ok tt, suc w);
  cleanup_tap = λ t w. w;
  create_image = λ c w. (ok (codes "/tmp/a.ext4"), suc w);
  cleanup_image = λ d w. w;
  boot = λ c w. (ok (record { machine = 7; vsock_path = codes "/tmp/a.vsock" }), suc w);
  stop_vmm = stop;
}

abbrev pub team : SpawnRequest
team = record { submission_id = codes "a"; vcpu_count = pos 2; memory_mib = pos 512 }

abbrev reply : SpawnResponse
reply = record { vm_id = codes "vm-a"; ip_address = ip_text 2; vsock_path = codes "/tmp/a.vsock" }

abbrev machine_a : ActiveVm
machine_a =
    active quiet team 2 (ip_text 2) (codes "/tmp/a.ext4")
      (record { machine = 7; vsock_path = codes "/tmp/a.vsock" })

allocate_a : allocate (codes "a") [] ≡ ok (2, ip_text 2)
allocate_a = allocate_first (codes "a")

spawn_a : spawn_vm quiet team [] 0 ≡ (spawned reply, (codes "a", machine_a) ∷ [], 3)
unfolding spawn_vm validate_spawn_request provision make_disk boot_machine finish insert
    str_discrete
spawn_a = ground (arith, allocate_a)

spawn_vm-Spawns_example : Spawns quiet team [] (spawn_vm quiet team [] 0)
spawn_vm-Spawns_example = spawn_vm-Spawns quiet team [] 0

spawn_vm-teardown_vm_example :
    (vm : ActiveVm) × (lookup (codes "a") ((codes "a", machine_a) ∷ []) ≡ some vm)
    × (teardown_vm quiet (codes "vm-a") ((codes "a", machine_a) ∷ []) 5
        ≡ stopped quiet (codes "a") vm (stop vm.machine 5) ((codes "a", machine_a) ∷ []))
    × ((teardown_vm quiet (codes "vm-a") ((codes "a", machine_a) ∷ []) 5).0 ≡ torn_down
        → (j : Str)
        → lookup j (teardown_vm quiet (codes "vm-a") ((codes "a", machine_a) ∷ []) 5).1
          ≡ lookup j [])
spawn_vm-teardown_vm_example =
    spawn_vm-teardown_vm quiet team [] ((codes "a", machine_a) ∷ []) reply 0 3 5 spawn_a

-- The teardown of the spawned machine succeeds.
teardown_a : teardown_vm quiet (codes "vm-a") ((codes "a", machine_a) ∷ []) 5 ≡ (torn_down, [], 5)
unfolding teardown_vm stopped lookup delete str_discrete trim_prefix after_prefix
teardown_a = refl

shutdown_a :
    shutdown_all_vms quiet ((codes "a", machine_a) ∷ []) ((codes "a", machine_a) ∷ []) 3
    ≡ some ([], 3)
unfolding shutdown_all_vms shut_down delete str_discrete
shutdown_a = refl

abbrev reserved_a : System
reserved_a = record {
  registry = insert (codes "a") (tentative (codes "a") (ip_text 2)) [];
  local = update start.local 0 (booting (codes "a") (ip_text 2));
}

reserved_a-reached : FreshReach reserved_a
reserved_a-reached = next here (reserve 0 2 (codes "a") (ip_text 2) refl allocate_a refl) tt

FreshReach-Inv_example : Inv reserved_a
FreshReach-Inv_example = FreshReach-Inv reserved_a-reached

-- tape40c292c has a 4 there, and tape70c2de5 a 7.
abbrev has_4 : Str → Bool
has_4 (x ∷ y ∷ z ∷ u ∷ c ∷ s) = c == b'4'
has_4 _ = false

tap_a-has_4 : has_4 (tap_name_for_vm (codes "a")) ≡ true
unfolding tap_name_for_vm hex8 pad_zeros print_in digits_from fnv32a fnv32a_from bytes utf8 digit
tap_a-has_4 = refl

tap_b-has_4 : has_4 (tap_name_for_vm (codes "b")) ≡ false
unfolding tap_name_for_vm hex8 pad_zeros print_in digits_from fnv32a fnv32a_from bytes utf8 digit
tap_b-has_4 = refl

taps-apart : tap_name_for_vm (codes "a") ≢ tap_name_for_vm (codes "b")
taps-apart e =
    let absurd_path : true ≡ false = sym tap_a-has_4 ∙ ap has_4 e ∙ tap_b-has_4 in absurd (cc)

a-IsSpawnable : IsSpawnable (codes "a")
unfolding validate_spawn_request trim_space trim_left is_space
a-IsSpawnable = record { request = team; of_id = refl; valid = refl; named = refl }

b-IsSpawnable : IsSpawnable (codes "b")
unfolding validate_spawn_request trim_space trim_left is_space
b-IsSpawnable = record {
  request = record team { submission_id = codes "b" };
  of_id = refl;
  valid = refl;
  named = refl;
}

stale_removal_example :
    (s : System) × (u : ActiveVm) × (v : ActiveVm) × RealReach s
    × (lookup (codes "a") s.registry ≡ some u)
    × (lookup (codes "b") s.registry ≡ some v)
    × (u.ip_address ≡ v.ip_address)
    × (u.machine ≢ none)
    × (v.machine ≢ none)
stale_removal_example = stale_removal (codes "a") (codes "b") a-IsSpawnable b-IsSpawnable taps-apart

-- 172.16.0.2 and 172.16.0.4 are taken.
abbrev two_used : List Str
two_used = codes "172.16.0.2" ∷ codes "172.16.0.4" ∷ []

two_used-gap : find_free_ip_index two_used ≡ some 3
unfolding find_free_ip_index first_free contains used_indices scan_ip after_prefix scan_int is_space
    read_number digit_value read_digits
two_used-gap = refl

find_free_ip_index-some_example :
    (2 ≤ 3)
    × (3 ≤ 254)
    × All (λ ip. ip ≢ ip_text 3) two_used
    × ((j : ℕ) → 2 ≤ j → j < 3 → contains (pos j) (used_indices two_used) ≡ true)
find_free_ip_index-some_example = find_free_ip_index-some two_used 3 two_used-gap
