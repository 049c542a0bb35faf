-- ===== src/Orchestrator/Server.antt =====
-- services/sandbox-orchestrator/main.go: the registry of machines and its gRPC handlers.
-- The eBPF prober is nil on every path of this version, since its attachment is commented out;
-- what the handlers do with a prober that is not nil, and the boot time, are left out. The prober
-- itself is Orchestrator/Prober.
pub mod Reservation
pub mod Handlers
pub mod Teardown
pub mod Calls
pub mod Interleaving
pub mod Process
use hft_bench.Prelude.{
  ℕ, ◌+◌, Bool, true, false, Option, none, some, List, [], ◌∷◌, ◌++◌, if◌then◌else◌, Result, ok,
  err, fail_if, map, ◌>>◌,
}
use hft_bench.Prelude.Int.{ℤ, pos, leb_ℤ}
use hft_bench.Prelude.Text.{Str, codes, is_empty, trim_prefix}
use hft_bench.Prelude.Dict.{Dict, lookup, insert, delete}
use hft_bench.Orchestrator.Address.{
  AddressError, find_free_ip_index, generate_ip_from_index, vsock_cid,
}
use hft_bench.Orchestrator.TapName.{tap_name_for_vm}
use hft_bench.Orchestrator.Network.{TapConfig}
use hft_bench.Orchestrator.Provisioner.{Provisioner, ImageConfig, VmConfig, Booted}

-- ActiveVM. A reservation has an id and an address only.
pub record ActiveVm : Type 0 where
  pub machine : Option ℕ
  pub vm_id : Str
  pub ip_address : Str
  pub tap_name : Str
  pub submission_disk : Str
  pub vsock_path : Str

abbrev pub Registry : Type 0
Registry = Dict ActiveVm

pub record SpawnRequest : Type 0 where
  pub submission_id : Str
  pub vcpu_count : ℤ
  pub memory_mib : ℤ

pub data InvalidArgument : Type 0 where
  submission_id_required vcpu_count_not_positive memory_mib_not_positive : InvalidArgument

-- How the locked section of SpawnVM can refuse.
pub data ReserveError : Type 0 where
  vm_already_exists : ReserveError
  no_free_address : ReserveError
  bad_address : AddressError → ReserveError

pub record SpawnResponse : Type 0 where
  pub vm_id : Str
  pub ip_address : Str
  pub vsock_path : Str

-- What SpawnVM returns: a response with `Success` set, one without (for an id in use and for a
-- failed boot), or a gRPC status.
pub data SpawnReply (E : Type 0) : Type 0 where
  spawned : SpawnResponse → SpawnReply E
  invalid_argument : InvalidArgument → SpawnReply E
  not_reserved : ReserveError → SpawnReply E
  network_failed disk_failed boot_failed : E → SpawnReply E

pub data TeardownReply (E : Type 0) : Type 0 where
  vm_id_required vm_not_found : TeardownReply E
  stop_failed : E → TeardownReply E
  -- the handler panicked in StopVMM
  panicked : TeardownReply E
  torn_down : TeardownReply E

-- validateSpawnRequest
unfoldable pub validate_spawn_request : SpawnRequest → Result InvalidArgument (Unit {0})
validate_spawn_request req = do
  fail_if (is_empty req.submission_id) submission_id_required
  fail_if (leb_ℤ req.vcpu_count (pos 0)) vcpu_count_not_positive
  fail_if (leb_ℤ req.memory_mib (pos 0)) memory_mib_not_positive

-- The addresses of the registered machines, as findFreeIPIndex reads them.
abbrev pub addresses : Registry → List Str
addresses = map λ e. e.1.ip_address

abbrev pub tentative : Str → Str → ActiveVm
tentative vm_id ip = record {
  machine = none;
  vm_id = vm_id;
  ip_address = ip;
  tap_name = [];
  submission_disk = [];
  vsock_path = [];
}

generate : ℕ → Result ReserveError (ℕ × Str)
generate index = elim (generate_ip_from_index (pos index)) [
  | err e ↦ err (bad_address e)
  | ok ip ↦ ok (index, ip)
]

-- The first locked section of SpawnVM: the index and the address that the id may have.
unfoldable pub allocate : Str → Registry → Result ReserveError (ℕ × Str)
unfolding generate
allocate vm_id registry = elim (lookup vm_id registry) [
  | some _ ↦ err vm_already_exists
  | none ↦ elim (find_free_ip_index (addresses registry)) [
    | none ↦ err no_free_address
    | some index ↦ generate index
  ]
]

module _ {W E : Type 0} (host : Provisioner W E) where
  open host use {setup_tap, cleanup_tap, create_image, cleanup_image, boot, stop_vmm}

  abbrev pub Handled : Type 0
  Handled = SpawnReply E × Registry × W

  -- The request, and the index and the address that are reserved for it.
  module _ (req : SpawnRequest) (index : ℕ) (ip : Str) where
    abbrev pub tap : Str
    tap = tap_name_for_vm req.submission_id

    abbrev pub vm_config : Str → VmConfig
    vm_config disk = record {
      vm_id = req.submission_id;
      vcpu_count = req.vcpu_count;
      memory_mib = req.memory_mib;
      kernel_image_path = codes "../../sandbox/vmlinux.bin";
      firecracker_bin = codes "../../sandbox/firecracker-bin";
      socket_dir = codes "/tmp";
      tap_name = tap;
      allocated_ip = ip;
      submission_disk = disk;
      cid = vsock_cid index;
    }

    abbrev pub active : Str → Booted → ActiveVm
    active disk vm = record {
      machine = some vm.machine;
      vm_id = req.submission_id;
      ip_address = ip;
      tap_name = tap;
      submission_disk = disk;
      vsock_path = vm.vsock_path;
    }

    -- The last steps of SpawnVM, after CreateAndBootVM.
    unfoldable pub finish : Str → Result E Booted × W → Registry → Handled
    finish disk (err e, w) registry =
        (boot_failed e, delete req.submission_id registry, cleanup_tap tap w)
    finish disk (ok vm, w) registry = (
      spawned (record {
        vm_id = codes "vm-" ++ req.submission_id;
        ip_address = ip;
        vsock_path = vm.vsock_path;
      }),
      insert req.submission_id (active disk vm) registry,
      w,
    )

    unfoldable pub boot_machine : Result E Str × W → Registry → Handled
    boot_machine (err e, w) registry =
        (disk_failed e, delete req.submission_id registry, cleanup_tap tap w)
    boot_machine (ok disk, w) registry = finish disk (boot (vm_config disk) w) registry

    unfoldable pub make_disk : Result E (Unit {0}) × W → Registry → Handled
    make_disk (err e, w) registry = (network_failed e, delete req.submission_id registry, w)
    make_disk (ok _, w) registry =
        boot_machine
          (create_image
            (record {
              submission_id = req.submission_id;
              strategy_path = codes "../../sandbox/strategy_bin";
            })
            w)
          registry

    -- SpawnVM from the registration of the reservation on
    unfoldable pub provision : Registry → W → Handled
    provision registry w =
        make_disk (setup_tap (record { tap_name = tap; bridge_name = codes "br0" }) w)
          (insert req.submission_id (tentative req.submission_id ip) registry)

  -- SpawnVM
  unfoldable pub spawn_vm : SpawnRequest → Registry → W → Handled
  spawn_vm req registry w = elim (validate_spawn_request req) [
    | err e ↦ (invalid_argument e, registry, w)
    | ok _ ↦ elim (allocate req.submission_id registry) [
      | err e ↦ (not_reserved e, registry, w)
      | ok (index, ip) ↦ provision req index ip registry w
    ]
  ]

  unfoldable pub stopped :
      Str → ActiveVm → Option (Result E (Unit {0})) × W → Registry → TeardownReply E × Registry × W
  stopped vm_id vm (none, w) registry = (panicked, registry, w)
  stopped vm_id vm (some (err e), w) registry = (stop_failed e, registry, w)
  stopped vm_id vm (some (ok _), w) registry = (
    torn_down,
    delete vm_id registry,
    cleanup_image vm.submission_disk (cleanup_tap vm.tap_name w),
  )

  -- TeardownVM
  unfoldable pub teardown_vm : Str → Registry → W → TeardownReply E × Registry × W
  teardown_vm [] registry w = (vm_id_required, registry, w)
  teardown_vm (c ∷ s) registry w =
      let vm_id = trim_prefix (c ∷ s) (codes "vm-") in
      elim (lookup vm_id registry) [
        | none ↦ (vm_not_found, registry, w)
        | some vm ↦ stopped vm_id vm (stop_vmm vm.machine w) registry
      ]

  unfoldable pub shut_down : ActiveVm → Option (Result E (Unit {0})) × W → Option W
  shut_down vm (none, w) = none
  shut_down vm (some _, w) = some (cleanup_image vm.submission_disk (cleanup_tap vm.tap_name w))

  -- shutdownAllVMs over the entries in the order of the `range`; `none` is a panic.
  unfoldable pub shutdown_all_vms : Registry → Registry → W → Option (Registry × W)
  shutdown_all_vms [] registry w = some (registry, w)
  shutdown_all_vms ((vm_id, vm) ∷ rest) registry w = elim (shut_down vm (stop_vmm vm.machine w)) [
    | none ↦ none
    | some w' ↦ shutdown_all_vms rest (delete vm_id registry) w'
  ]
