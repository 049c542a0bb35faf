-- ===== src/Orchestrator/Disk.antt =====
-- services/sandbox-orchestrator/disk.go: the disk image of a submission. The host's file system and
-- commands are a parameter.
pub mod Workspace
use hft_bench.Prelude.{
  ℕ, Bool, true, false, Option, none, some, List, [], ◌∷◌, ◌++◌, if◌then◌else◌, Result, ok, err,
}
use hft_bench.Prelude.Text.{Str, codes, is_empty, trim_space}
use hft_bench.Prelude.FilePath.{join_path}
use hft_bench.Orchestrator.Provisioner.{ImageConfig}

-- os.Stat of the strategy
pub data StatInfo : Type 0 where
  stat_failed is_directory is_other : StatInfo

-- os.Remove: done, the file does not exist, or another error
pub data RemoveResult : Type 0 where
  removed does_not_exist remove_failed : RemoveResult

pub data DiskCommand : Type 0 where
  -- truncate -s 64M IMAGE
  truncate : Str → DiskCommand
  -- mkfs.ext4 -F IMAGE
  mkfs : Str → DiskCommand
  -- mount -o loop IMAGE DIR
  mount : Str → Str → DiskCommand
  -- umount DIR
  umount : Str → DiskCommand

pub data DiskError : Type 0 where
  submission_id_required strategy_path_required validation_failed strategy_is_directory : DiskError
  workspace_failed script_failed read_strategy_failed copy_strategy_failed : DiskError
  allocate_failed format_failed temp_dir_failed mount_failed : DiskError
  read_failed write_failed : Str → DiskError
  image_not_removed : DiskError

pub record DiskHost (W : Type 0) : Type 0 where
  pub stat : Str → W → StatInfo
  pub remove_all : Str → W → W
  pub remove : Str → W → RemoveResult × W
  pub mkdir_all : Str → W → Bool × W
  -- os.MkdirTemp("", "fc-img-*")
  pub mkdir_temp : W → Option Str × W
  pub write_file : Str → Str → W → Bool × W
  pub read_file : Str → W → Option Str × W
  -- runDiskCommand
  pub run : DiskCommand → W → Bool × W

abbrev pub workspace_dir : Str → Str
workspace_dir id = join_path (codes "/tmp") (codes "workspace-" ++ id)

abbrev pub image_path : Str → Str
image_path id = join_path (codes "/tmp") (codes "submission-" ++ id ++ codes ".ext4")

-- `script` is the text of buildGuestBootstrapScript, and `in_order` whether the range over the two
-- files meets run.sh first.
module _ {W : Type 0} (host : DiskHost W) (script : Str) (in_order : Bool) where
  open host use {stat, remove_all, remove, mkdir_all, mkdir_temp, write_file, read_file, run}

  abbrev pub Made : Type 0
  Made = Result DiskError Str × W

  -- validateSubmissionImageConfig
  unfoldable pub validate_submission_image_config : ImageConfig → W → Result DiskError (Unit {0})
  validate_submission_image_config cfg w =
      if is_empty (trim_space cfg.submission_id)
      then err submission_id_required
      else if is_empty (trim_space cfg.strategy_path)
      then err strategy_path_required
      else elim (stat cfg.strategy_path w) [
        | stat_failed ↦ err validation_failed
        | is_directory ↦ err strategy_is_directory
        | is_other ↦ ok tt
      ]

  write_into : Str → Str → Option Str × W → Result DiskError (Unit {0}) × W
  write_into mnt name (none, w) = (err (read_failed name), w)
  write_into mnt name (some content, w) =
      let (done, w') = write_file (join_path mnt name) content w in
      if done then (ok tt, w') else (err (write_failed name), w')

  next_file :
      Result DiskError (Unit {0}) × W
      → (W → Result DiskError (Unit {0}) × W)
      → Result DiskError (Unit {0}) × W
  next_file (err e, w) rest = (err e, w)
  next_file (ok _, w) rest = rest w

  -- copyFilesIntoMount, on the files in the order of the range
  unfoldable pub copy_files_into_mount :
      Str → List (Str × Str) → W → Result DiskError (Unit {0}) × W
  unfolding write_into next_file
  copy_files_into_mount mnt [] w = (ok tt, w)
  copy_files_into_mount mnt ((name, path) ∷ files) w =
      next_file (write_into mnt name (read_file path w)) (λ w'. copy_files_into_mount mnt files w')

  module _ (cfg : ImageConfig) where
    abbrev workspace : Str
    workspace = workspace_dir cfg.submission_id

    abbrev image : Str
    image = image_path cfg.submission_id

    -- The two files of the guest, with the paths of their sources
    abbrev guest_files : List (Str × Str)
    guest_files =
        let run_sh : Str × Str = (codes "run.sh", join_path workspace (codes "run.sh")) in
        let strategy : Str × Str =
          (codes "strategy_bin", join_path workspace (codes "strategy_bin")) in
        if in_order then run_sh ∷ strategy ∷ [] else strategy ∷ run_sh ∷ []

    -- After copyFilesIntoMount: the unmount, whose failure is not looked at, and the result
    unmount : Str → Result DiskError (Unit {0}) × W → Made
    unmount mnt (err e, w) = (err e, (run (umount mnt) w).1)
    unmount mnt (ok _, w) = (ok image, (run (umount mnt) w).1)

    fill : Str → Bool × W → Made
    fill mnt (false, w) = (err mount_failed, w)
    fill mnt (true, w) = unmount mnt (copy_files_into_mount mnt guest_files w)

    -- The mount directory, which is removed in the end
    with_mount_dir : Option Str × W → Made
    with_mount_dir (none, w) = (err temp_dir_failed, w)
    with_mount_dir (some mnt, w) =
        let (result, w') = fill mnt (run (mount image mnt) w) in (result, remove_all mnt w')

    formatted : Bool × W → Made
    formatted (false, w) = (err format_failed, w)
    formatted (true, w) = with_mount_dir (mkdir_temp w)

    allocated : Bool × W → Made
    allocated (false, w) = (err allocate_failed, w)
    allocated (true, w) = formatted (run (mkfs image) w)

    strategy_copied : Bool × W → Made
    strategy_copied (false, w) = (err copy_strategy_failed, w)
    strategy_copied (true, w) = allocated (run (truncate image) w)

    strategy_read : Option Str × W → Made
    strategy_read (none, w) = (err read_strategy_failed, w)
    strategy_read (some content, w) =
        strategy_copied (write_file (join_path workspace (codes "strategy_bin")) content w)

    script_written : Bool × W → Made
    script_written (false, w) = (err script_failed, w)
    script_written (true, w) = strategy_read (read_file cfg.strategy_path w)

    -- The workspace, which is removed in the end
    unfoldable pub with_workspace : Bool × W → Made
    unfolding script_written strategy_read strategy_copied allocated formatted with_mount_dir fill
        unmount
    with_workspace (false, w) = (err workspace_failed, w)
    with_workspace (true, w) =
        let (result, w') =
          script_written (write_file (join_path workspace (codes "run.sh")) script w) in
        (result, remove_all workspace w')

    -- CreateSubmissionImage
    unfoldable pub create_submission_image : W → Made
    create_submission_image w = elim (validate_submission_image_config cfg w) [
      | err e ↦ (err e, w)
      | ok _ ↦ with_workspace (mkdir_all workspace (remove image (remove_all workspace w)).1)
    ]

  removal : RemoveResult × W → Result DiskError (Unit {0}) × W
  removal (removed, w) = (ok tt, w)
  removal (does_not_exist, w) = (ok tt, w)
  removal (remove_failed, w) = (err image_not_removed, w)

  -- CleanupSubmissionImage
  unfoldable pub cleanup_submission_image : Str → W → Result DiskError (Unit {0}) × W
  unfolding removal
  cleanup_submission_image path w =
      if is_empty (trim_space path) then (ok tt, w) else removal (remove path w)
