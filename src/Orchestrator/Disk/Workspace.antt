-- ===== src/Orchestrator/Disk/Workspace.antt =====
-- How CreateSubmissionImage ends, and how it leaves the host.
use hft_bench.Prelude.{
  ◌≡◌, ◌⊎◌, inl, inr, refl, Bool, true, false, Option, none, some, Result, ok, err, Bool-cases,
  arith,
}
use hft_bench.Prelude.Text.{Str, codes, is_empty, trim_space}
use hft_bench.Prelude.FilePath.{join_path}
use hft_bench.Orchestrator.Provisioner.{ImageConfig}
use hft_bench.Orchestrator.Disk.{
  DiskError, workspace_failed, submission_id_required, strategy_path_required, validation_failed,
  strategy_is_directory, StatInfo, stat_failed, is_directory, is_other, truncate, mkfs, mount,
  umount, DiskHost, workspace_dir, image_path, Made, copy_files_into_mount, guest_files, unmount,
  fill, with_mount_dir, formatted, allocated, strategy_copied, strategy_read, script_written,
  with_workspace, create_submission_image, validate_submission_image_config,
}

module _ {W : Type 0} (host : DiskHost W) (script : Str) (in_order : Bool) (cfg : ImageConfig) where
  abbrev image : Str
  image = image_path cfg.submission_id

  abbrev workspace : Str
  workspace = workspace_dir cfg.submission_id

  abbrev Out : Type 0
  Out = Made host script in_order

  abbrev IsError : Out → Type 0
  IsError out = (e : DiskError) × (out.0 ≡ err e)

  -- The calls of a successful run, each from the state that the one before it left: the two files
  -- are copied, then the image is unmounted and the directory of the mount is removed;
  abbrev Fills : Str → W → Out → Type 0
  Fills mnt w out =
      let copied =
        copy_files_into_mount host script in_order mnt (guest_files host script in_order cfg) w in
      (copied.0 ≡ ok tt)
      × (out ≡ (ok image, host.remove_all mnt (host.run (umount mnt) copied.1).1))

  -- before that the image is mounted on a new directory;
  abbrev Mounts : W → Out → Type 0
  Mounts w out =
      let made = host.mkdir_temp w in
      (mnt : Str) × (made.0 ≡ some mnt)
      × ((host.run (mount image mnt) made.1).0 ≡ true)
      × Fills mnt (host.run (mount image mnt) made.1).1 out

  -- before that it is allocated and formatted;
  abbrev Formats : W → Out → Type 0
  Formats w out =
      let truncated = host.run (truncate image) w in
      (truncated.0 ≡ true)
      × ((host.run (mkfs image) truncated.1).0 ≡ true)
      × Mounts (host.run (mkfs image) truncated.1).1 out

  -- before that the script is written, and the strategy is read and written, to the workspace.
  abbrev pub Builds : W → Out → Type 0
  Builds w out =
      let script_file = host.write_file (join_path workspace (codes "run.sh")) script w in
      let strategy = host.read_file cfg.strategy_path script_file.1 in
      (script_file.0 ≡ true)
      × ((content : Str) × (strategy.0 ≡ some content)
          × ((host.write_file (join_path workspace (codes "strategy_bin")) content strategy.1).0
              ≡ true)
          × Formats
              (host.write_file (join_path workspace (codes "strategy_bin")) content strategy.1).1
              out)

  unmount-Fills :
      (mnt : Str) (r : Result DiskError (Unit {0}) × W)
      → let done = unmount host script in_order cfg mnt r in
        let out : Out = (done.0, host.remove_all mnt done.1) in
        IsError out
        ⊎ ((r.0 ≡ ok tt) × (out ≡ (ok image, host.remove_all mnt (host.run (umount mnt) r.1).1)))
  unfolding unmount
  unmount-Fills mnt (err e, w) = inl (e, refl)
  unmount-Fills mnt (ok tt, w) = inr (refl, refl)

  fill-Fills :
      (mnt : Str) (r : Bool × W)
      → let done = fill host script in_order cfg mnt r in
        let out : Out = (done.0, host.remove_all mnt done.1) in
        IsError out ⊎ ((r.0 ≡ true) × Fills mnt r.1 out)
  unfolding fill
  fill-Fills mnt (false, w) = inl (_, refl)
  fill-Fills mnt (true, w) =
      elim (unmount-Fills mnt
        (copy_files_into_mount host script in_order mnt (guest_files host script in_order cfg) w)) [
          | inl failed ↦ inl failed
          | inr filled ↦ inr (refl, filled)
        ]

  with_mount_dir-Mounts :
      (r : Option Str × W)
      → IsError (with_mount_dir host script in_order cfg r)
        ⊎ ((mnt : Str) × (r.0 ≡ some mnt)
            × ((host.run (mount image mnt) r.1).0 ≡ true)
            × Fills mnt
                (host.run (mount image mnt) r.1).1
                (with_mount_dir host script in_order cfg r))
  unfolding with_mount_dir
  with_mount_dir-Mounts (none, w) = inl (_, refl)
  with_mount_dir-Mounts (some mnt, w) = elim (fill-Fills mnt (host.run (mount image mnt) w)) [
    | inl failed ↦ inl failed
    | inr (mounted, filled) ↦ inr (mnt, refl, mounted, filled)
  ]

  formatted-Mounts :
      (r : Bool × W)
      → IsError (formatted host script in_order cfg r)
        ⊎ ((r.0 ≡ true) × Mounts r.1 (formatted host script in_order cfg r))
  unfolding formatted
  formatted-Mounts (false, w) = inl (_, refl)
  formatted-Mounts (true, w) = elim (with_mount_dir-Mounts (host.mkdir_temp w)) [
    | inl failed ↦ inl failed
    | inr mounts ↦ inr (refl, mounts)
  ]

  allocated-Formats :
      (r : Bool × W)
      → IsError (allocated host script in_order cfg r)
        ⊎ ((r.0 ≡ true)
            × ((host.run (mkfs image) r.1).0 ≡ true)
            × Mounts (host.run (mkfs image) r.1).1 (allocated host script in_order cfg r))
  unfolding allocated
  allocated-Formats (false, w) = inl (_, refl)
  allocated-Formats (true, w) = elim (formatted-Mounts (host.run (mkfs image) w)) [
    | inl failed ↦ inl failed
    | inr (done, mounts) ↦ inr (refl, done, mounts)
  ]

  strategy_copied-Formats :
      (r : Bool × W)
      → IsError (strategy_copied host script in_order cfg r)
        ⊎ ((r.0 ≡ true) × Formats r.1 (strategy_copied host script in_order cfg r))
  unfolding strategy_copied
  strategy_copied-Formats (false, w) = inl (_, refl)
  strategy_copied-Formats (true, w) = elim (allocated-Formats (host.run (truncate image) w)) [
    | inl failed ↦ inl failed
    | inr formats ↦ inr (refl, formats)
  ]

  -- Of a strategy that was read
  abbrev Copies : Option Str × W → Out → Type 0
  Copies strategy out =
      (content : Str) × (strategy.0 ≡ some content)
      × ((host.write_file (join_path workspace (codes "strategy_bin")) content strategy.1).0 ≡ true)
      × Formats (host.write_file (join_path workspace (codes "strategy_bin")) content strategy.1).1
          out

  strategy_read-Copies :
      (r : Option Str × W)
      → IsError (strategy_read host script in_order cfg r)
        ⊎ Copies r (strategy_read host script in_order cfg r)
  unfolding strategy_read
  strategy_read-Copies (none, w) = inl (_, refl)
  strategy_read-Copies (some content, w) =
      elim (strategy_copied-Formats
        (host.write_file (join_path workspace (codes "strategy_bin")) content w)) [
          | inl failed ↦ inl failed
          | inr (copied, formats) ↦ inr (content, refl, copied, formats)
        ]

  script_written-Copies :
      (r : Bool × W)
      → IsError (script_written host script in_order cfg r)
        ⊎ ((r.0 ≡ true)
            × Copies
                (host.read_file cfg.strategy_path r.1)
                (script_written host script in_order cfg r))
  unfolding script_written
  script_written-Copies (false, w) = inl (_, refl)
  script_written-Copies (true, w) =
      elim (strategy_read-Copies (host.read_file cfg.strategy_path w)) [
        | inl failed ↦ inl failed
        | inr copies ↦ inr (refl, copies)
      ]

  -- Why a request is refused: a blank id, a blank path, or a path at which there is no file.
  abbrev Refuses : W → DiskError → Type 0
  Refuses w e =
      ((is_empty (trim_space cfg.submission_id) ≡ true) × (e ≡ submission_id_required))
      ⊎ (((is_empty (trim_space cfg.strategy_path) ≡ true) × (e ≡ strategy_path_required))
          ⊎ (((host.stat cfg.strategy_path w ≡ stat_failed) × (e ≡ validation_failed))
              ⊎ ((host.stat cfg.strategy_path w ≡ is_directory) × (e ≡ strategy_is_directory))))

  -- The request is not refused.
  abbrev IsAccepted : W → Type 0
  IsAccepted w =
      (is_empty (trim_space cfg.submission_id) ≡ false)
      × (is_empty (trim_space cfg.strategy_path) ≡ false)
      × (host.stat cfg.strategy_path w ≡ is_other)

  stat_cases : (s : StatInfo) → (s ≡ stat_failed) ⊎ ((s ≡ is_directory) ⊎ (s ≡ is_other))
  stat_cases stat_failed = inl refl
  stat_cases is_directory = inr (inl refl)
  stat_cases is_other = inr (inr refl)

  abbrev Validates : W → Result DiskError (Unit {0}) → Type 0
  Validates w r = ((e : DiskError) × (r ≡ err e) × Refuses w e) ⊎ ((r ≡ ok tt) × IsAccepted w)

  validate-Validates :
      (w : W) → Validates w (validate_submission_image_config host script in_order cfg w)
  unfolding validate_submission_image_config
  validate-Validates w = elim (Bool-cases (is_empty (trim_space cfg.submission_id))) [
    | inl blank ↦ inl (submission_id_required, ground arith, inl (blank, refl))
    | inr named ↦ elim (Bool-cases (is_empty (trim_space cfg.strategy_path))) [
      | inl blank ↦ inl (strategy_path_required, ground arith, inr (inl (blank, refl)))
      | inr given ↦ elim (stat_cases (host.stat cfg.strategy_path w)) [
        | inl failed ↦ inl (validation_failed, ground arith, inr (inr (inl (failed, refl))))
        | inr (inl dir) ↦ inl (strategy_is_directory, ground arith, inr (inr (inr (dir, refl))))
        | inr (inr file) ↦ inr (ground arith, (named, given, file))
      ]
    ]
  ]

  -- What becomes of the workspace: it could not be made, or, from the state in which it was made,
  -- an error or the image came, and the workspace was removed.
  abbrev pub Ends : Bool × W → Out → Type 0
  Ends made out =
      ((made.0 ≡ false) × (out ≡ (err workspace_failed, made.1)))
      ⊎ ((before : Out) × (made.0 ≡ true)
          × (out ≡ (before.0, host.remove_all workspace before.1))
          × (IsError before ⊎ Builds made.1 before))

  with_workspace-Ends : (r : Bool × W) → Ends r (with_workspace host script in_order cfg r)
  unfolding with_workspace
  with_workspace-Ends (false, w) = inl (refl, refl)
  with_workspace-Ends (true, w) =
      let r = host.write_file (join_path workspace (codes "run.sh")) script w in
      inr (script_written host script in_order cfg r, refl, refl, script_written-Copies r)

  abbrev pub Leaves : W → Out → Type 0
  Leaves w out =
      ((e : DiskError) × (out ≡ (err e, w)) × Refuses w e)
      ⊎ (IsAccepted w
          × Ends (host.mkdir_all workspace (host.remove image (host.remove_all workspace w)).1) out)

  -- CreateSubmissionImage on every branch. It refuses a blank id, a blank path and a path at which
  -- there is no file or a directory, and then touches nothing. Else it removes the old workspace and
  -- image and makes a workspace; if that fails it answers so, and if not, then in the end it removes
  -- the workspace, whatever the answer is. The answer is the path of the submission's image only if
  -- every call in between has succeeded, in this order: writing the script, reading and writing the
  -- strategy, allocating, formatting and mounting the image on a new directory, and copying the files
  -- into it; then the image has been unmounted and the directory removed. Otherwise it is an error.
  pub create_submission_image-Leaves :
      (w : W) → Leaves w (create_submission_image host script in_order cfg w)
  unfolding create_submission_image
  create_submission_image-Leaves w = elim (validate-Validates w) [
    | inl (e, h, why) ↦ rw (h, create_submission_image) (inl (e, refl, why))
    | inr (h, fine) ↦ rw (h, create_submission_image) (inr (fine, with_workspace-Ends _))
  ]
