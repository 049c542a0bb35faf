-- ===== src/Examples/Disks.antt =====
-- A host on which every call succeeds, and which counts its calls.
use hft_bench.Prelude.{ℕ, suc, ◌≡◌, refl, true, some, ok}
use hft_bench.Prelude.Text.{codes, trim_space, trim_left, is_space}
use hft_bench.Orchestrator.Provisioner.{ImageConfig}
use hft_bench.Orchestrator.Disk.{
  DiskHost, is_other, removed, validate_submission_image_config, create_submission_image,
  with_workspace, copy_files_into_mount, image_path,
}
use hft_bench.Orchestrator.Disk.Workspace.{Leaves, create_submission_image-Leaves}

abbrev pub disk : DiskHost ℕ
disk = record {
  stat = λ p w. is_other;
  remove_all = λ p w. suc w;
  remove = λ p w. (removed, suc w);
  mkdir_all = λ p w. (true, suc w);
  mkdir_temp = λ w. (some (codes "/tmp/fc-img-1"), suc w);
  write_file = λ p c w. (true, suc w);
  read_file = λ p w. (some (codes "binary"), suc w);
  run = λ c w. (true, suc w);
}

abbrev image_a : ImageConfig
image_a = record { submission_id = codes "a"; strategy_path = codes "strategy_bin" }

image_a-made :
    create_submission_image disk (codes "script") true image_a 0 ≡ (ok (image_path (codes "a")), 17)
unfolding create_submission_image with_workspace validate_submission_image_config
    copy_files_into_mount trim_space trim_left is_space
image_a-made = refl

create_submission_image-Leaves_example :
    Leaves disk
      (codes "script")
      true
      image_a
      0
      (create_submission_image disk (codes "script") true image_a 0)
create_submission_image-Leaves_example =
    create_submission_image-Leaves disk (codes "script") true image_a 0
