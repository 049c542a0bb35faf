-- ===== src/Submission/Handlers.antt =====
-- handleSubmit, saveUploadedBinary and handleStatus. `http.Request` parsing, the file system's and
-- the database's failures are inputs.
pub mod Laws
use hft_bench.Prelude.{
  ℕ, Bool, true, false, not, Option, none, some, List, [], ◌∷◌, ◌++◌, if◌then◌else◌,
}
use hft_bench.Prelude.Text.{Str, codes, is_empty, trim_space}
use hft_bench.Prelude.FilePath.{join_path}
use hft_bench.Prelude.Dict.{Dict, lookup, insert, delete}
use hft_bench.Float64.{Float64}
use hft_bench.Submission.Jobs.{Job, Jobs, enqueue_job}

-- The parts of a request that handleSubmit looks at.
pub record SubmitRequest : Type 0 where
  pub is_post : Bool
  -- whether ParseMultipartForm accepts the body, which is limited to 32 MiB
  pub multipart_ok : Bool
  pub form_id : Str
  pub binary : Option (List ℕ)

-- What the calls that can fail do: os.OpenFile, io.Copy (a failure leaves what it has written),
-- and the INSERT.
pub data CopyResult : Type 0 where
  copied : CopyResult
  copy_failed : List ℕ → CopyResult

pub record Faults : Type 0 where
  pub open_ok : Bool
  pub copy : CopyResult
  pub insert_ok : Bool

pub data SubmitReply : Type 0 where
  -- 405, 400, 400, 400, 500, 500 and 202
  method_not_allowed invalid_multipart id_required binary_missing : SubmitReply
  store_failed queue_failed : SubmitReply
  accepted : Str → SubmitReply

-- The temporary files, by path
abbrev pub Files : Type 0
Files = Dict (List ℕ)

-- The path in saveUploadedBinary, where os.TempDir() is "/tmp"
unfoldable pub upload_path : Str → Str
upload_path id = join_path (codes "/tmp") (codes "submission-" ++ id ++ codes ".bin")

-- io.Copy into the opened file
copy_binary : CopyResult → Str → List ℕ → Files → Option Str × Files
copy_binary copied path content files = (some path, insert path content files)
copy_binary (copy_failed part) path content files = (none, insert path part files)

-- saveUploadedBinary; `none` is an error.
unfoldable pub save_uploaded_binary : Faults → Str → List ℕ → Files → Option Str × Files
unfolding copy_binary
save_uploaded_binary faults id content files =
    if faults.open_ok then copy_binary faults.copy (upload_path id) content files else (none, files)

module _ {F : Type 0} (f : Float64 F) where
  abbrev pub Submitted : Type 0
  Submitted = SubmitReply × Jobs F × Files

  -- After the binary is saved: the INSERT, the reply, and the deferred os.Remove
  queue : Faults → Str → Option Str × Files → Jobs F → Submitted
  queue faults id (none, files) jobs = (store_failed, jobs, files)
  queue faults id (some path, files) jobs =
      if faults.insert_ok
      then (accepted id, enqueue_job f id jobs, delete path files)
      else (queue_failed, jobs, delete path files)

  submit_binary : Faults → Str → Option (List ℕ) → Jobs F → Files → Submitted
  submit_binary faults id none jobs files = (binary_missing, jobs, files)
  submit_binary faults id (some content) jobs files =
      queue faults id (save_uploaded_binary faults id content files) jobs

  -- handleSubmit
  unfoldable pub handle_submit : Faults → SubmitRequest → Jobs F → Files → Submitted
  unfolding submit_binary queue
  handle_submit faults r jobs files =
      if not r.is_post
      then (method_not_allowed, jobs, files)
      else if not r.multipart_ok
      then (invalid_multipart, jobs, files)
      else if is_empty (trim_space r.form_id)
      then (id_required, jobs, files)
      else submit_binary faults (trim_space r.form_id) r.binary jobs files

pub data StatusReply (F : Type 0) : Type 0 where
  -- 405, 400, 404 and 200
  method_not_allowed id_required submission_not_found : StatusReply F
  found : Str → Job F → StatusReply F

-- handleStatus. A row that cannot be read counts as missing.
unfoldable pub handle_status : {F : Type 0} → Bool → Str → Jobs F → StatusReply F
handle_status is_get id jobs =
    if not is_get
    then method_not_allowed
    else if is_empty id
    then id_required
    else elim (lookup id jobs) [ none ↦ submission_not_found | some job ↦ found id job ]
