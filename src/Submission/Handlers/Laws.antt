-- ===== src/Submission/Handlers/Laws.antt =====
-- What handleSubmit leaves in the table and on the disk, and what handleStatus then answers.
use hft_bench.Prelude.{
  ℕ, true, false, Option, none, some, List, [], ◌∷◌, ◌≡◌, ◌≢◌, ◌∙◌, refl, arith, ◌⊎◌, inl, inr,
  subst, Bool, not, if◌then◌else◌,
}
use hft_bench.Prelude.Int.{pos}
use hft_bench.Prelude.Text.{Str, is_empty, trim_space}
use hft_bench.Prelude.Dict.{
  lookup, lookup-insert_self, lookup-insert_ne, lookup-delete_self, insert, delete,
  lookup-delete_ne,
}
use hft_bench.Float64.{Float64}
use hft_bench.Submission.Jobs.{Job, Jobs, pending, enqueue_job}
use hft_bench.Submission.Handlers.{
  SubmitRequest, Faults, CopyResult, copied, copy_failed, SubmitReply, invalid_multipart,
  binary_missing, store_failed, queue_failed, accepted, Files, upload_path, copy_binary,
  save_uploaded_binary, Submitted, queue, submit_binary, handle_submit, found, handle_status,
}

is_empty_cases : (s : Str) → (s ≡ []) ⊎ (is_empty s ≡ false)
is_empty_cases [] = inl refl
is_empty_cases (c ∷ s) = inr refl

-- What holds of both results of a test holds of its result.
pub by_test :
    {A : Type 0} (P : A → Type 0) (t : Bool) (x y : A)
    → (t ≡ true → P x)
    → (t ≡ false → P y)
    → P (if t then x else y)
by_test P true x y h g = h refl
by_test P false x y h g = g refl

-- The request is a POST with a readable form and an id.
pub record IsNamed (r : SubmitRequest) : Type 0 where
  pub post : r.is_post ≡ true
  pub form : r.multipart_ok ≡ true
  pub named : is_empty (trim_space r.form_id) ≡ false

-- The upload is opened and copied.
pub record IsStored (faults : Faults) : Type 0 where
  pub opened : faults.open_ok ≡ true
  pub whole : faults.copy ≡ copied

-- The upload could not be opened, or a part of it is at its path.
abbrev pub IsUnstored : Faults → Str → Files → Files → Type 0
IsUnstored faults path files files' =
    ((faults.open_ok ≡ false) × (files' ≡ files))
    ⊎ ((part : List ℕ) × (faults.open_ok ≡ true)
        × (faults.copy ≡ copy_failed part)
        × (lookup path files' ≡ some part)
        × ((q : Str) → q ≢ path → lookup q files' ≡ lookup q files))

-- Nothing is at the path, and no other file is another one.
abbrev pub IsRemoved : Str → Files → Files → Type 0
IsRemoved path files files' =
    (lookup path files' ≡ none) × ((q : Str) → q ≢ path → lookup q files' ≡ lookup q files)

insert-IsRemoved :
    (path : Str) (content : List ℕ) (files : Files)
    → IsRemoved path files (delete path (insert path content files))
insert-IsRemoved path content files = (
  lookup-delete_self path (insert path content files),
  λ q ne.
      lookup-delete_ne q path (insert path content files) ne
      ∙ lookup-insert_ne q path content files ne,
)

module _ {F : Type 0} (f : Float64 F) where
  abbrev pub fresh_job : Job F
  fresh_job = record {
    status = pending;
    score = f.lit 0 0;
    p99_micros = pos 0;
    success_rate = f.lit 0 0;
  }

  -- What a reply of handleSubmit says of the request and of the calls that failed, and what it means
  -- for the table and for the temporary files.
  abbrev pub Queues : Faults → SubmitRequest → Jobs F → Files → Submitted f → Type 0
  Queues faults r jobs files (SubmitReply.method_not_allowed, jobs', files') =
      (r.is_post ≡ false) × (jobs' ≡ jobs) × (files' ≡ files)
  Queues faults r jobs files (invalid_multipart, jobs', files') =
      (r.is_post ≡ true) × (r.multipart_ok ≡ false) × (jobs' ≡ jobs) × (files' ≡ files)
  Queues faults r jobs files (SubmitReply.id_required, jobs', files') =
      (r.is_post ≡ true)
      × (r.multipart_ok ≡ true)
      × (is_empty (trim_space r.form_id) ≡ true)
      × (jobs' ≡ jobs)
      × (files' ≡ files)
  Queues faults r jobs files (binary_missing, jobs', files') =
      IsNamed r × (r.binary ≡ none) × (jobs' ≡ jobs) × (files' ≡ files)
  Queues faults r jobs files (store_failed, jobs', files') =
      IsNamed r
      × ((content : List ℕ) × (r.binary ≡ some content))
      × (jobs' ≡ jobs)
      × IsUnstored faults (upload_path (trim_space r.form_id)) files files'
  Queues faults r jobs files (queue_failed, jobs', files') =
      IsNamed r
      × ((content : List ℕ) × (r.binary ≡ some content))
      × IsStored faults
      × (faults.insert_ok ≡ false)
      × (jobs' ≡ jobs)
      × IsRemoved (upload_path (trim_space r.form_id)) files files'
  Queues faults r jobs files (accepted id, jobs', files') =
      (id ≡ trim_space r.form_id)
      × IsNamed r
      × ((content : List ℕ) × (r.binary ≡ some content))
      × IsStored faults
      × (faults.insert_ok ≡ true)
      × (lookup id jobs' ≡ some fresh_job)
      × ((j : Str) → j ≢ id → lookup j jobs' ≡ lookup j jobs)
      × IsRemoved (upload_path id) files files'

  module _ (faults : Faults) (r : SubmitRequest) (jobs : Jobs F) (files : Files)
      (n : IsNamed r) where
    abbrev id : Str
    id = trim_space r.form_id

    stored-Queues :
        (content : List ℕ)
        → r.binary ≡ some content
        → IsStored faults
        → Queues faults r jobs files
            (queue f faults id (some (upload_path id), insert (upload_path id) content files) jobs)
    unfolding queue enqueue_job
    stored-Queues content e stored =
        by_test (Queues faults r jobs files) faults.insert_ok _ _
          (λ written. (
            refl,
            n,
            (content, e),
            stored,
            written,
            lookup-insert_self id fresh_job jobs,
            (λ j ne. lookup-insert_ne j id fresh_job jobs ne),
            insert-IsRemoved (upload_path id) content files,
          ))
          (λ refused. (
            n,
            (content, e),
            stored,
            refused,
            refl,
            insert-IsRemoved (upload_path id) content files,
          ))

    copied-Queues :
        (content : List ℕ) (c : CopyResult)
        → r.binary ≡ some content
        → faults.open_ok ≡ true
        → faults.copy ≡ c
        → Queues faults r jobs files
            (queue f faults id (copy_binary c (upload_path id) content files) jobs)
    unfolding queue copy_binary
    copied-Queues content copied e opened c =
        stored-Queues content e (record { opened = opened; whole = c })
    copied-Queues content (copy_failed part) e opened c = (
      n,
      (content, e),
      refl,
      inr (
        part,
        opened,
        c,
        lookup-insert_self (upload_path id) part files,
        λ q ne. lookup-insert_ne q (upload_path id) part files ne,
      ),
    )

    submit_binary-Queues :
        (binary : Option (List ℕ))
        → r.binary ≡ binary
        → Queues faults r jobs files (submit_binary f faults id binary jobs files)
    unfolding submit_binary save_uploaded_binary queue
    submit_binary-Queues none e = (n, e, refl, refl)
    submit_binary-Queues (some content) e =
        by_test (λ saved. Queues faults r jobs files (queue f faults id saved jobs)) faults.open_ok
          (copy_binary faults.copy (upload_path id) content files) (none, files)
          (λ opened. copied-Queues content faults.copy e opened refl)
          (λ closed. (n, (content, e), refl, inl (closed, refl)))

  -- handleSubmit on every branch, with what it does to the table and to the temporary files. It
  -- answers that the method is wrong, that the form cannot be read, that the id is blank or that the
  -- binary is missing for the requests that are so, and then nothing changes. If the upload cannot be
  -- opened nothing changes either; if copying breaks off, the part that was written stays at the
  -- path of the upload. In both cases, and if the INSERT fails, the table is as it was. Else it is
  -- accepted: the row of the trimmed id is a pending job with no results, whatever the row was
  -- before, and no other row changes. Once the upload has been stored, it is removed whether the
  -- INSERT succeeds or not, and no other file changes.
  pub handle_submit-Queues :
      (faults : Faults) (r : SubmitRequest) (jobs : Jobs F) (files : Files)
      → Queues faults r jobs files (handle_submit f faults r jobs files)
  unfolding handle_submit
  handle_submit-Queues faults r jobs files =
      by_test (Queues faults r jobs files) (not r.is_post) _ _ (λ other. (ground arith, refl, refl))
        (λ post.
          by_test (Queues faults r jobs files) (not r.multipart_ok) _ _
            (λ bad. (ground arith, ground arith, refl, refl))
            (λ fine.
              by_test (Queues faults r jobs files) (is_empty (trim_space r.form_id)) _ _
                (λ blank. (ground arith, ground arith, blank, refl, refl))
                (λ named.
                  submit_binary-Queues faults r jobs files
                    (record { post = ground arith; form = ground arith; named = named }) r.binary
                    refl)))

  -- After a submission that is accepted, a status request for its id finds the pending job.
  pub handle_submit-handle_status :
      (faults : Faults) (r : SubmitRequest) (jobs jobs' : Jobs F) (files files' : Files) (id : Str)
      → handle_submit f faults r jobs files ≡ (accepted id, jobs', files')
      → id ≢ []
      → handle_status true id jobs' ≡ found id fresh_job
  unfolding handle_status
  handle_submit-handle_status faults r jobs jobs' files files' id e ne =
      let (same, n, content, stored, written, here, others, gone) =
        subst (Queues faults r jobs files) e (handle_submit-Queues faults r jobs files) in
      ground (arith, is_empty_cases id)
