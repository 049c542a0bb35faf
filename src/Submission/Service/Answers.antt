-- ===== src/Submission/Service/Answers.antt =====
-- Which status a request is answered with, and what it does to the table.
use hft_bench.Prelude.{ℕ, ◌≡◌, ◌≢◌, Bool, true, false, Option, none, some, List, [], ◌∷◌, ◌++◌, ◌⊎◌}
use hft_bench.Prelude.Text.{Str, codes, is_empty, trim_space}
use hft_bench.Prelude.Dict.{lookup}
use hft_bench.Float64.{Float64}
use hft_bench.Submission.Jobs.{Job, Jobs}
use hft_bench.Submission.Handlers.{StatusReply, copy_failed}
use hft_bench.Submission.Handlers.Laws.{fresh_job, IsNamed, IsStored}
use hft_bench.Submission.Service.{
  Request, Payload, is_method, Endpoint, health, submit, status, missing, State, status_answer,
  submitted,
}
use hft_bench.Http.{Writer, fresh}
use hft_bench.Http.Answers.{IsSent}

-- The path of an endpoint
Names : Str → Endpoint → Type 0
Names path health = path ≡ codes "/health"
Names path submit = path ≡ codes "/submit"
Names path status = path ≡ codes "/status"
Names path missing = (path ≢ codes "/health") × (path ≢ codes "/submit") × (path ≢ codes "/status")

module _ {F : Type 0} (f : Float64 F) (encode : Payload F → Option Str) where
  -- The status of an answer to /submit: when it is sent, and what has become of the table. With 202
  -- the row of the request's trimmed id is a pending job without results, and it is the only change.
  pub data Submits (r : Request) (jobs jobs' : Jobs F) : ℕ → Type 0 where
    wrong_method : is_method (codes "POST") r ≡ false → jobs' ≡ jobs → Submits r jobs jobs' 405
    incomplete :
        is_method (codes "POST") r ≡ true
        → (r.multipart_ok ≡ false) ⊎ ((is_empty (trim_space r.form_id) ≡ true) ⊎ (r.binary ≡ none))
        → jobs' ≡ jobs
        → Submits r jobs jobs' 400
    failing :
        IsNamed (submitted f encode r)
        → (content : List ℕ) × (r.binary ≡ some content)
        → (r.faults.open_ok ≡ false)
          ⊎ (((part : List ℕ) × (r.faults.copy ≡ copy_failed part)) ⊎ (r.faults.insert_ok ≡ false))
        → jobs' ≡ jobs
        → Submits r jobs jobs' 500
    queues :
        IsNamed (submitted f encode r)
        → (content : List ℕ) × (r.binary ≡ some content)
        → IsStored r.faults
        → r.faults.insert_ok ≡ true
        → lookup (trim_space r.form_id) jobs' ≡ some (fresh_job f)
        → ((j : Str) → j ≢ trim_space r.form_id → lookup j jobs' ≡ lookup j jobs)
        → Submits r jobs jobs' 202

  -- The status of an answer to /status.
  pub data Reports (r : Request) (jobs : Jobs F) : ℕ → Type 0 where
    wrong_method : is_method (codes "GET") r ≡ false → Reports r jobs 405
    unnamed : is_method (codes "GET") r ≡ true → is_empty r.query_id ≡ true → Reports r jobs 400
    unknown :
        is_method (codes "GET") r ≡ true
        → is_empty r.query_id ≡ false
        → lookup r.query_id jobs ≡ none
        → Reports r jobs 404
    known :
        (row : Job F)
        → is_method (codes "GET") r ≡ true
        → is_empty r.query_id ≡ false
        → lookup r.query_id jobs ≡ some row
        → Reports r jobs 200

  -- The status of an answer, by the path.
  pub data Responds (r : Request) (jobs jobs' : Jobs F) (code : ℕ) : Type 0 where
    at_health : r.path ≡ codes "/health" → code ≡ 200 → jobs' ≡ jobs → Responds r jobs jobs' code
    at_submit : r.path ≡ codes "/submit" → Submits r jobs jobs' code → Responds r jobs jobs' code
    at_status :
        r.path ≡ codes "/status" → Reports r jobs code → jobs' ≡ jobs → Responds r jobs jobs' code
    elsewhere :
        (r.path ≢ codes "/health") × (r.path ≢ codes "/submit") × (r.path ≢ codes "/status")
        → code ≡ 404
        → jobs' ≡ jobs
        → Responds r jobs jobs' code

  -- A status is sent that the path, the request and the failing calls determine.
  abbrev Answered : Request → Jobs F → Writer → Jobs F → Type 0
  Answered r jobs w jobs' = (code : ℕ) × IsSent code w × Responds r jobs jobs' code

  -- What is sent for a status request
  abbrev Reported : Request → Jobs F → StatusReply F → Type 0
  Reported r jobs reply =
      (code : ℕ) × IsSent code (status_answer f encode reply fresh) × Reports r jobs code

  -- What a request comes to: no panic, a line in the log, and the status and the table.
  abbrev pub Answers :
      Request → Jobs F → List Request → Bool × Writer × (State f encode × List Request) → Type 0
  Answers r jobs log out =
      (out.0 ≡ false)
      × (out.2.1 ≡ log ++ r ∷ [])
      × ((code : ℕ) × IsSent code out.1 × Responds r jobs out.2.0.0 code)
