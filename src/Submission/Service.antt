-- ===== src/Submission/Service.antt =====
-- The HTTP server of services/submission-api/main.go: its routes, the answers of its handlers and
-- what stands around them. The encoding of the answers is a parameter.
pub mod Answers
use hft_bench.Prelude.{ℕ, Bool, true, false, Option, none, some, List, [], ◌∷◌, ◌++◌}
use hft_bench.Prelude.Text.{Str, codes, str_discrete}
use hft_bench.Float64.{Float64}
use hft_bench.Submission.Jobs.{Job, Jobs}
use hft_bench.Submission.Handlers.{
  SubmitRequest, Faults, SubmitReply, StatusReply, Files, handle_submit, handle_status,
  queue_failed, store_failed, accepted, found, submission_not_found, invalid_multipart,
  binary_missing,
}
use hft_bench.Http.{
  Writer, Handler, http_error, write_json, write_error, with_recovery, with_logging,
}

pub record Request : Type 0 where
  pub method : Str
  pub path : Str
  -- r.URL.Query().Get("submission_id")
  pub query_id : Str
  pub multipart_ok : Bool
  pub form_id : Str
  pub binary : Option (List ℕ)
  -- what fails while the request is handled
  pub faults : Faults

-- The maps that are given to writeJSON
pub data Payload (F : Type 0) : Type 0 where
  error : Str → Payload F
  ok_status : Payload F
  queued : Str → Payload F
  job : Str → Job F → Payload F

abbrev pub is_method : Str → Request → Bool
is_method name r = elim (str_discrete r.method name) [ yes e ↦ true | no ne ↦ false ]

pub data Endpoint : Type 0 where
  health submit status : Endpoint
  -- 404
  missing : Endpoint

-- The routes of main. A path that ServeMux cleans before it looks for its pattern, and answers with
-- a redirect, is `missing` here.
unfoldable pub route : Str → Endpoint
unfolding str_discrete
route path = elim (str_discrete path (codes "/health")) [
  | yes e ↦ health
  | no ne ↦ elim (str_discrete path (codes "/submit")) [
    | yes e ↦ submit
    | no ne' ↦ elim (str_discrete path (codes "/status")) [ yes e ↦ status | no ne'' ↦ missing ]
  ]
]

module _ {F : Type 0} (f : Float64 F) (encode : Payload F → Option Str) where
  -- The state of the service: the table and the temporary files.
  abbrev pub State : Type 0
  State = Jobs F × Files

  abbrev json : ℕ → Payload F → Writer → Writer
  json = write_json encode error []

  fails : ℕ → Str → Writer → Writer
  fails = write_error encode error []

  -- What handleSubmit writes for its outcome
  submit_answer : SubmitReply → Writer → Writer
  unfolding fails
  submit_answer SubmitReply.method_not_allowed w = fails 405 (codes "method not allowed") w
  submit_answer invalid_multipart w = fails 400 (codes "invalid multipart payload") w
  submit_answer SubmitReply.id_required w = fails 400 (codes "submission_id required") w
  submit_answer binary_missing w = fails 400 (codes "binary payload missing") w
  submit_answer store_failed w = fails 500 (codes "failed storing binary") w
  submit_answer queue_failed w = fails 500 (codes "failed to queue job") w
  submit_answer (accepted id) w = json 202 (queued id) w

  -- What handleStatus writes for its outcome
  status_answer : StatusReply F → Writer → Writer
  unfolding fails
  status_answer StatusReply.method_not_allowed w = fails 405 (codes "method not allowed") w
  status_answer StatusReply.id_required w = fails 400 (codes "submission_id required") w
  status_answer submission_not_found w = fails 404 (codes "submission not found") w
  status_answer (found id row) w = json 200 (job id row) w

  -- The form of handleSubmit
  abbrev pub submitted : Request → SubmitRequest
  submitted r = record {
    is_post = is_method (codes "POST") r;
    multipart_ok = r.multipart_ok;
    form_id = r.form_id;
    binary = r.binary;
  }

  on_submit : Handler Request State
  unfolding submit_answer
  on_submit r (w, (jobs, files)) =
      let (reply, jobs', files') = handle_submit f r.faults (submitted r) jobs files in
      (false, submit_answer reply w, (jobs', files'))

  on_status : Handler Request State
  unfolding status_answer
  on_status r (w, (jobs, files)) = (
    false,
    status_answer (handle_status (is_method (codes "GET") r) r.query_id jobs) w,
    (jobs, files),
  )

  -- healthHandler
  on_health : Handler Request State
  on_health r (w, s) = (false, json 200 ok_status w, s)

  dispatch : Endpoint → Handler Request State
  unfolding on_submit on_status on_health
  dispatch health r (w, s) = on_health r (w, s)
  dispatch submit r (w, s) = on_submit r (w, s)
  dispatch status r (w, s) = on_status r (w, s)
  dispatch missing r (w, s) = (false, http_error (codes "404 page not found") 404 w, s)

  -- The ServeMux of main
  unfoldable pub mux : Handler Request State
  unfolding dispatch
  mux r s = dispatch (route r.path) r s

  -- The handler of the server
  unfoldable pub serve : Handler Request (State × List Request)
  serve = with_recovery encode error [] (with_logging mux)
