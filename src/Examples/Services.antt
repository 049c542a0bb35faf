-- ===== src/Examples/Services.antt =====
-- Requests to the two servers.
use hft_bench.Prelude.{ℕ, true, Option, some, [], ◌∷◌}
use hft_bench.Prelude.Int.{pos}
use hft_bench.Prelude.Text.{Str, codes}
use hft_bench.Float64.Fixed.{fixed}
use hft_bench.Submission.Handlers.{copied}
use hft_bench.Submission.Service as Uploads
use hft_bench.Submission.Service.Answers.{Answers}
use hft_bench.Leaderboard.{query_failed}
use hft_bench.Leaderboard.Service as Ranks
use hft_bench.Leaderboard.Service.Cors.{Shares, serve-Shares}
use hft_bench.Http.{fresh, Handler}
use hft_bench.Examples.Leaderboards.{clock, insertion_sort}

abbrev upload : Uploads.Request
upload = record {
  method = codes "POST";
  path = codes "/submit";
  query_id = [];
  multipart_ok = true;
  form_id = codes "c";
  binary = some (1 ∷ []);
  faults = record { open_ok = true; copy = copied; insert_ok = true };
}

abbrev encode_name : Uploads.Payload ℕ → Option Str
encode_name payload = some (codes "json")

-- A file that makes the file server panic.
abbrev page : Ranks.Request ℕ
page = record {
  method = codes "GET";
  path = codes "/index.html";
  rows = query_failed;
  rows_of_id = λ id. query_failed;
  now = codes "2026";
  uptime_seconds = pos 1;
}

abbrev encode_any : Ranks.Payload ℕ → Option Str
encode_any payload = some (codes "json")

abbrev broken_files : Handler (Ranks.Request ℕ) ℕ
broken_files r (w, s) = (true, w, s)

serve-Shares_example :
    Shares fixed clock insertion_sort encode_any broken_files
      (λ r w s h. h)
      page
      0
      []
      (Ranks.serve fixed clock insertion_sort encode_any broken_files page (fresh, (0, [])))
serve-Shares_example =
    serve-Shares fixed clock insertion_sort encode_any broken_files (λ r w s h. h) page 0 []
