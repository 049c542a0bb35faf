-- ===== src/Leaderboard/Service.antt =====
-- The HTTP server of services/leaderboard/main.go: its routes, the answers of its handlers and what
-- stands around them. The encoding of the answers and the file server are parameters.
pub mod Cors
use hft_bench.Prelude.{ℕ, Bool, true, false, Option, none, some, List, [], ◌∷◌, ◌++◌}
use hft_bench.Prelude.Text.{Str, codes, str_discrete, after_prefix}
use hft_bench.Prelude.Int.{ℤ}
use hft_bench.Float64.{Float64}
use hft_bench.Leaderboard.{
  LeaderboardRow, Clock, Query, Reply, method_not_allowed, missing_id, database_failed,
  iteration_failed, success, handle_scores, handle_legacy_leaderboard, Details,
  handle_submission_detail,
}
use hft_bench.Http.{
  Writer, Handler, write_json, write_error, with_recovery, with_logging, with_cors,
}

-- A request, with what the database answers while it is handled
pub record Request (F : Type 0) : Type 0 where
  pub method : Str
  pub path : Str
  pub rows : Query F
  pub rows_of_id : Str → Query F
  -- the time, printed, and the seconds since the start
  pub now : Str
  pub uptime_seconds : ℤ

-- What is given to writeJSON
pub data Payload (F : Type 0) : Type 0 where
  error : Str → Payload F
  ok_status : ℤ → Payload F
  -- ScoresResponse, with no active benchmarks
  scores : List (LeaderboardRow F) → Str → Payload F
  details : Details F → Payload F
  legacy : List (LeaderboardRow F) → Payload F

pub data Endpoint : Type 0 where
  health scores_list scores_detail legacy_list files : Endpoint

-- The routes of main: a path that ends in `/` stands for all that begin with it.
unfoldable pub route : Str → Endpoint
unfolding str_discrete after_prefix
route path = elim (str_discrete path (codes "/health")) [
  | yes e ↦ health
  | no ne ↦ elim (str_discrete path (codes "/api/scores")) [
    | yes e ↦ scores_list
    | no ne' ↦ elim (after_prefix (codes "/api/scores/") path) [
      | some id ↦ scores_detail
      | none ↦ elim (str_discrete path (codes "/api/leaderboard")) [
        | yes e ↦ legacy_list
        | no ne'' ↦ files
      ]
    ]
  ]
]

-- The header that writeJSON of this service sets beside the content type
abbrev pub extra : List (Str × Str)
extra = (codes "Cache-Control", codes "no-store") ∷ []

module _ {F S : Type 0} (f : Float64 F) (clock : Clock)
    (sort_slice : (LeaderboardRow F → LeaderboardRow F → Bool)
      → List (LeaderboardRow F)
      → List (LeaderboardRow F))
    (encode : Payload F → Option Str) (file_server : Handler (Request F) S) where
  is_get : Request F → Bool
  unfolding str_discrete
  is_get r = elim (str_discrete r.method (codes "GET")) [ yes e ↦ true | no ne ↦ false ]

  -- What a handler writes for its outcome, given what it makes of a success
  answer : {B : Type 0} → (B → Payload F) → Reply B → Writer → Writer
  answer payload method_not_allowed w =
      write_error encode error extra 405 (codes "method not allowed") w
  answer payload missing_id w = write_error encode error extra 400 (codes "missing submission_id") w
  answer payload database_failed w =
      write_error encode error extra 500 (codes "database query failed") w
  answer payload iteration_failed w =
      write_error encode error extra 500 (codes "result iteration failed") w
  answer payload (success body) w = write_json encode error extra 200 (payload body) w

  -- The handlers of the routes, with healthHandler
  dispatch : Endpoint → Handler (Request F) S
  unfolding answer is_get
  dispatch health r (w, s) =
      (false, write_json encode error extra 200 (ok_status r.uptime_seconds) w, s)
  dispatch scores_list r (w, s) = (
    false,
    answer (λ list. scores list r.now) (handle_scores f sort_slice clock (is_get r) r.rows) w,
    s,
  )
  dispatch scores_detail r (w, s) =
      (false, answer details (handle_submission_detail f clock (is_get r) r.path r.rows_of_id) w, s)
  dispatch legacy_list r (w, s) =
      (false, answer legacy (handle_legacy_leaderboard f sort_slice (is_get r) r.rows) w, s)
  dispatch files r (w, s) = file_server r (w, s)

  -- The ServeMux of main
  unfoldable pub mux : Handler (Request F) S
  unfolding dispatch
  mux r s = dispatch (route r.path) r s

  -- The handler of the server
  unfoldable pub serve : Handler (Request F) (S × List (Request F))
  serve = with_cors (λ r. r.method) (with_recovery encode error extra (with_logging mux))
