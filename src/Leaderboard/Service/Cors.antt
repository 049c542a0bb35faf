-- ===== src/Leaderboard/Service/Cors.antt =====
-- What every answer of the leaderboard has.
use hft_bench.Prelude.{ℕ, ◌≡◌, ◌≢◌, refl, ap, sym, Bool, false, Option, List, [], arith, length}
use hft_bench.Prelude.Text.{Str, codes}
use hft_bench.Prelude.Dict.{lookup-insert_self}
use hft_bench.Float64.{Float64}
use hft_bench.Leaderboard.{
  LeaderboardRow, Clock, Reply, method_not_allowed, missing_id, database_failed, iteration_failed,
  success,
}
use hft_bench.Leaderboard.Service.{
  Request, Payload, error, Endpoint, health, scores_list, scores_detail, legacy_list, files, route,
  extra, answer, dispatch, mux, serve,
}
use hft_bench.Http.{
  Writer, fresh, Handler, set_header, write_json, write_error, with_recovery, with_logging,
  cors_headers,
}
use hft_bench.Http.Answers.{IsSent, write_header-IsSent}
use hft_bench.Http.Headers.{
  Carries, set_header-Carries, write_header-Carries, write_json-Carries, write_error-Carries,
  with_recovery-Carries, with_cors_cases,
}

abbrev pub allow_origin : Str
allow_origin = codes "Access-Control-Allow-Origin"

-- The answer is open to every origin.
abbrev pub IsShared : Writer → Type 0
IsShared w = Carries allow_origin (codes "*") w

-- Keys of other lengths are other keys.
key-ne : (k : Str) → length k ≢ 27 → allow_origin ≢ k
key-ne k h e = h (sym (ap length e))

module _ {F S : Type 0} (f : Float64 F) (clock : Clock)
    (sort_slice : (LeaderboardRow F → LeaderboardRow F → Bool)
      → List (LeaderboardRow F)
      → List (LeaderboardRow F))
    (encode : Payload F → Option Str) (file_server : Handler (Request F) S) where
  abbrev content_type-ne : allow_origin ≢ codes "Content-Type"
  content_type-ne = key-ne (codes "Content-Type") (omega arith)

  abbrev sniff-ne : allow_origin ≢ codes "X-Content-Type-Options"
  sniff-ne = key-ne (codes "X-Content-Type-Options") (omega arith)

  json-IsShared :
      (status : ℕ) (payload : Payload F) (w : Writer)
      → IsShared w
      → IsShared (write_json encode error extra status payload w)
  json-IsShared =
      write_json-Carries allow_origin (codes "*") content_type-ne sniff-ne encode error extra
        (key-ne (codes "Cache-Control") (omega arith), tt)

  error-IsShared :
      (status : ℕ) (message : Str) (w : Writer)
      → IsShared w
      → IsShared (write_error encode error extra status message w)
  error-IsShared =
      write_error-Carries allow_origin (codes "*") content_type-ne sniff-ne encode error extra
        (key-ne (codes "Cache-Control") (omega arith), tt)

  answer-IsShared :
      {B : Type 0} (payload : B → Payload F) (reply : Reply B) (w : Writer)
      → IsShared w
      → IsShared (answer f clock sort_slice encode file_server payload reply w)
  unfolding answer
  answer-IsShared payload method_not_allowed w h = error-IsShared 405 _ w h
  answer-IsShared payload missing_id w h = error-IsShared 400 _ w h
  answer-IsShared payload database_failed w h = error-IsShared 500 _ w h
  answer-IsShared payload iteration_failed w h = error-IsShared 500 _ w h
  answer-IsShared payload (success body) w h = json-IsShared 200 (payload body) w h

  module _
      (keeps : (r : Request F) (w : Writer) (s : S)
        → IsShared w
        → IsShared (file_server r (w, s)).1) where
    dispatch-IsShared :
        (e : Endpoint) (r : Request F) (w : Writer) (s : S)
        → IsShared w
        → IsShared (dispatch f clock sort_slice encode file_server e r (w, s)).1
    unfolding dispatch
    dispatch-IsShared health r w s h = json-IsShared 200 _ w h
    dispatch-IsShared scores_list r w s h = answer-IsShared _ _ w h
    dispatch-IsShared scores_detail r w s h = answer-IsShared _ _ w h
    dispatch-IsShared legacy_list r w s h = answer-IsShared _ _ w h
    dispatch-IsShared files r w s h = keeps r w s h

    -- What a request comes to.
    abbrev pub Shares :
        Request F → S → List (Request F) → Bool × Writer × (S × List (Request F)) → Type 0
    Shares r s log out =
        (out.0 ≡ false)
        × IsShared out.1
        × (r.method ≡ codes "OPTIONS" → IsSent 204 out.1 × (out.2 ≡ (s, log)))

    cors-IsShared : IsShared (cors_headers fresh)
    cors-IsShared =
        let first = set_header allow_origin (codes "*") fresh in
        let second =
          set_header (codes "Access-Control-Allow-Methods") (codes "GET, OPTIONS") first in
        set_header-Carries allow_origin (codes "*") (codes "Access-Control-Allow-Headers")
          (codes "Content-Type") second (key-ne _ (omega arith))
          (set_header-Carries allow_origin (codes "*") (codes "Access-Control-Allow-Methods")
            (codes "GET, OPTIONS") first (key-ne _ (omega arith))
            (lookup-insert_self allow_origin (codes "*") [], tt))

    -- No request ends in a panic, and every answer has the header that opens it to every origin,
    -- the answers to failures, to panics of the file server and to OPTIONS included, if the file
    -- server does not change that header. OPTIONS is answered with 204, without a query or a line
    -- in the log.
    pub serve-Shares :
        (r : Request F) (s : S) (log : List (Request F))
        → Shares r s log (serve f clock sort_slice encode file_server r (fresh, (s, log)))
    unfolding serve mux
    serve-Shares r s log =
        with_cors_cases (Shares r s log) (λ q. q.method)
          (with_recovery encode error extra
            (with_logging (mux f clock sort_slice encode file_server)))
          r fresh (s, log)
          (λ options. (
            refl,
            write_header-Carries allow_origin (codes "*") 204 (cors_headers fresh) cors-IsShared,
            λ e. (write_header-IsSent 204 (cors_headers fresh) refl, refl),
          ))
          λ other.
            let (returns, shared) =
              with_recovery-Carries allow_origin (codes "*") content_type-ne sniff-ne encode error
                extra (key-ne (codes "Cache-Control") (omega arith), tt)
                (mux f clock sort_slice encode file_server) r (cors_headers fresh) s log
                (dispatch-IsShared (route r.path) r (cors_headers fresh) s cors-IsShared) in
            (returns, shared, λ e. absurd (other e))
