-- ===== src/Http.antt =====
-- The HTTP helpers that services/submission-api/main.go and services/leaderboard/main.go share:
-- writeJSON, writeError, withLogging and withRecovery, and withCORS of the leaderboard. Of
-- net/http's ResponseWriter: the header map counts as it is when the status is sent, the status is
-- sent once, and the body goes on. `P` is the payloads, which encoding/json may refuse.
pub mod Answers
pub mod Headers
use hft_bench.Prelude.{ℕ, Bool, true, false, Option, none, some, List, [], ◌∷◌, ◌++◌}
use hft_bench.Prelude.Text.{Str, codes, str_discrete}
use hft_bench.Prelude.Dict.{Dict, insert}

-- http.ResponseWriter. `sent` is the status and the headers, once they are sent.
pub record Writer : Type 0 where
  pub headers : Dict Str
  pub sent : Option (ℕ × Dict Str)
  pub body : Str

abbrev pub fresh : Writer
fresh = record { headers = []; sent = none; body = [] }

-- w.Header().Set
abbrev pub set_header : Str → Str → Writer → Writer
set_header key value w = record w { headers = insert key value w.headers }

-- With what is sent already
send : Option (ℕ × Dict Str) → ℕ → Writer → Writer
send none status w = record w { sent = some (status, w.headers) }
send (some first) status w = w

-- w.WriteHeader: a second status is not sent.
unfoldable pub write_header : ℕ → Writer → Writer
unfolding send
write_header status w = send w.sent status w

-- w.Write, which sends status 200 if none is sent yet
unfoldable pub write : Str → Writer → Writer
unfolding write_header
write text w = let w' = write_header 200 w in record w' { body = w'.body ++ text }

-- http.Error
unfoldable pub http_error : Str → ℕ → Writer → Writer
http_error message status w = write (message ++ 10 ∷ []) (
    write_header status (
      set_header (codes "X-Content-Type-Options") (codes "nosniff")
        (set_header (codes "Content-Type") (codes "text/plain; charset=utf-8") w)))

-- An HTTP handler on a state `S` of its service: whether it panics, what it has written, and the
-- state that it leaves.
abbrev pub Handler : Type 0 → Type 0 → Type 0
Handler R S = R → Writer × S → Bool × Writer × S

set_headers : List (Str × Str) → Writer → Writer
set_headers [] w = w
set_headers ((key, value) ∷ extra) w = set_headers extra (set_header key value w)

module _ {P : Type 0} (encode : P → Option Str) (error_payload : Str → P) where
  -- After w.WriteHeader: json.NewEncoder(w).Encode
  encoded : Option Str → Writer → Writer
  encoded none w = http_error (codes "json encoding failure") 500 w
  encoded (some text) w = write text w

  -- writeJSON, with the headers that the service sets beside the content type
  unfoldable pub write_json : List (Str × Str) → ℕ → P → Writer → Writer
  unfolding encoded set_headers
  write_json extra status payload w = encoded (encode payload) (
      write_header status
        (set_headers extra (set_header (codes "Content-Type") (codes "application/json") w)))

  -- writeError
  unfoldable pub write_error : List (Str × Str) → ℕ → Str → Writer → Writer
  write_error extra status message w = write_json extra status (error_payload message) w

  module _ {S : Type 0} where
    -- After the deferred call of recover()
    recovered : List (Str × Str) → Bool × Writer × S → Bool × Writer × S
    recovered extra (false, w, s) = (false, w, s)
    recovered extra (true, w, s) =
        (false, write_error extra 500 (codes "internal server error") w, s)

    -- withRecovery
    unfoldable pub with_recovery : {R : Type 0} → List (Str × Str) → Handler R S → Handler R S
    unfolding recovered
    with_recovery extra handler r (w, s) = recovered extra (handler r (w, s))

-- The headers of withCORS
abbrev pub cors_headers : Writer → Writer
cors_headers w = set_header (codes "Access-Control-Allow-Headers") (codes "Content-Type") (
    set_header (codes "Access-Control-Allow-Methods") (codes "GET, OPTIONS")
      (set_header (codes "Access-Control-Allow-Origin") (codes "*") w))

module _ {R S : Type 0} where
  logged : R → List R → Bool × Writer × S → Bool × Writer × (S × List R)
  logged r log (true, w, s) = (true, w, (s, log))
  logged r log (false, w, s) = (false, w, (s, log ++ r ∷ []))

  -- withLogging: a request is logged when its handler has returned.
  unfoldable pub with_logging : Handler R S → Handler R (S × List R)
  unfolding logged
  with_logging handler r (w, (s, log)) = logged r log (handler r (w, s))

  -- After the headers are set: OPTIONS is answered here.
  preflight : Handler R S → R → Writer × S → {A : Type 0} → Dec A → Bool × Writer × S
  preflight handler r (w, s) (yes options) = (false, write_header 204 w, s)
  preflight handler r (w, s) (no other) = handler r (w, s)

  -- withCORS, where the method of a request is a parameter
  unfoldable pub with_cors : (R → Str) → Handler R S → Handler R S
  unfolding preflight
  with_cors method handler r (w, s) =
      preflight handler r (cors_headers w, s) (str_discrete (method r) (codes "OPTIONS"))
