-- ===== src/Http/Answers.antt =====
-- Which status an answer has.
use hft_bench.Prelude.{
  ℕ, ◌≡◌, refl, ◌∙◌, Bool, true, false, Option, none, some, List, [], ◌∷◌, ◌++◌,
}
use hft_bench.Prelude.Text.{Str}
use hft_bench.Prelude.Dict.{Dict}
use hft_bench.Http.{
  Writer, send, write_header, write, http_error, set_headers, encoded, write_json, write_error,
  with_recovery, recovered, logged, with_logging, Handler,
}

-- The status is sent, with some headers.
abbrev pub IsSent : ℕ → Writer → Type 0
IsSent status w = (headers : Dict Str) × (w.sent ≡ some (status, headers))

pub write_header-IsSent :
    (status : ℕ) (w : Writer) → w.sent ≡ none → IsSent status (write_header status w)
unfolding write_header
write_header-IsSent status w e = (w.headers, rw e refl)

write_header-keeps :
    (status other : ℕ) (w : Writer) → IsSent status w → IsSent status (write_header other w)
unfolding write_header send
write_header-keeps status other w h = kept w.sent h.1
  where
    kept : (o : Option (ℕ × Dict Str)) → o ≡ some (status, h.0) → IsSent status (send o other w)
    kept none e = absurd (cc)
    kept (some first) e = h

write-keeps :
    (status : ℕ) (text : Str) (w : Writer) → IsSent status w → IsSent status (write text w)
unfolding write
write-keeps status text w h = write_header-keeps status 200 w h

http_error-keeps :
    (status other : ℕ) (message : Str) (w : Writer)
    → IsSent status w
    → IsSent status (http_error message other w)
unfolding http_error
http_error-keeps status other message w h =
    write-keeps status _ _ (write_header-keeps status other _ h)

pub http_error-IsSent :
    (status : ℕ) (message : Str) (w : Writer)
    → w.sent ≡ none
    → IsSent status (http_error message status w)
unfolding http_error
http_error-IsSent status message w e = write-keeps status _ _ (write_header-IsSent status _ e)

set_headers-sent : (extra : List (Str × Str)) (w : Writer) → (set_headers extra w).sent ≡ w.sent
unfolding set_headers
set_headers-sent [] w = refl
set_headers-sent ((key, value) ∷ extra) w = set_headers-sent extra _

module _ {P : Type 0} (encode : P → Option Str) (error_payload : Str → P) where
  encoded-keeps :
      (status : ℕ) (text : Option Str) (w : Writer)
      → IsSent status w
      → IsSent status (encoded encode error_payload text w)
  unfolding encoded
  encoded-keeps status none w h = http_error-keeps status 500 _ w h
  encoded-keeps status (some text) w h = write-keeps status text w h

  -- The status that is given to writeJSON is sent, also where the payload cannot be encoded.
  pub write_json-IsSent :
      (extra : List (Str × Str)) (status : ℕ) (payload : P) (w : Writer)
      → w.sent ≡ none
      → IsSent status (write_json encode error_payload extra status payload w)
  unfolding write_json
  write_json-IsSent extra status payload w e =
      encoded-keeps status (encode payload) _
        (write_header-IsSent status _ (set_headers-sent extra _ ∙ e))

  pub write_error-IsSent :
      (extra : List (Str × Str)) (status : ℕ) (message : Str) (w : Writer)
      → w.sent ≡ none
      → IsSent status (write_error encode error_payload extra status message w)
  unfolding write_error
  write_error-IsSent extra status message w e =
      write_json-IsSent extra status (error_payload message) w e

  -- A handler that does not panic is logged, and nothing else is done around it.
  pub with_recovery-returns :
      {R S : Type 0} (extra : List (Str × Str)) (handler : Handler R S) (r : R) (w : Writer) (s : S)
      (log : List R)
      → (handler r (w, s)).0 ≡ false
      → with_recovery encode error_payload extra (with_logging handler) r (w, (s, log))
        ≡ (false, (handler r (w, s)).1, ((handler r (w, s)).2, log ++ r ∷ []))
  unfolding with_recovery with_logging recovered logged
  with_recovery-returns {R} {S} extra handler r w s log e = go (handler r (w, s)) e
    where
      go :
          (h : Bool × Writer × S)
          → h.0 ≡ false
          → recovered encode error_payload extra (logged r log h)
            ≡ (false, h.1, (h.2, log ++ r ∷ []))
      go (false, w', s') h = refl
      go (true, w', s') h = absurd (cc)
