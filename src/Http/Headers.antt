-- ===== src/Http/Headers.antt =====
-- A header that stays.
use hft_bench.Prelude.{
  ℕ, ◌≡◌, ◌≢◌, refl, ◌∙◌, Bool, true, false, Option, none, some, List, [], ◌∷◌, ◌++◌, All,
}
use hft_bench.Prelude.Text.{Str, codes, str_discrete}
use hft_bench.Prelude.Dict.{Dict, lookup, lookup-insert_ne}
use hft_bench.Http.{
  Writer, set_header, send, write_header, write, http_error, set_headers, encoded, write_json,
  write_error, with_recovery, recovered, Handler, cors_headers, preflight, with_cors, logged,
  with_logging,
}

module _ (key value : Str) where
  -- The headers that are sent, if any are, have the value.
  abbrev pub SentHas : Option (ℕ × Dict Str) → Type 0
  SentHas none = Unit
  SentHas (some (status, headers)) = lookup key headers ≡ some value

  -- The header map has the value, and so have the headers that are sent.
  abbrev pub Carries : Writer → Type 0
  Carries w = (lookup key w.headers ≡ some value) × SentHas w.sent

  pub set_header-Carries :
      (k v : Str) (w : Writer) → key ≢ k → Carries w → Carries (set_header k v w)
  set_header-Carries k v w ne (here, sent) = (lookup-insert_ne key k v w.headers ne ∙ here, sent)

  pub write_header-Carries : (status : ℕ) (w : Writer) → Carries w → Carries (write_header status w)
  unfolding write_header send
  write_header-Carries status w (here, sent) = sends w.sent sent
    where
      sends : (o : Option (ℕ × Dict Str)) → SentHas o → Carries (send o status w)
      sends none h = (here, here)
      sends (some first) h = (here, sent)

  write-Carries : (text : Str) (w : Writer) → Carries w → Carries (write text w)
  unfolding write
  write-Carries text w h = write_header-Carries 200 w h

  set_headers-Carries :
      (extra : List (Str × Str)) (w : Writer)
      → All (λ e. key ≢ e.0) extra
      → Carries w
      → Carries (set_headers extra w)
  unfolding set_headers
  set_headers-Carries [] w ne h = h
  set_headers-Carries ((k, v) ∷ extra) w (ne, nes) h =
      set_headers-Carries extra _ nes (set_header-Carries k v w ne h)

  module _ (content_type : key ≢ codes "Content-Type")
      (sniff : key ≢ codes "X-Content-Type-Options") {P : Type 0} (encode : P → Option Str)
      (error_payload : Str → P) (extra : List (Str × Str))
      (others : All (λ e. key ≢ e.0) extra) where
    encoded-Carries :
        (text : Option Str) (w : Writer) → Carries w → Carries (encoded encode error_payload text w)
    unfolding encoded http_error
    encoded-Carries none w h =
        let typed = set_header (codes "Content-Type") (codes "text/plain; charset=utf-8") w in
        let marked = set_header (codes "X-Content-Type-Options") (codes "nosniff") typed in
        write-Carries (codes "json encoding failure" ++ 10 ∷ []) (write_header 500 marked) (
          write_header-Carries 500 marked (
            set_header-Carries _ (codes "nosniff") typed sniff
              (set_header-Carries _ _ w content_type h)))
    encoded-Carries (some text) w h = write-Carries text w h

    pub write_json-Carries :
        (status : ℕ) (payload : P) (w : Writer)
        → Carries w
        → Carries (write_json encode error_payload extra status payload w)
    unfolding write_json
    write_json-Carries status payload w h =
        let typed = set_header (codes "Content-Type") (codes "application/json") w in
        encoded-Carries (encode payload) (write_header status (set_headers extra typed)) (
          write_header-Carries status (set_headers extra typed)
            (set_headers-Carries extra typed others (set_header-Carries _ _ w content_type h)))

    pub write_error-Carries :
        (status : ℕ) (message : Str) (w : Writer)
        → Carries w
        → Carries (write_error encode error_payload extra status message w)
    unfolding write_error
    write_error-Carries status message w h = write_json-Carries status (error_payload message) w h

    -- A handler that keeps the header is answered with it, also where it panics.
    pub with_recovery-Carries :
        {R S : Type 0} (handler : Handler R S) (r : R) (w : Writer) (s : S) (log : List R)
        → Carries (handler r (w, s)).1
        → ((with_recovery encode error_payload extra (with_logging handler) r (w, (s, log))).0
            ≡ false)
          × Carries
              (with_recovery encode error_payload extra (with_logging handler) r (w, (s, log))).1
    unfolding with_recovery with_logging recovered logged
    with_recovery-Carries {R} {S} handler r w s log h = go (handler r (w, s)) h
      where
        go :
            (out : Bool × Writer × S)
            → Carries out.1
            → ((recovered encode error_payload extra (logged r log out)).0 ≡ false)
              × Carries (recovered encode error_payload extra (logged r log out)).1
        go (false, w', s') c = (refl, c)
        go (true, w', s') c = (refl, write_error-Carries 500 (codes "internal server error") w' c)

-- What holds of the answer to OPTIONS and of the handler's holds of the answer.
pub with_cors_cases :
    {R S : Type 0} (P : Bool × Writer × S → Type 0) (method : R → Str) (handler : Handler R S)
    (r : R) (w : Writer) (s : S)
    → (method r ≡ codes "OPTIONS" → P (false, write_header 204 (cors_headers w), s))
    → (method r ≢ codes "OPTIONS" → P (handler r (cors_headers w, s)))
    → P (with_cors method handler r (w, s))
unfolding with_cors preflight
with_cors_cases P method handler r w s options other =
    go (str_discrete (method r) (codes "OPTIONS"))
  where
    go : (d : Dec (method r ≡ codes "OPTIONS")) → P (preflight handler r (cors_headers w, s) d)
    go (yes e) = options e
    go (no ne) = other ne
