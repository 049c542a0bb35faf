-- ===== src/Startup/Mains.antt =====
-- main of submission-api/main.go, leaderboard/main.go and telemetry-ingester/main.go, by the
-- handles that it opens and closes. What the service does in between is in the other modules.
use hft_bench.Prelude.{
  ◌≡◌, refl, ◌⊎◌, inl, inr, Bool, true, false, none, some, ℕ_discrete, arith, List, [], ◌∷◌, ◌++◌,
}
use hft_bench.Prelude.Text.{Str, codes, after_prefix}
use hft_bench.Startup.Tables.{Database}
use hft_bench.Startup.{
  Connection, Received, Ended, fatal, complete, app_run, submission_init_db, leaderboard_init_db,
  ingester_init_db,
}

pub data Handle : Type 0 where
  database orchestrator bot_fleet broker : Handle

-- How main ends, with the handles that are open then, the last one first, and the database
abbrev pub Outcome : Type 0 → Type 0
Outcome R = Ended × List Handle × Database R

-- `defer h.Close()` around the rest of main: a return closes the handle that was opened last of
-- those that are open, and log.Fatalf closes none.
unfoldable pub closing : {R : Type 0} → Outcome R → Outcome R
closing (fatal, handles, db) = (fatal, handles, db)
closing (complete, [], db) = (complete, [], db)
closing (complete, h ∷ handles, db) = (complete, handles, db)

module _ {R : Type 0} where
  -- The rest of main after a call that may fail, with its error handled by log.Fatalf
  or_fatal : Bool → Outcome R → List Handle → Database R → Outcome R
  or_fatal true rest handles db = rest
  or_fatal false rest handles db = (fatal, handles, db)

  -- main of submission-api/main.go: whether the two calls of grpc.NewClient succeed, and what
  -- App.run receives
  unfoldable pub submission_main : Connection → Bool → Bool → Received → Database R → Outcome R
  unfolding or_fatal
  submission_main c orch_ok bench_ok received db =
      let (ok, db') = submission_init_db c db in
      or_fatal ok
        (closing (
          or_fatal orch_ok
            (closing (
              or_fatal bench_ok
                (closing (app_run received, bot_fleet ∷ orchestrator ∷ database ∷ [], db'))
                (orchestrator ∷ database ∷ []) db'))
            (database ∷ []) db'))
        [] db'

  -- main of leaderboard/main.go
  unfoldable pub leaderboard_main : Connection → Received → Database R → Outcome R
  unfolding or_fatal
  leaderboard_main c received db =
      let (ok, db') = leaderboard_init_db c db in
      or_fatal ok (closing (app_run received, database ∷ [], db')) [] db'

  -- main of telemetry-ingester/main.go: whether kgo.NewClient succeeds. It returns once the
  -- consumer loop has ended and the storage worker has returned.
  unfoldable pub ingester_main : Connection → Bool → Database R → Outcome R
  unfolding or_fatal
  ingester_main c client_ok db =
      let (ok, db') = ingester_init_db c db in
      or_fatal ok
        (closing (
          or_fatal client_ok (closing (complete, broker ∷ database ∷ [], db')) (database ∷ []) db'))
        [] db'

-- The address that the leaderboard listens at, from os.Getenv("PORT")
unfoldable pub listen_address : Str → Str
listen_address [] = codes ":3001"
listen_address (c ∷ s) = elim (after_prefix (codes ":") (c ∷ s)) [
  | some rest ↦ c ∷ s
  | none ↦ codes ":" ++ c ∷ s
]

-- It begins with a colon, and names itself.
pub listen_address_lem :
    (port : Str)
    → ((rest : Str) × (listen_address port ≡ codes ":" ++ rest))
      × (listen_address (listen_address port) ≡ listen_address port)
unfolding listen_address after_prefix
listen_address_lem [] = ((codes "3001", refl), refl)
listen_address_lem (c ∷ s) = elim (ℕ_discrete 58 c) [
  | yes e ↦ ((s, ground arith), ground arith)
  | no ne ↦ ((c ∷ s, ground arith), ground arith)
]

-- A process that ends by the return of main has closed every handle that it had opened.
abbrev Closes : {R : Type 0} → Outcome R → Type 0
Closes out = (out.0 ≡ fatal) ⊎ ((out.0 ≡ complete) × (out.1 ≡ []))

module _ {R : Type 0} (c : Connection) (db : Database R) where
  pub submission_main-Closes :
      (orch_ok bench_ok : Bool) (received : Received)
      → Closes (submission_main c orch_ok bench_ok received db)
  unfolding submission_main closing
  submission_main-Closes orch_ok bench_ok received =
      cases (submission_init_db c db) orch_ok bench_ok (app_run received)
    where
      cases :
          (out : Bool × Database R) (o b : Bool) (end : Ended)
          → Closes (
              or_fatal out.0
                (closing (
                  or_fatal o
                    (closing (
                      or_fatal b
                        (closing (end, bot_fleet ∷ orchestrator ∷ database ∷ [], out.1))
                        (orchestrator ∷ database ∷ [])
                        out.1))
                    (database ∷ [])
                    out.1))
                []
                out.1)
      cases (false, d) o b end = inl refl
      cases (true, d) false b end = inl refl
      cases (true, d) true false end = inl refl
      cases (true, d) true true fatal = inl refl
      cases (true, d) true true complete = inr (refl, refl)

  pub leaderboard_main-Closes : (received : Received) → Closes (leaderboard_main c received db)
  unfolding leaderboard_main closing
  leaderboard_main-Closes received = cases (leaderboard_init_db c db) (app_run received)
    where
      cases :
          (out : Bool × Database R) (end : Ended)
          → Closes (or_fatal out.0 (closing (end, database ∷ [], out.1)) [] out.1)
      cases (false, d) end = inl refl
      cases (true, d) fatal = inl refl
      cases (true, d) complete = inr (refl, refl)

  pub ingester_main-Closes : (client_ok : Bool) → Closes (ingester_main c client_ok db)
  unfolding ingester_main closing
  ingester_main-Closes client_ok = cases (ingester_init_db c db) client_ok
    where
      cases :
          (out : Bool × Database R) (k : Bool)
          → Closes (
              or_fatal out.0
                (closing (
                  or_fatal k
                    (closing (complete, broker ∷ database ∷ [], out.1))
                    (database ∷ [])
                    out.1))
                []
                out.1)
      cases (false, d) k = inl refl
      cases (true, d) false = inl refl
      cases (true, d) true = inr (refl, refl)
