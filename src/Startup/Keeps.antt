-- ===== src/Startup/Keeps.antt =====
-- The schema statements at each start keep what is there.
use hft_bench.Prelude.{
  ◌≡◌, refl, ◌∙◌, ap, subst, Bool, true, false, some, List, [], ◌∷◌, ◌++◌, if◌then◌else◌,
}
use hft_bench.Prelude.Text.{Str, codes}
use hft_bench.Prelude.Dict.{lookup}
use hft_bench.Startup.Tables.{
  Database, create_hypertable, if_absent, if_absent-there, if_absent-keeps,
}
use hft_bench.Startup.{
  Connection, Service, submission_api, leaderboard, telemetry_ingester, submission_init_db,
  leaderboard_init_db, ingester_init_db, jobs_schema, metrics_schema, exec, hypertable_made,
  init_db, table_of, starts,
}

module _ {R : Type 0} where
  -- A start keeps each table with its rows, and if it succeeds, the service's table is there.
  abbrev Prepares : Service → Database R → Bool × Database R → Type 0
  Prepares service db out =
      ((t : Str) (rows : List R)
        → lookup t db.tables ≡ some rows
        → lookup t out.1.tables ≡ some rows)
      × (out.0 ≡ true
          → (t : Str) → table_of service ≡ some t
          → (rows : List R) × (lookup t out.1.tables ≡ some rows))

  refused-Prepares : (service : Service) (db : Database R) → Prepares service db (false, db)
  refused-Prepares service db = (λ t rows e. e, λ e. absurd (cc))

  -- The service's table is made if it is not there.
  made-Prepares :
      (service : Service) (name : Str) (db db' : Database R)
      → table_of service ≡ some name
      → db'.tables ≡ if_absent name [] db.tables
      → Prepares service db (true, db')
  made-Prepares service name db db' named made = (
    λ t rows e. ap (lookup t) made ∙ if_absent-keeps t name [] rows db.tables e,
    λ done t e.
        let (rows, there) = if_absent-there name [] db.tables in
        let same : name ≡ t = cc (named, e) in
        (
          rows,
          ap (lookup t) made
              ∙ subst (λ x. lookup x (if_absent name [] db.tables) ≡ some rows) same there,
        ),
  )

  submission-Prepares :
      (c : Connection) (db : Database R) → Prepares submission_api db (submission_init_db c db)
  unfolding submission_init_db jobs_schema
  submission-Prepares c db = cases c.open_ok c.ping_ok c.exec_ok
    where
      cases :
          (o p e : Bool)
          → Prepares submission_api db (
              if o
              then (if p then (if e then (true, jobs_schema db) else (false, db)) else (false, db))
              else (false, db))
      cases true true true = made-Prepares submission_api _ db (jobs_schema db) refl refl
      cases true true false = refused-Prepares submission_api db
      cases true false e = refused-Prepares submission_api db
      cases false p e = refused-Prepares submission_api db

  leaderboard-Prepares :
      (c : Connection) (db : Database R) → Prepares leaderboard db (leaderboard_init_db c db)
  unfolding leaderboard_init_db
  leaderboard-Prepares c db = cases c.open_ok c.ping_ok
    where
      cases :
          (o p : Bool)
          → Prepares leaderboard db
              (if o then (if p then (true, db) else (false, db)) else (false, db))
      cases true true = (λ t rows e. e, λ done t e. absurd (cc))
      cases true false = refused-Prepares leaderboard db
      cases false p = refused-Prepares leaderboard db

  ingester-Prepares :
      (c : Connection) (db : Database R) → Prepares telemetry_ingester db (ingester_init_db c db)
  unfolding ingester_init_db metrics_schema
  ingester-Prepares c db = cases c.open_ok c.exec_ok c.hypertable_ok
    where
      cases :
          (o e h : Bool)
          → Prepares telemetry_ingester db
              (if o then hypertable_made h (exec e metrics_schema db) else (false, db))
      cases true true true =
          made-Prepares telemetry_ingester _ db
            (create_hypertable (codes "benchmark_metrics") (codes "timestamp") (metrics_schema db))
            refl refl
      cases true true false = made-Prepares telemetry_ingester _ db (metrics_schema db) refl refl
      cases true false h = refused-Prepares telemetry_ingester db
      cases false e h = refused-Prepares telemetry_ingester db

  init_db-Prepares :
      (service : Service) (c : Connection) (db : Database R)
      → Prepares service db (init_db service c db)
  init_db-Prepares submission_api = submission-Prepares
  init_db-Prepares leaderboard = leaderboard-Prepares
  init_db-Prepares telemetry_ingester = ingester-Prepares

  starts-keeps :
      (l : List (Service × Connection)) (db : Database R) (t : Str) (rows : List R)
      → lookup t db.tables ≡ some rows
      → lookup t (starts l db).tables ≡ some rows
  unfolding starts
  starts-keeps [] db t rows e = e
  starts-keeps ((service, c) ∷ l) db t rows e =
      starts-keeps l (init_db service c db).1 t rows ((init_db-Prepares service c db).0 t rows e)

  starts-append :
      (l m : List (Service × Connection)) (db : Database R)
      → starts (l ++ m) db ≡ starts m (starts l db)
  unfolding starts
  starts-append [] m db = refl
  starts-append ((service, c) ∷ l) m db = starts-append l m (init_db service c db).1

  -- However often and in whatever order the services start on one database, and whichever of their
  -- calls fail: every table that was there keeps its rows, and once a start of the submission API
  -- or of the ingester has succeeded, the table that it makes is there after all later starts.
  pub starts-Prepared :
      (l : List (Service × Connection)) (db : Database R)
      → ((t : Str) (rows : List R)
          → lookup t db.tables ≡ some rows
          → lookup t (starts l db).tables ≡ some rows)
        × ((before after : List (Service × Connection)) (service : Service) (c : Connection)
              (t : Str)
            → l ≡ before ++ (service, c) ∷ after
            → (init_db service c (starts before db)).0 ≡ true
            → table_of service ≡ some t
            → (rows : List R) × (lookup t (starts l db).tables ≡ some rows))
  unfolding starts
  starts-Prepared l db = (
    starts-keeps l db,
    λ before after service c t split done named.
        let (rows, there) = (init_db-Prepares service c (starts before db)).1 done t named in
        (
          rows,
          ap (λ x. lookup t (starts x db).tables) split
              ∙ ap (λ x. lookup t x.tables) (starts-append before ((service, c) ∷ after) db)
              ∙ starts-keeps after (init_db service c (starts before db)).1 t rows there,
        ),
  )
