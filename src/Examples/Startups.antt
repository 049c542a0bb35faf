-- ===== src/Examples/Startups.antt =====
-- Services that start on a database which has a table of jobs already.
use hft_bench.Prelude.{ℕ, ◌≡◌, refl, true, false, some, List, [], ◌∷◌, ◌++◌}
use hft_bench.Prelude.Text.{Str, codes, str_discrete, after_prefix}
use hft_bench.Prelude.Dict.{lookup, insert}
use hft_bench.Startup.Tables.{Database, if_absent}
use hft_bench.Startup.{
  Connection, Service, submission_api, leaderboard, telemetry_ingester, submission_init_db,
  leaderboard_init_db, ingester_init_db, jobs_schema, metrics_schema, init_db, table_of, starts,
  signalled, server_ended, serve_failed, app_run,
}
use hft_bench.Startup.Keeps.{starts-Prepared}
use hft_bench.Startup.Mains.{
  database, orchestrator, bot_fleet, closing, submission_main, listen_address,
}

abbrev jobs : Str
jobs = codes "benchmark_jobs"

abbrev metrics : Str
metrics = codes "benchmark_metrics"

abbrev used : Database ℕ
used = record { tables = (jobs, 7 ∷ []) ∷ []; indexes = []; hypertables = [] }

abbrev connected : Connection
connected = record { open_ok = true; ping_ok = true; exec_ok = true; hypertable_ok = false }

abbrev refused : Connection
refused = record { open_ok = true; ping_ok = true; exec_ok = false; hypertable_ok = false }

abbrev order : List (Service × Connection)
order =
    (leaderboard, connected)
    ∷ (telemetry_ingester, refused)
    ∷ (telemetry_ingester, connected)
    ∷ (submission_api, connected)
    ∷ []

both_tables : (starts order used).tables ≡ (jobs, 7 ∷ []) ∷ (metrics, []) ∷ []
unfolding starts submission_init_db leaderboard_init_db ingester_init_db jobs_schema metrics_schema
    if_absent lookup insert str_discrete
both_tables = refl

starts-Prepared_example :
    ((t : Str) (rows : List ℕ)
      → lookup t used.tables ≡ some rows
      → lookup t (starts order used).tables ≡ some rows)
    × ((before after : List (Service × Connection)) (service : Service) (c : Connection) (t : Str)
        → order ≡ before ++ (service, c) ∷ after
        → (init_db service c (starts before used)).0 ≡ true
        → table_of service ≡ some t
        → (rows : List ℕ) × (lookup t (starts order used).tables ≡ some rows))
starts-Prepared_example = starts-Prepared order used

-- A signal closes what main has opened; a failure of the server does not.
submission_stopped : (submission_main connected true true (signalled false) used).1 ≡ []
unfolding submission_main submission_init_db jobs_schema if_absent lookup str_discrete closing
    app_run
submission_stopped = refl

submission_broken :
    (submission_main connected true true (server_ended (some serve_failed)) used).1
    ≡ bot_fleet ∷ orchestrator ∷ database ∷ []
unfolding submission_main submission_init_db jobs_schema if_absent lookup str_discrete closing
    app_run
submission_broken = refl

port_without_colon : listen_address (codes "8090") ≡ codes ":8090"
unfolding listen_address after_prefix
port_without_colon = refl

port_with_colon : listen_address (codes ":8090") ≡ codes ":8090"
unfolding listen_address after_prefix
port_with_colon = refl
