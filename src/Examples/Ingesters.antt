-- ===== src/Examples/Ingesters.antt =====
-- A table and a topic in memory, which refuse a begin whose context is done.
use hft_bench.Prelude.{
  ℕ, ◌≡◌, refl, Bool, true, false, not, Option, none, some, List, [], ◌∷◌, ◌++◌, arith,
}
use hft_bench.Prelude.Int.{pos}
use hft_bench.Prelude.Text.{codes}
use hft_bench.Ingester.Payload.{
  TelemetryPayload, KafkaRecord, StorageRecord, parse_telemetry_record,
}
use hft_bench.Ingester.Consumer.{Round, polled, run_consumer_loop, forward}
use hft_bench.Ingester.Storage.{
  Backend, Event, ctx_done, received, ticked, exec_all, persist_batch, after_persist, flush,
  receive, run_storage_worker,
}
use hft_bench.Ingester.Storage.Accounting.{
  IsTransactional, Progress, run_storage_worker-Progress, shutdown_writes_nothing, taken,
}

pub record Memory : Type 0 where
  pub rows : List (TelemetryPayload ℕ)
  pub pending : List (TelemetryPayload ℕ)
  pub committed : List KafkaRecord

abbrev pub table : Backend ℕ Memory
table = record {
  begin_tx = λ c m. (not c, record m { pending = [] });
  prepare = λ c m. (true, m);
  exec = λ c p m. (true, record m { pending = m.pending ++ p ∷ [] });
  commit = λ m. (true, record m { rows = m.rows ++ m.pending });
  rollback = λ m. m;
  commit_records = λ c ks m. (true, record m { committed = m.committed ++ ks });
}

abbrev pub table_rows : Memory → List (TelemetryPayload ℕ)
table_rows m = m.rows

abbrev pub open_rows : Memory → List (TelemetryPayload ℕ)
open_rows m = m.pending

abbrev pub offsets : Memory → List KafkaRecord
offsets m = m.committed

pub table-IsTransactional : IsTransactional table table_rows open_rows offsets
table-IsTransactional = record {
  begins_done = λ m. refl;
  begins = λ c m. (refl, refl);
  begins_empty = λ c m h. refl;
  prepares = λ c m. (refl, refl, refl);
  execs = λ c p m. (refl, refl);
  execs_append = λ c p m h. refl;
  commits = λ m h. refl;
  commit_fails = λ m h. absurd (cc);
  commit_keeps = λ m. refl;
  rolls_back = λ m. (refl, refl);
  commits_records = λ c ks m. (refl, refl);
}

abbrev pub payload : ℕ → TelemetryPayload ℕ
payload t = record {
  submission_id = codes "a";
  p50_micros = pos 100;
  p90_micros = pos 200;
  p99_micros = pos 300;
  total_orders = pos 1000;
  success_rate = 1;
  timestamp = pos t;
}

abbrev pub message : ℕ → KafkaRecord
message t = record { partition = 0; offset = t; value = t ∷ [] }

abbrev pub item : ℕ → StorageRecord ℕ
item t = record { payload = payload t; kafka_record = message t }

abbrev pub empty : Memory
empty = record { rows = []; pending = []; committed = [] }

abbrev events : List (Event ℕ)
events =
    received false (item 1)
    ∷ received false (item 2)
    ∷ ticked false
    ∷ received false (item 3)
    ∷ ctx_done
    ∷ []

-- Two records are written on the tick; the third stays behind at the end.
worker_run : run_storage_worker table events ([], empty) ≡ (
  item 3 ∷ [],
  record {
    rows = payload 1 ∷ payload 2 ∷ [];
    pending = [];
    committed = message 1 ∷ message 2 ∷ [];
  },
)
unfolding run_storage_worker receive flush after_persist persist_batch exec_all
worker_run = refl

run_storage_worker-Progress_example :
    Progress table table_rows open_rows offsets table-IsTransactional
      ([], empty)
      (run_storage_worker table events ([], empty))
      (taken table table_rows open_rows offsets table-IsTransactional events)
run_storage_worker-Progress_example =
    run_storage_worker-Progress table table_rows open_rows offsets table-IsTransactional events
      ([], empty)

shutdown_writes_nothing_example :
    ((run_storage_worker table (ctx_done ∷ []) (item 3 ∷ [], empty)).0 ≡ item 3 ∷ [])
    × ((run_storage_worker table (ctx_done ∷ []) (item 3 ∷ [], empty)).1.rows ≡ [])
    × ((run_storage_worker table (ctx_done ∷ []) (item 3 ∷ [], empty)).1.committed ≡ [])
shutdown_writes_nothing_example =
    shutdown_writes_nothing table table_rows open_rows offsets table-IsTransactional []
      (item 3 ∷ []) empty

-- A backend on which every call succeeds.
abbrev ready : Backend ℕ Memory
ready = record table { begin_tx = λ c m. (true, record m { pending = [] }) }

ready-exec_all :
    (c : Bool) (rs : List (StorageRecord ℕ)) (m : Memory) → (exec_all ready c rs m).0 ≡ true
unfolding exec_all
ready-exec_all c [] m = refl
ready-exec_all c (r ∷ rs) m =
    ready-exec_all c rs (record m { pending = m.pending ++ r.payload ∷ [] })

ready-accepts :
    (c : Bool) (rs : List (StorageRecord ℕ)) (m : Memory) → (persist_batch ready c rs m).0 ≡ true
unfolding persist_batch
ready-accepts c rs m = ground (arith, ready-exec_all c rs (record m { pending = [] }))

-- Messages with an empty value do not parse.
abbrev pub unmarshal : List ℕ → Option (TelemetryPayload ℕ)
unmarshal [] = none
unmarshal (t ∷ _) = some (payload t)

abbrev bad_message : KafkaRecord
bad_message = record { partition = 0; offset = 9; value = [] }

abbrev pub rounds : List Round
rounds =
    polled (record {
      is_client_closed = false;
      errors = 0;
      records = (message 1, false) ∷ (bad_message, false) ∷ [];
    })
    ∷ polled (record { is_client_closed = false; errors = 1; records = (message 2, false) ∷ [] })
    ∷ []

-- The second poll met an error, and its message is dropped.
pub consumer_run : run_consumer_loop unmarshal rounds ≡ item 1 ∷ []
unfolding run_consumer_loop forward parse_telemetry_record
consumer_run = refl
