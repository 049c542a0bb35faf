-- ===== src/Ingester/Storage.antt =====
-- runStorageWorker and persistBatch: batches of records go to the table benchmark_metrics in one
-- transaction each, and then their offsets are committed to the broker.
pub mod Accounting
pub mod Bounds
use hft_bench.Prelude.{
  ℕ, ◌≡◌, refl, Bool, true, false, List, [], ◌∷◌, ◌++◌, if◌then◌else◌, length, leb, map,
}
use hft_bench.Ingester.Payload.{TelemetryPayload, KafkaRecord, StorageRecord}

-- MaxBatchSize
abbrev pub max_batch_size : ℕ
max_batch_size = 500

-- The database and the broker, over a world `W`: whether a call succeeded, and the world after it.
-- A call that takes the context is told whether the context is done.
pub record Backend (F W : Type 0) : Type 0 where
  -- db.BeginTx, tx.PrepareContext of the INSERT, stmt.ExecContext with one payload's columns
  pub begin_tx : Bool → W → Bool × W
  pub prepare : Bool → W → Bool × W
  pub exec : Bool → TelemetryPayload F → W → Bool × W
  pub commit : W → Bool × W
  pub rollback : W → W
  -- client.CommitRecords
  pub commit_records : Bool → List KafkaRecord → W → Bool × W

-- What wakes the worker. The flag is whether the context is done when the event is handled.
pub data Event (F : Type 0) : Type 0 where
  ctx_done : Event F
  received : Bool → StorageRecord F → Event F
  channel_closed : Bool → Event F
  ticked : Bool → Event F

module _ {F W : Type 0} (backend : Backend F W) where
  open backend use {begin_tx, prepare, exec, commit, rollback, commit_records}

  -- The loop of persistBatch over its records.
  unfoldable pub exec_all : Bool → List (StorageRecord F) → W → Bool × W
  exec_all cancelled [] w = (true, w)
  exec_all cancelled (r ∷ rs) w =
      let (done, w1) = exec cancelled r.payload w in
      let rest = exec_all cancelled rs w1 in if done then rest else (false, w1)

  commit_or_roll_back : Bool × W → Bool × W
  commit_or_roll_back (true, w) = commit w
  commit_or_roll_back (false, w) = (false, rollback w)

  insert_records : Bool → List (StorageRecord F) → Bool × W → Bool × W
  insert_records cancelled rs (true, w) = commit_or_roll_back (exec_all cancelled rs w)
  insert_records cancelled rs (false, w) = (false, rollback w)

  prepare_insert : Bool → List (StorageRecord F) → Bool × W → Bool × W
  prepare_insert cancelled rs (true, w) = insert_records cancelled rs (prepare cancelled w)
  prepare_insert cancelled rs (false, w) = (false, w)

  -- persistBatch: whether it returned no error
  unfoldable pub persist_batch : Bool → List (StorageRecord F) → W → Bool × W
  unfolding prepare_insert insert_records commit_or_roll_back exec_all
  persist_batch cancelled rs w = prepare_insert cancelled rs (begin_tx cancelled w)

  abbrev pub Worker : Type 0
  Worker = List (StorageRecord F) × W

  -- After persistBatch: a failed batch stays in the buffer; a failure to commit the offsets is
  -- only logged.
  unfoldable pub after_persist : Bool → List (StorageRecord F) → Bool × W → Worker
  after_persist cancelled buffer (false, w) = (buffer, w)
  after_persist cancelled buffer (true, w) =
      ([], (commit_records cancelled (map (λ r. r.kafka_record) buffer) w).1)

  -- The closure `flush` of runStorageWorker
  unfoldable pub flush : Bool → Worker → Worker
  unfolding after_persist
  flush cancelled ([], w) = ([], w)
  flush cancelled (r ∷ rs, w) =
      after_persist cancelled (r ∷ rs) (persist_batch cancelled (r ∷ rs) w)

  unfoldable pub receive : Bool → StorageRecord F → Worker → Worker
  receive cancelled r (buffer, w) =
      if leb max_batch_size (length (buffer ++ r ∷ []))
      then flush cancelled (buffer ++ r ∷ [], w)
      else (buffer ++ r ∷ [], w)

  -- runStorageWorker, on the events in the order in which it meets them
  unfoldable pub run_storage_worker : List (Event F) → Worker → Worker
  run_storage_worker [] s = s
  run_storage_worker (ctx_done ∷ events) s = flush true s
  run_storage_worker (channel_closed cancelled ∷ events) s = flush cancelled s
  run_storage_worker (received cancelled r ∷ events) s =
      run_storage_worker events (receive cancelled r s)
  run_storage_worker (ticked cancelled ∷ events) s = run_storage_worker events (flush cancelled s)
