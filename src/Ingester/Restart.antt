-- ===== src/Ingester/Restart.antt =====
-- The lives of the ingester's process: createKafkaClient of telemetry-ingester/main.go joins the
-- consumer group, which resumes where the offsets were committed, and the records from there on are
-- read again. A crash ends a life between any two events of the storage worker.
pub mod Covers
use hft_bench.Prelude.{ℕ, ◌+◌, ◌≡◌, ◌⊎◌, Bool, List, [], ◌∷◌, ◌++◌, if◌then◌else◌, leb, In}
use hft_bench.Ingester.Payload.{TelemetryPayload, KafkaRecord, StorageRecord}
use hft_bench.Ingester.Storage.{Backend, Event, Worker, run_storage_worker}
use hft_bench.Ingester.Storage.Accounting.{IsTransactional, taken}

module _ {F : Type 0} where
  abbrev pub offset_of : StorageRecord F → ℕ
  offset_of r = r.kafka_record.offset

  -- The records of a partition from an offset on
  unfoldable pub from_offset : ℕ → List (StorageRecord F) → List (StorageRecord F)
  from_offset n [] = []
  from_offset n (r ∷ rs) =
      let rest = from_offset n rs in if leb n (offset_of r) then r ∷ rest else rest

-- Where a member of the group starts to read: after an offset that was committed, or at the start
-- (kgo.NewOffset().AtStart()) if none was.
abbrev pub Resumes : List KafkaRecord → ℕ → Type 0
Resumes committed n =
    ((committed ≡ []) × (n ≡ 0)) ⊎ ((k : KafkaRecord) × In k committed × (n ≡ k.offset + 1))

-- `topic` holds the valid records of the one partition, in order.
module _ {F W : Type 0} (b : Backend F W) (rows pending : W → List (TelemetryPayload F))
    (committed : W → List KafkaRecord) (t : IsTransactional b rows pending committed)
    (topic : List (StorageRecord F)) where
  -- In each life the worker takes the first of the records from where it resumes, and `rest` is
  -- what it does not come to.
  pub data Lives (w : W) : W → Type 0 where
    first : Lives w w
    then_life :
        {v : W} (n : ℕ) (events : List (Event F)) (rest : List (StorageRecord F))
        → Lives w v
        → Resumes (committed v) n
        → taken b rows pending committed t events ++ rest ≡ from_offset n topic
        → Lives w (run_storage_worker b events ([], v)).1
