-- ===== src/Ingester/Payload.antt =====
-- The records of the topic and parseTelemetryRecord. A success rate is a `float64` that this
-- service only passes on: its type is the parameter `F`. `json.Unmarshal` is a parameter too.
use hft_bench.Prelude.{ℕ, Option, none, some, List, if◌then◌else◌}
use hft_bench.Prelude.Int.{ℤ}
use hft_bench.Prelude.Text.{Str, is_empty}

pub record TelemetryPayload (F : Type 0) : Type 0 where
  pub submission_id : Str
  pub p50_micros : ℤ
  pub p90_micros : ℤ
  pub p99_micros : ℤ
  pub total_orders : ℤ
  pub success_rate : F
  pub timestamp : ℤ

-- `kgo.Record`: a message of the broker
pub record KafkaRecord : Type 0 where
  pub partition : ℕ
  pub offset : ℕ
  pub value : List ℕ

pub record StorageRecord (F : Type 0) : Type 0 where
  pub payload : TelemetryPayload F
  pub kafka_record : KafkaRecord

module _ {F : Type 0} (unmarshal : List ℕ → Option (TelemetryPayload F)) where
  -- parseTelemetryRecord; `none` is an error.
  unfoldable pub parse_telemetry_record : List ℕ → Option (TelemetryPayload F)
  parse_telemetry_record raw = elim (unmarshal raw) [
    | none ↦ none
    | some payload ↦ if is_empty payload.submission_id then none else some payload
  ]
