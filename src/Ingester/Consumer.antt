-- ===== src/Ingester/Consumer.antt =====
-- runConsumerLoop: what the consumer sends to the storage worker. The environment decides what a
-- poll returns, and whether the context is done when a round begins and at each send.
use hft_bench.Prelude.{
  ℕ, ◌≡◌, refl, Bool, true, false, Option, none, some, List, [], ◌∷◌, ◌++◌, arith, if◌then◌else◌,
  All, ltb,
}
use hft_bench.Ingester.Payload.{
  TelemetryPayload, KafkaRecord, StorageRecord, parse_telemetry_record,
}

-- `kgo.Fetches`, each record with whether the context is done when the loop would send it.
pub record Fetches : Type 0 where
  pub is_client_closed : Bool
  -- how many fetch errors the poll met
  pub errors : ℕ
  pub records : List (KafkaRecord × Bool)

-- A round of the loop: the context is done when it begins, or the poll returns.
pub data Round : Type 0 where
  done : Round
  polled : Fetches → Round

module _ {F : Type 0} (unmarshal : List ℕ → Option (TelemetryPayload F)) where
  -- The loop over the records of one poll: what is sent, and whether the function goes on.
  unfoldable pub forward : List (KafkaRecord × Bool) → List (StorageRecord F) × Bool
  forward [] = ([], true)
  forward ((kafka_record, cancelled) ∷ records) =
      let rest = forward records in
      elim (parse_telemetry_record unmarshal kafka_record.value) [
        | none ↦ rest
        | some payload ↦
            if cancelled
            then ([], false)
            else (record { payload = payload; kafka_record = kafka_record } ∷ rest.0, rest.1)
      ]

  -- runConsumerLoop
  unfoldable pub run_consumer_loop : List Round → List (StorageRecord F)
  unfolding forward
  run_consumer_loop [] = []
  run_consumer_loop (done ∷ rounds) = []
  run_consumer_loop (polled fetches ∷ rounds) =
      let rest = run_consumer_loop rounds in
      if fetches.is_client_closed
      then []
      else if ltb 0 fetches.errors
      then rest
      else let (sent, goes_on) = forward fetches.records in sent ++ (if goes_on then rest else [])

  -- The storage records of the messages that parse, in order.
  unfoldable pub valid_records : List (KafkaRecord × Bool) → List (StorageRecord F)
  valid_records [] = []
  valid_records ((kafka_record, cancelled) ∷ records) =
      elim (parse_telemetry_record unmarshal kafka_record.value) [
        | none ↦ valid_records records
        | some payload ↦
            record { payload = payload; kafka_record = kafka_record } ∷ valid_records records
      ]

  -- The context is never done at a send.
  abbrev pub NotCancelled : List (KafkaRecord × Bool) → Type 0
  NotCancelled = All λ r. r.1 ≡ false

  forward_all :
      (rs : List (KafkaRecord × Bool)) → NotCancelled rs → forward rs ≡ (valid_records rs, true)
  unfolding forward valid_records
  forward_all [] h = refl
  forward_all ((r, c) ∷ rs) (h, hs) = ground (arith, forward_all rs hs)

  -- A round that the loop passes without ending: its poll is open and not cancelled.
  abbrev pub IsLive : Round → Type 0
  IsLive done = ⊥
  IsLive (polled f) = (f.is_client_closed ≡ false) × NotCancelled f.records

  -- What a round is good for: its valid records if the poll met no error, and nothing if it did.
  unfoldable pub delivered : Round → List (StorageRecord F)
  delivered done = []
  delivered (polled f) = if ltb 0 f.errors then [] else valid_records f.records

  unfoldable pub all_delivered : List Round → List (StorageRecord F)
  all_delivered [] = []
  all_delivered (r ∷ rs) = delivered r ++ all_delivered rs

  -- While the client is open and the context is not done, the loop sends, in order, exactly the
  -- valid records of the polls that met no error; what an erroneous poll brought is dropped.
  pub run_consumer_loop_delivers :
      (rounds : List Round) → All IsLive rounds → run_consumer_loop rounds ≡ all_delivered rounds
  unfolding run_consumer_loop delivered all_delivered
  run_consumer_loop_delivers [] h = refl
  run_consumer_loop_delivers (done ∷ rs) h = absurd h.0
  run_consumer_loop_delivers (polled f ∷ rs) ((o, c), hs) =
      ground (arith, forward_all f.records c, run_consumer_loop_delivers rs hs)
