-- ===== src/Orchestrator/Consumer.antt =====
-- ProbeConsumer of services/sandbox-orchestrator/ebpf_consumer.go: the loop that drains the ring
-- buffer of one machine in batches. The loop's input is what each of its passes meets; the Kafka
-- client and json.Marshal are parameters, and `F` is `float64`.
pub mod Delivery
pub mod Lifetime
use hft_bench.Prelude.{
  ℕ, Bool, true, false, Option, none, some, List, [], ◌∷◌, ◌++◌, if◌then◌else◌, ltb, leb, length,
}
use hft_bench.Prelude.Int.{ℤ, pos}
use hft_bench.Prelude.Text.{Str, codes}
use hft_bench.Float64.{Float64}
use hft_bench.Orchestrator.LatencyRecord.{LatencyRecord, record_size, decode}

abbrev pub probe_flush_size : ℕ
probe_flush_size = 256

-- ProbeKafkaTopic
abbrev pub probe_kafka_topic : Str
probe_kafka_topic = codes "kernel-latency-events"

pub record KernelLatencyEvent (F : Type 0) : Type 0 where
  pub vm_id : Str
  pub submission_id : Str
  pub latency_ns : ℕ
  pub latency_us : F
  pub egress_ts_ns : ℕ
  pub src_port : ℕ
  pub dst_port : ℕ
  pub seq : ℕ
  pub timestamp : ℤ

-- kgo.Record, by the fields that are set
pub record Message : Type 0 where
  pub topic : Str
  pub key : Str
  pub value : List ℕ

-- kgo.Client.ProduceSync: whether the context is done, and the messages; `true` is no error.
abbrev pub Produce : Type 0 → Type 0
Produce W = Bool → List Message → W → Bool × W

-- What the fields of a ProbeConsumer hold.
pub record ProbeConsumer (F : Type 0) : Type 0 where
  pub vm_id : Str
  pub submission_id : Str
  pub topic : Str
  pub float64 : Float64 F
  pub marshal : KernelLatencyEvent F → Option (List ℕ)

-- The case that `select` takes. Cancellation may come at any time, so that the context may be done
-- by the time of a flush although another case was taken.
pub data Signal : Type 0 where
  done : Signal
  tick : (cancelled : Bool) → Signal
  default : Signal

-- One pass of the loop: the case, what ReadInto returns, the time, and whether the context is done
-- at the end of the pass.
pub record Pass : Type 0 where
  pub signal : Signal
  pub raw : Option (List ℕ)
  pub now : ℤ
  pub cancelled : Bool

-- The state of the loop: the batch, or nothing once it has returned.
pub data Loop (F : Type 0) : Type 0 where
  running : List (KernelLatencyEvent F) → Loop F
  stopped : Loop F

module _ {F W : Type 0} (c : ProbeConsumer F) (client : Option (Produce W)) where
  abbrev pub Event : Type 0
  Event = KernelLatencyEvent F

  -- An event that does not marshal is skipped.
  with_message : Option (List ℕ) → List Message → List Message
  with_message none records = records
  with_message (some payload) records =
      record { topic = c.topic; key = c.vm_id; value = payload } ∷ records

  -- The records of a batch
  unfoldable pub messages : List Event → List Message
  unfolding with_message
  messages [] = []
  messages (evt ∷ batch) = with_message (c.marshal evt) (messages batch)

  produced : Option (Produce W) → Bool → List Message → W → W
  produced none cancelled records w = w
  produced (some produce) cancelled records w = (produce cancelled records w).1

  -- ProbeConsumer.flush, without a client it only logs
  unfoldable pub flush : Bool → List Event → W → W
  unfolding produced
  flush cancelled [] w = w
  flush cancelled (evt ∷ batch) w = produced client cancelled (messages (evt ∷ batch)) w

  unfoldable pub event_of : LatencyRecord → ℤ → Event
  event_of rec now = record {
    vm_id = c.vm_id;
    submission_id = c.submission_id;
    latency_ns = rec.latency_ns;
    latency_us = c.float64.div (c.float64.of_int (pos rec.latency_ns)) (c.float64.lit 1000 0);
    egress_ts_ns = rec.egress_ts_ns;
    src_port = rec.src_port;
    dst_port = rec.dst_port;
    seq = rec.seq;
    timestamp = now;
  }

  -- After the append of an event
  unfoldable pub appended : Bool → List Event → W → Loop F × W
  appended cancelled batch w =
      if leb probe_flush_size (length batch)
      then (running [], flush cancelled batch w)
      else (running batch, w)

  -- After ReadInto, whose error is a timeout
  unfoldable pub read : Pass → Option (List ℕ) → List Event → W → Loop F × W
  unfolding appended
  read pass none batch w = (running batch, w)
  read pass (some raw) batch w =
      if ltb (length raw) record_size
      then (running batch, w)
      else appended pass.cancelled (batch ++ event_of (decode raw) pass.now ∷ []) w

  -- One pass of the loop of run
  unfoldable pub signalled : Signal → Pass → List Event → W → Loop F × W
  unfolding read
  signalled done pass batch w = (stopped, flush true batch w)
  signalled (tick cancelled) pass batch w = read pass pass.raw [] (flush cancelled batch w)
  signalled default pass batch w = read pass pass.raw batch w

  -- The loop goes on unless it has returned.
  next : (List Event → W → Loop F × W) → Loop F × W → Loop F × W
  next rest (stopped, w) = (stopped, w)
  next rest (running batch, w) = rest batch w

  -- ProbeConsumer.run once the reader is made, for as many passes as there are inputs
  unfoldable pub run : List Pass → List Event → W → Loop F × W
  unfolding signalled next
  run [] batch w = (running batch, w)
  run (pass ∷ passes) batch w = next (run passes) (signalled pass.signal pass batch w)

  -- ProbeConsumer.run, which returns at once if ringbuf.NewReader fails
  abbrev pub consume : Bool → List Pass → W → Loop F × W
  consume reader_made passes w = if reader_made then run passes [] w else (stopped, w)
