-- ===== src/Examples/Consumers.antt =====
-- A broker that keeps what it takes, and a machine with one event.
use hft_bench.Prelude.{
  ℕ, Bool, ◌≢◌, ◌⊎◌, ◌≡◌, refl, true, false, none, some, List, [], ◌∷◌, ◌++◌, arith,
}
use hft_bench.Prelude.Int.{pos}
use hft_bench.Prelude.Text.{codes}
use hft_bench.Float64.Fixed.{fixed}
use hft_bench.Orchestrator.LatencyRecord.{
  LatencyRecord, latency_event, write_le, read_le, decode, decode-latency_event,
}
use hft_bench.Orchestrator.Consumer.{
  Message, Produce, ProbeConsumer, Signal, done, tick, default, Pass, Loop, KernelLatencyEvent,
  signalled, stopped, messages, flush, event_of, run, probe_kafka_topic,
}
use hft_bench.Orchestrator.Consumer.Lifetime.{
  at_loop, attached, waiting, detached, System, CanTake, start, Step, open_reader, pass, cancel,
  await, detach, Reach, here, next, is_use,
}
use hft_bench.Orchestrator.Consumer.Lifetime.Safety.{Reach-Released}
use hft_bench.Orchestrator.Consumer.Delivery.{IsAvailable, events, unsent, Delivers, run-Delivers}

abbrev latency : LatencyRecord
latency = record {
  egress_ts_ns = 1000000;
  latency_ns = 125000;
  src_ip = 2886729730;
  dst_ip = 2886729729;
  src_port = 8080;
  dst_port = 40000;
  seq = 7;
}

decode-latency_event_example : decode (latency_event latency ++ 0 ∷ []) ≡ latency
decode-latency_event_example =
    decode-latency_event latency (0 ∷ [])
      (omega arith, omega arith, omega arith, omega arith, omega arith, omega arith, omega arith)

abbrev consumer : ProbeConsumer ℕ
consumer = record {
  vm_id = codes "vm-a";
  submission_id = codes "a";
  topic = probe_kafka_topic;
  float64 = fixed;
  marshal = λ evt. some (evt.seq ∷ []);
}

abbrev produce : Produce (List Message)
produce true records w = (false, w)
produce false records w = (true, w ++ records)

abbrev taken : List Message → List Message
taken w = w

produce-IsAvailable : IsAvailable produce taken
produce-IsAvailable = record { takes = λ records w. refl; refuses = λ records w. refl }

-- A pass that reads an event.
abbrev reads : Signal → Pass
reads signal = record {
  signal = signal;
  raw = some (latency_event latency);
  now = pos 5;
  cancelled = false;
}

abbrev quiet : Signal → Pass
quiet signal = record { signal = signal; raw = none; now = pos 6; cancelled = false }

abbrev message : Message
message = record { topic = probe_kafka_topic; key = codes "vm-a"; value = 7 ∷ [] }

-- The tick sends the event.
ticked :
    run consumer (some produce) (reads default ∷ quiet (tick false) ∷ quiet done ∷ []) [] []
    ≡ (stopped, message ∷ [])
unfolding run flush messages event_of latency_event write_le read_le decode
ticked = refl

-- Without the tick the event is lost when the loop is stopped.
lost_on_stop : run consumer (some produce) (reads default ∷ quiet done ∷ []) [] [] ≡ (stopped, [])
unfolding run flush messages event_of latency_event write_le read_le decode
lost_on_stop = refl

run-Delivers_example :
    Delivers consumer produce taken produce-IsAvailable
      (messages consumer (some produce) (
        events consumer produce taken produce-IsAvailable
          (reads default ∷ quiet (tick false) ∷ [])))
      (unsent consumer produce taken produce-IsAvailable
        (reads default ∷ quiet (tick false) ∷ [])
        [])
      (run consumer (some produce) (reads default ∷ quiet (tick false) ∷ []) [] [])
run-Delivers_example =
    run-Delivers consumer produce taken produce-IsAvailable
      (reads default ∷ quiet (tick false) ∷ []) []
      ((λ e. absurd (cc), refl), ((λ e. absurd (cc), refl), tt))

-- The goroutine starts, is cancelled and returns; then the prober is detached.
abbrev opened : System ℕ (List Message)
opened = record (start consumer (some produce) []) { task = at_loop (Loop.running []) }

abbrev asked : System ℕ (List Message)
asked = record opened { cancelled = true; stage = waiting }

abbrev returned : System ℕ (List Message)
returned = record asked { task = at_loop Loop.stopped }

abbrev released : System ℕ (List Message)
released = record returned { stage = detached }

released-reached : Reach consumer (some produce) [] released
unfolding signalled flush
released-reached =
    next
      (next
        (next (next (next here (open_reader true refl)) (cancel refl))
          (pass (quiet done) [] refl refl))
        (await refl refl))
      (detach refl)

Reach-Released_example :
    (released.stage ≡ detached
      → (released.task ≡ at_loop Loop.stopped)
        × ((t : System ℕ (List Message)) (st : Step consumer (some produce) released t)
            → is_use consumer (some produce) released t st ≡ false))
    × (released.stage ≢ attached
        → (p : Pass) (batch : List (KernelLatencyEvent ℕ)) → CanTake released.cancelled p.signal
        → ((b : Bool) × (p.signal ≡ tick b))
          ⊎ ((signalled consumer (some produce) p.signal p batch released.world).0 ≡ Loop.stopped))
Reach-Released_example = Reach-Released consumer (some produce) [] released released-reached
