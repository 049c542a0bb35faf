-- ===== src/Orchestrator/Consumer/Lifetime.antt =====
-- StartProbeConsumer and StopProbeConsumer of ebpf_consumer.go with the goroutine between them, and
-- the teardown of main.go, which detaches the prober after them. The steps of the system are the
-- goroutine's start, the passes of its loop, and the steps of the teardown.
pub mod Safety
use hft_bench.Prelude.{◌≡◌, ◌≢◌, Bool, true, false, Option, List, [], if◌then◌else◌}
use hft_bench.Orchestrator.Consumer.{
  KernelLatencyEvent, Produce, ProbeConsumer, Signal, done, tick, default, Pass, Loop, signalled,
}

-- The goroutine: before ringbuf.NewReader, or at its loop, which may have returned. The deferred
-- close(c.done) comes with the return.
pub data Task (F : Type 0) : Type 0 where
  starting : Task F
  at_loop : Loop F → Task F

-- The teardown of the machine: before it, in StopProbeConsumer after c.cancel(), after it, and
-- after DetachProber, which closes the map of the ring buffer.
pub data Stage : Type 0 where
  attached waiting drained detached : Stage

pub record System (F W : Type 0) : Type 0 where
  pub task : Task F
  pub cancelled : Bool
  pub stage : Stage
  pub world : W

-- What the `select` can take: the context's case if it is done, and `default` only if it is not.
abbrev pub CanTake : Bool → Signal → Type 0
CanTake cancelled done = cancelled ≡ true
CanTake cancelled (tick _) = Unit
CanTake cancelled default = cancelled ≡ false

module _ {F W : Type 0} (c : ProbeConsumer F) (client : Option (Produce W)) where
  -- StartProbeConsumer
  abbrev pub start : W → System F W
  start w = record { task = starting; cancelled = false; stage = attached; world = w }

  pub data Step (s : System F W) : System F W → Type 0 where
    -- ringbuf.NewReader on the map, which may fail
    open_reader :
        (made : Bool)
        → s.task ≡ starting
        → Step s (record s { task = at_loop (if made then Loop.running [] else Loop.stopped) })
    -- one pass of the loop, which reads from the map unless it returns
    pass :
        (p : Pass) (batch : List (KernelLatencyEvent F))
        → s.task ≡ at_loop (Loop.running batch)
        → CanTake s.cancelled p.signal
        → Step s (record s {
          task = at_loop (signalled c client p.signal p batch s.world).0;
          world = (signalled c client p.signal p batch s.world).1;
        })
    -- c.cancel() of StopProbeConsumer
    cancel : s.stage ≡ attached → Step s (record s { cancelled = true; stage = waiting })
    -- <-c.done of StopProbeConsumer
    await :
        s.stage ≡ waiting → s.task ≡ at_loop Loop.stopped → Step s (record s { stage = drained })
    -- DetachProber
    detach : s.stage ≡ drained → Step s (record s { stage = detached })

  pub data Reach (w : W) : System F W → Type 0 where
    here : Reach w (start w)
    next : {s t : System F W} → Reach w s → Step s t → Reach w t

  -- The step uses the map of the ring buffer.
  abbrev pub is_use : (s t : System F W) → Step s t → Bool
  is_use s _ (open_reader made at) = true
  is_use s _ (pass p batch at can) = true
  is_use s _ _ = false
