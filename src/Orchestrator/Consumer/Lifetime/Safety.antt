-- ===== src/Orchestrator/Consumer/Lifetime/Safety.antt =====
-- The order of StopProbeConsumer and DetachProber.
use hft_bench.Prelude.{◌≡◌, ◌≢◌, refl, true, false, Bool, Option, List, arith, ◌⊎◌, inl, inr, subst}
use hft_bench.Orchestrator.Consumer.{
  KernelLatencyEvent, Produce, ProbeConsumer, Signal, done, tick, default, Pass, Loop, signalled,
}
use hft_bench.Orchestrator.Consumer.Lifetime.{
  at_loop, attached, drained, detached, System, CanTake, Step, open_reader, pass, cancel, await,
  detach, Reach, here, next, is_use,
}

module _ {F W : Type 0} (c : ProbeConsumer F) (client : Option (Produce W)) where
  -- The prober is detached only after the goroutine has returned, and the wait for it is only after
  -- the cancellation.
  record Inv (s : System F W) : Type 0 where
    returned : s.stage ≡ drained → s.task ≡ at_loop Loop.stopped
    gone : s.stage ≡ detached → s.task ≡ at_loop Loop.stopped
    asked : s.stage ≢ attached → s.cancelled ≡ true

  step-Inv : {s t : System F W} → Step c client s t → Inv s → Inv t
  step-Inv {s} (open_reader made at) v = record {
    returned = λ e. absurd (cc (v.returned e, at));
    gone = λ e. absurd (cc (v.gone e, at));
    asked = v.asked;
  }
  step-Inv {s} (pass p batch at can) v = record {
    returned = λ e. absurd (cc (v.returned e, at));
    gone = λ e. absurd (cc (v.gone e, at));
    asked = v.asked;
  }
  step-Inv {s} (cancel at) v = record {
    returned = λ e. absurd (cc);
    gone = λ e. absurd (cc);
    asked = λ ne. refl;
  }
  step-Inv {s} (await at back) v = record {
    returned = λ e. back;
    gone = λ e. absurd (cc);
    asked = λ ne. v.asked (λ e. absurd (ground arith));
  }
  step-Inv {s} (detach at) v = record {
    returned = λ e. absurd (cc);
    gone = λ e. v.returned at;
    asked = λ ne. v.asked (λ e. absurd (ground arith));
  }

  Reach-Inv : {w : W} {s : System F W} → Reach c client w s → Inv s
  Reach-Inv here = record {
    returned = λ e. absurd (cc);
    gone = λ e. absurd (cc);
    asked = λ ne. absurd (ne refl);
  }
  Reach-Inv (next r st) = step-Inv st (Reach-Inv r)

  stopped-idle :
      {s t : System F W} (st : Step c client s t)
      → s.task ≡ at_loop Loop.stopped
      → is_use c client s t st ≡ false
  stopped-idle (open_reader made at) e = absurd (cc (e, at))
  stopped-idle (pass p batch at can) e = absurd (cc (e, at))
  stopped-idle (cancel at) e = refl
  stopped-idle (await at back) e = refl
  stopped-idle (detach at) e = refl

  -- A pass after the cancellation returns, or its case was the ticker's.
  leaves :
      (q : Signal) (p : Pass) (batch : List (KernelLatencyEvent F)) (w : W)
      → CanTake true q
      → ((b : Bool) × (q ≡ tick b)) ⊎ ((signalled c client q p batch w).0 ≡ Loop.stopped)
  unfolding signalled
  leaves done p batch w can = inr refl
  leaves (tick b) p batch w can = inl (b, refl)
  leaves default p batch w can = absurd (cc)

  -- However the goroutine and the teardown interleave: once the prober is detached, the goroutine
  -- has returned, and no step uses the map of the ring buffer any more. And from the cancellation
  -- on, each pass of the loop returns from the goroutine, unless the `select` took the ticker's
  -- case, so that StopProbeConsumer waits for one pass more than the ticker is taken.
  pub Reach-Released :
      (w : W) (s : System F W)
      → Reach c client w s
      → (s.stage ≡ detached
          → (s.task ≡ at_loop Loop.stopped)
            × ((t : System F W) (st : Step c client s t) → is_use c client s t st ≡ false))
        × (s.stage ≢ attached
            → (p : Pass) (batch : List (KernelLatencyEvent F)) → CanTake s.cancelled p.signal
            → ((b : Bool) × (p.signal ≡ tick b))
              ⊎ ((signalled c client p.signal p batch s.world).0 ≡ Loop.stopped))
  Reach-Released w s r =
      let v = Reach-Inv r in
      (
        λ e. (v.gone e, λ t st. stopped-idle st (v.gone e)),
        λ ne p batch can.
            leaves p.signal p batch s.world (subst (λ x. CanTake x p.signal) (v.asked ne) can),
      )
