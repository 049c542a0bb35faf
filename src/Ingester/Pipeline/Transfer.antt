-- ===== src/Ingester/Pipeline/Transfer.antt =====
-- What the ingester promises as a whole: it moves records to the table in order.
use mathlib.Core.List.{append-nil, append_assoc, map-append}
use hft_bench.Prelude.{
  ℕ, ◌≡◌, ap, sym, ◌∙◌, subst, true, false, Option, List, [], ◌∷◌, ◌++◌, All, ◌≤◌, arith, length,
  length-append,
}
use hft_bench.Ingester.Payload.{TelemetryPayload, KafkaRecord, StorageRecord}
use hft_bench.Ingester.Consumer.{
  Round, IsLive, run_consumer_loop, all_delivered, run_consumer_loop_delivers,
}
use hft_bench.Ingester.Storage.{Backend, Worker, flush, receive}
use hft_bench.Ingester.Storage.Accounting.{
  payloads, IsTransactional, Progress, flush-Progress, receive-Progress,
}
use hft_bench.Ingester.Pipeline.{
  channel_capacity, System, Step, send, take, tick, stop, drained, Runs, here, next,
}

-- The abstract ingester: the rows that are written, and the records that wait.
abbrev pub View : Type 0 → Type 0
View P = List P × List P

-- A step of the abstract ingester, with what it accepts.
pub data Transfer {P : Type 0} : View P → List P → View P → Type 0 where
  accept :
      (rows waiting : List P) (p : P) → Transfer (rows, waiting) (p ∷ []) (rows, waiting ++ p ∷ [])
  -- the first ones that wait are written, if any
  store : (rows ps waiting : List P) → Transfer (rows, ps ++ waiting) [] (rows ++ ps, waiting)

pub data Transfers {P : Type 0} : View P → List P → View P → Type 0 where
  none_yet : (v : View P) → Transfers v [] v
  and_then :
      (v v' v'' : View P) (ps qs : List P)
      → Transfers v ps v'
      → Transfer v' qs v''
      → Transfers v (ps ++ qs) v''

module _ {P : Type 0} where
  Transfer-conserves :
      (v v' : View P) (ps : List P) → Transfer v ps v' → v'.0 ++ v'.1 ≡ v.0 ++ v.1 ++ ps
  Transfer-conserves _ _ _ (accept rows waiting p) = sym (append_assoc rows waiting (p ∷ []))
  Transfer-conserves _ _ _ (store rows ps waiting) =
      append_assoc rows ps waiting ∙ sym (append-nil _)

  Transfers-conserves :
      (v v' : View P) (ps : List P) → Transfers v ps v' → v'.0 ++ v'.1 ≡ v.0 ++ v.1 ++ ps
  Transfers-conserves _ _ _ (none_yet v) = sym (append-nil _)
  Transfers-conserves _ _ _ (and_then v v' v'' ps qs run step) =
      Transfer-conserves v' v'' qs step
      ∙ ap (λ x. x ++ qs) (Transfers-conserves v v' ps run)
      ∙ append_assoc (v.0 ++ v.1) ps qs

  stores :
      (rows rows' ps waiting waiting' : List P)
      → rows' ≡ rows ++ ps
      → waiting ≡ ps ++ waiting'
      → Transfer (rows, waiting) [] (rows', waiting')
  stores rows rows' ps waiting waiting' e h =
      subst (λ r. Transfer (rows, waiting) [] (r, waiting')) (sym e)
        (subst (λ w. Transfer (rows, w) [] (rows ++ ps, waiting')) (sym h) (store rows ps waiting'))

module _ {F W : Type 0} (b : Backend F W) (rows pending : W → List (TelemetryPayload F))
    (committed : W → List KafkaRecord) (t : IsTransactional b rows pending committed) where
  -- The rows of the transactions whose Commit has returned no error; the buffer of the worker and
  -- the channel wait.
  abbrev pub view : System b → View (TelemetryPayload F)
  view s = (rows s.worker.1, payloads (s.worker.0 ++ s.record_chan))

  -- What the worker does with records of the channel is a transfer.
  Progress-Transfer :
      (u u' : Worker b) (rs chan : List (StorageRecord F))
      → Progress b rows pending committed t u u' rs
      → Transfer (rows u.1, payloads (u.0 ++ (rs ++ chan))) [] (rows u'.1, payloads (u'.0 ++ chan))
  Progress-Transfer u u' rs chan (p, written, order, offsets) =
      stores (rows u.1) (rows u'.1) (payloads p) _ _ written (
        ap payloads (
          sym (append_assoc u.0 rs chan)
          ∙ ap (λ x. x ++ chan) (sym order)
          ∙ append_assoc p u'.0 chan)
        ∙ map-append _ p (u'.0 ++ chan))

  Step-Transfer :
      (s s' : System b) (sent : List (StorageRecord F))
      → Step b s sent s'
      → Transfer (view s) (payloads sent) (view s')
  Step-Transfer _ _ _ (send r chan u ended room) =
      subst (λ x. Transfer (rows u.1, payloads (u.0 ++ chan)) (r.payload ∷ []) (rows u.1, x))
        (sym (
          ap payloads (sym (append_assoc u.0 chan (r ∷ []))) ∙ map-append _ (u.0 ++ chan) (r ∷ [])))
        (accept (rows u.1) (payloads (u.0 ++ chan)) r.payload)
  Step-Transfer _ _ _ (take c r chan u) =
      Progress-Transfer u (receive b c r u) (r ∷ []) chan
        (receive-Progress b rows pending committed t c r u)
  Step-Transfer _ _ _ (tick c chan u) =
      Progress-Transfer u (flush b c u) [] chan (flush-Progress b rows pending committed t c u)
  Step-Transfer _ _ _ (stop chan u) =
      Progress-Transfer u (flush b true u) [] chan
        (flush-Progress b rows pending committed t true u)
  Step-Transfer _ _ _ (drained c u) =
      Progress-Transfer u (flush b c u) [] [] (flush-Progress b rows pending committed t c u)

  Runs-Transfers :
      (s s' : System b) (sent : List (StorageRecord F))
      → Runs b s sent s'
      → Transfers (view s) (payloads sent) (view s')
  Runs-Transfers _ _ _ (here s) = none_yet (view s)
  Runs-Transfers _ _ _ (next s s' s'' sent more run step) =
      subst (λ ps. Transfers (view s) ps (view s'')) (sym (map-append _ sent more))
        (and_then (view s) (view s') (view s'') (payloads sent) (payloads more)
          (Runs-Transfers s s' sent run) (Step-Transfer s' s'' more step))

  abbrev pub start : W → System b
  start w = record { record_chan = []; worker = ([], w); ended = false }

  Step-bounded :
      (s s' : System b) (sent : List (StorageRecord F))
      → Step b s sent s'
      → length s.record_chan ≤ channel_capacity
      → length s'.record_chan ≤ channel_capacity
  Step-bounded _ _ _ (send r chan u ended room) h = omega (arith, room, length-append chan (r ∷ []))
  Step-bounded _ _ _ (take c r chan u) h = omega (arith, h)
  Step-bounded _ _ _ (tick c chan u) h = h
  Step-bounded _ _ _ (stop chan u) h = h
  Step-bounded _ _ _ (drained c u) h = h

  Runs-bounded :
      (s s' : System b) (sent : List (StorageRecord F))
      → Runs b s sent s'
      → length s.record_chan ≤ channel_capacity
      → length s'.record_chan ≤ channel_capacity
  Runs-bounded _ _ _ (here s) h = h
  Runs-bounded _ _ _ (next s s' s'' sent more run step) h =
      Step-bounded s' s'' more step (Runs-bounded s s' sent run h)

  -- However the consumer and the worker interleave, and whatever the database and the broker
  -- answer, a run is one of the abstract ingester, which takes records in and writes those that
  -- wait in order. Here the rows are those of the transactions whose Commit has returned no error;
  -- what a Commit has written that returned one is in the table in addition, and is written again. So
  -- while the consumer has sent `sent` of what it reads and has `rest` to send, these rows, the
  -- records that wait and `rest` are together, in order and each once, the valid records of the
  -- polls, and the channel holds no more than 10000 of them. This is for polls that the loop passes
  -- without ending.
  pub start-Transfers :
      (unmarshal : List ℕ → Option (TelemetryPayload F)) (rounds : List Round)
      (sent rest : List (StorageRecord F)) (w : W) (s : System b)
      → All (IsLive unmarshal) rounds
      → run_consumer_loop unmarshal rounds ≡ sent ++ rest
      → Runs b (start w) sent s
      → Transfers (rows w, []) (payloads sent) (view s)
        × ((view s).0 ++ (view s).1 ++ payloads rest
            ≡ rows w ++ payloads (all_delivered unmarshal rounds))
        × (length s.record_chan ≤ channel_capacity)
  start-Transfers unmarshal rounds sent rest w s live e run =
      let moved = Runs-Transfers (start w) s sent run in
      (
        moved,
        ap (λ x. x ++ payloads rest)
              (Transfers-conserves _ _ _ moved ∙ ap (λ x. x ++ payloads sent) (append-nil (rows w)))
            ∙ append_assoc (rows w) (payloads sent) (payloads rest)
            ∙ ap (λ x. rows w ++ x)
                (sym (map-append _ sent rest)
                  ∙ ap payloads (sym e ∙ run_consumer_loop_delivers unmarshal rounds live)),
        Runs-bounded (start w) s sent run (omega arith),
      )
