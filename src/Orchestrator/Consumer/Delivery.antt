-- ===== src/Orchestrator/Consumer/Delivery.antt =====
-- Which events of the ring buffer reach the broker.
use hft_bench.Prelude.{
  ℕ, ◌<◌, ◌≤◌, ◌≡◌, ◌≢◌, refl, sym, ap, subst, ◌∙◌, true, false, Option, none, some, List, [], ◌∷◌,
  ◌++◌, if◌then◌else◌, ltb, leb, arith, length, length-append, All, Bool-cases, inl, inr,
}
use mathlib.Core.List.{append-nil, append_assoc}
use hft_bench.Orchestrator.LatencyRecord.{record_size, decode}
use hft_bench.Orchestrator.Consumer.{
  probe_flush_size, KernelLatencyEvent, Message, Produce, ProbeConsumer, Signal, done, tick,
  default, Pass, Loop, running, stopped, with_message, messages, produced, flush, event_of,
  appended, read, signalled, next, run,
}

-- A broker that takes all records while the context is not done. `sent` is what it has taken.
pub record IsAvailable {W : Type 0} (produce : Produce W) (sent : W → List Message) : Type 0 where
  pub takes :
      (records : List Message) (w : W) → sent (produce false records w).1 ≡ sent w ++ records
  pub refuses : (records : List Message) (w : W) → sent (produce true records w).1 ≡ sent w

module _ {F W : Type 0} (c : ProbeConsumer F) (produce : Produce W) (sent : W → List Message)
    (broker : IsAvailable produce sent) where
  abbrev Event : Type 0
  Event = KernelLatencyEvent F

  abbrev client : Option (Produce W)
  client = some produce

  -- The event of what was read, if it was read and is long enough.
  event_in : Pass → Option (List ℕ) → List Event
  event_in pass none = []
  event_in pass (some raw) =
      if ltb (length raw) record_size then [] else event_of c client (decode raw) pass.now ∷ []

  -- What a pass adds to the events that are read later.
  taken : Signal → Pass → List Event → List Event
  unfolding event_in
  taken done pass rest = []
  taken (tick cancelled) pass rest = event_in pass pass.raw ++ rest
  taken default pass rest = event_in pass pass.raw ++ rest

  -- The events that are read before the loop is stopped, in order.
  unfoldable pub events : List Pass → List Event
  unfolding taken
  events [] = []
  events (pass ∷ passes) = taken pass.signal pass (events passes)

  -- The context is not done, unless the loop sees it.
  abbrev pub IsLive : Pass → Type 0
  IsLive pass = (pass.signal ≢ tick true) × (pass.cancelled ≡ false)

  with_message-append :
      (o : Option (List ℕ)) (rs ss : List Message)
      → with_message c client o (rs ++ ss) ≡ with_message c client o rs ++ ss
  unfolding with_message
  with_message-append none rs ss = refl
  with_message-append (some payload) rs ss = refl

  messages-append :
      (xs ys : List Event)
      → messages c client (xs ++ ys) ≡ messages c client xs ++ messages c client ys
  unfolding messages
  messages-append [] ys = refl
  messages-append (x ∷ xs) ys =
      ap (with_message c client (c.marshal x)) (messages-append xs ys)
      ∙ with_message-append (c.marshal x) _ _

  flush-sent :
      (batch : List Event) (w : W)
      → sent (flush c client false batch w) ≡ sent w ++ messages c client batch
  unfolding flush produced messages
  flush-sent [] w = sym (append-nil (sent w))
  flush-sent (x ∷ xs) w = broker.takes (messages c client (x ∷ xs)) w

  flush-lost : (batch : List Event) (w : W) → sent (flush c client true batch w) ≡ sent w
  unfolding flush produced
  flush-lost [] w = refl
  flush-lost (x ∷ xs) w = broker.refuses (messages c client (x ∷ xs)) w

  -- A full batch is sent, and none is left of it.
  kept : List Event → List Event
  kept batch = if leb probe_flush_size (length batch) then [] else batch

  -- Of a batch and what a pass reads, what the rest of the passes leave; `rest` is what they leave of
  -- a batch.
  left : Signal → Pass → List Event → (List Event → List Event) → List Event
  unfolding kept event_in
  left done pass batch rest = batch
  left (tick cancelled) pass batch rest = rest (kept (event_in pass pass.raw))
  left default pass batch rest = rest (kept (batch ++ event_in pass pass.raw))

  -- Of a batch and what the passes read until one is done: the events that come after the last tick
  -- and after the last full batch.
  unfoldable pub unsent : List Pass → List Event → List Event
  unfolding left
  unsent [] batch = batch
  unsent (pass ∷ passes) batch = left pass.signal pass batch (unsent passes)

  -- All of the records are sent, but for the `rest`, which is the batch of a loop that still runs;
  -- of a loop that has stopped, the rest is not sent.
  abbrev pub Delivers : List Message → List Event → Loop F × W → Type 0
  Delivers all rest (running batch, w) =
      (batch ≡ rest) × (sent w ++ messages c client rest ≡ all) × (length rest < probe_flush_size)
  Delivers all rest (stopped, w) =
      (sent w ++ messages c client rest ≡ all) × (length rest < probe_flush_size)

  -- The loop goes on with the batch, all of the records are sent or in it, and it is not full.
  abbrev Runs : List Message → List Event → Loop F × W → Type 0
  Runs all batch r =
      (w : W) × (r ≡ (running batch, w))
      × (sent w ++ messages c client batch ≡ all)
      × (length batch < probe_flush_size)

  appended-Runs :
      (batch : List Event) (w : W)
      → length batch ≤ probe_flush_size
      → Runs (sent w ++ messages c client batch) (kept batch) (appended c client false batch w)
  unfolding appended messages kept
  appended-Runs batch w le = elim (Bool-cases (leb probe_flush_size (length batch))) [
    | inl full ↦
        rw full (flush c client false batch w, refl, append-nil _ ∙ flush-sent batch w, omega arith)
    | inr short ↦ rw short (w, refl, refl, ground arith)
  ]

  -- Nothing is read.
  unread-Runs :
      (batch : List Event) (w : W)
      → length batch < probe_flush_size
      → Runs (sent w ++ messages c client (batch ++ [])) (kept (batch ++ [])) (running batch, w)
  unfolding kept
  unread-Runs batch w short =
      subst (λ b. Runs (sent w ++ messages c client b) (kept b) (running batch, w))
        (sym (append-nil batch))
        (
          w,
          ap (λ (b : List Event). (running b, w)) (sym (if_neg_leb batch short)),
          ap (λ b. sent w ++ messages c client b) (if_neg_leb batch short),
          subst (λ b. length b < probe_flush_size) (sym (if_neg_leb batch short)) short,
        )
    where
      if_neg_leb : (b : List Event) → length b < probe_flush_size → kept b ≡ b
      if_neg_leb b h = ground arith

  read-Runs :
      (pass : Pass) (raw : Option (List ℕ)) (batch : List Event) (w : W)
      → pass.cancelled ≡ false
      → length batch < probe_flush_size
      → Runs
          (sent w ++ messages c client (batch ++ event_in pass raw))
          (kept (batch ++ event_in pass raw))
          (read c client pass raw batch w)
  unfolding read event_in
  read-Runs pass none batch w live short = unread-Runs batch w short
  read-Runs pass (some raw) batch w live short = elim (Bool-cases (ltb (length raw) record_size)) [
    | inl little ↦ rw little (unread-Runs batch w short)
    | inr whole ↦
        rw (whole, live)
          (appended-Runs (batch ++ event_of c client (decode raw) pass.now ∷ []) w
            (omega (arith, length-append batch (event_of c client (decode raw) pass.now ∷ []))))
  ]

  -- The records that the rest of the loop brings, from any batch, and what it leaves of them.
  abbrev Later : List Event → (List Event → List Event) → (List Event → W → Loop F × W) → Type 0
  Later rest leave go =
      (batch : List Event) (w : W)
      → length batch < probe_flush_size
      → Delivers (sent w ++ messages c client batch ++ messages c client rest) (leave batch)
          (go batch w)

  next-Delivers :
      (all : List Message) (batch rest : List Event) (leave : List Event → List Event)
      (go : List Event → W → Loop F × W) (r : Loop F × W)
      → Later rest leave go
      → Runs all batch r
      → Delivers (all ++ messages c client rest) (leave batch) (next c client go r)
  unfolding next
  next-Delivers all batch rest leave go r later (w, e, h, short) =
      subst (λ x. Delivers (all ++ messages c client rest) (leave batch) (next c client go x))
        (sym e)
        (subst (λ a. Delivers (a ++ messages c client rest) (leave batch) (go batch w)) h
          (later batch w short))

  -- What is in the batch, and what a pass reads.
  joined :
      (w : W) (batch read_now rest : List Event)
      → sent w ++ messages c client (batch ++ read_now) ++ messages c client rest
        ≡ sent w ++ messages c client batch ++ messages c client (read_now ++ rest)
  joined w batch read_now rest =
      ap (λ m. sent w ++ m ++ messages c client rest) (messages-append batch read_now)
      ∙ ap (λ m. m ++ messages c client rest)
          (sym (append_assoc (sent w) (messages c client batch) (messages c client read_now)))
      ∙ append_assoc (sent w ++ messages c client batch) (messages c client read_now)
          (messages c client rest)
      ∙ ap (λ m. sent w ++ messages c client batch ++ m) (sym (messages-append read_now rest))

  signalled-Delivers :
      (s : Signal) (pass : Pass) (batch : List Event) (w : W) (rest : List Event)
      (leave : List Event → List Event) (go : List Event → W → Loop F × W)
      → s ≢ tick true
      → pass.cancelled ≡ false
      → length batch < probe_flush_size
      → Later rest leave go
      → Delivers
          (sent w ++ messages c client batch ++ messages c client (taken s pass rest))
          (left s pass batch leave)
          (next c client go (signalled c client s pass batch w))
  unfolding signalled taken next messages left
  signalled-Delivers done pass batch w rest leave go seen live short later =
      (ap (λ m. m ++ messages c client batch) (flush-lost batch w) ∙ sym (append-nil _), short)
  signalled-Delivers (tick true) pass batch w rest leave go seen live short later =
      absurd (seen refl)
  signalled-Delivers (tick false) pass batch w rest leave go seen live short later =
      let w' = flush c client false batch w in
      let now = event_in pass pass.raw in
      subst
        (λ a. Delivers a (leave (kept now)) (next c client go (read c client pass pass.raw [] w')))
        (joined w' [] now rest
          ∙ ap (λ m. m ++ messages c client (now ++ rest)) (append-nil _ ∙ flush-sent batch w))
        (next-Delivers _ (kept now) rest leave go _ later
          (read-Runs pass pass.raw [] w' live (omega arith)))
  signalled-Delivers default pass batch w rest leave go seen live short later =
      let all = batch ++ event_in pass pass.raw in
      subst
        (λ a.
          Delivers a (leave (kept all)) (next c client go (read c client pass pass.raw batch w)))
        (joined w batch (event_in pass pass.raw) rest)
        (next-Delivers _ (kept all) rest leave go _ later
          (read-Runs pass pass.raw batch w live short))

  run_from :
      (passes : List Pass)
      → All IsLive passes
      → Later (events passes) (unsent passes) (run c client passes)
  unfolding run events messages unsent
  run_from [] live batch w short = (refl, sym (append-nil _), short)
  run_from (pass ∷ passes) ((seen, live), lives) batch w short =
      signalled-Delivers pass.signal pass batch w (events passes) (unsent passes)
        (run c client passes) seen live short (run_from passes lives)

  -- Of the records that the loop reads and that are long enough, each event is sent to an available
  -- broker once and in order, but for those that are read after the last tick and after the last
  -- full batch, which are fewer than 256. While the loop runs these are its batch; when it sees that
  -- its context is done they are not sent, since the flush is given that context. The context is
  -- taken not to be done at any flush before the loop sees it.
  pub run-Delivers :
      (passes : List Pass) (w : W)
      → All IsLive passes
      → Delivers
          (sent w ++ messages c client (events passes))
          (unsent passes [])
          (run c client passes [] w)
  unfolding messages
  run-Delivers passes w live =
      subst
        (λ a.
          Delivers (a ++ messages c client (events passes)) (unsent passes [])
            (run c client passes [] w))
        (append-nil (sent w)) (run_from passes live [] w (omega arith))
