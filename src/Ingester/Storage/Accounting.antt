-- ===== src/Ingester/Storage/Accounting.antt =====
-- What the storage worker does with the records that it receives, over a transactional database.
use mathlib.Core.List.{append-nil, append_assoc, map-append}
use hft_bench.Prelude.{
  ◌≡◌, refl, sym, ap, ◌∙◌, ◌⊎◌, inl, inr, Bool, true, false, List, [], ◌∷◌, ◌++◌, arith,
  if◌then◌else◌, length, leb, map, Bool-cases, In, In-append, append-In,
}
use hft_bench.Ingester.Payload.{TelemetryPayload, KafkaRecord, StorageRecord}
use hft_bench.Ingester.Storage.{
  max_batch_size, Backend, Event, ctx_done, received, channel_closed, ticked, exec_all,
  commit_or_roll_back, insert_records, prepare_insert, persist_batch, Worker, after_persist, flush,
  receive, run_storage_worker,
}

module _ {F : Type 0} where
  abbrev pub payloads : List (StorageRecord F) → List (TelemetryPayload F)
  payloads = map λ r. r.payload

  abbrev pub messages : List (StorageRecord F) → List KafkaRecord
  messages = map λ r. r.kafka_record

-- `rows` is what the transactions have inserted, in order, whose Commit has returned no error, and
-- `pending` what the open one has executed. So a Commit that returns an error adds nothing to `rows`,
-- although the database may have written the rows all the same: then the table holds them in
-- addition. `committed` is what the broker has acknowledged. A call whose context is done begins no
-- transaction.
pub record IsTransactional {F W : Type 0} (b : Backend F W)
    (rows pending : W → List (TelemetryPayload F)) (committed : W → List KafkaRecord) : Type 0 where
  pub begins_done : (w : W) → (b.begin_tx true w).0 ≡ false
  pub begins :
      (c : Bool) (w : W)
      → (rows (b.begin_tx c w).1 ≡ rows w) × (committed (b.begin_tx c w).1 ≡ committed w)
  pub begins_empty :
      (c : Bool) (w : W) → (b.begin_tx c w).0 ≡ true → pending (b.begin_tx c w).1 ≡ []
  pub prepares :
      (c : Bool) (w : W)
      → (rows (b.prepare c w).1 ≡ rows w)
        × (committed (b.prepare c w).1 ≡ committed w)
        × (pending (b.prepare c w).1 ≡ pending w)
  pub execs :
      (c : Bool) (p : TelemetryPayload F) (w : W)
      → (rows (b.exec c p w).1 ≡ rows w) × (committed (b.exec c p w).1 ≡ committed w)
  pub execs_append :
      (c : Bool) (p : TelemetryPayload F) (w : W)
      → (b.exec c p w).0 ≡ true
      → pending (b.exec c p w).1 ≡ pending w ++ p ∷ []
  pub commits : (w : W) → (b.commit w).0 ≡ true → rows (b.commit w).1 ≡ rows w ++ pending w
  pub commit_fails : (w : W) → (b.commit w).0 ≡ false → rows (b.commit w).1 ≡ rows w
  pub commit_keeps : (w : W) → committed (b.commit w).1 ≡ committed w
  pub rolls_back :
      (w : W) → (rows (b.rollback w) ≡ rows w) × (committed (b.rollback w) ≡ committed w)
  pub commits_records :
      (c : Bool) (ms : List KafkaRecord) (w : W)
      → (rows (b.commit_records c ms w).1 ≡ rows w)
        × (committed (b.commit_records c ms w).1
            ≡ (if (b.commit_records c ms w).0 then committed w ++ ms else committed w))

module _ {F W : Type 0} (b : Backend F W) (rows pending : W → List (TelemetryPayload F))
    (committed : W → List KafkaRecord) (t : IsTransactional b rows pending committed) where
  open t use {
    begins_done, begins, begins_empty, prepares, execs, execs_append, commits, commit_fails,
    commit_keeps, rolls_back, commits_records,
  }

  -- What a call that ended in `r` did to the rows, where all of `rs` was to be written.
  abbrev pub Atomic : List (TelemetryPayload F) → W → Bool × W → Type 0
  Atomic ps w (true, w') = (rows w' ≡ rows w ++ ps) × (committed w' ≡ committed w)
  Atomic ps w (false, w') = (rows w' ≡ rows w) × (committed w' ≡ committed w)

  exec_all_lem :
      (c : Bool) (rs : List (StorageRecord F)) (w : W)
      → let (done, w') = exec_all b c rs w in
        (rows w' ≡ rows w)
        × (committed w' ≡ committed w)
        × (done ≡ true → pending w' ≡ pending w ++ payloads rs)
  unfolding exec_all
  exec_all_lem c [] w = (refl, refl, λ _. sym (append-nil (pending w)))
  exec_all_lem c (r ∷ rs) w = ground (
    arith,
    execs c r.payload w,
    execs_append c r.payload w,
    exec_all_lem c rs (b.exec c r.payload w).1,
    append_assoc (pending w) (r.payload ∷ []) (payloads rs),
  )

  -- A batch is confirmed whole, in order, or not at all.
  pub persist_batch-Atomic :
      (c : Bool) (rs : List (StorageRecord F)) (w : W)
      → Atomic (payloads rs) w (persist_batch b c rs w)
  unfolding persist_batch prepare_insert insert_records commit_or_roll_back
  persist_batch-Atomic c rs w =
      let w1 = (b.begin_tx c w).1 in
      let w2 = (b.prepare c w1).1 in
      let w3 = (exec_all b c rs w2).1 in
      ground (
        arith,
        begins c w,
        begins_empty c w,
        prepares c w1,
        rolls_back w2,
        exec_all_lem c rs w2,
        rolls_back w3,
        commits w3,
        commit_fails w3,
        commit_keeps w3,
      )

  -- From the worker `s` to `s'`, with `rs` received in between: the records of the buffer and
  -- then of `rs` are, in this order, those that were written, `p`, and those left in the buffer;
  -- and every offset that was committed meanwhile is that of a record that was written.
  abbrev pub Progress : Worker b → Worker b → List (StorageRecord F) → Type 0
  Progress s s' rs =
      (p : List (StorageRecord F)) × (rows s'.1 ≡ rows s.1 ++ payloads p)
      × (p ++ s'.0 ≡ s.0 ++ rs)
      × ((k : KafkaRecord) → In k (committed s'.1) → In k (committed s.1) ⊎ In k (messages p))

  both :
      (k : KafkaRecord) (p q : List (StorageRecord F))
      → In k (messages p) ⊎ In k (messages q)
      → In k (messages (p ++ q))
  both k p q h = rw (map-append _ p q) (append-In k (messages p) (messages q) h)

  stay : (s : Worker b) → Progress s s []
  stay (buffer, w) = ([], sym (append-nil (rows w)), sym (append-nil buffer), λ k h. inl h)

  join :
      (s s' s'' : Worker b) (rs rs' : List (StorageRecord F))
      → Progress s s' rs
      → Progress s' s'' rs'
      → Progress s s'' (rs ++ rs')
  join (u, w) (u', w') (u'', w'') rs rs' (p, e, o, c) (q, f, g, d) = (
    p ++ q,
    f
        ∙ ap (λ x. x ++ payloads q) e
        ∙ append_assoc (rows w) (payloads p) (payloads q)
        ∙ ap (λ x. rows w ++ x) (sym (map-append _ p q)),
    append_assoc p q u''
        ∙ ap (λ x. p ++ x) g
        ∙ sym (append_assoc p u' rs')
        ∙ ap (λ x. x ++ rs') o
        ∙ append_assoc u rs rs',
    λ k h. elim (d k h) [
      | inl old ↦ elim (c k old) [ inl older ↦ inl older | inr mine ↦ inr (both k p q (inl mine)) ]
      | inr mine ↦ inr (both k p q (inr mine))
    ],
  )

  after_persist-Progress :
      (c : Bool) (buffer : List (StorageRecord F)) (w : W) (a : Bool × W)
      → Atomic (payloads buffer) w a
      → Progress (buffer, w) (after_persist b c buffer a) []
  unfolding after_persist
  after_persist-Progress c buffer w (false, w') (same, kept) =
      ([], same ∙ sym (append-nil (rows w)), sym (append-nil buffer), λ k h. inl (rw kept at h))
  after_persist-Progress c buffer w (true, w') (written, kept) =
      let ms = messages buffer in
      let (unmoved, now) = commits_records c ms w' in
      (
        buffer,
        unmoved ∙ written,
        refl,
        λ k h. elim (Bool-cases (b.commit_records c ms w').0) [
          | inl done ↦ In-append k (committed w) ms (rw (now, done, kept) at h)
          | inr failed ↦ inl (rw (now, failed, kept) at h)
        ],
      )

  pub flush-Progress : (c : Bool) (s : Worker b) → Progress s (flush b c s) []
  unfolding flush
  flush-Progress c ([], w) = stay ([], w)
  flush-Progress c (r ∷ rs, w) =
      after_persist-Progress c (r ∷ rs) w (persist_batch b c (r ∷ rs) w)
        (persist_batch-Atomic c (r ∷ rs) w)

  append-Progress :
      (r : StorageRecord F) (buffer : List (StorageRecord F)) (w : W)
      → Progress (buffer, w) (buffer ++ r ∷ [], w) (r ∷ [])
  append-Progress r buffer w = ([], sym (append-nil (rows w)), refl, λ k h. inl h)

  pub receive-Progress :
      (c : Bool) (r : StorageRecord F) (s : Worker b) → Progress s (receive b c r s) (r ∷ [])
  unfolding receive
  receive-Progress c r (buffer, w) =
      elim (Bool-cases (leb max_batch_size (length (buffer ++ r ∷ [])))) [
        | inl full ↦ rw full (
            join (buffer, w) (buffer ++ r ∷ [], w) (flush b c (buffer ++ r ∷ [], w)) (r ∷ []) []
              (append-Progress r buffer w) (flush-Progress c (buffer ++ r ∷ [], w)))
        | inr room ↦ rw room (append-Progress r buffer w)
      ]

  -- The records that the worker takes from the channel before it ends.
  unfoldable pub taken : List (Event F) → List (StorageRecord F)
  taken [] = []
  taken (ctx_done ∷ events) = []
  taken (channel_closed c ∷ events) = []
  taken (received c r ∷ events) = r ∷ taken events
  taken (ticked c ∷ events) = taken events

  -- Over any events, failing calls of the database and of the broker included: the records that
  -- were in the buffer and those that were received are, in order and each once, those of the
  -- transactions whose Commit has returned no error, and then the records that are still in the
  -- buffer; and the worker commits no offset of a record that is not in such a transaction. A Commit
  -- that returns an error is not counted: if it has written its rows all the same, they are in the
  -- table in addition, and are written again.
  pub run_storage_worker-Progress :
      (events : List (Event F)) (s : Worker b)
      → Progress s (run_storage_worker b events s) (taken events)
  unfolding run_storage_worker taken
  run_storage_worker-Progress [] s = stay s
  run_storage_worker-Progress (ctx_done ∷ events) s = flush-Progress true s
  run_storage_worker-Progress (channel_closed c ∷ events) s = flush-Progress c s
  run_storage_worker-Progress (received c r ∷ events) s =
      join s (receive b c r s) _ (r ∷ []) (taken events) (receive-Progress c r s)
        (run_storage_worker-Progress events (receive b c r s))
  run_storage_worker-Progress (ticked c ∷ events) s =
      join s (flush b c s) _ [] (taken events) (flush-Progress c s)
        (run_storage_worker-Progress events (flush b c s))

  cancelled_persist : (rs : List (StorageRecord F)) (w : W) → (persist_batch b true rs w).0 ≡ false
  unfolding persist_batch prepare_insert
  cancelled_persist rs w = ground (arith, begins_done w)

  -- When the context is done, as it is on a shutdown signal, the last flush writes nothing and
  -- commits nothing, whatever the buffer holds.
  pub shutdown_writes_nothing :
      (events : List (Event F)) (buffer : List (StorageRecord F)) (w : W)
      → let (buffer', w') = run_storage_worker b (ctx_done ∷ events) (buffer, w) in
        (buffer' ≡ buffer) × (rows w' ≡ rows w) × (committed w' ≡ committed w)
  unfolding run_storage_worker flush after_persist
  shutdown_writes_nothing events [] w = (refl, refl, refl)
  shutdown_writes_nothing events (r ∷ rs) w =
      ground (arith, cancelled_persist (r ∷ rs) w, persist_batch-Atomic true (r ∷ rs) w)
