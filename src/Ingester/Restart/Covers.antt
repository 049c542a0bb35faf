-- ===== src/Ingester/Restart/Covers.antt =====
-- No record of the partition is passed over by a restart.
use hft_bench.Prelude.{
  ℕ, ◌<◌, ◌≤◌, ◌≡◌, refl, sym, ap, ◌∙◌, subst, ◌⊎◌, inl, inr, false, List, [], ◌∷◌, ◌++◌, leb,
  arith, All, In, In-append, append-In, Bool-cases, dec_lt,
}
use mathlib.Core.List.{append-nil, append_assoc}
use hft_bench.Ingester.Payload.{TelemetryPayload, KafkaRecord, StorageRecord}
use hft_bench.Ingester.Storage.{Backend, Event, run_storage_worker}
use hft_bench.Ingester.Storage.Accounting.{
  payloads, messages, IsTransactional, Progress, taken, run_storage_worker-Progress,
}
use hft_bench.Ingester.Restart.{offset_of, from_offset, Resumes, Lives, first, then_life}

not_below : (n m : ℕ) → leb n m ≡ false → n ≤ m → ⊥
not_below n m h le = absurd (ground arith)

module _ {F : Type 0} where
  -- The offsets grow.
  abbrev pub IsOrdered : List (StorageRecord F) → Type 0
  IsOrdered [] = Unit
  IsOrdered (r ∷ rs) = All (λ s. offset_of r < offset_of s) rs × IsOrdered rs

  from_offset-All :
      (P : StorageRecord F → Type 0) (n : ℕ) (rs : List (StorageRecord F))
      → All P rs
      → All P (from_offset n rs)
  unfolding from_offset
  from_offset-All P n [] h = tt
  from_offset-All P n (r ∷ rs) (p, h) = elim (Bool-cases (leb n (offset_of r))) [
    | inl le ↦ rw le (p, from_offset-All P n rs h)
    | inr gt ↦ rw gt (from_offset-All P n rs h)
  ]

  from_offset-IsOrdered :
      (n : ℕ) (rs : List (StorageRecord F)) → IsOrdered rs → IsOrdered (from_offset n rs)
  unfolding from_offset
  from_offset-IsOrdered n [] h = tt
  from_offset-IsOrdered n (r ∷ rs) (p, h) = elim (Bool-cases (leb n (offset_of r))) [
    | inl le ↦ rw le (from_offset-All _ n rs p, from_offset-IsOrdered n rs h)
    | inr gt ↦ rw gt (from_offset-IsOrdered n rs h)
  ]

  from_offset-In :
      (n : ℕ) (r : StorageRecord F) (rs : List (StorageRecord F))
      → In r rs
      → n ≤ offset_of r
      → In r (from_offset n rs)
  unfolding from_offset
  from_offset-In n r [] h le = absurd h
  from_offset-In n r (s ∷ rs) (inl e) le = elim (Bool-cases (leb n (offset_of s))) [
    | inl here ↦ rw here (inl e)
    | inr gt ↦ absurd (not_below n (offset_of s) gt (subst (λ x. n ≤ offset_of x) e le))
  ]
  from_offset-In n r (s ∷ rs) (inr h) le = elim (Bool-cases (leb n (offset_of s))) [
    | inl here ↦ rw here (inr (from_offset-In n r rs h le))
    | inr gt ↦ rw gt (from_offset-In n r rs h le)
  ]

  All-In :
      (P : StorageRecord F → Type 0) (r : StorageRecord F) (rs : List (StorageRecord F))
      → All P rs
      → In r rs
      → P r
  All-In P r [] h i = absurd i
  All-In P r (s ∷ rs) (p, h) (inl e) = subst P (sym e) p
  All-In P r (s ∷ rs) (p, h) (inr i) = All-In P r rs h i

  -- What comes later has a greater offset.
  later-lt :
      (q r : StorageRecord F) (ps rs : List (StorageRecord F))
      → IsOrdered (ps ++ rs)
      → In q ps
      → In r rs
      → offset_of q < offset_of r
  later-lt q r [] rs h i j = absurd i
  later-lt q r (p ∷ ps) rs (lt, h) (inl e) j =
      subst (λ x. offset_of x < offset_of r) (sym e)
        (All-In (λ s. offset_of p < offset_of s) r (ps ++ rs) lt (append-In r ps rs (inr j)))
  later-lt q r (p ∷ ps) rs (lt, h) (inr i) j = later-lt q r ps rs h i j

  messages-In :
      (k : KafkaRecord) (ps : List (StorageRecord F))
      → In k (messages ps)
      → (q : StorageRecord F) × In q ps × (q.kafka_record ≡ k)
  messages-In k [] h = absurd h
  messages-In k (p ∷ ps) (inl e) = (p, inl refl, sym e)
  messages-In k (p ∷ ps) (inr h) = let (q, i, e) = messages-In k ps h in (q, inr i, e)

  payloads-In :
      (r : StorageRecord F) (ps : List (StorageRecord F)) → In r ps → In r.payload (payloads ps)
  payloads-In r [] h = absurd h
  payloads-In r (p ∷ ps) (inl e) = inl (ap (λ x. x.payload) e)
  payloads-In r (p ∷ ps) (inr h) = inr (payloads-In r ps h)

module _ {F W : Type 0} (b : Backend F W) (rows pending : W → List (TelemetryPayload F))
    (committed : W → List KafkaRecord) (t : IsTransactional b rows pending committed)
    (topic : List (StorageRecord F)) (ordered : IsOrdered topic) where
  -- The table holds every record of the topic up to each offset that is committed.
  abbrev Covers : W → Type 0
  Covers w =
      (k : KafkaRecord) (r : StorageRecord F)
      → In k (committed w)
      → In r topic
      → offset_of r ≤ k.offset
      → In r.payload (rows w)

  -- What is written in a life is all that was read up to each record of it.
  written-In :
      (n : ℕ) (p later : List (StorageRecord F)) (q r : StorageRecord F)
      → p ++ later ≡ from_offset n topic
      → In q p
      → In r topic
      → n ≤ offset_of r
      → offset_of r ≤ offset_of q
      → In r p
  written-In n p later q r e i j from upto =
      elim (In-append r p later (subst (In r) (sym e) (from_offset-In n r topic j from))) [
        | inl here ↦ here
        | inr after ↦
            let lt =
              later-lt q r p later (subst IsOrdered (sym e) (from_offset-IsOrdered n topic ordered))
                i after in
            absurd (omega (arith, lt, upto))
      ]

  -- What lies before the start of a life was there already.
  before-In :
      (v : W) (n : ℕ) (r : StorageRecord F)
      → Covers v
      → Resumes (committed v) n
      → In r topic
      → offset_of r < n
      → In r.payload (rows v)
  before-In v n r covers (inl (none_yet, e)) j lt = absurd (omega (arith, e, lt))
  before-In v n r covers (inr (k, i, e)) j lt = covers k r i j (omega (arith, e, lt))

  life-Covers :
      (v v' : W) (n : ℕ) (sent rest buffer : List (StorageRecord F))
      → Covers v
      → Resumes (committed v) n
      → sent ++ rest ≡ from_offset n topic
      → Progress b rows pending committed t ([], v) (buffer, v') sent
      → Covers v'
  life-Covers v v' n sent rest buffer covers resumes read (p, written, order, offsets) k r i j
        upto =
      subst (In r.payload) (sym written)
        (append-In r.payload (rows v) (payloads p) (found (offsets k i)))
    where
      split : p ++ (buffer ++ rest) ≡ from_offset n topic
      split = sym (append_assoc p buffer rest) ∙ ap (λ x. x ++ rest) order ∙ read

      found :
          In k (committed v) ⊎ In k (messages p) → In r.payload (rows v) ⊎ In r.payload (payloads p)
      found (inl old) = inl (covers k r old j upto)
      found (inr mine) = elim (dec_lt (offset_of r) n) [
        | yes lt ↦ inl (before-In v n r covers resumes j lt)
        | no ge ↦
            let (q, at, e) = messages-In k p mine in
            inr (
              payloads-In r p (
                written-In n p (buffer ++ rest) q r split at j (omega (arith, ge))
                  (subst (λ x. offset_of r ≤ x.offset) (sym e) upto)))
      ]

  Lives-Covers :
      (w w' : W) → committed w ≡ [] → Lives b rows pending committed t topic w w' → Covers w'
  Lives-Covers w _ none_yet first = λ k r i j upto. absurd (subst (In k) none_yet i)
  Lives-Covers w _ none_yet (then_life {v} n events rest lives resumes read) =
      let out = run_storage_worker b events ([], v) in
      life-Covers v out.1 n _ rest out.0 (Lives-Covers w v none_yet lives) resumes read
        (run_storage_worker-Progress b rows pending committed t events ([], v))

  -- Over any number of lives of the process, each ended by a crash or a shutdown between any two
  -- events of its worker and each resumed where the group has committed: the table holds every
  -- valid record of the partition up to each offset that is committed, so that no restart passes
  -- over a record that is not stored. This is for one partition, whose polls meet no fetch error,
  -- and a group that has committed nothing before.
  pub Lives-Stores :
      (w w' : W) (k : KafkaRecord) (r : StorageRecord F)
      → committed w ≡ []
      → Lives b rows pending committed t topic w w'
      → In k (committed w')
      → In r topic
      → offset_of r ≤ k.offset
      → In r.payload (rows w')
  Lives-Stores w w' k r none_yet lives = Lives-Covers w w' none_yet lives k r

  -- Whatever lives came before, with crashes at any point and any failures of the database and of
  -- the broker: once a life has taken all records from where the group resumed, and has nothing
  -- left in its buffer, every valid record of the partition is in the table. This is for one
  -- partition, whose polls meet no fetch error, and a group that had committed nothing at first.
  pub Lives-Complete :
      (w v : W) (n : ℕ) (events : List (Event F)) (r : StorageRecord F)
      → committed w ≡ []
      → Lives b rows pending committed t topic w v
      → Resumes (committed v) n
      → taken b rows pending committed t events ≡ from_offset n topic
      → (run_storage_worker b events ([], v)).0 ≡ []
      → In r topic
      → In r.payload (rows (run_storage_worker b events ([], v)).1)
  Lives-Complete w v n events r none_yet lives resumes read empty j =
      let (p, written, order, offsets) =
        run_storage_worker-Progress b rows pending committed t events ([], v) in
      let all : p ≡ from_offset n topic =
        sym (append-nil p) ∙ ap (λ x. p ++ x) (sym empty) ∙ order ∙ read in
      subst (In r.payload) (sym written) (
        append-In r.payload (rows v) (payloads p) (elim (dec_lt (offset_of r) n) [
          | yes lt ↦ inl (before-In v n r (Lives-Covers w v none_yet lives) resumes j lt)
          | no ge ↦ inr (
              payloads-In r p
                (subst (In r) (sym all) (from_offset-In n r topic j (omega (arith, ge)))))
        ]))
