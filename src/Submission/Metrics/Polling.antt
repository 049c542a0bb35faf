-- ===== src/Submission/Metrics/Polling.antt =====
-- What the polling loop finds, and what it cannot find.
use hft_bench.Prelude.{
  ℕ, ◌≤◌, ◌<◌, ◌≡◌, ◌≢◌, refl, ap, true, false, none, some, List, [], ◌∷◌, subst, ltb, ok, inl, inr,
  arith, Bool-cases, Option-cases, In,
}
use hft_bench.Prelude.Text.{Str}
use hft_bench.Submission.Metrics.{
  MetricRow, is_match, newer, newest_after, max_id, PollEvent, ctx_done, timed_out, tick, queried,
  poll_benchmark_metrics,
}

module _ {F : Type 0} (submission : Str) (min_id : ℕ) where
  -- The row answers the query over `rows`: it is of the submission, newer than `min_id`, and no
  -- such row of the table is newer.
  abbrev pub Answers : MetricRow F → List (MetricRow F) → Type 0
  Answers row rows =
      In row rows
      × (row.submission_id ≡ submission)
      × (min_id < row.id)
      × ((r : MetricRow F) → In r rows → r.submission_id ≡ submission → r.id ≤ row.id)

  newest_none :
      (rows : List (MetricRow F))
      → newest_after submission min_id rows ≡ none
      → (r : MetricRow F) → In r rows
      → r.submission_id ≡ submission
      → r.id ≤ min_id
  unfolding newest_after is_match
  newest_none [] h r m s = absurd m
  newest_none (x ∷ rows) h r (inl e) s =
      ground (arith, ap (λ (y : MetricRow F). y.id) e, ap (λ (y : MetricRow F). y.submission_id) e)
  newest_none (x ∷ rows) h r (inr m) s = newest_none rows (ground arith) r m s

  matching : (x : MetricRow F) → is_match submission min_id x ≡ true → min_id < x.id
  unfolding is_match
  matching x h = ground arith

  -- A row in front that does not match changes no answer.
  Answers-skip :
      (x row : MetricRow F) (rows : List (MetricRow F))
      → is_match submission min_id x ≡ false
      → Answers row rows
      → Answers row (x ∷ rows)
  unfolding is_match
  Answers-skip x row rows miss (m, s, lt, top) = (inr m, s, lt, bound)
    where
      bound : (r : MetricRow F) → In r (x ∷ rows) → r.submission_id ≡ submission → r.id ≤ row.id
      bound r (inl e) t =
          ground
            (arith, ap (λ (y : MetricRow F). y.id) e, ap (λ (y : MetricRow F). y.submission_id) e)
      bound r (inr n) t = top r n t

  -- A matching row in front answers, if no matching row behind it is newer.
  Answers-front :
      (x : MetricRow F) (rows : List (MetricRow F))
      → is_match submission min_id x ≡ true
      → ((r : MetricRow F) → In r rows → r.submission_id ≡ submission → r.id ≤ x.id)
      → Answers x (x ∷ rows)
  unfolding is_match
  Answers-front x rows hit top = (inl refl, ground arith, ground arith, bound)
    where
      bound : (r : MetricRow F) → In r (x ∷ rows) → r.submission_id ≡ submission → r.id ≤ x.id
      bound r (inl e) t = omega (arith, ap (λ (y : MetricRow F). y.id) e)
      bound r (inr n) t = top r n t

  Answers-behind :
      (x row : MetricRow F) (rows : List (MetricRow F))
      → x.id ≤ row.id
      → Answers row rows
      → Answers row (x ∷ rows)
  Answers-behind x row rows le (m, s, lt, top) = (inr m, s, lt, bound)
    where
      bound : (r : MetricRow F) → In r (x ∷ rows) → r.submission_id ≡ submission → r.id ≤ row.id
      bound r (inl e) t = omega (arith, ap (λ (y : MetricRow F). y.id) e)
      bound r (inr n) t = top r n t

  newest-Answers :
      (rows : List (MetricRow F)) (row : MetricRow F)
      → newest_after submission min_id rows ≡ some row
      → Answers row rows
  unfolding newest_after newer
  newest-Answers [] row h = absurd (cc)
  newest-Answers (x ∷ rows) row h = elim (Bool-cases (is_match submission min_id x)) [
    | inr miss ↦ Answers-skip x row rows miss (newest-Answers rows row (ground arith))
    | inl hit ↦ elim (Option-cases (newest_after submission min_id rows)) [
      | inl alone ↦
          let same : x ≡ row = ground arith in
          subst (λ y. Answers y (x ∷ rows)) same
            (Answers-front x rows hit (λ r m t. above (newest_none rows alone r m t) hit))
      | inr (other, e) ↦ elim (Bool-cases (ltb x.id other.id)) [
        | inl newer_one ↦
            let same : other ≡ row = ground arith in
            subst (λ y. Answers y (x ∷ rows)) same
              (Answers-behind x other rows (ground arith) (newest-Answers rows other e))
        | inr older ↦
            let same : x ≡ row = ground arith in
            let (m, s, lt, top) = newest-Answers rows other e in
            subst (λ y. Answers y (x ∷ rows)) same
              (Answers-front x rows hit
                (λ r n t. omega (arith, top r n t, not_lt x.id other.id older)))
      ]
    ]
  ]
    where
      not_lt : (a b : ℕ) → ltb a b ≡ false → b ≤ a
      not_lt a b k = ground arith

      above : {a : ℕ} → a ≤ min_id → is_match submission min_id x ≡ true → a ≤ x.id
      above {a} le k = omega (arith, matching x k)

  -- A result of the polling loop answers the query over the table of one of the ticks.
  pub poll_benchmark_metrics_ok :
      (events : List (PollEvent F)) (row : MetricRow F)
      → poll_benchmark_metrics submission min_id events ≡ ok row
      → (rows : List (MetricRow F)) × In (tick (some rows)) events × Answers row rows
  unfolding poll_benchmark_metrics queried
  poll_benchmark_metrics_ok [] row h = absurd (cc)
  poll_benchmark_metrics_ok (ctx_done ∷ events) row h = absurd (cc)
  poll_benchmark_metrics_ok (timed_out ∷ events) row h = absurd (cc)
  poll_benchmark_metrics_ok (tick none ∷ events) row h =
      let (rows, m, a) = poll_benchmark_metrics_ok events row h in (rows, inr m, a)
  poll_benchmark_metrics_ok (tick (some rows) ∷ events) row h =
      elim (Option-cases (newest_after submission min_id rows)) [
        | inl nothing ↦
            let (rows', m, a) = poll_benchmark_metrics_ok events row (ground arith) in
            (rows', inr m, a)
        | inr (r, e) ↦ (rows, inl refl, newest-Answers rows row (ground arith))
      ]

  -- If at every tick all rows of the submission are old, the loop returns no metrics.
  pub poll_benchmark_metrics_misses :
      (events : List (PollEvent F)) (row : MetricRow F)
      → ((rows : List (MetricRow F)) (r : MetricRow F)
          → In (tick (some rows)) events
          → In r rows
          → r.submission_id ≡ submission
          → r.id ≤ min_id)
      → poll_benchmark_metrics submission min_id events ≢ ok row
  poll_benchmark_metrics_misses events row old h =
      let (rows, m, (n, s, lt, top)) = poll_benchmark_metrics_ok events row h in
      absurd (omega (arith, old rows row m n s))

max_id_bound :
    {F : Type 0} (rows : List (MetricRow F)) (r : MetricRow F) → In r rows → r.id ≤ max_id rows
unfolding max_id
max_id_bound [] r m = absurd m
max_id_bound (x ∷ rows) r (inl e) = ground (arith, ap (λ (y : MetricRow _). y.id) e)
max_id_bound (x ∷ rows) r (inr m) = ground (arith, max_id_bound rows r m)

-- Metrics that are in the table when the worker reads MAX(id), after the benchmark has returned,
-- are never found: as long as no further row of the submission appears, the poll fails.
pub poll_after_max_id_fails :
    {F : Type 0} (submission : Str) (before : List (MetricRow F)) (events : List (PollEvent F))
    (row : MetricRow F)
    → ((rows : List (MetricRow F)) (r : MetricRow F)
        → In (tick (some rows)) events
        → In r rows
        → r.submission_id ≡ submission
        → In r before)
    → poll_benchmark_metrics submission (max_id before) events ≢ ok row
poll_after_max_id_fails submission before events row same =
    poll_benchmark_metrics_misses submission (max_id before) events row
      (λ rows r m n s. max_id_bound before r (same rows r m n s))
