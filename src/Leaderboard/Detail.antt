-- ===== src/Leaderboard/Detail.antt =====
-- What handleSubmissionDetail answers about the runs of a submission.
use hft_bench.Prelude.{
  ◌≡◌, ◌⊎◌, inl, inr, refl, sym, ap, ◌∙◌, true, false, ◌&&◌, List, [], ◌∷◌, ◌++◌, arith,
  if◌then◌else◌, Bool-cases, In, In-append,
}
use mathlib.Core.List.{append-nil, append_assoc}
use hft_bench.Prelude.Int.{pos, ltb_ℤ, eq_ℤ, ◌≤ℤ◌, ◌<ℤ◌}
use hft_bench.Prelude.Text.{Str, codes, is_empty, trim_space, trim_prefix}
use hft_bench.Float64.{Float64, IsOrdered}
use hft_bench.Score.{round_float}
use hft_bench.Leaderboard.{
  RunRecord, Clock, Scan, scan_failed, scanned, Query, answered, success, Details, Collected,
  max_int64, run_record, collect_run, collect, details_of, detail_reply, handle_submission_detail,
}

module _ {F : Type 0} (f : Float64 F) (o : IsOrdered f) (clock : Clock) where
  -- The records of the rows that are scanned.
  unfoldable pub records_of : List (Scan F) → List (RunRecord F)
  records_of [] = []
  records_of (scan_failed ∷ scans) = records_of scans
  records_of (scanned now run ∷ scans) = run_record f clock now run ∷ records_of scans

  -- The best score is that of a run, or the 0 that it starts with, and no run's score is higher;
  -- the best 99th percentile is the least positive one of the runs, or the bound that it starts with.
  pub record IsSummary (s : Collected F) : Type 0 where
    pub highest : (r : RunRecord F) → In r s.runs → f.lt s.best_score r.score ≡ false
    pub scored :
        (s.best_score ≡ f.lit 0 0) ⊎ ((r : RunRecord F) × In r s.runs × (r.score ≡ s.best_score))
    pub least : (r : RunRecord F) → In r s.runs → pos 0 <ℤ r.p99_micros → s.best_p99 ≤ℤ r.p99_micros
    pub attained :
        (s.best_p99 ≡ max_int64)
        ⊎ ((r : RunRecord F) × In r s.runs × (r.p99_micros ≡ s.best_p99) × (pos 0 <ℤ r.p99_micros))

  In-last : (r x : RunRecord F) (rs : List (RunRecord F)) → In r (rs ++ x ∷ []) → In r rs ⊎ (r ≡ x)
  In-last r x rs h = elim (In-append r rs (x ∷ []) h) [
    | inl old ↦ inl old
    | inr new ↦ elim new [ inl e ↦ inr e | inr never ↦ absurd never ]
  ]

  last-In : (r : RunRecord F) (rs : List (RunRecord F)) → In r (rs ++ r ∷ [])
  last-In r [] = inl refl
  last-In r (x ∷ rs) = inr (last-In r rs)

  old-In : (r x : RunRecord F) (rs : List (RunRecord F)) → In r rs → In r (rs ++ x ∷ [])
  old-In r x [] h = absurd h
  old-In r x (y ∷ rs) (inl e) = inl e
  old-In r x (y ∷ rs) (inr h) = inr (old-In r x rs h)

  lt_irrefl : (a : F) → f.lt a a ≡ false
  lt_irrefl a = ground (arith, o.lt_asym a a)

  not_above : (a b c : F) → f.lt a b ≡ true → f.lt a c ≡ false → f.lt b c ≡ false
  not_above a b c h g = ground (arith, o.lt_trans a b c)

  module _ (x : RunRecord F) (s : Collected F) (v : IsSummary s) where
    collect-highest :
        (r : RunRecord F)
        → In r (collect_run f clock x s).runs
        → f.lt (collect_run f clock x s).best_score r.score ≡ false
    unfolding collect_run
    collect-highest r h = elim (In-last r x s.runs h) [
      | inl old ↦ ground (arith, v.highest r old, not_above s.best_score x.score r.score)
      | inr new ↦ rw new (ground (arith, lt_irrefl x.score))
    ]

    collect-scored :
        ((collect_run f clock x s).best_score ≡ f.lit 0 0)
        ⊎ ((r : RunRecord F) × In r (collect_run f clock x s).runs
            × (r.score ≡ (collect_run f clock x s).best_score))
    unfolding collect_run
    collect-scored = elim (Bool-cases (f.lt s.best_score x.score)) [
      | inl up ↦ rw up (inr (x, last-In x s.runs, refl))
      | inr stays ↦
          rw stays elim v.scored [ inl e ↦ inl e | inr w ↦ inr (w.0, old-In w.0 x s.runs w.1, w.2) ]
    ]

    collect-least :
        (r : RunRecord F)
        → In r (collect_run f clock x s).runs
        → pos 0 <ℤ r.p99_micros
        → (collect_run f clock x s).best_p99 ≤ℤ r.p99_micros
    unfolding collect_run
    collect-least r h p = elim (In-last r x s.runs h) [
      | inl old ↦ ground (arith, v.least r old p)
      | inr new ↦ let same = ap (λ (y : RunRecord F). y.p99_micros) new in ground arith
    ]

    collect-attained :
        ((collect_run f clock x s).best_p99 ≡ max_int64)
        ⊎ ((r : RunRecord F) × In r (collect_run f clock x s).runs
            × (r.p99_micros ≡ (collect_run f clock x s).best_p99)
            × (pos 0 <ℤ r.p99_micros))
    unfolding collect_run
    collect-attained =
        elim (Bool-cases (ltb_ℤ (pos 0) x.p99_micros && ltb_ℤ x.p99_micros s.best_p99)) [
          | inl down ↦ rw down (inr (x, last-In x s.runs, refl, ground arith))
          | inr stays ↦ rw stays elim v.attained [
            | inl e ↦ inl e
            | inr w ↦ inr (w.0, old-In w.0 x s.runs w.1, w.2, w.3)
          ]
        ]

    collect_run-IsSummary : IsSummary (collect_run f clock x s)
    collect_run-IsSummary = record {
      highest = collect-highest;
      scored = collect-scored;
      least = collect-least;
      attained = collect-attained;
    }

  collect-IsSummary :
      (scans : List (Scan F)) (s : Collected F) → IsSummary s → IsSummary (collect f clock scans s)
  unfolding collect
  collect-IsSummary [] s v = v
  collect-IsSummary (scan_failed ∷ scans) s v = collect-IsSummary scans s v
  collect-IsSummary (scanned now run ∷ scans) s v =
      collect-IsSummary scans (collect_run f clock (run_record f clock now run) s)
        (collect_run-IsSummary (run_record f clock now run) s v)

  collect-runs :
      (scans : List (Scan F)) (s : Collected F)
      → (collect f clock scans s).runs ≡ s.runs ++ records_of scans
  unfolding collect records_of collect_run
  collect-runs [] s = sym (append-nil s.runs)
  collect-runs (scan_failed ∷ scans) s = collect-runs scans s
  collect-runs (scanned now run ∷ scans) s =
      collect-runs scans (collect_run f clock (run_record f clock now run) s)
      ∙ append_assoc s.runs (run_record f clock now run ∷ []) (records_of scans)

  abbrev start : Collected F
  start = record { runs = []; best_score = f.lit 0 0; best_p99 = max_int64 }

  start-IsSummary : IsSummary start
  start-IsSummary = record {
    highest = λ r h. absurd h;
    scored = inl refl;
    least = λ r h p. absurd h;
    attained = inl refl;
  }

  -- A GET request for a path with an id, whose query is read without an error, is answered with
  -- the scanned runs in order, the best score rounded to two places, and the least positive 99th
  -- percentile, where 0 stands for none.
  pub handle_submission_detail-IsSummary :
      (path : Str) (query : Str → Query F) (scans : List (Scan F))
      → is_empty (trim_space (trim_prefix path (codes "/api/scores/"))) ≡ false
      → query (trim_space (trim_prefix path (codes "/api/scores/"))) ≡ answered scans true
      → (d : Details F) × (s : Collected F) × (handle_submission_detail f clock true path query
          ≡ success d)
        × (d.runs ≡ records_of scans)
        × (s.runs ≡ d.runs)
        × IsSummary s
        × (d.best_score ≡ round_float f s.best_score 2)
        × (d.best_p99 ≡ (if eq_ℤ s.best_p99 max_int64 then pos 0 else s.best_p99))
  unfolding handle_submission_detail detail_reply details_of
  handle_submission_detail-IsSummary path query scans named answer =
      let s = collect f clock scans start in
      (
        details_of f clock (trim_space (trim_prefix path (codes "/api/scores/"))) s,
        s,
        rw (named, answer) refl,
        collect-runs scans start,
        refl,
        collect-IsSummary scans start start-IsSummary,
        refl,
        refl,
      )
