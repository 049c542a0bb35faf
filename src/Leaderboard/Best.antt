-- ===== src/Leaderboard/Best.antt =====
-- The map bestRuns holds, for each submission, a run that no other of its runs beats.
use hft_bench.Prelude.{
  ◌≡◌, ◌⊎◌, inl, inr, sym, ap, ◌∙◌, subst, false, some, List, [], ◌∷◌, arith, if◌then◌else◌,
  Bool-cases, Option-cases, All, In,
}
use hft_bench.Prelude.Text.{Str, str_discrete}
use hft_bench.Prelude.Dict.{Dict, lookup, insert, lookup-insert_self, lookup-insert_ne}
use hft_bench.Float64.{Float64, IsOrdered}
use hft_bench.Leaderboard.{LeaderboardRow, is_better, less, best_runs}
use hft_bench.Leaderboard.Order.{IsNumber, less_asym, less_weak, is_better-less}

module _ {F : Type 0} (f : Float64 F) (o : IsOrdered f) where
  abbrev Row : Type 0
  Row = LeaderboardRow F

  -- The map holds the best of the rows that satisfy `S`, by submission.
  pub record IsBest (S : Row → Type 0) (best : Dict Row) : Type 0 where
    pub held : (i : Str) (e : Row) → lookup i best ≡ some e → S e × (e.submission_id ≡ i)
    pub unbeaten :
        (r : Row) → S r → (e : Row) × (lookup r.submission_id best ≡ some e) × (less f r e ≡ false)
    pub numbers : (r : Row) → S r → IsNumber f o r

  less_irrefl : (r : Row) → less f r r ≡ false
  less_irrefl r = elim (Bool-cases (less f r r)) [ inl h ↦ less_asym f o r r h | inr h ↦ h ]

  module _ (S : Row → Type 0) (best : Dict Row) (b : IsBest S best) (row : Row)
      (n : IsNumber f o row) where
    joined-IsNumber : (r : Row) → S r ⊎ (r ≡ row) → IsNumber f o r
    joined-IsNumber r (inl s) = b.numbers r s
    joined-IsNumber r (inr e) = rw e n

    -- The row becomes the entry of its submission, since no earlier row beats it.
    insert-IsBest :
        ((r : Row) → S r → r.submission_id ≡ row.submission_id → less f r row ≡ false)
        → IsBest (λ r. S r ⊎ (r ≡ row)) (insert row.submission_id row best)
    insert-IsBest top = record { held = held; unbeaten = unbeaten; numbers = joined-IsNumber }
      where
        held :
            (i : Str) (e : Row)
            → lookup i (insert row.submission_id row best) ≡ some e
            → (S e ⊎ (e ≡ row)) × (e.submission_id ≡ i)
        held i e h = elim (str_discrete i row.submission_id) [
          | yes same ↦
              let new : e ≡ row = ground (arith, lookup-insert_self row.submission_id row best) in
              (inr new, ap (λ (x : Row). x.submission_id) new ∙ sym same)
          | no other ↦
              let (s, k) =
                b.held i e (sym (lookup-insert_ne i row.submission_id row best other) ∙ h) in
              (inl s, k)
        ]

        unbeaten :
            (r : Row)
            → S r ⊎ (r ≡ row)
            → (e : Row) × (lookup r.submission_id (insert row.submission_id row best) ≡ some e)
              × (less f r e ≡ false)
        unbeaten r (inr e) =
            (row, rw e (lookup-insert_self row.submission_id row best), rw e (less_irrefl row))
        unbeaten r (inl s) = elim (str_discrete r.submission_id row.submission_id) [
          | yes same ↦ (row, rw same (lookup-insert_self row.submission_id row best), top r s same)
          | no other ↦
              let (e, l, lt) = b.unbeaten r s in (e, lookup-insert_ne _ _ _ _ other ∙ l, lt)
        ]

    -- The entry stays, since the row does not beat it.
    keep-IsBest :
        (e : Row)
        → lookup row.submission_id best ≡ some e
        → less f row e ≡ false
        → IsBest (λ r. S r ⊎ (r ≡ row)) best
    keep-IsBest e h lt = record {
      held = λ i x l. let (s, k) = b.held i x l in (inl s, k);
      unbeaten = unbeaten;
      numbers = joined-IsNumber;
    }
      where
        unbeaten :
            (r : Row)
            → S r ⊎ (r ≡ row)
            → (e : Row) × (lookup r.submission_id best ≡ some e) × (less f r e ≡ false)
        unbeaten r (inl s) = b.unbeaten r s
        unbeaten r (inr same) = (e, rw same h, rw same lt)

    step-IsBest :
        IsBest
          (λ r. S r ⊎ (r ≡ row))
          (if is_better f row (lookup row.submission_id best)
            then insert row.submission_id row best
            else best)
    unfolding is_better
    step-IsBest = elim (Option-cases (lookup row.submission_id best)) [
      | inl new ↦ rw new (
          insert-IsBest
            λ r s same. let (e, l, lt) = b.unbeaten r s in absurd (ground (arith, same)))
      | inr (e, h) ↦
          let agrees = is_better-less f o row e in
          elim (Bool-cases (less f row e)) [
            | inl beats ↦
                rw (h, agrees, beats)
                  (insert-IsBest λ r s same.
                    let (x, l, lt) = b.unbeaten r s in
                    let entry : x ≡ e = ground (arith, same) in
                    less_weak f o r e row (b.numbers r s)
                      (b.numbers e (b.held row.submission_id e h).0) n
                      (subst (λ y. less f r y ≡ false) entry lt) (less_asym f o row e beats))
            | inr stays ↦ rw (h, agrees, stays) (keep-IsBest e h stays)
          ]
    ]

  weaken-IsBest :
      (S T : Row → Type 0) (best : Dict Row)
      → ((r : Row) → S r → T r)
      → ((r : Row) → T r → S r)
      → IsBest S best
      → IsBest T best
  weaken-IsBest S T best to from b = record {
    held = λ i e h. let (s, k) = b.held i e h in (to e s, k);
    unbeaten = λ r t. b.unbeaten r (from r t);
    numbers = λ r t. b.numbers r (from r t);
  }

  best_runs-after :
      (S : Row → Type 0) (rows : List Row) (best : Dict Row)
      → All (IsNumber f o) rows
      → IsBest S best
      → IsBest (λ r. S r ⊎ In r rows) (best_runs f rows best)
  unfolding best_runs
  best_runs-after S [] best h b =
      weaken-IsBest S (λ r. S r ⊎ ⊥) best (λ r s. inl s)
        (λ r t. elim t [ inl s ↦ s | inr x ↦ absurd x ]) b
  best_runs-after S (row ∷ rows) best (n, ns) b =
      weaken-IsBest (λ r. (S r ⊎ (r ≡ row)) ⊎ In r rows) (λ r. S r ⊎ In r (row ∷ rows)) _
        (λ r t. elim t [
          | inl s ↦ elim s [ inl x ↦ inl x | inr x ↦ inr (inl x) ]
          | inr x ↦ inr (inr x)
        ])
        (λ r t. elim t [
          | inl s ↦ inl (inl s)
          | inr x ↦ elim x [ inl y ↦ inl (inr y) | inr y ↦ inr y ]
        ])
        (best_runs-after (λ r. S r ⊎ (r ≡ row)) rows _ ns (step-IsBest S best b row n))

  -- Where all scores are numbers, bestRuns holds exactly one entry for each submission that has a
  -- row; it is one of the submission's rows, and no row of the submission beats it: none has a
  -- higher score, or the same score with a lower 99th percentile.
  pub best_runs-IsBest :
      (rows : List Row) → All (IsNumber f o) rows → IsBest (λ r. In r rows) (best_runs f rows [])
  unfolding lookup
  best_runs-IsBest rows h =
      weaken-IsBest (λ r. ⊥ ⊎ In r rows) (λ r. In r rows) _
        (λ r t. elim t [ inl x ↦ absurd x | inr x ↦ x ]) (λ r t. inr t)
        (best_runs-after (λ r. ⊥) rows [] h
          (record {
            held = λ i e l. absurd (cc);
            unbeaten = λ r s. absurd s;
            numbers = λ r s. absurd s;
          }))
