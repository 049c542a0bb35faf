-- ===== src/Leaderboard/Boards.antt =====
-- Lists of rows, and what sort.Slice documents of them (handleScores of leaderboard/main.go).
use hft_bench.Prelude.{
  ℕ, zero, suc, ◌≡◌, ◌≢◌, some, ◌⊎◌, inl, inr, refl, sym, ap, ◌∙◌, subst, Bool, true, false, List,
  [], ◌∷◌, arith, if◌then◌else◌, All, In, take, length, map,
}
use hft_bench.Prelude.Text.{Str}
use hft_bench.Prelude.Dict.{Dict, lookup, insert, IsDistinct, insert-IsDistinct, In-values}
use hft_bench.Float64.{Float64}
use hft_bench.Leaderboard.{LeaderboardRow, is_better, less, best_runs, number_from}

module _ {F : Type 0} (f : Float64 F) where
  abbrev pub Row : Type 0
  Row = LeaderboardRow F

  -- No row is less than one before it.
  abbrev pub IsSorted : List Row → Type 0
  IsSorted [] = Unit
  IsSorted (a ∷ rows) = All (λ b. less f b a ≡ false) rows × IsSorted rows

  -- No two rows are of one submission.
  abbrev pub IsSingle : List Row → Type 0
  IsSingle [] = Unit
  IsSingle (a ∷ rows) = All (λ b. a.submission_id ≢ b.submission_id) rows × IsSingle rows

  -- What sort.Slice documents: where the comparison is a strict weak order on the entries, the
  -- result has the same entries, sorted. The order in which a map is ranged over is left open with it.
  pub record Sorts (sort_slice : (Row → Row → Bool) → List Row → List Row) : Type 0 where
    pub members :
        (less : Row → Row → Bool) (xs : List Row) (r : Row) → In r (sort_slice less xs) → In r xs
    pub keeps :
        (less : Row → Row → Bool) (xs : List Row) (r : Row) → In r xs → In r (sort_slice less xs)
    pub single :
        (less : Row → Row → Bool) (xs : List Row) → IsSingle xs → IsSingle (sort_slice less xs)
    pub size : (less : Row → Row → Bool) (xs : List Row) → length (sort_slice less xs) ≡ length xs
    pub sorted :
        (xs : List Row)
        → ((a b : Row) → In a xs → In b xs → less f a b ≡ true → less f b a ≡ false)
        → ((a b c : Row)
            → In a xs
            → In b xs
            → In c xs
            → less f a b ≡ false
            → less f b c ≡ false
            → less f a c ≡ false)
        → IsSorted (sort_slice (less f) xs)

  -- The ranks count up from `i + 1`.
  abbrev pub IsNumbered : ℕ → List Row → Type 0
  IsNumbered i [] = Unit
  IsNumbered i (r ∷ rows) = (r.rank ≡ suc i) × IsNumbered (suc i) rows

  pub number_from-IsNumbered : (i : ℕ) (rows : List Row) → IsNumbered i (number_from f i rows)
  unfolding number_from
  number_from-IsNumbered i [] = tt
  number_from-IsNumbered i (r ∷ rows) = (refl, number_from-IsNumbered (suc i) rows)

  pub length-number_from : (i : ℕ) (rows : List Row) → length (number_from f i rows) ≡ length rows
  unfolding number_from
  length-number_from i [] = refl
  length-number_from i (r ∷ rows) = ap suc (length-number_from (suc i) rows)

  -- A numbered row is a row of the list with a rank.
  pub number_from-In :
      (i : ℕ) (rows : List Row) (r : Row)
      → In r (number_from f i rows)
      → (x : Row) × In x rows × (r ≡ record x { rank = r.rank })
  unfolding number_from
  number_from-In i [] r h = absurd h
  number_from-In i (x ∷ rows) r (inl e) =
      (x, inl refl, e ∙ ap (λ k. record x { rank = k }) (sym (ap (λ (y : Row). y.rank) e)))
  number_from-In i (x ∷ rows) r (inr h) =
      let (y, m, e) = number_from-In (suc i) rows r h in (y, inr m, e)

  pub In-number_from :
      (i : ℕ) (rows : List Row) (x : Row)
      → In x rows
      → (k : ℕ) × In (record x { rank = k }) (number_from f i rows)
  unfolding number_from
  In-number_from i [] x h = absurd h
  In-number_from i (y ∷ rows) x (inl e) =
      (suc i, inl (ap (λ (z : Row). record z { rank = suc i }) e))
  In-number_from i (y ∷ rows) x (inr h) = let (k, m) = In-number_from (suc i) rows x h in (k, inr m)

  pub number_from-All :
      (P : Row → Type 0) (i : ℕ) (rows : List Row)
      → ((k : ℕ) (x : Row) → P x → P (record x { rank = k }))
      → All P rows
      → All P (number_from f i rows)
  unfolding number_from
  number_from-All P i [] h a = tt
  number_from-All P i (x ∷ rows) h (p, ps) = (h (suc i) x p, number_from-All P (suc i) rows h ps)

  pub number_from-IsSorted :
      (i : ℕ) (rows : List Row) → IsSorted rows → IsSorted (number_from f i rows)
  unfolding number_from less
  number_from-IsSorted i [] s = tt
  number_from-IsSorted i (x ∷ rows) (a, s) = (
    number_from-All (λ b. less f b x ≡ false) (suc i) rows (λ k y p. p) a,
    number_from-IsSorted (suc i) rows s,
  )

  pub take-In : (n : ℕ) (rows : List Row) (r : Row) → In r (take n rows) → In r rows
  take-In zero rows r h = absurd h
  take-In (suc n) [] r h = absurd h
  take-In (suc n) (x ∷ rows) r (inl e) = inl e
  take-In (suc n) (x ∷ rows) r (inr h) = inr (take-In n rows r h)

  pub All-take : (P : Row → Type 0) (n : ℕ) (rows : List Row) → All P rows → All P (take n rows)
  All-take P zero rows a = tt
  All-take P (suc n) [] a = tt
  All-take P (suc n) (x ∷ rows) (p, ps) = (p, All-take P n rows ps)

  pub take-IsSingle : (n : ℕ) (rows : List Row) → IsSingle rows → IsSingle (take n rows)
  take-IsSingle zero rows s = tt
  take-IsSingle (suc n) [] s = tt
  take-IsSingle (suc n) (x ∷ rows) (a, s) =
      (All-take (λ b. x.submission_id ≢ b.submission_id) n rows a, take-IsSingle n rows s)

  pub number_from-IsSingle :
      (i : ℕ) (rows : List Row) → IsSingle rows → IsSingle (number_from f i rows)
  unfolding number_from
  number_from-IsSingle i [] s = tt
  number_from-IsSingle i (x ∷ rows) (a, s) = (
    number_from-All (λ b. x.submission_id ≢ b.submission_id) (suc i) rows (λ k y p. p) a,
    number_from-IsSingle (suc i) rows s,
  )

  pub In-All : (P : Row → Type 0) (rows : List Row) → ((r : Row) → In r rows → P r) → All P rows
  In-All P [] h = tt
  In-All P (x ∷ rows) h = (h x (inl refl), In-All P rows (λ r i. h r (inr i)))

  -- The values of a map whose keys are the submissions
  pub values-IsSingle :
      (best : Dict Row)
      → IsDistinct best
      → ((i : Str) (e : Row) → lookup i best ≡ some e → e.submission_id ≡ i)
      → IsSingle (map (λ e. e.1) best)
  unfolding lookup
  values-IsSingle [] d held = tt
  values-IsSingle ((i, x) ∷ best) (new, d) held = (
    In-All (λ b. x.submission_id ≢ b.submission_id) (map (λ e. e.1) best)
        (λ r h same.
          let (k, l) = In-values r best d h in
          let kept = later k r l in
          let here : x.submission_id ≡ i = held i x (ground arith) in
          let at : i ≡ k = sym here ∙ same ∙ held k r kept in absurd (ground (arith, new, l, at))),
    values-IsSingle best d (λ k e l. held k e (later k e l)),
  )
    where
      later : (k : Str) (e : Row) → lookup k best ≡ some e → lookup k ((i, x) ∷ best) ≡ some e
      later k e l = ground (arith, new)

  pub take-IsSorted : (n : ℕ) (rows : List Row) → IsSorted rows → IsSorted (take n rows)
  take-IsSorted zero rows s = tt
  take-IsSorted (suc n) [] s = tt
  take-IsSorted (suc n) (x ∷ rows) (a, s) =
      (All-take (λ b. less f b x ≡ false) n rows a, take-IsSorted n rows s)

  pub All-In : (P : Row → Type 0) (rows : List Row) (r : Row) → All P rows → In r rows → P r
  All-In P [] r a h = absurd h
  All-In P (x ∷ rows) r (p, ps) (inl e) = subst P (sym e) p
  All-In P (x ∷ rows) r (p, ps) (inr h) = All-In P rows r ps h

  -- A row of a sorted list is among the first `n`, or there are `n` and it is less than none.
  pub cut :
      (n : ℕ) (rows : List Row) (r : Row)
      → IsSorted rows
      → In r rows
      → In r (take n rows)
        ⊎ ((length (take n rows) ≡ n) × All (λ x. less f r x ≡ false) (take n rows))
  cut zero rows r s h = inr (refl, tt)
  cut (suc n) [] r s h = absurd h
  cut (suc n) (x ∷ rows) r (a, s) (inl e) = inl (inl e)
  cut (suc n) (x ∷ rows) r (a, s) (inr h) = elim (cut n rows r s h) [
    | inl kept ↦ inl (inr kept)
    | inr (full, out) ↦ inr (ap suc full, (All-In (λ b. less f b x ≡ false) rows r a h, out))
  ]

  pub best_runs-IsDistinct :
      (rows : List Row) (best : Dict Row) → IsDistinct best → IsDistinct (best_runs f rows best)
  unfolding best_runs
  best_runs-IsDistinct [] best d = d
  best_runs-IsDistinct (row ∷ rows) best d =
      best_runs-IsDistinct rows _ (stepped (is_better f row (lookup row.submission_id best)))
    where
      stepped : (t : Bool) → IsDistinct (if t then insert row.submission_id row best else best)
      stepped true = insert-IsDistinct row.submission_id row best d
      stepped false = d
