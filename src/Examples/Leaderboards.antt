-- ===== src/Examples/Leaderboards.antt =====
-- An insertion sort in the place of sort.Slice, over fixed-point scores.
use hft_bench.Prelude.{
  ℕ, suc, ◌≡◌, ◌≢◌, sym, ◌⊎◌, inl, inr, refl, Bool, true, false, List, [], ◌∷◌, arith,
  if◌then◌else◌, Bool-cases, All, In, length,
}
use hft_bench.Prelude.Int.{pos, eq_ℤ}
use hft_bench.Prelude.Text.{
  Str, codes, is_empty, trim_space, trim_left, is_space, trim_prefix, after_prefix, str_discrete,
}
use hft_bench.Prelude.Dict.{lookup, insert}
use hft_bench.Float64.Fixed.{fixed, fixed-IsOrdered}
use hft_bench.Score.{
  round_float, leaderboard_score, leaderboard_composite, leaderboard_latency, leaderboard_tps,
  leaderboard_stability,
}
use hft_bench.Leaderboard.{
  LeaderboardRow, RawRun, Clock, Scan, scanned, scan_failed, Query, answered, success, score_row,
  rows_of, is_better, best_runs, less, number_from, ranked, handle_scores, Details, Collected,
  handle_submission_detail, max_int64,
}
use hft_bench.Leaderboard.Order.{IsNumber, less_asym, less_weak}
use hft_bench.Leaderboard.Boards.{Sorts, IsSorted, IsSingle}
use hft_bench.Leaderboard.Ranking.{IsRanking, handle_scores-IsRanking}
use hft_bench.Leaderboard.Detail.{records_of, IsSummary, handle_submission_detail-IsSummary}

abbrev Row : Type 0
Row = LeaderboardRow ℕ

put : (Row → Row → Bool) → Row → List Row → List Row
put before x [] = x ∷ []
put before x (y ∷ ys) = let later = put before x ys in if before x y then x ∷ y ∷ ys else y ∷ later

pub insertion_sort : (Row → Row → Bool) → List Row → List Row
insertion_sort before [] = []
insertion_sort before (x ∷ xs) = put before x (insertion_sort before xs)

In-put :
    (before : Row → Row → Bool) (x r : Row) (ys : List Row)
    → In r (put before x ys)
    → (r ≡ x) ⊎ In r ys
unfolding put
In-put before x r [] (inl e) = inl e
In-put before x r [] (inr h) = absurd h
In-put before x r (y ∷ ys) h = elim (Bool-cases (before x y)) [
  | inl front ↦ rw front at h
  | inr back ↦ elim (rw back at h) [
    | inl e ↦ inr (inl e)
    | inr m ↦ elim (In-put before x r ys m) [ inl e ↦ inl e | inr k ↦ inr (inr k) ]
  ]
]

put-In :
    (before : Row → Row → Bool) (x r : Row) (ys : List Row)
    → (r ≡ x) ⊎ In r ys
    → In r (put before x ys)
unfolding put
put-In before x r [] h = h
put-In before x r (y ∷ ys) h = elim (Bool-cases (before x y)) [
  | inl front ↦ rw front h
  | inr back ↦ rw back elim h [
    | inl e ↦ inr (put-In before x r ys (inl e))
    | inr m ↦ elim m [ inl e ↦ inl e | inr k ↦ inr (put-In before x r ys (inr k)) ]
  ]
]

length-put :
    (before : Row → Row → Bool) (x : Row) (ys : List Row)
    → length (put before x ys) ≡ suc (length ys)
unfolding put
length-put before x [] = refl
length-put before x (y ∷ ys) = ground (arith, length-put before x ys)

members :
    (before : Row → Row → Bool) (xs : List Row) (r : Row)
    → In r (insertion_sort before xs)
    → In r xs
unfolding insertion_sort
members before [] r h = h
members before (x ∷ xs) r h = elim (In-put before x r (insertion_sort before xs) h) [
  | inl e ↦ inl e
  | inr m ↦ inr (members before xs r m)
]

keeps :
    (before : Row → Row → Bool) (xs : List Row) (r : Row)
    → In r xs
    → In r (insertion_sort before xs)
unfolding insertion_sort
keeps before [] r h = h
keeps before (x ∷ xs) r (inl e) = put-In before x r (insertion_sort before xs) (inl e)
keeps before (x ∷ xs) r (inr h) =
    put-In before x r (insertion_sort before xs) (inr (keeps before xs r h))

size : (before : Row → Row → Bool) (xs : List Row) → length (insertion_sort before xs) ≡ length xs
unfolding insertion_sort
size before [] = refl
size before (x ∷ xs) =
    ground (arith, length-put before x (insertion_sort before xs), size before xs)

number : (r : Row) → IsNumber fixed fixed-IsOrdered r
number r = ground arith

All-put :
    (P : Row → Type 0) (before : Row → Row → Bool) (x : Row) (ys : List Row)
    → P x
    → All P ys
    → All P (put before x ys)
unfolding put
All-put P before x [] p a = (p, tt)
All-put P before x (y ∷ ys) p (q, qs) = elim (Bool-cases (before x y)) [
  | inl front ↦ rw front (p, (q, qs))
  | inr back ↦ rw back (q, All-put P before x ys p qs)
]

below :
    (x y : Row) (ys : List Row)
    → less fixed y x ≡ false
    → All (λ b. less fixed b y ≡ false) ys
    → All (λ b. less fixed b x ≡ false) ys
below x y [] h a = tt
below x y (b ∷ ys) h (p, ps) =
    (less_weak fixed fixed-IsOrdered b y x (number b) (number y) (number x) p h, below x y ys h ps)

put-IsSorted :
    (x : Row) (ys : List Row) → IsSorted fixed ys → IsSorted fixed (put (less fixed) x ys)
unfolding put
put-IsSorted x [] s = (tt, tt)
put-IsSorted x (y ∷ ys) (a, s) = elim (Bool-cases (less fixed x y)) [
  | inl front ↦
      let after = less_asym fixed fixed-IsOrdered x y front in
      rw front ((after, below x y ys after a), (a, s))
  | inr back ↦
      rw back (All-put (λ b. less fixed b y ≡ false) (less fixed) x ys back a, put-IsSorted x ys s)
]

insertion_sort-IsSorted : (xs : List Row) → IsSorted fixed (insertion_sort (less fixed) xs)
unfolding insertion_sort
insertion_sort-IsSorted [] = tt
insertion_sort-IsSorted (x ∷ xs) =
    put-IsSorted x (insertion_sort (less fixed) xs) (insertion_sort-IsSorted xs)

put-IsSingle :
    (before : Row → Row → Bool) (x : Row) (ys : List Row)
    → All (λ b. x.submission_id ≢ b.submission_id) ys
    → IsSingle fixed ys
    → IsSingle fixed (put before x ys)
unfolding put
put-IsSingle before x [] h s = (tt, tt)
put-IsSingle before x (y ∷ ys) (h, hs) (a, s) = elim (Bool-cases (before x y)) [
  | inl front ↦ rw front ((h, hs), (a, s))
  | inr back ↦ rw back (
    All-put (λ b. y.submission_id ≢ b.submission_id) before x ys (λ e. h (sym e)) a,
    put-IsSingle before x ys hs s,
  )
]

All-insertion_sort :
    (P : Row → Type 0) (before : Row → Row → Bool) (xs : List Row)
    → All P xs
    → All P (insertion_sort before xs)
unfolding insertion_sort
All-insertion_sort P before [] a = tt
All-insertion_sort P before (x ∷ xs) (p, ps) =
    All-put P before x (insertion_sort before xs) p (All-insertion_sort P before xs ps)

insertion_sort-IsSingle :
    (before : Row → Row → Bool) (xs : List Row)
    → IsSingle fixed xs
    → IsSingle fixed (insertion_sort before xs)
unfolding insertion_sort
insertion_sort-IsSingle before [] s = tt
insertion_sort-IsSingle before (x ∷ xs) (a, s) =
    put-IsSingle before x (insertion_sort before xs)
      (All-insertion_sort (λ b. x.submission_id ≢ b.submission_id) before xs a)
      (insertion_sort-IsSingle before xs s)

insertion_sort-Sorts : Sorts fixed insertion_sort
insertion_sort-Sorts = record {
  members = members;
  keeps = keeps;
  single = insertion_sort-IsSingle;
  size = size;
  sorted = λ xs asym weak. insertion_sort-IsSorted xs;
}

abbrev pub clock : Clock
clock = record { unix_milli = λ t. codes "ms"; unix = λ t. codes "s" }

abbrev run : Str → ℕ → RawRun ℕ
run id p99 = record {
  run_id = pos p99;
  submission_id = id;
  p50 = pos 100;
  p90 = pos 200;
  p99 = pos p99;
  success_rate = 1000000;
  total_orders = pos 1000;
  timestamp = pos 0;
}

abbrev scans : List (Scan ℕ)
scans =
    scanned (codes "now") (run (codes "a") 900)
    ∷ scan_failed
    ∷ scanned (codes "now") (run (codes "b") 500)
    ∷ []

abbrev rows : List Row
rows = rows_of fixed (score_row fixed clock) scans

rows-numbers : All (IsNumber fixed fixed-IsOrdered) rows
unfolding rows_of
rows-numbers = (
  number (score_row fixed clock (codes "now") (run (codes "a") 900)),
  (number (score_row fixed clock (codes "now") (run (codes "b") 500)), tt),
)

handle_scores-IsRanking_example :
    (board : List Row) × (handle_scores fixed insertion_sort clock true (answered scans true)
      ≡ success board)
    × IsRanking fixed rows board
handle_scores-IsRanking_example =
    handle_scores-IsRanking fixed fixed-IsOrdered insertion_sort insertion_sort-Sorts clock scans
      rows-numbers

-- The faster submission is first.
first_id : List Row → Str
first_id [] = []
first_id (r ∷ rs) = r.submission_id

faster_first : first_id (ranked fixed insertion_sort (best_runs fixed rows [])) ≡ codes "b"
unfolding ranked best_runs rows_of is_better less number_from insertion_sort put first_id lookup
    insert str_discrete score_row leaderboard_score round_float leaderboard_composite
    leaderboard_latency leaderboard_tps leaderboard_stability
faster_first = refl

abbrev query : Str → Query ℕ
query id = answered scans true

path-named :
    is_empty (trim_space (trim_prefix (codes "/api/scores/a") (codes "/api/scores/"))) ≡ false
unfolding trim_space trim_left is_space trim_prefix after_prefix
path-named = refl

handle_submission_detail-IsSummary_example :
    (d : Details ℕ) × (s : Collected ℕ) × (handle_submission_detail fixed clock true
        (codes "/api/scores/a")
        query
      ≡ success d)
    × (d.runs ≡ records_of fixed fixed-IsOrdered clock scans)
    × (s.runs ≡ d.runs)
    × IsSummary fixed fixed-IsOrdered clock s
    × (d.best_score ≡ round_float fixed s.best_score 2)
    × (d.best_p99 ≡ (if eq_ℤ s.best_p99 max_int64 then pos 0 else s.best_p99))
handle_submission_detail-IsSummary_example =
    handle_submission_detail-IsSummary fixed fixed-IsOrdered clock (codes "/api/scores/a") query
      scans path-named refl
