-- ===== src/Leaderboard/Ranking.antt =====
-- The list that handleScores answers with.
use hft_bench.Prelude.{
  ◌≤◌, ◌≡◌, ◌⊎◌, inl, inr, refl, ◌∙◌, Bool, true, false, List, [], ◌∷◌, arith, All, In, take,
  length, length-take, map,
}
use hft_bench.Prelude.Dict.{In-values, values-In}
use hft_bench.Float64.{Float64, IsOrdered}
use hft_bench.Leaderboard.{
  LeaderboardRow, Scan, answered, success, Clock, score_row, rows_of, less, best_runs, ranked,
  handle_scores,
}
use hft_bench.Leaderboard.Order.{IsNumber, less_asym, less_weak}
use hft_bench.Leaderboard.Best.{best_runs-IsBest}
use hft_bench.Leaderboard.Boards.{
  number_from-IsNumbered, length-number_from, number_from-In, In-number_from, number_from-All,
  number_from-IsSorted, take-In, take-IsSingle, number_from-IsSingle, values-IsSingle,
  take-IsSorted, cut, best_runs-IsDistinct, IsSorted, IsSingle, Sorts, IsNumbered,
}

module _ {F : Type 0} (f : Float64 F) where
  abbrev Row : Type 0
  Row = LeaderboardRow F

  -- What a list of the leaderboard promises about the rows that it is made from.
  pub record IsRanking (rows board : List Row) : Type 0 where
    pub numbered : IsNumbered f 0 board
    pub at_most : length board ≤ 100
    pub sorted : IsSorted f board
    pub single : IsSingle f board
    pub members : (r : Row) → In r board → (x : Row) × In x rows × (r ≡ record x { rank = r.rank })
    pub best :
        (x : Row)
        → In x rows
        → ((r : Row) × In r board × (r.submission_id ≡ x.submission_id) × (less f x r ≡ false))
          ⊎ ((length board ≡ 100) × All (λ r. less f x r ≡ false) board)

module _ {F : Type 0} (f : Float64 F) (o : IsOrdered f)
    (sort_slice : (LeaderboardRow F → LeaderboardRow F → Bool)
      → List (LeaderboardRow F)
      → List (LeaderboardRow F))
    (c : Sorts f sort_slice) where
  module _ (rows : List (LeaderboardRow F)) (ns : All (IsNumber f o) rows) where
    abbrev entries : List (LeaderboardRow F)
    entries = map (λ e. e.1) (best_runs f rows [])

    abbrev board : List (LeaderboardRow F)
    board = sort_slice (less f) entries

    entry-row : (r : LeaderboardRow F) → In r entries → In r rows
    entry-row r h =
        let b = best_runs-IsBest f o rows ns in
        let (k, l) = In-values r (best_runs f rows []) (best_runs-IsDistinct f rows [] tt) h in
        (b.held k r l).0

    number : (r : LeaderboardRow F) → In r entries → IsNumber f o r
    number r h = (best_runs-IsBest f o rows ns).numbers r (entry-row r h)

    board-IsSorted : IsSorted f board
    board-IsSorted =
        c.sorted entries (λ a b ha hb. less_asym f o a b)
          (λ a b d ha hb hd. less_weak f o a b d (number a ha) (number b hb) (number d hd))

    -- A row is listed by its submission's entry, or beats no listed row.
    listed :
        (x : LeaderboardRow F)
        → In x rows
        → ((r : LeaderboardRow F) × In r (take 100 board)
            × (r.submission_id ≡ x.submission_id)
            × (less f x r ≡ false))
          ⊎ ((length (take 100 board) ≡ 100) × All (λ r. less f x r ≡ false) (take 100 board))
    listed x h =
        let b = best_runs-IsBest f o rows ns in
        let (e, l, lt) = b.unbeaten x h in
        let here = values-In x.submission_id e (best_runs f rows []) l in
        elim (cut f 100 board e board-IsSorted (c.keeps (less f) entries e here)) [
          | inl kept ↦ inl (e, kept, (b.held x.submission_id e l).1, lt)
          | inr (full, out) ↦ inr (
            full,
            under e lt (number e here) (take 100 board)
                (λ r m. number r (c.members (less f) entries r (take-In f 100 board r m))) out,
          )
        ]
      where
        under :
            (e : LeaderboardRow F)
            → less f x e ≡ false
            → IsNumber f o e
            → (rs : List (LeaderboardRow F)) → ((r : LeaderboardRow F) → In r rs → IsNumber f o r)
            → All (λ r. less f e r ≡ false) rs
            → All (λ r. less f x r ≡ false) rs
        under e lt ne [] nums a = tt
        under e lt ne (r ∷ rs) nums (p, ps) = (
          less_weak f o x e r ((best_runs-IsBest f o rows ns).numbers x h) ne (nums r (inl refl)) lt
              p,
          under e lt ne rs (λ y m. nums y (inr m)) ps,
        )

    ranked-IsRanking : IsRanking f rows (ranked f sort_slice (best_runs f rows []))
    unfolding ranked less
    ranked-IsRanking = record {
      numbered = number_from-IsNumbered f 0 (take 100 board);
      at_most = omega (arith, length-number_from f 0 (take 100 board), length-take 100 board);
      sorted = number_from-IsSorted f 0 (take 100 board) (take-IsSorted f 100 board board-IsSorted);
      single = number_from-IsSingle f 0 (take 100 board) (
          take-IsSingle f 100 board (
            c.single (less f) entries (
              values-IsSingle f (best_runs f rows []) (best_runs-IsDistinct f rows [] tt)
                (λ i e l. ((best_runs-IsBest f o rows ns).held i e l).1))));
      members = λ r h.
          let (x, m, e) = number_from-In f 0 (take 100 board) r h in
          (x, entry-row x (c.members (less f) entries x (take-In f 100 board x m)), e);
      best = λ x h. elim (listed x h) [
        | inl (r, m, same, lt) ↦
            let (k, m') = In-number_from f 0 (take 100 board) r m in
            inl (record r { rank = k }, m', same, lt)
        | inr (full, out) ↦ inr (
          length-number_from f 0 (take 100 board) ∙ full,
          number_from-All f (λ r. less f x r ≡ false) 0 (take 100 board) (λ k y p. p) out,
        )
      ];
    }

  -- If the request is a GET and the query and its rows are read without an error, handleScores
  -- answers with a list. It has at most 100 rows, ranked from 1, no two of one
  -- submission, each of them a scanned row with its rank, in the order of sort.Slice: by falling score, then by rising 99th percentile. For
  -- every scanned row the list holds a row of the same submission that it does not beat, or the
  -- list has 100 rows and it beats none of them; so no submission is left out of a shorter list. The
  -- scores are taken to be numbers.
  pub handle_scores-IsRanking :
      (clock : Clock) (scans : List (Scan F))
      → All (IsNumber f o) (rows_of f (score_row f clock) scans)
      → (board : List (LeaderboardRow F)) × (handle_scores f sort_slice clock true
            (answered scans true)
          ≡ success board)
        × IsRanking f (rows_of f (score_row f clock) scans) board
  unfolding handle_scores
  handle_scores-IsRanking clock scans ns =
      (_, refl, ranked-IsRanking (rows_of f (score_row f clock) scans) ns)
