-- ===== src/Leaderboard/Order.antt =====
-- The comparison of sort.Slice orders the rows whose scores are numbers.
use hft_bench.Prelude.{◌≡◌, inl, inr, true, false, some, arith, Bool-cases}
use hft_bench.Float64.{Float64, IsOrdered}
use hft_bench.Leaderboard.{LeaderboardRow, is_better, less}

module _ {F : Type 0} (f : Float64 F) (o : IsOrdered f) where
  -- The score is a number.
  abbrev pub IsNumber : LeaderboardRow F → Type 0
  IsNumber row = f.eq row.score row.score ≡ true

  pub less_asym : (a b : LeaderboardRow F) → less f a b ≡ true → less f b a ≡ false
  unfolding less
  less_asym a b h =
      ground
        (arith, o.eq_comm a.score b.score, o.lt_asym a.score b.score, o.lt_asym b.score a.score)

  pub less_weak :
      (a b c : LeaderboardRow F)
      → IsNumber a
      → IsNumber b
      → IsNumber c
      → less f a b ≡ false
      → less f b c ≡ false
      → less f a c ≡ false
  unfolding less
  less_weak a b c na nb nc h g = elim (Bool-cases (f.eq a.score b.score)) [
    | inl same ↦ let (l, r, e) = o.lt_of_eq a.score b.score c.score same in ground arith
    | inr apart ↦
        let up : f.lt a.score b.score ≡ true =
          o.lt_total b.score a.score nb na (ground arith)
            (ground (arith, o.eq_comm a.score b.score)) in
        let far : f.lt a.score c.score ≡ true = elim (Bool-cases (f.eq b.score c.score)) [
          | inl equal ↦ let (l, r, e) = o.lt_of_eq b.score c.score a.score equal in ground arith
          | inr other ↦ o.lt_trans a.score b.score c.score up (
              o.lt_total c.score b.score nc nb (ground arith)
                (ground (arith, o.eq_comm b.score c.score)))
        ] in
        ground (arith, o.lt_asym a.score c.score, o.lt_ne a.score c.score)
  ]

  -- The test for a better run agrees with the order of the list.
  pub is_better-less : (a b : LeaderboardRow F) → is_better f a (some b) ≡ less f a b
  unfolding is_better less
  is_better-less a b = ground (arith, o.eq_comm a.score b.score, o.lt_ne b.score a.score)
