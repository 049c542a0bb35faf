-- ===== src/Leaderboard.antt =====
-- The handlers of services/leaderboard/main.go. What the database answers is an input, and so is
-- how the `time` package prints times; sort.Slice is a parameter.
pub mod Order
pub mod Best
pub mod Boards
pub mod Ranking
pub mod Detail
pub mod Service
use hft_bench.Prelude.{
  ℕ, suc, Bool, true, false, not, ◌&&◌, ◌||◌, Option, none, some, List, [], ◌∷◌, ◌++◌, ◌==◌,
  if◌then◌else◌, take, map,
}
use hft_bench.Prelude.Int.{ℤ, pos, ltb_ℤ, eq_ℤ}
use hft_bench.Prelude.Text.{Str, codes, is_empty, trim_space, trim_prefix}
use hft_bench.Prelude.Dict.{Dict, lookup, insert}
use hft_bench.Float64.{Float64}
use hft_bench.Score.{leaderboard_score, round_float}

-- A row as `rows.Scan` reads it: rawRun of handleScores, and the variables of the other handlers.
pub record RawRun (F : Type 0) : Type 0 where
  pub run_id : ℤ
  pub submission_id : Str
  pub p50 : ℤ
  pub p90 : ℤ
  pub p99 : ℤ
  pub success_rate : F
  pub total_orders : ℤ
  pub timestamp : ℤ

pub record LeaderboardRow (F : Type 0) : Type 0 where
  pub rank : ℕ
  pub submission_id : Str
  pub p50_micros : ℤ
  pub p90_micros : ℤ
  pub p99_micros : ℤ
  pub success_rate : F
  pub score : F
  pub total_orders : ℤ
  pub correctness_violations : ℤ
  pub tps : F
  pub timestamp : Str

pub record RunRecord (F : Type 0) : Type 0 where
  pub run_id : ℤ
  pub p50_micros : ℤ
  pub p90_micros : ℤ
  pub p99_micros : ℤ
  pub success_rate : F
  pub score : F
  pub tps : F
  pub timestamp : Str

-- `.UTC().Format(time.RFC3339)` of time.UnixMilli(n) and of time.Unix(n, 0)
pub record Clock : Type 0 where
  pub unix_milli : ℤ → Str
  pub unix : ℤ → Str

-- A round of `rows.Next()`: the scan fails, or it reads a row, at a time that is printed so.
pub data Scan (F : Type 0) : Type 0 where
  scan_failed : Scan F
  scanned : Str → RawRun F → Scan F

-- The query: it fails, or it gives rows, and `rows.Err()` is nil or not at the end.
pub data Query (F : Type 0) : Type 0 where
  query_failed : Query F
  answered : List (Scan F) → Bool → Query F

-- The replies: 405, 400, 500, 500, and 200 with a body.
pub data Reply (B : Type 0) : Type 0 where
  method_not_allowed missing_id database_failed iteration_failed : Reply B
  success : B → Reply B

-- The printed time of a run; `now` is the present.
unfoldable pub timestamp_text : Clock → Str → ℤ → Str
timestamp_text clock now t =
    if ltb_ℤ (pos 200000000000) t
    then clock.unix_milli t
    else if ltb_ℤ (pos 0) t
    then clock.unix t
    else now

module _ {F : Type 0} (f : Float64 F) where
  -- orders per second, from the 99th percentile
  unfoldable pub throughput : ℤ → ℤ → F
  throughput total_orders p99 =
      f.min (f.div (f.mul (f.of_int total_orders) (f.lit 1000000 0)) (f.of_int p99))
        (f.lit 1000000 0)

  -- The row that handleScores makes of a run.
  unfoldable pub score_row : Clock → Str → RawRun F → LeaderboardRow F
  score_row clock now run = record {
    rank = 0;
    submission_id = run.submission_id;
    p50_micros = run.p50;
    p90_micros = run.p90;
    p99_micros = run.p99;
    success_rate = round_float f run.success_rate 4;
    score = leaderboard_score f run.p50 run.p99 run.success_rate;
    total_orders = run.total_orders;
    correctness_violations = pos 0;
    tps =
        round_float f
          (if ltb_ℤ (pos 0) run.p99 then throughput run.total_orders run.p99 else f.lit 0 0) 2;
    timestamp = timestamp_text clock now run.timestamp;
  }

  -- The row that handleLegacyLeaderboard makes of a run.
  unfoldable pub legacy_row : RawRun F → LeaderboardRow F
  legacy_row run = record {
    rank = 0;
    submission_id = run.submission_id;
    p50_micros = pos 0;
    p90_micros = pos 0;
    p99_micros = run.p99;
    success_rate = round_float f (f.mul run.success_rate (f.lit 100 0)) 2;
    score = leaderboard_score f run.p50 run.p99 run.success_rate;
    total_orders = pos 0;
    correctness_violations = pos 0;
    tps = f.lit 0 0;
    timestamp = [];
  }

  -- The rows that are scanned; a row that cannot be scanned is passed over.
  unfoldable pub rows_of :
      (Str → RawRun F → LeaderboardRow F) → List (Scan F) → List (LeaderboardRow F)
  rows_of make [] = []
  rows_of make (scan_failed ∷ scans) = rows_of make scans
  rows_of make (scanned now run ∷ scans) = make now run ∷ rows_of make scans

  -- `!found || score > existing.Score || (score == existing.Score && p99 < existing.P99Micros)`
  unfoldable pub is_better : LeaderboardRow F → Option (LeaderboardRow F) → Bool
  is_better row none = true
  is_better row (some existing) =
      f.lt existing.score row.score
      || (f.eq row.score existing.score && ltb_ℤ row.p99_micros existing.p99_micros)

  -- The map bestRuns, after the rows.
  unfoldable pub best_runs :
      List (LeaderboardRow F) → Dict (LeaderboardRow F) → Dict (LeaderboardRow F)
  best_runs [] best = best
  best_runs (row ∷ rows) best = best_runs rows (
      if is_better row (lookup row.submission_id best)
      then insert row.submission_id row best
      else best)

  -- The function that sort.Slice is given.
  unfoldable pub less : LeaderboardRow F → LeaderboardRow F → Bool
  less a b =
      if not (f.eq a.score b.score) then f.lt b.score a.score else ltb_ℤ a.p99_micros b.p99_micros

  -- `leaderboard[i].Rank = i + 1`, from the index `i` on
  unfoldable pub number_from : ℕ → List (LeaderboardRow F) → List (LeaderboardRow F)
  number_from i [] = []
  number_from i (row ∷ rows) = record row { rank = suc i } ∷ number_from (suc i) rows

  module _
      (sort_slice : (LeaderboardRow F → LeaderboardRow F → Bool)
        → List (LeaderboardRow F)
        → List (LeaderboardRow F)) where
    -- From bestRuns to the rows of the answer.
    unfoldable pub ranked : Dict (LeaderboardRow F) → List (LeaderboardRow F)
    ranked best = number_from 0 (take 100 (sort_slice less (map (λ e. e.1) best)))

    -- handleScores, the list of its answer
    unfoldable pub handle_scores : Clock → Bool → Query F → Reply (List (LeaderboardRow F))
    handle_scores clock false query = method_not_allowed
    handle_scores clock true query_failed = database_failed
    handle_scores clock true (answered scans complete) =
        if complete
        then success (ranked (best_runs (rows_of (score_row clock) scans) []))
        else iteration_failed

    -- handleLegacyLeaderboard, which does not look at `rows.Err()`
    unfoldable pub handle_legacy_leaderboard : Bool → Query F → Reply (List (LeaderboardRow F))
    handle_legacy_leaderboard false query = method_not_allowed
    handle_legacy_leaderboard true query_failed = database_failed
    handle_legacy_leaderboard true (answered scans complete) =
        success (ranked (best_runs (rows_of (λ now. legacy_row) scans) []))

pub record Details (F : Type 0) : Type 0 where
  pub submission_id : Str
  pub runs : List (RunRecord F)
  pub best_score : F
  pub best_p99 : ℤ

-- The variables runs, bestScore and bestP99 of handleSubmissionDetail
pub record Collected (F : Type 0) : Type 0 where
  pub runs : List (RunRecord F)
  pub best_score : F
  pub best_p99 : ℤ

-- math.MaxInt64
abbrev pub max_int64 : ℤ
max_int64 = pos 0x7fffffffffffffff

module _ {F : Type 0} (f : Float64 F) (clock : Clock) where
  unfoldable pub run_record : Str → RawRun F → RunRecord F
  run_record now run = record {
    run_id = run.run_id;
    p50_micros = run.p50;
    p90_micros = run.p90;
    p99_micros = run.p99;
    success_rate = round_float f run.success_rate 4;
    score = leaderboard_score f run.p50 run.p99 run.success_rate;
    tps =
        round_float f
          (if ltb_ℤ (pos 0) run.p99 && ltb_ℤ (pos 0) run.total_orders
            then throughput f run.total_orders run.p99
            else f.lit 0 0)
          2;
    timestamp = timestamp_text clock now run.timestamp;
  }

  -- One round of the loop, for a row that was scanned
  unfoldable pub collect_run : RunRecord F → Collected F → Collected F
  collect_run run s = record {
    runs = s.runs ++ run ∷ [];
    best_score = if f.lt s.best_score run.score then run.score else s.best_score;
    best_p99 =
        if ltb_ℤ (pos 0) run.p99_micros && ltb_ℤ run.p99_micros s.best_p99
        then run.p99_micros
        else s.best_p99;
  }

  unfoldable pub collect : List (Scan F) → Collected F → Collected F
  collect [] s = s
  collect (scan_failed ∷ scans) s = collect scans s
  collect (scanned now run ∷ scans) s = collect scans (collect_run (run_record now run) s)

  details_of : Str → Collected F → Details F
  details_of id s = record {
    submission_id = id;
    runs = s.runs;
    best_score = round_float f s.best_score 2;
    best_p99 = if eq_ℤ s.best_p99 max_int64 then pos 0 else s.best_p99;
  }

  detail_reply : Str → Query F → Reply (Details F)
  detail_reply id query_failed = database_failed
  detail_reply id (answered scans complete) =
      if complete
      then success (
          details_of id
            (collect scans (record { runs = []; best_score = f.lit 0 0; best_p99 = max_int64 })))
      else iteration_failed

  -- handleSubmissionDetail, on a path; the query is of the id that it finds in the path.
  unfoldable pub handle_submission_detail : Bool → Str → (Str → Query F) → Reply (Details F)
  unfolding detail_reply details_of
  handle_submission_detail is_get path query =
      let id = trim_space (trim_prefix path (codes "/api/scores/")) in
      if not is_get
      then method_not_allowed
      else if is_empty id
      then missing_id
      else detail_reply id (query id)
