-- ===== src/Examples/Queues.antt =====
-- A worker that empties a queue of two jobs.
use hft_bench.Prelude.{
  ℕ, ◌≡◌, refl, ap, true, Option, none, some, List, [], ◌∷◌, if◌then◌else◌, arith, In, inl, inr,
  Bool-cases,
}
use hft_bench.Prelude.Text.{Str, str_discrete}
use hft_bench.Prelude.Dict.{lookup}
use hft_bench.Float64.Fixed.{fixed}
use hft_bench.Submission.Jobs.{Jobs}
use hft_bench.Submission.Worker.{is_pending, work}
use hft_bench.Submission.Worker.Waiting.{waiting, ids_of, lookup-ids_of}
use hft_bench.Submission.Worker.Queue.{Picks, Drains, work-Drains}
use hft_bench.Examples.Submissions.{remote, inputs, jobs}

unfoldable pub first_of : List Str → Jobs ℕ → Option Str
first_of [] table = none
first_of (id ∷ ids) table =
    let rest = first_of ids table in if is_pending (lookup id table) then some id else rest

first_of-finds :
    (ids : List Str) (table : Jobs ℕ) (j : Str)
    → In j ids
    → is_pending (lookup j table) ≡ true
    → (id : Str) × (first_of ids table ≡ some id) × (is_pending (lookup id table) ≡ true)
unfolding first_of
first_of-finds [] table j h p = absurd h
first_of-finds (id ∷ ids) table j h p = elim (Bool-cases (is_pending (lookup id table))) [
  | inl waits ↦ (id, rw waits refl, waits)
  | inr other ↦ rw other (
      first_of-finds ids table j
        (elim h [
          | inl same ↦ absurd (ground (arith, ap (λ x. is_pending (lookup x table)) same))
          | inr m ↦ m
        ])
        p)
]

abbrev pub query : Jobs ℕ → Option Str
query table = first_of (ids_of table) table

query-Picks : Picks fixed remote query
query-Picks table j p = first_of-finds (ids_of table) table j (lookup-ids_of j table p) p

two_wait : waiting (ids_of jobs) jobs ≡ 2
unfolding waiting lookup is_pending str_discrete
two_wait = refl

work-Drains_example :
    Drains fixed remote jobs (work fixed remote query (inputs ∷ inputs ∷ []) jobs 0).0
work-Drains_example =
    work-Drains fixed remote query (inputs ∷ inputs ∷ []) jobs 0 query-Picks
      ((refl, refl, refl, refl, refl), ((refl, refl, refl, refl, refl), tt))
      (omega (arith, two_wait))
