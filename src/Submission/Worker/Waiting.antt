-- ===== src/Submission/Worker/Waiting.antt =====
-- How many jobs of the table are pending.
use hft_bench.Prelude.{
  ℕ, suc, ◌≤◌, ◌<◌, ◌≡◌, refl, ap, true, false, List, [], ◌∷◌, ◌⊎◌, inl, inr, arith, Bool-cases, In,
  if◌then◌else◌, map,
}
use hft_bench.Prelude.Text.{Str, str_discrete}
use hft_bench.Prelude.Dict.{lookup}
use hft_bench.Submission.Jobs.{Jobs}
use hft_bench.Submission.Worker.{is_pending}

-- How many of the ids have a pending job.
unfoldable pub waiting : {F : Type 0} → List Str → Jobs F → ℕ
waiting [] jobs = 0
waiting (id ∷ ids) jobs =
    let rest = waiting ids jobs in if is_pending (lookup id jobs) then suc rest else rest

-- The ids of the table.
abbrev pub ids_of : {F : Type 0} → Jobs F → List Str
ids_of jobs = map (λ e. e.0) jobs

module _ {F : Type 0} where
  pub lookup-ids_of :
      (j : Str) (jobs : Jobs F) → is_pending (lookup j jobs) ≡ true → In j (ids_of jobs)
  unfolding lookup is_pending
  lookup-ids_of j [] h = absurd (cc)
  lookup-ids_of j ((i, job) ∷ jobs) h = elim (str_discrete j i) [
    | yes same ↦ inl same
    | no other ↦ inr (lookup-ids_of j jobs (ground arith))
  ]

  pub waiting-zero :
      (ids : List Str) (jobs : Jobs F)
      → waiting ids jobs ≡ 0
      → (j : Str) → In j ids
      → is_pending (lookup j jobs) ≡ false
  unfolding waiting
  waiting-zero [] jobs e j h = absurd h
  waiting-zero (id ∷ ids) jobs e j (inl same) =
      ground (arith, ap (λ x. is_pending (lookup x jobs)) same)
  waiting-zero (id ∷ ids) jobs e j (inr h) = waiting-zero ids jobs (ground arith) j h

  waiting-le :
      (ids : List Str) (jobs jobs' : Jobs F)
      → ((j : Str) → is_pending (lookup j jobs') ≡ true → is_pending (lookup j jobs) ≡ true)
      → waiting ids jobs' ≤ waiting ids jobs
  unfolding waiting
  waiting-le [] jobs jobs' h = ground arith
  waiting-le (id ∷ ids) jobs jobs' h = ground (arith, waiting-le ids jobs jobs' h, h id)

  pub waiting-lt :
      (ids : List Str) (id : Str) (jobs jobs' : Jobs F)
      → ((j : Str) → is_pending (lookup j jobs') ≡ true → is_pending (lookup j jobs) ≡ true)
      → In id ids
      → is_pending (lookup id jobs) ≡ true
      → is_pending (lookup id jobs') ≡ false
      → waiting ids jobs' < waiting ids jobs
  unfolding waiting
  waiting-lt [] id jobs jobs' h m p q = absurd m
  waiting-lt (i ∷ ids) id jobs jobs' h (inl same) p q = ground (
    arith,
    waiting-le ids jobs jobs' h,
    ap (λ x. is_pending (lookup x jobs)) same,
    ap (λ x. is_pending (lookup x jobs')) same,
  )
  waiting-lt (i ∷ ids) id jobs jobs' h (inr m) p q =
      ground (arith, waiting-lt ids id jobs jobs' h m p q, h i)

  pub waiting-cases :
      (ids : List Str) (jobs : Jobs F)
      → (waiting ids jobs ≡ 0) ⊎ ((j : Str) × (is_pending (lookup j jobs) ≡ true))
  unfolding waiting
  waiting-cases [] jobs = inl refl
  waiting-cases (id ∷ ids) jobs = elim (Bool-cases (is_pending (lookup id jobs))) [
    | inl h ↦ inr (id, h)
    | inr h ↦ elim (waiting-cases ids jobs) [ inl e ↦ inl (ground arith) | inr found ↦ inr found ]
  ]
