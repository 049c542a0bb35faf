-- ===== src/Submission/Worker/Queue.antt =====
-- A worker that is left alone empties the queue.
use hft_bench.Prelude.{
  ◌≤◌, ◌≡◌, ◌≢◌, refl, ap, subst, sym, ◌∙◌, true, false, Option, none, some, List, [], ◌∷◌, ◌⊎◌,
  inl, inr, arith, Bool-cases, length, All, In,
}
use hft_bench.Prelude.Text.{Str, str_discrete}
use hft_bench.Prelude.Dict.{lookup}
use hft_bench.Float64.{Float64}
use hft_bench.Submission.Jobs.{Job, Jobs, running, with_status}
use hft_bench.Submission.Worker.Outcome.{
  IsFinal, lookup-update_job_self, lookup-update_job_ne, run_benchmark_sync-Finishes,
}
use hft_bench.Submission.Worker.{
  Remote, Inputs, is_pending, pending_pick, set_status, claimed, process_next_job, work,
}
use hft_bench.Submission.Worker.Claims.{process_next_job-Claims}
use hft_bench.Submission.Worker.Waiting.{
  waiting, ids_of, lookup-ids_of, waiting-zero, waiting-lt, waiting-cases,
}

module _ {F W : Type 0} (f : Float64 F) (remote : Remote W) where
  -- Every statement of the round succeeds; MAX(id) and the polling may fail.
  abbrev pub IsHealthy : Inputs F → Type 0
  IsHealthy inputs =
      (inputs.begin_ok ≡ true)
      × (inputs.running_ok ≡ true)
      × (inputs.commit_ok ≡ true)
      × (inputs.failed_ok ≡ true)
      × (inputs.completed_ok ≡ true)

  -- The query finds a pending row of the table, if there is one.
  abbrev pub Picks : (Jobs F → Option Str) → Type 0
  Picks query =
      (jobs : Jobs F) (j : Str)
      → is_pending (lookup j jobs) ≡ true
      → (id : Str) × (query jobs ≡ some id) × (is_pending (lookup id jobs) ≡ true)

  -- The job's row is final now.
  abbrev IsDone : Str → Jobs F → Type 0
  IsDone id jobs = (job : Job F) × (lookup id jobs ≡ some job) × IsFinal f remote job

  -- Every pending job is done, and every other row is as it was.
  abbrev pub Drains : Jobs F → Jobs F → Type 0
  Drains jobs jobs' =
      (j : Str)
      → ((is_pending (lookup j jobs) ≡ true) × IsDone j jobs')
        ⊎ ((is_pending (lookup j jobs) ≡ false) × (lookup j jobs' ≡ lookup j jobs))

  IsFinal-not_pending : (job : Job F) → IsFinal f remote job → is_pending (some job) ≡ false
  unfolding is_pending
  IsFinal-not_pending job (inl e) = ground arith
  IsFinal-not_pending job (inr (e, h)) = ground arith

  IsDone-not_pending :
      (id : Str) (jobs : Jobs F) → IsDone id jobs → is_pending (lookup id jobs) ≡ false
  IsDone-not_pending id jobs (job, e, final) = ap is_pending e ∙ IsFinal-not_pending job final

  -- One job is done by a round, which changes no other.
  abbrev Works : Str → Jobs F → Jobs F → Type 0
  Works id jobs jobs' =
      (is_pending (lookup id jobs) ≡ true)
      × IsDone id jobs'
      × ((j : Str) → j ≢ id → lookup j jobs' ≡ lookup j jobs)

  is_pending-some : (o : Option (Job F)) → is_pending o ≡ true → (job : Job F) × (o ≡ some job)
  unfolding is_pending
  is_pending-some none h = absurd (cc)
  is_pending-some (some job) h = (job, refl)

  claimed-Works :
      (inputs : Inputs F) (id : Str) (jobs : Jobs F) (w : W)
      → IsHealthy inputs
      → is_pending (lookup id jobs) ≡ true
      → Works id jobs (claimed f remote inputs (some id) jobs w).0
  unfolding claimed set_status
  claimed-Works inputs id jobs w (b, r, c, fa, co) p =
      let (job, here) = is_pending-some (lookup id jobs) p in
      let marked = lookup-update_job_self id (with_status running) jobs job here in
      let ((job', there, final), others) =
        run_benchmark_sync-Finishes f remote inputs id _ _ marked fa co w in
      simp (r, c)
        (
          p,
          (job', there, final),
          λ j ne. others j ne ∙ lookup-update_job_ne j id (with_status running) jobs ne,
        )

  process_next_job-Works :
      (inputs : Inputs F) (id : Str) (jobs : Jobs F) (w : W)
      → IsHealthy inputs
      → inputs.picked ≡ some id
      → is_pending (lookup id jobs) ≡ true
      → Works id jobs (process_next_job f remote inputs jobs w).0
  unfolding process_next_job pending_pick
  process_next_job-Works inputs id jobs w h picked p =
      let taken : process_next_job f remote inputs jobs w
          ≡ claimed f remote inputs (some id) jobs w =
        simp (h.0, picked, p) refl in
      subst (λ (out : Jobs F × W). Works id jobs out.0) (sym taken)
        (claimed-Works inputs id jobs w h p)

  Works-Drains :
      (id : Str) (jobs jobs' after : Jobs F)
      → Works id jobs jobs'
      → Drains jobs' after
      → Drains jobs after
  Works-Drains id jobs jobs' after (p, done, others) rest j = elim (str_discrete j id) [
    | yes same ↦ elim (rest j) [
      | inl (waits, d) ↦ inl (ap (λ x. is_pending (lookup x jobs)) same ∙ p, d)
      | inr (other, e) ↦ inl (
        ap (λ x. is_pending (lookup x jobs)) same ∙ p,
        subst (λ x. IsDone x after) (sym same)
            (done.0, subst (λ x. lookup x after ≡ lookup x jobs') same e ∙ done.1, done.2),
      )
    ]
    | no ne ↦ elim (rest j) [
      | inl (waits, d) ↦ inl (ap is_pending (sym (others j ne)) ∙ waits, d)
      | inr (other, e) ↦ inr (ap is_pending (sym (others j ne)) ∙ other, e ∙ others j ne)
    ]
  ]

  Works-pending :
      (id : Str) (jobs jobs' : Jobs F)
      → Works id jobs jobs'
      → (j : Str) → is_pending (lookup j jobs') ≡ true
      → is_pending (lookup j jobs) ≡ true
  Works-pending id jobs jobs' (p, done, others) j h = elim (str_discrete j id) [
    | yes same ↦ ap (λ x. is_pending (lookup x jobs)) same ∙ p
    | no ne ↦ ap is_pending (sym (others j ne)) ∙ h
  ]

  module _ (query : Jobs F → Option Str) (picks : Picks query) (ids : List Str) where
    -- All pending jobs are among the ids.
    abbrev Covers : Jobs F → Type 0
    Covers jobs = (j : Str) → is_pending (lookup j jobs) ≡ true → In j ids

    idle :
        (jobs : Jobs F)
        → Covers jobs
        → waiting ids jobs ≡ 0
        → (j : Str) → is_pending (lookup j jobs) ≡ false
    idle jobs covers e j = elim (Bool-cases (is_pending (lookup j jobs))) [
      | inl h ↦ waiting-zero ids jobs e j (covers j h)
      | inr h ↦ h
    ]

    -- A round of which nothing waits changes nothing.
    rests :
        (inputs : Inputs F) (jobs : Jobs F) (w : W)
        → ((j : Str) → is_pending (lookup j jobs) ≡ false)
        → process_next_job f remote inputs jobs w ≡ (jobs, w)
    unfolding is_pending
    rests inputs jobs w none_waits = elim (process_next_job-Claims f remote inputs jobs w) [
      | inl e ↦ e
      | inr (id, job, picked, here, status, others) ↦ absurd (ground (arith, none_waits id))
    ]

    rounds-Drains :
        (rounds : List (Inputs F)) (jobs : Jobs F) (w : W)
        → All IsHealthy rounds
        → Covers jobs
        → waiting ids jobs ≤ length rounds
        → Drains jobs (work f remote query rounds jobs w).0
    unfolding work
    rounds-Drains [] jobs w h covers le = λ j. inr (idle jobs covers (omega arith) j, refl)
    rounds-Drains (inputs ∷ rounds) jobs w (h, hs) covers le = elim (waiting-cases ids jobs) [
      | inl none_waits ↦
          let rest = rounds-Drains rounds jobs w hs covers (omega (arith, none_waits)) in
          subst (λ (out : Jobs F × W). Drains jobs (work f remote query rounds out.0 out.1).0)
            (sym
              (rests (record inputs { picked = query jobs }) jobs w (idle jobs covers none_waits)))
            rest
      | inr (j, p) ↦
          let (id, found, waits) = picks jobs j p in
          let (jobs', w') =
            process_next_job f remote (record inputs { picked = query jobs }) jobs w in
          let did =
            process_next_job-Works (record inputs { picked = query jobs }) id jobs w h found
              waits in
          let fewer =
            waiting-lt ids id jobs jobs' (Works-pending id jobs jobs' did) (covers id waits) waits
              (IsDone-not_pending id jobs' did.1) in
          Works-Drains id jobs jobs' _ did (
            rounds-Drains rounds jobs' w' hs (λ i q. covers i (Works-pending id jobs jobs' did i q))
              (omega (arith, fewer)))
    ]

  -- A worker that is left alone, whose query finds a pending job whenever there is one and whose
  -- statements succeed, has after as many rounds as there are pending jobs failed or completed each
  -- of them, whatever the orchestrator, the bot fleet and the polling answer, and it has changed no
  -- other row.
  pub work-Drains :
      (query : Jobs F → Option Str) (rounds : List (Inputs F)) (jobs : Jobs F) (w : W)
      → Picks query
      → All IsHealthy rounds
      → waiting (ids_of jobs) jobs ≤ length rounds
      → Drains jobs (work f remote query rounds jobs w).0
  work-Drains query rounds jobs w picks healthy enough =
      rounds-Drains query picks (ids_of jobs) rounds jobs w healthy (λ j. lookup-ids_of j jobs)
        enough
