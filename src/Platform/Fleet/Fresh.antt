-- ===== src/Platform/Fleet/Fresh.antt =====
-- The workers' teardowns remove the entries that they looked up.
use hft_bench.Prelude.{
  ℕ, ◌≡◌, ◌≢◌, refl, sym, ap, ◌∙◌, subst, Option, none, some, arith, ℕ_discrete, update,
}
use hft_bench.Prelude.Text.{Str, str_discrete}
use hft_bench.Prelude.Dict.{
  lookup, lookup-insert_self, lookup-insert_ne, lookup-delete_self, lookup-delete_ne,
}
use hft_bench.Orchestrator.Server.{ActiveVm, Registry, tentative}
use hft_bench.Orchestrator.Server.Interleaving
use hft_bench.Orchestrator.Server.Interleaving.{
  Local, idle, booting, stopping, reserve, register, roll_back, observe, stop_fails, remove,
  IsFresh, FreshReach, FreshReach-Inv,
}
use hft_bench.Platform.Fleet.{System, IsCall, claim, call, leave, start, Reach, here, next}

-- The id that a handler is at
abbrev id_of : Local → Option Str
id_of idle = none
id_of (booting id ip) = some id
id_of (stopping id vm) = some id

-- Each handler is at its worker's job, what a teardown has read is still there, and each entry
-- without a machine is the reservation of a spawn that is under way.
record Inv (s : System) : Type 0 where
  at_job : (i : ℕ) (id : Str) → id_of (s.server.local i) ≡ some id → s.job i ≡ some id
  own : (i j : ℕ) (id : Str) → s.job i ≡ some id → s.job j ≡ some id → i ≡ j
  same :
      (i : ℕ) (id : Str) (vm : ActiveVm)
      → s.server.local i ≡ stopping id vm
      → (lookup id s.server.registry ≡ some vm) × (vm.machine ≢ none)
  reserved :
      (id : Str) (vm : ActiveVm)
      → lookup id s.server.registry ≡ some vm
      → vm.machine ≡ none
      → (i : ℕ) × (ip : Str) × (s.server.local i ≡ booting id ip)

module _ (s : System) (v : Inv s) where
  -- A job's reservation is that of its worker.
  reserved-own :
      (j : ℕ) (id : Str) (vm : ActiveVm)
      → s.job j ≡ some id
      → lookup id s.server.registry ≡ some vm
      → vm.machine ≡ none
      → (ip : Str) × (s.server.local j ≡ booting id ip)
  reserved-own j id vm mine l none_yet =
      let (i, ip, e) = v.reserved id vm l none_yet in
      let same = v.own i j id (v.at_job i id (ap id_of e)) mine in
      (ip, subst (λ x. s.server.local x ≡ booting id ip) same e)

  -- Handler `j` goes to `l` and writes at most the entry of its worker's job.
  module _ (j : ℕ) (id : Str) (mine : s.job j ≡ some id) (r : Registry) (l : Local)
      (others : (k : Str) → k ≢ id → lookup k r ≡ lookup k s.server.registry)
      (here_only : (k : Str) → id_of l ≡ some k → k ≡ id)
      (read : (vm : ActiveVm) → l ≡ stopping id vm → (lookup id r ≡ some vm) × (vm.machine ≢ none))
      (keeps : (vm : ActiveVm)
        → lookup id r ≡ some vm
        → vm.machine ≡ none
        → (ip : Str) × (l ≡ booting id ip)) where
    abbrev after : System
    after = record s { server = record { registry = r; local = update s.server.local j l } }

    after-same :
        (i : ℕ) (k : Str) (vm : ActiveVm)
        → after.server.local i ≡ stopping k vm
        → (lookup k r ≡ some vm) × (vm.machine ≢ none)
    after-same i k vm e = elim (ℕ_discrete i j) [
      | yes same ↦
          let e' : l ≡ stopping k vm = ground arith in
          let q = here_only k (ap id_of e') in
          subst (λ x. (lookup x r ≡ some vm) × (vm.machine ≢ none)) (sym q)
            (read vm (e' ∙ ap (λ x. stopping x vm) q))
      | no away ↦
          let e' : s.server.local i ≡ stopping k vm = ground arith in
          let (there, booted) = v.same i k vm e' in
          let ne : k ≢ id =
            λ q. away (v.own i j id (v.at_job i id (ap id_of e' ∙ ap some q)) mine) in
          (others k ne ∙ there, booted)
    ]

    after-reserved :
        (k : Str) (vm : ActiveVm)
        → lookup k r ≡ some vm
        → vm.machine ≡ none
        → (i : ℕ) × (ip : Str) × (after.server.local i ≡ booting k ip)
    after-reserved k vm there none_yet = elim (str_discrete k id) [
      | yes q ↦
          let (ip, e) = keeps vm (subst (λ x. lookup x r ≡ some vm) q there) none_yet in
          (j, ip, ground (arith, q))
      | no ne ↦
          let (i, ip, e) = v.reserved k vm (sym (others k ne) ∙ there) none_yet in
          let at = v.at_job i k (ap id_of e) in
          let away : i ≢ j = λ q. absurd (ground arith) in (i, ip, ground arith)
    ]

    after-Inv : Inv after
    after-Inv = record {
      at_job = λ i k e. elim (ℕ_discrete i j) [
        | yes q ↦
            let e' : id_of l ≡ some k = ground arith in
            subst (λ x. s.job x ≡ some k) (sym q) (mine ∙ ap some (sym (here_only k e')))
        | no away ↦ v.at_job i k (ground arith)
      ];
      own = v.own;
      same = after-same;
      reserved = after-reserved;
    }

call-Inv :
    (s : System) (v : Inv s) (i : ℕ) (id : Str) (server : Interleaving.System)
    → s.job i ≡ some id
    → (st : Interleaving.Step s.server server) → IsCall i id st
    → IsFresh st × Inv (record s { server = server })
call-Inv s v i id server h (reserve j k x ip at a e) (qi, qx) = (
  tt,
  subst (λ o. Inv (record s { server = o })) (sym e)
      (after-Inv s v j x (ap s.job qi ∙ h ∙ ap some (sym qx)) _ (booting x ip)
        (λ y ne. lookup-insert_ne y x (tentative x ip) s.server.registry ne) (λ y q. cc)
        (λ vm q. absurd (cc)) (λ vm there none_yet. (ip, refl))),
)
call-Inv s v i id server h (register j x ip vm at addr m e) (qi, qx) = (
  tt,
  subst (λ o. Inv (record s { server = o })) (sym e)
      (after-Inv s v j x (ap s.job qi ∙ h ∙ ap some (sym qx)) _ idle
        (λ y ne. lookup-insert_ne y x vm s.server.registry ne) (λ y q. absurd (cc))
        (λ u q. absurd (cc))
        (λ u there none_yet.
          absurd (m (cc (none_yet, there, lookup-insert_self x vm s.server.registry))))),
)
call-Inv s v i id server h (roll_back j x ip at e) (qi, qx) = (
  tt,
  subst (λ o. Inv (record s { server = o })) (sym e)
      (after-Inv s v j x (ap s.job qi ∙ h ∙ ap some (sym qx)) _ idle
        (λ y ne. lookup-delete_ne y x s.server.registry ne) (λ y q. absurd (cc))
        (λ u q. absurd (cc))
        (λ u there none_yet. absurd (cc (there, lookup-delete_self x s.server.registry)))),
)
call-Inv s v i id server h (observe j x vm at l e) (qi, qx) =
    let mine = ap s.job qi ∙ h ∙ ap some (sym qx) in
    let busy : (u : ActiveVm) → lookup x s.server.registry ≡ some u → u.machine ≢ none =
      λ u there none_yet.
        let (ip, b) = reserved-own s v j x u mine there none_yet in absurd (cc (b, at)) in
    (
      tt,
      subst (λ o. Inv (record s { server = o })) (sym e)
          (after-Inv s v j x mine s.server.registry (stopping x vm) (λ y ne. refl) (λ y q. cc)
            (λ u q.
              let there : lookup x s.server.registry ≡ some u = cc (l, q) in (there, busy u there))
            (λ u there none_yet. absurd (busy u there none_yet))),
    )
call-Inv s v i id server h (stop_fails j x vm at e) (qi, qx) =
    let mine = ap s.job qi ∙ h ∙ ap some (sym qx) in
    (
      tt,
      subst (λ o. Inv (record s { server = o })) (sym e)
          (after-Inv s v j x mine s.server.registry idle (λ y ne. refl) (λ y q. absurd (cc))
            (λ u q. absurd (cc))
            (λ u there none_yet.
              let (ip, b) = reserved-own s v j x u mine there none_yet in absurd (cc (b, at)))),
    )
call-Inv s v i id server h (remove j x vm at e) (qi, qx) = (
  v.same j x vm at,
  subst (λ o. Inv (record s { server = o })) (sym e)
      (after-Inv s v j x (ap s.job qi ∙ h ∙ ap some (sym qx)) _ idle
        (λ y ne. lookup-delete_ne y x s.server.registry ne) (λ y q. absurd (cc))
        (λ u q. absurd (cc))
        (λ u there none_yet. absurd (cc (there, lookup-delete_self x s.server.registry)))),
)

claim-Inv :
    (s : System) (v : Inv s) (i : ℕ) (id : Str)
    → s.job i ≡ none
    → ((j : ℕ) → s.job j ≢ some id)
    → Inv (record s { job = update s.job i (some id) })
claim-Inv s v i id at free = record {
  at_job = λ j k e. ground (arith, v.at_job j k e);
  own = λ j k x a b. ground (arith, v.own j k x, free j, free k);
  same = v.same;
  reserved = v.reserved;
}

leave-Inv :
    (s : System) (v : Inv s) (i : ℕ)
    → s.server.local i ≡ idle
    → Inv (record s { job = update s.job i none })
leave-Inv s v i quiet = record {
  at_job = λ j k e. ground (arith, v.at_job j k e);
  own = λ j k x a b. ground (arith, v.own j k x);
  same = v.same;
  reserved = v.reserved;
}

start-Inv : Inv start
unfolding lookup
start-Inv = record {
  at_job = λ i id e. absurd (cc);
  own = λ i j id a b. absurd (cc);
  same = λ i id vm e. absurd (cc);
  reserved = λ id vm e n. absurd (cc);
}

Reach-fresh : {s : System} → Reach s → Inv s × FreshReach s.server
Reach-fresh here = (start-Inv, FreshReach.here)
Reach-fresh (next {s} r (claim i id at free)) =
    let (v, f) = Reach-fresh r in (claim-Inv s v i id at free, f)
Reach-fresh (next {s} r (call i id {server} at st mine)) =
    let (v, f) = Reach-fresh r in
    let (fresh, v') = call-Inv s v i id server at st mine in (v', FreshReach.next f st fresh)
Reach-fresh (next {s} r (leave i id at quiet)) =
    let (v, f) = Reach-fresh r in (leave-Inv s v i quiet, f)

-- However the workers and their calls interleave, with no two workers at one job: every teardown
-- removes the entry that it looked up, of a machine that has booted. So the registered addresses
-- are of the subnet and pairwise distinct, every spawn that is under way still has its reservation,
-- and no entry lacks a machine but by such a spawn.
pub Reach-Fresh :
    {s : System}
    → Reach s
    → FreshReach s.server
      × Interleaving.Inv s.server
      × ((id : Str) (vm : ActiveVm)
          → lookup id s.server.registry ≡ some vm
          → vm.machine ≡ none
          → (i : ℕ) × (ip : Str) × (s.server.local i ≡ booting id ip))
Reach-Fresh r = let (v, f) = Reach-fresh r in (f, FreshReach-Inv f, v.reserved)
