-- ===== src/Orchestrator/Server/Interleaving.antt =====
-- The handlers as interleaved threads: each holds the lock of the registry only for the steps
-- below, and works on the host between them (main.go, SpawnVM and TeardownVM).
pub mod Stale
use hft_bench.Prelude.{
  ℕ, ◌≡◌, ◌≢◌, refl, sym, ◌∙◌, Bool, true, false, Option, none, some, arith, update, Result, ok,
  All, subst, [],
}
use hft_bench.Prelude.Text.{Str, str_discrete}
use hft_bench.Prelude.Dict.{
  lookup, insert, delete, lookup-insert, lookup-insert_self, lookup-delete,
}
use hft_bench.Orchestrator.Address.{ip_text}
use hft_bench.Orchestrator.Server.{ActiveVm, Registry, allocate, addresses, tentative}
use hft_bench.Orchestrator.Server.Reservation.{
  InSubnet, IsValid, empty-IsValid, allocate_ok, lookup-All, insert-IsValid, delete-IsValid,
}

-- What a handler remembers between its locked sections.
pub data Local : Type 0 where
  idle : Local
  -- SpawnVM, from the reservation to the registration: id and address
  booting : Str → Str → Local
  -- TeardownVM, from the lookup to the removal: id and the entry that it read
  stopping : Str → ActiveVm → Local

pub record System : Type 0 where
  pub registry : Registry
  pub local : ℕ → Local

-- One locked section of handler `i`, or the end of one that fails.
pub data Step (s t : System) : Type 0 where
  reserve :
      (i k : ℕ) (id ip : Str)
      → s.local i ≡ idle
      → allocate id s.registry ≡ ok (k, ip)
      → t ≡ record {
        registry = insert id (tentative id ip) s.registry;
        local = update s.local i (booting id ip);
      }
      → Step s t
  register :
      (i : ℕ) (id ip : Str) (vm : ActiveVm)
      → s.local i ≡ booting id ip
      → vm.ip_address ≡ ip
      → vm.machine ≢ none
      → t ≡ record { registry = insert id vm s.registry; local = update s.local i idle }
      → Step s t
  roll_back :
      (i : ℕ) (id ip : Str)
      → s.local i ≡ booting id ip
      → t ≡ record { registry = delete id s.registry; local = update s.local i idle }
      → Step s t
  observe :
      (i : ℕ) (id : Str) (vm : ActiveVm)
      → s.local i ≡ idle
      → lookup id s.registry ≡ some vm
      → t ≡ record { registry = s.registry; local = update s.local i (stopping id vm) }
      → Step s t
  stop_fails :
      (i : ℕ) (id : Str) (vm : ActiveVm)
      → s.local i ≡ stopping id vm
      → t ≡ record { registry = s.registry; local = update s.local i idle }
      → Step s t
  remove :
      (i : ℕ) (id : Str) (vm : ActiveVm)
      → s.local i ≡ stopping id vm
      → t ≡ record { registry = delete id s.registry; local = update s.local i idle }
      → Step s t

-- A removal that takes away the entry that its lookup read, of a machine that has booted.

abbrev pub IsFresh : {s t : System} → Step s t → Type 0
IsFresh {s} (remove i id vm at e) = (lookup id s.registry ≡ some vm) × (vm.machine ≢ none)
IsFresh _ = Unit {0}

abbrev pub start : System
start = record { registry = []; local = λ i. idle }

pub data Reach : System → Type 0 where
  here : Reach start
  next : {s t : System} → Reach s → Step s t → Reach t

pub data FreshReach : System → Type 0 where
  here : FreshReach start
  next : {s t : System} → FreshReach s → (st : Step s t) → IsFresh st → FreshReach t

-- Every spawn that is under way still has its reservation, and no two are for one id.
pub record Inv (s : System) : Type 0 where
  pub valid : IsValid s.registry
  pub held :
      (i : ℕ) (id ip : Str)
      → s.local i ≡ booting id ip
      → lookup id s.registry ≡ some (tentative id ip)
  pub own :
      (i j : ℕ) (id ip ip' : Str) → s.local i ≡ booting id ip → s.local j ≡ booting id ip' → i ≡ j

start-Inv : Inv start
start-Inv = record {
  valid = empty-IsValid;
  held = λ i id ip e. absurd (cc);
  own = λ i j id ip ip' e f. absurd (cc);
}

module _ (s : System) (v : Inv s) (i : ℕ) where
  reserve-Inv :
      (k : ℕ) (id ip : Str)
      → s.local i ≡ idle
      → allocate id s.registry ≡ ok (k, ip)
      → Inv (record {
        registry = insert id (tentative id ip) s.registry;
        local = update s.local i (booting id ip);
      })
  reserve-Inv k id ip at a =
      let (new, lo, hi, e, free) = allocate_ok id s.registry k ip a in
      record {
        valid =
            insert-IsValid id (tentative id ip) s.registry v.valid (k, lo, hi, e)
              (λ j u f same. absurd (lookup-All (λ used. used ≢ ip) j u s.registry free f same));
        held = λ j id' ip' h.
            ground (arith, lookup-insert id' id (tentative id ip) s.registry, v.held j id' ip');
        own =
            λ j j' id' a b h g. ground (arith, v.own j j' id' a b, v.held j id' a, v.held j' id' b);
      }

  register-Inv :
      (id ip : Str) (vm : ActiveVm)
      → s.local i ≡ booting id ip
      → vm.ip_address ≡ ip
      → Inv (record { registry = insert id vm s.registry; local = update s.local i idle })
  register-Inv id ip vm at addr =
      let mine = v.held i id ip at in
      record {
        valid =
            insert-IsValid id vm s.registry v.valid
              (subst InSubnet (sym addr) (v.valid.in_subnet id (tentative id ip) mine))
              (λ j u f same. v.valid.distinct j id u (tentative id ip) f mine (same ∙ addr));
        held = λ j id' ip' h.
            ground
              (arith, lookup-insert id' id vm s.registry, v.held j id' ip', v.own i j id ip ip');
        own = λ j j' id' a b h g. ground (arith, v.own j j' id' a b);
      }

  delete-Inv :
      (id : Str)
      → ((j : ℕ) (ip' : Str) → j ≢ i → s.local j ≡ booting id ip' → ⊥)
      → Inv (record { registry = delete id s.registry; local = update s.local i idle })
  delete-Inv id nobody = record {
    valid = delete-IsValid id s.registry v.valid;
    held = λ j id' ip' h.
        ground (arith, lookup-delete id' id s.registry, v.held j id' ip', nobody j ip');
    own = λ j j' id' a b h g. ground (arith, v.own j j' id' a b);
  }

  local-Inv :
      (l : Local)
      → ((id ip : Str) → l ≢ booting id ip)
      → Inv (record { registry = s.registry; local = update s.local i l })
  local-Inv l other = record {
    valid = v.valid;
    held = λ j id' ip' h. ground (arith, v.held j id' ip', other id' ip');
    own = λ j j' id' a b h g. ground (arith, v.own j j' id' a b, other id' a, other id' b);
  }

-- Every fresh step keeps the invariant.
step-Inv : {s t : System} (st : Step s t) → IsFresh st → Inv s → Inv t
step-Inv {s} (reserve i k id ip at a e) f v = subst Inv (sym e) (reserve-Inv s v i k id ip at a)
step-Inv {s} (register i id ip vm at addr m e) f v =
    subst Inv (sym e) (register-Inv s v i id ip vm at addr)
step-Inv {s} (roll_back i id ip at e) f v =
    subst Inv (sym e) (delete-Inv s v i id λ j ip' ne h. ne (v.own j i id ip' ip h at))
step-Inv {s} (observe i id vm at l e) f v =
    subst Inv (sym e) (local-Inv s v i (stopping id vm) (λ a b. cc))
step-Inv {s} (stop_fails i id vm at e) f v = subst Inv (sym e) (local-Inv s v i idle (λ a b. cc))
step-Inv {s} (remove i id vm at e) f v =
    subst Inv (sym e) (delete-Inv s v i id λ j ip' ne h. ground (arith, v.held j id ip' h))

-- However the handlers interleave, as long as every removal takes away the entry that its handler
-- looked up: the registered addresses are of the subnet and pairwise distinct, and a spawn that is
-- under way still has its reservation.
pub FreshReach-Inv : {s : System} → FreshReach s → Inv s
FreshReach-Inv here = start-Inv
FreshReach-Inv (next r st f) = step-Inv st f (FreshReach-Inv r)
