-- ===== src/Orchestrator/Server/Interleaving/Stale.antt =====
-- Two teardowns of one machine: TeardownVM removes whatever entry its id has by then, so the later
-- removal can take away the reservation of a new spawn, and its address is given out twice.
use hft_bench.Prelude.{update, ℕ, ◌≡◌, ◌≢◌, refl, sym, ap, false, none, some, [], ◌∷◌, arith, ok}
use hft_bench.Prelude.Text.{Str, is_empty, trim_space}
use hft_bench.Prelude.Dict.{lookup, insert, delete}
use hft_bench.Orchestrator.Address.{ip_text}
use hft_bench.Orchestrator.Address.Free.{find_free_ip_index-nil}
use hft_bench.Orchestrator.Address.Printing.{generate_lem}
use hft_bench.Orchestrator.Server.{
  ActiveVm, Registry, SpawnRequest, validate_spawn_request, allocate, generate, tentative,
}
use hft_bench.Orchestrator.TapName.{tap_name_for_vm}
use hft_bench.Orchestrator.Server.Interleaving.{
  Local, idle, booting, stopping, System, Step, reserve, register, observe, remove, start,
}

-- An id that SpawnVM and CreateSubmissionImage accept.
pub record IsSpawnable (id : Str) : Type 0 where
  pub request : SpawnRequest
  pub of_id : request.submission_id ≡ id
  pub valid : validate_spawn_request request ≡ ok tt
  pub named : is_empty (trim_space id) ≡ false

-- A reservation is for an id that is accepted, and whose TAP interface is none of a machine that is
-- registered or of a spawn that is under way, so that the host can make it.
abbrev pub IsReal : {s t : System} → Step s t → Type 0
IsReal {s} (reserve i k id ip at free e) =
    IsSpawnable id
    × ((other : Str) (vm : ActiveVm)
        → lookup other s.registry ≡ some vm
        → tap_name_for_vm other ≢ tap_name_for_vm id)
    × ((j : ℕ) (other addr : Str)
        → s.local j ≡ booting other addr
        → tap_name_for_vm other ≢ tap_name_for_vm id)
IsReal _ = Unit {0}

pub data RealReach : System → Type 0 where
  here : RealReach start
  next : {s t : System} → RealReach s → (st : Step s t) → IsReal st → RealReach t

-- A booted machine of the id at 172.16.0.2.
abbrev booted : Str → ActiveVm
booted id = record (tentative id (ip_text 2)) { machine = some 7 }

pub allocate_first : (id : Str) → allocate id [] ≡ ok (2, ip_text 2)
unfolding allocate generate lookup
allocate_first id = ground (arith, find_free_ip_index-nil, generate_lem 2)

module _ (a b : Str) (first : IsSpawnable a) (second : IsSpawnable b)
    (apart : tap_name_for_vm a ≢ tap_name_for_vm b) where
  differ : a ≢ b
  differ e = apart (ap tap_name_for_vm e)

  abbrev lone : Str → ActiveVm → Registry
  lone id vm = (id, vm) ∷ []

  delete-lone : (id : Str) (vm : ActiveVm) → delete id (lone id vm) ≡ []
  unfolding delete
  delete-lone id vm = ground arith

  insert-lone : (id : Str) (u v : ActiveVm) → insert id v (lone id u) ≡ lone id v
  unfolding insert
  insert-lone id u v = ground arith

  insert-second : (u v : ActiveVm) → insert a v (lone b u) ≡ (b, u) ∷ (a, v) ∷ []
  unfolding insert
  insert-second u v = ground arith

  abbrev at : Registry → (ℕ → Local) → System
  at r l = record { registry = r; local = l }

  abbrev l1 : ℕ → Local
  l1 = update start.local 0 (booting a (ip_text 2))

  abbrev l2 : ℕ → Local
  l2 = update l1 0 idle

  abbrev l3 : ℕ → Local
  l3 = update l2 1 (stopping a (booted a))

  abbrev l4 : ℕ → Local
  l4 = update l3 2 (stopping a (booted a))

  abbrev l5 : ℕ → Local
  l5 = update l4 1 idle

  abbrev l6 : ℕ → Local
  l6 = update l5 3 (booting a (ip_text 2))

  abbrev l7 : ℕ → Local
  l7 = update l6 2 idle

  abbrev l8 : ℕ → Local
  l8 = update l7 4 (booting b (ip_text 2))

  abbrev l9 : ℕ → Local
  l9 = update l8 4 idle

  insert-empty : (id : Str) (v : ActiveVm) → insert id v [] ≡ lone id v
  unfolding insert
  insert-empty id v = refl

  lookup-lone : (id : Str) (v : ActiveVm) → lookup id (lone id v) ≡ some v
  unfolding lookup
  lookup-lone id v = ground arith

  -- The state that a registry equation and the locals give.
  moved : (r r' : Registry) (l : ℕ → Local) → r ≡ r' → at r' l ≡ at r l
  moved r r' l e = ap (λ x. at x l) (sym e)

  nothing_registered :
      (id other : Str) (vm : ActiveVm)
      → lookup other [] ≡ some vm
      → tap_name_for_vm other ≢ tap_name_for_vm id
  unfolding lookup
  nothing_registered id other vm e = absurd (cc)

  none_boots :
      (j : ℕ) (other addr : Str)
      → l5 j ≡ booting other addr
      → tap_name_for_vm other ≢ tap_name_for_vm a
  none_boots j other addr e = absurd (ground arith)

  a_boots :
      (j : ℕ) (other addr : Str)
      → l7 j ≡ booting other addr
      → tap_name_for_vm other ≢ tap_name_for_vm b
  a_boots j other addr e = let same : other ≡ a = ground arith in rw same apart

  registered_a : RealReach (at (lone a (booted a)) l2)
  registered_a =
      next
        (next here
          (reserve 0 2 a (ip_text 2) refl (allocate_first a)
            (moved _ _ l1 (insert-empty a (tentative a (ip_text 2)))))
          (first, nothing_registered a, λ j other addr e. absurd (cc)))
        (register 0 a (ip_text 2) (booted a) refl refl (λ e. cc)
          (moved _ _ l2 (insert-lone a (tentative a (ip_text 2)) (booted a))))
        tt

  -- Both teardowns look the machine up; the first of them removes it.
  removed_once : RealReach (at [] l5)
  removed_once =
      next
        (next (next registered_a (observe 1 a (booted a) refl (lookup-lone a (booted a)) refl) tt)
          (observe 2 a (booted a) refl (lookup-lone a (booted a)) refl) tt)
        (remove 1 a (booted a) refl (moved _ _ l5 (delete-lone a (booted a)))) tt

  -- The id is reserved anew, and the second teardown takes the reservation away.
  removed_twice : RealReach (at [] l7)
  removed_twice =
      next
        (next removed_once
          (reserve 3 2 a (ip_text 2) refl (allocate_first a)
            (moved _ _ l6 (insert-empty a (tentative a (ip_text 2)))))
          (first, nothing_registered a, none_boots))
        (remove 2 a (booted a) refl (moved _ _ l7 (delete-lone a (tentative a (ip_text 2))))) tt

  shared_address : RealReach (at ((b, booted b) ∷ (a, booted a) ∷ []) (update l9 3 idle))
  shared_address =
      next
        (next
          (next removed_twice
            (reserve 4 2 b (ip_text 2) refl (allocate_first b)
              (moved _ _ l8 (insert-empty b (tentative b (ip_text 2)))))
            (second, nothing_registered b, a_boots))
          (register 4 b (ip_text 2) (booted b) refl refl (λ e. cc)
            (moved _ _ l9 (insert-lone b (tentative b (ip_text 2)) (booted b))))
          tt)
        (register 3 a (ip_text 2) (booted a) refl refl (λ e. cc)
          (moved _ _ (update l9 3 idle) (insert-second (booted b) (booted a))))
        tt

  -- For any two ids that SpawnVM and CreateSubmissionImage accept, and whose TAP interfaces have
  -- different names, the handlers, with two teardowns of one machine among them, can reach a state
  -- in which both ids are registered, with booted machines, at the same address. On the way each
  -- spawn is of such an id, and of a TAP interface that no other machine or spawn uses; the calls to
  -- the host succeed.
  pub stale_removal :
      (s : System) × (u : ActiveVm) × (v : ActiveVm) × RealReach s
      × (lookup a s.registry ≡ some u)
      × (lookup b s.registry ≡ some v)
      × (u.ip_address ≡ v.ip_address)
      × (u.machine ≢ none)
      × (v.machine ≢ none)
  unfolding lookup
  stale_removal = (
    at ((b, booted b) ∷ (a, booted a) ∷ []) (update l9 3 idle),
    booted a,
    booted b,
    shared_address,
    ground arith,
    ground arith,
    refl,
    (λ e. cc),
    (λ e. cc),
  )
