-- ===== src/Orchestrator/Server/Reservation.antt =====
-- The registry's invariant, and what the locked section of SpawnVM reserves.
use hft_bench.Prelude.{
  ℕ, ◌≤◌, ◌≡◌, ◌≢◌, sym, ◌∙◌, none, some, [], ◌∷◌, arith, ok, All, subst, ap, Option-cases, inl,
  inr,
}
use hft_bench.Prelude.Text.{Str, str_discrete}
use hft_bench.Prelude.Dict.{lookup, insert, delete, lookup-insert, lookup-delete}
use hft_bench.Orchestrator.Address.{ip_text, find_free_ip_index}
use hft_bench.Orchestrator.Address.Printing.{generate_lem}
use hft_bench.Orchestrator.Address.Free.{find_free_ip_index-some}
use hft_bench.Orchestrator.Server.{ActiveVm, Registry, allocate, generate, addresses}

-- The address is one of 172.16.0.2 to 172.16.0.254.
abbrev pub InSubnet : Str → Type 0
InSubnet ip = (k : ℕ) × (2 ≤ k) × (k ≤ 254) × (ip ≡ ip_text k)

-- Every registered machine has an address of the subnet, and no two have the same.
pub record IsValid (r : Registry) : Type 0 where
  pub in_subnet : (i : Str) (vm : ActiveVm) → lookup i r ≡ some vm → InSubnet vm.ip_address
  pub distinct :
      (i j : Str) (u v : ActiveVm)
      → lookup i r ≡ some u
      → lookup j r ≡ some v
      → u.ip_address ≡ v.ip_address
      → i ≡ j

pub empty-IsValid : IsValid []
unfolding lookup
empty-IsValid = record {
  in_subnet = λ i vm e. absurd (cc);
  distinct = λ i j u v e f s. absurd (cc);
}

pub lookup-All :
    (P : Str → Type 0) (i : Str) (vm : ActiveVm) (r : Registry)
    → All P (addresses r)
    → lookup i r ≡ some vm
    → P vm.ip_address
unfolding lookup
lookup-All P i vm [] h e = absurd (cc)
lookup-All P i vm ((j, u) ∷ r) h e = elim (str_discrete i j) [
  | yes s ↦ let q : u ≡ vm = ground arith in subst (λ x. P x.ip_address) q h.0
  | no s ↦ lookup-All P i vm r h.1 (ground arith)
]

-- An allocation is for a new id, at an address of the subnet that no registered machine has.
pub allocate_ok :
    (id : Str) (r : Registry) (k : ℕ) (ip : Str)
    → allocate id r ≡ ok (k, ip)
    → (lookup id r ≡ none)
      × (2 ≤ k)
      × (k ≤ 254)
      × (ip ≡ ip_text k)
      × All (λ used. used ≢ ip) (addresses r)
unfolding allocate generate
allocate_ok id r k ip h = elim (Option-cases (lookup id r)) [
  | inr (vm, e) ↦ absurd (ground arith)
  | inl new ↦ elim (Option-cases (find_free_ip_index (addresses r))) [
    | inl full ↦ absurd (ground arith)
    | inr (i, e) ↦
        let (lo, hi, free, least) = find_free_ip_index-some (addresses r) i e in
        let q : i ≡ k = ground (arith, generate_lem i) in
        let p : ip_text i ≡ ip = ground (arith, generate_lem i) in
        (
          new,
          omega arith,
          omega arith,
          sym p ∙ ap ip_text q,
          subst (λ x. All (λ used. used ≢ x) (addresses r)) p free,
        )
  ]
]

-- An entry under an address of the subnet that no other entry has keeps the invariant.
pub insert-IsValid :
    (id : Str) (vm : ActiveVm) (r : Registry)
    → IsValid r
    → InSubnet vm.ip_address
    → ((j : Str) (u : ActiveVm) → lookup j r ≡ some u → u.ip_address ≡ vm.ip_address → j ≡ id)
    → IsValid (insert id vm r)
insert-IsValid id vm r v s own = record {
  in_subnet = λ i u e. ground (arith, lookup-insert i id vm r, v.in_subnet i u);
  distinct = λ i j t u e f same. ground (
    arith,
    lookup-insert i id vm r,
    lookup-insert j id vm r,
    v.distinct i j t u,
    own i t,
    own j u,
  );
}

pub delete-IsValid : (id : Str) (r : Registry) → IsValid r → IsValid (delete id r)
delete-IsValid id r v = record {
  in_subnet = λ i u e. ground (arith, lookup-delete i id r, v.in_subnet i u);
  distinct = λ i j t u e f same.
      ground (arith, lookup-delete i id r, lookup-delete j id r, v.distinct i j t u);
}
