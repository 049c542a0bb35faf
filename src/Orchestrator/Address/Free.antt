-- ===== src/Orchestrator/Address/Free.antt =====
-- findFreeIPIndex takes the least index from 2 to 254 that no registered address holds, and
-- finds one while fewer than 253 machines are registered.
use hft_bench.Prelude.{
  ℕ, zero, suc, ◌+◌, ◌≤◌, ◌<◌, ◌≡◌, refl, ap, true, false, none, some, List, [], ◌∷◌, arith,
  if◌then◌else◌, length, inl, inr, All, Option-cases, ◌≢◌,
}
use hft_bench.Prelude.Int.{eq_ℤ, ℤ, pos, negsuc}
use hft_bench.Prelude.Text.{Str, is_empty}
use hft_bench.Orchestrator.Address.{
  ip_text, scan_ip, used_indices, contains, first_free, find_free_ip_index,
}
use hft_bench.Orchestrator.Address.Printing.{scan_ip-ip_text}

first_free-some :
    (n i k : ℕ) (u : List ℤ)
    → first_free n i u ≡ some k
    → (i ≤ k) × (k < i + n) × (contains (pos k) u ≡ false)
unfolding first_free
first_free-some zero i k u h = cc
first_free-some (suc n) i k u h = ground (arith, first_free-some n (suc i) k u)

-- Every index below the one that is found is taken.
first_free_least :
    (n i k j : ℕ) (u : List ℤ)
    → first_free n i u ≡ some k
    → i ≤ j
    → j < k
    → contains (pos j) u ≡ true
unfolding first_free
first_free_least zero i k j u h lo hi = cc
first_free_least (suc n) i k j u h lo hi = ground (arith, first_free_least n (suc i) k j u)

first_free-none :
    (n i j : ℕ) (u : List ℤ)
    → first_free n i u ≡ none
    → i ≤ j
    → j < i + n
    → contains (pos j) u ≡ true
unfolding first_free
first_free-none zero i j u h lo hi = absurd (omega arith)
first_free-none (suc n) i j u h lo hi = ground (arith, first_free-none n (suc i) j u)

-- Counting: a list that holds `n` consecutive indices has at least `n` entries.
remove : ℤ → List ℤ → List ℤ
remove z [] = []
remove z (y ∷ u) = if eq_ℤ z y then u else y ∷ remove z u

length-remove : (z : ℤ) (u : List ℤ) → contains z u ≡ true → length u ≡ suc (length (remove z u))
unfolding contains remove
length-remove z [] h = cc
length-remove z (y ∷ u) h = ground (arith, length-remove z u)

contains-remove :
    (i j : ℕ) (u : List ℤ)
    → i ≢ j
    → contains (pos j) u ≡ true
    → contains (pos j) (remove (pos i) u) ≡ true
unfolding contains remove
contains-remove i j [] ne h = cc
contains-remove i j (pos y ∷ u) ne h = ground (arith, contains-remove i j u)
contains-remove i j (negsuc y ∷ u) ne h = ground (arith, contains-remove i j u)

run_of_indices :
    (n i : ℕ) (u : List ℤ)
    → ((j : ℕ) → i ≤ j → j < i + n → contains (pos j) u ≡ true)
    → n ≤ length u
run_of_indices zero i u all = omega arith
run_of_indices (suc n) i u all = omega (
  arith,
  length-remove (pos i) u (all i (omega arith) (omega arith)),
  run_of_indices n (suc i) (remove (pos i) u)
      (λ j lo hi. contains-remove i j u (omega arith) (all j (omega arith) (omega arith))),
)

length-used_indices : (ips : List Str) → length (used_indices ips) ≤ length ips
unfolding used_indices
length-used_indices [] = omega arith
length-used_indices (ip ∷ ips) = ground (arith, length-used_indices ips)

is_empty-ip_text : (k : ℕ) → is_empty (ip_text k) ≡ false
unfolding ip_text
is_empty-ip_text k = refl

-- An index that `used` does not hold belongs to no registered address.
not_used :
    (k : ℕ) (ips : List Str)
    → k < 0x8000000000000000
    → contains (pos k) (used_indices ips) ≡ false
    → All (λ ip. ip ≢ ip_text k) ips
unfolding used_indices contains
not_used k [] b h = tt
not_used k (ip ∷ ips) b h = (λ e. named e, not_used k ips b (ground arith))
  where
    named : ip ≡ ip_text k → ⊥
    named e = grind (arith, ap scan_ip e, ap is_empty e, scan_ip-ip_text k b, is_empty-ip_text k)

-- The index that findFreeIPIndex returns lies between 2 and 254, no registered machine has its
-- address, and every smaller index from 2 on is taken.
pub find_free_ip_index-some :
    (ips : List Str) (k : ℕ)
    → find_free_ip_index ips ≡ some k
    → (2 ≤ k)
      × (k ≤ 254)
      × All (λ ip. ip ≢ ip_text k) ips
      × ((j : ℕ) → 2 ≤ j → j < k → contains (pos j) (used_indices ips) ≡ true)
unfolding find_free_ip_index
find_free_ip_index-some ips k h =
    let (lo, hi, free) = first_free-some 253 2 k (used_indices ips) h in
    (
      lo,
      omega arith,
      not_used k ips (omega arith) free,
      λ j l u. first_free_least 253 2 k j (used_indices ips) h l u,
    )

-- While fewer than 253 machines are registered, findFreeIPIndex succeeds.
pub find_free_ip_index_succeeds :
    (ips : List Str) → length ips < 253 → (k : ℕ) × (find_free_ip_index ips ≡ some k)
unfolding find_free_ip_index
find_free_ip_index_succeeds ips h = elim (Option-cases (find_free_ip_index ips)) [
  | inr found ↦ found
  | inl full ↦ absurd (
      omega (
        arith,
        length-used_indices ips,
        run_of_indices 253 2 (used_indices ips)
            (λ j lo hi. first_free-none 253 2 j (used_indices ips) full lo hi),
      ))
]

-- The first machine gets 172.16.0.2.
pub find_free_ip_index-nil : find_free_ip_index [] ≡ some 2
unfolding find_free_ip_index first_free used_indices contains
find_free_ip_index-nil = refl
