-- ===== src/Orchestrator/Host/Tidy.antt =====
-- A host whose TAP interfaces are those of the registered machines, and those that it had before.
use hft_bench.Prelude.{
  ◌≡◌, ◌≢◌, sym, ap, ◌∙◌, Bool, true, false, Option, none, some, List, ite, if_pos, if_neg,
}
use hft_bench.Prelude.Text.{Str, str_discrete}
use hft_bench.Prelude.Dict.{lookup, delete, lookup-delete}
use hft_bench.Orchestrator.TapName.{tap_name_for_vm}
use hft_bench.Orchestrator.Network.{is_listed}
use hft_bench.Orchestrator.Server.{ActiveVm, Registry}

ite_yes : {A : Type 0} (s t : Str) (a b : A) → s ≡ t → ite (str_discrete s t) a b ≡ a
ite_yes s t a b e = if_pos (str_discrete s t) e a b

ite_no : {A : Type 0} (s t : Str) (a b : A) → s ≢ t → ite (str_discrete s t) a b ≡ b
ite_no s t a b ne = if_neg (str_discrete s t) ne a b

true-ne-false : true ≢ false
true-ne-false e = absurd (cc)

pub none-ne-some : {A : Type 0} {a : A} → Path (Option A) none (some a) → ⊥
none-ne-some e = absurd (cc)

module _ {N : Type 0} (names : N → List Str) where
  abbrev pub has : Str → N → Bool
  has x n = is_listed x (names n)

  -- The host has the interfaces that it had at `base`, and one for each registered machine, which
  -- it did not have and which no other machine has.
  pub record IsTidy (base : Str → Bool) (reg : Registry) (n : N) : Type 0 where
    pub named : (j : Str) (vm : ActiveVm) → lookup j reg ≡ some vm → vm.tap_name ≡ tap_name_for_vm j
    pub new : (j : Str) (vm : ActiveVm) → lookup j reg ≡ some vm → base (tap_name_for_vm j) ≡ false
    pub apart :
        (j k : Str) (vm vm' : ActiveVm)
        → lookup j reg ≡ some vm
        → lookup k reg ≡ some vm'
        → tap_name_for_vm j ≡ tap_name_for_vm k
        → j ≡ k
    pub there :
        (j : Str) (vm : ActiveVm) → lookup j reg ≡ some vm → has (tap_name_for_vm j) n ≡ true
    pub others :
        (x : Str)
        → ((j : Str) (vm : ActiveVm) → lookup j reg ≡ some vm → tap_name_for_vm j ≢ x)
        → has x n ≡ base x

  module _ (base : Str → Bool) where
    -- The registry and the interfaces count only by what is found in them.
    pub same-IsTidy :
        (reg reg' : Registry) (n n' : N)
        → ((j : Str) → lookup j reg' ≡ lookup j reg)
        → ((x : Str) → has x n' ≡ has x n)
        → IsTidy base reg n
        → IsTidy base reg' n'
    same-IsTidy reg reg' n n' e h t = record {
      named = λ j vm f. t.named j vm (sym (e j) ∙ f);
      new = λ j vm f. t.new j vm (sym (e j) ∙ f);
      apart = λ j k vm vm' f g. t.apart j k vm vm' (sym (e j) ∙ f) (sym (e k) ∙ g);
      there = λ j vm f. h (tap_name_for_vm j) ∙ t.there j vm (sym (e j) ∙ f);
      others = λ x no. h x ∙ t.others x (λ j vm f. no j vm (e j ∙ f));
    }

    -- A machine is registered whose interface was not there, and is now.
    pub more-IsTidy :
        (id : Str) (vm : ActiveVm) (reg reg' : Registry) (n n' : N)
        → lookup id reg ≡ none
        → lookup id reg' ≡ some vm
        → vm.tap_name ≡ tap_name_for_vm id
        → ((j : Str) → j ≢ id → lookup j reg' ≡ lookup j reg)
        → has (tap_name_for_vm id) n ≡ false
        → ((x : Str) → has x n' ≡ ite (str_discrete (tap_name_for_vm id) x) true (has x n))
        → IsTidy base reg n
        → IsTidy base reg' n'
    more-IsTidy id vm reg reg' n n' free here tapped same fresh now t = record {
      named = λ j u f. elim (str_discrete j id) [
        | yes e ↦
            ap (λ (y : ActiveVm). y.tap_name) (unique j u e f) ∙ tapped ∙ ap tap_name_for_vm (sym e)
        | no ne ↦ t.named j u (old j u ne f)
      ];
      new = λ j u f. elim (str_discrete j id) [
        | yes e ↦
            ap (λ k. base (tap_name_for_vm k)) e
            ∙ sym (t.others (tap_name_for_vm id) (λ k u' g. not_mine k u' g))
            ∙ fresh
        | no ne ↦ t.new j u (old j u ne f)
      ];
      apart = λ j k u u' f g e. elim (str_discrete j id) [
        | yes a ↦ elim (str_discrete k id) [
          | yes c ↦ a ∙ sym c
          | no c ↦ absurd (not_mine k u' (old k u' c g) (sym e ∙ ap tap_name_for_vm a))
        ]
        | no a ↦ elim (str_discrete k id) [
          | yes c ↦ absurd (not_mine j u (old j u a f) (e ∙ ap tap_name_for_vm c))
          | no c ↦ t.apart j k u u' (old j u a f) (old k u' c g) e
        ]
      ];
      there = λ j u f. elim (str_discrete (tap_name_for_vm id) (tap_name_for_vm j)) [
        | yes e ↦
            now (tap_name_for_vm j)
            ∙ ite_yes (tap_name_for_vm id) (tap_name_for_vm j) true (has (tap_name_for_vm j) n) e
        | no ne ↦
            now (tap_name_for_vm j)
            ∙ ite_no (tap_name_for_vm id) (tap_name_for_vm j) true (has (tap_name_for_vm j) n) ne
            ∙ t.there j u (old j u (λ e. ne (ap tap_name_for_vm (sym e))) f)
      ];
      others = λ x free_of.
          now x
          ∙ ite_no (tap_name_for_vm id) x true (has x n) (free_of id vm here)
          ∙ t.others x (λ j u f. free_of j u (same j (not_id j u f) ∙ f));
    }
      where
        not_id : (j : Str) (u : ActiveVm) → lookup j reg ≡ some u → j ≢ id
        not_id j u f e = absurd (cc)

        old : (j : Str) (u : ActiveVm) → j ≢ id → lookup j reg' ≡ some u → lookup j reg ≡ some u
        old j u ne f = sym (same j ne) ∙ f

        unique : (j : Str) (u : ActiveVm) → j ≡ id → lookup j reg' ≡ some u → u ≡ vm
        unique j u e f = cc

        not_mine :
            (k : Str) (u : ActiveVm)
            → lookup k reg ≡ some u
            → tap_name_for_vm k ≢ tap_name_for_vm id
        not_mine k u f e =
            absurd (true-ne-false (sym (t.there k u f) ∙ ap (λ x. has x n) e ∙ fresh))

    -- A machine is taken out, and its interface is deleted.
    pub less-IsTidy :
        (id : Str) (vm : ActiveVm) (reg : Registry) (n n' : N)
        → lookup id reg ≡ some vm
        → ((x : Str) → has x n' ≡ ite (str_discrete vm.tap_name x) false (has x n))
        → IsTidy base reg n
        → IsTidy base (delete id reg) n'
    less-IsTidy id vm reg n n' here now t = record {
      named = λ j u f. t.named j u (left j u f).1;
      new = λ j u f. t.new j u (left j u f).1;
      apart = λ j k u u' f g. t.apart j k u u' (left j u f).1 (left k u' g).1;
      there = λ j u f.
          now (tap_name_for_vm j)
          ∙ ite_no vm.tap_name (tap_name_for_vm j) false (has (tap_name_for_vm j) n) (λ e.
            (left j u f).0
              (sym (t.apart id j vm u here (left j u f).1 (sym (t.named id vm here) ∙ e))))
          ∙ t.there j u (left j u f).1;
      others = λ x free_of. elim (str_discrete vm.tap_name x) [
        | yes e ↦
            now x
            ∙ ite_yes vm.tap_name x false (has x n) e
            ∙ sym (ap base (sym e ∙ t.named id vm here) ∙ t.new id vm here)
        | no ne ↦
            now x
            ∙ ite_no vm.tap_name x false (has x n) ne
            ∙ t.others x (λ j u f. elim (str_discrete j id) [
              | yes a ↦ λ e. ne (t.named id vm here ∙ ap tap_name_for_vm (sym a) ∙ e)
              | no a ↦ free_of j u (lookup-delete j id reg ∙ ite_no j id none (lookup j reg) a ∙ f)
            ])
      ];
    }
      where
        left :
            (j : Str) (u : ActiveVm)
            → lookup j (delete id reg) ≡ some u
            → (j ≢ id) × (lookup j reg ≡ some u)
        left j u f = elim (str_discrete j id) [
          | yes e ↦
              absurd (
                none-ne-some
                  (sym (lookup-delete j id reg ∙ ite_yes j id none (lookup j reg) e) ∙ f))
          | no ne ↦ (ne, sym (lookup-delete j id reg ∙ ite_no j id none (lookup j reg) ne) ∙ f)
        ]
