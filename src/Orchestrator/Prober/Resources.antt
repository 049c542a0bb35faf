-- ===== src/Orchestrator/Prober/Resources.antt =====
-- What a prober holds of the kernel.
use hft_bench.Prelude.{
  ℕ, ◌==◌, ◌≡◌, refl, sym, ap, ◌∙◌, Bool, true, false, Option, none, some, List, [], ◌∷◌, ◌++◌,
  if◌then◌else◌, arith, Bool-cases, inl, inr, ◌⊎◌,
}
use hft_bench.Prelude.Text.{Str}
use hft_bench.Orchestrator.Prober.{
  Hook, egress, ingress, Objects, Filter, Kernel, TapLink, TapProber,
}

-- Loaded programs and maps, a TCX link, or a filter on a hook of an interface.
pub data Resource : Type 0 where
  objects : ℕ → Resource
  link : ℕ → Resource
  filter : ℕ → Hook → Resource

same_hook : Hook → Hook → Bool
same_hook egress egress = true
same_hook ingress ingress = true
same_hook _ _ = false

unfoldable pub same : Resource → Resource → Bool
unfolding same_hook
same (objects a) (objects b) = a == b
same (link a) (link b) = a == b
same (filter i h) (filter j k) = if i == j then same_hook h k else false
same _ _ = false

abbrev pub resource_of : Filter → Resource
resource_of f = filter f.if_index f.parent

abbrev pub of_link : TapLink → List Resource
of_link l = elim l.tcx [
  | some tcx ↦ link tcx ∷ []
  | none ↦ elim l.legacy [ some f ↦ resource_of f ∷ [] | none ↦ [] ]
]

abbrev pub of_some : Option TapLink → List Resource
of_some none = []
of_some (some l) = of_link l

abbrev pub of_objects : Option Objects → List Resource
of_objects none = []
of_objects (some o) = objects o.id ∷ []

-- What a prober holds.
abbrev pub resources : TapProber → List Resource
resources p = of_objects p.objs ++ of_some p.egress_l ++ of_some p.ingress_l

-- `b`, but for the resources of the list, for which it is `a`.
abbrev pub given : List Resource → Bool → Resource → Bool → Bool
given [] a x b = b
given (r ∷ rs) a x b = if same r x then a else given rs a x b

pub same-holds : (r x : Resource) → same r x ≡ true → r ≡ x
unfolding same same_hook
same-holds (objects a) (objects b) h = ap objects (ground arith)
same-holds (link a) (link b) h = ap link (ground arith)
same-holds (filter i egress) (filter j egress) h = ap (λ n. filter n egress) (ground arith)
same-holds (filter i ingress) (filter j ingress) h = ap (λ n. filter n ingress) (ground arith)
same-holds (filter i egress) (filter j ingress) h = absurd (ground arith)
same-holds (filter i ingress) (filter j egress) h = absurd (ground arith)
same-holds (objects a) (link b) h = absurd (cc)
same-holds (objects a) (filter b c) h = absurd (cc)
same-holds (link a) (objects b) h = absurd (cc)
same-holds (link a) (filter b c) h = absurd (cc)
same-holds (filter a c) (objects b) h = absurd (cc)
same-holds (filter a c) (link b) h = absurd (cc)

pub given-append :
    (rs ss : List Resource) (a : Bool) (x : Resource) (b : Bool)
    → given (rs ++ ss) a x b ≡ given rs a x (given ss a x b)
given-append [] ss a x b = refl
given-append (r ∷ rs) ss a x b = ap (λ y. if same r x then a else y) (given-append rs ss a x b)

pub given_cases :
    (rs : List Resource) (a : Bool) (x : Resource)
    → ((b : Bool) → given rs a x b ≡ a) ⊎ ((b : Bool) → given rs a x b ≡ b)
given_cases [] a x = inr (λ b. refl)
given_cases (r ∷ rs) a x = elim (Bool-cases (same r x)) [
  | inl y ↦ inl (λ b. rw y refl)
  | inr n ↦ elim (given_cases rs a x) [
    | inl h ↦ inl (λ b. rw n (h b))
    | inr h ↦ inr (λ b. rw n (h b))
  ]
]

pub given_swap :
    (rs ss : List Resource) (a : Bool) (x : Resource) (b : Bool)
    → given rs a x (given ss a x b) ≡ given ss a x (given rs a x b)
given_swap rs ss a x b = elim (given_cases rs a x) [
  | inr h ↦ h _ ∙ ap (given ss a x) (sym (h b))
  | inl h ↦ elim (given_cases ss a x) [ inl g ↦ h _ ∙ sym (g _) | inr g ↦ h _ ∙ sym (g _ ∙ h b) ]
]

module _ {W : Type 0} (kernel : Kernel W) (holds : Resource → W → Bool) where
  -- From `before` to `after` the resource `r`, which was not held, is held, and nothing else changes.
  abbrev pub Adds : Resource → W → W → Type 0
  Adds r before after =
      (holds r before ≡ false)
      × ((x : Resource) → holds x after ≡ given (r ∷ []) true x (holds x before))

  abbrev pub Drops : Resource → W → W → Type 0
  Drops r before after = (x : Resource) → holds x after ≡ given (r ∷ []) false x (holds x before)

  abbrev pub Keeps : W → W → Type 0
  Keeps before after = (x : Resource) → holds x after ≡ holds x before

  -- A call that may return a number of a new resource
  abbrev pub Makes : {A : Type 0} → (A → Resource) → W → Option A × W → Type 0
  Makes r before (none, after) = Keeps before after
  Makes r before (some a, after) = Adds (r a) before after

  -- A call adds what it reports as made, if it is not there yet, and nothing if it fails. Closing
  -- gives back what it names. An interface that is gone has no filters.
  pub record IsReliable : Type 0 where
    pub qdiscs : (i : ℕ) (w : W) → Keeps w (kernel.qdisc_add i w).1
    pub dirs : (d : Str) (w : W) → Keeps w (kernel.mkdir_all d w).1
    pub loads :
        (path : Option Str) (w : W) → Makes (λ o. objects o.id) w (kernel.load_objects path w)
    pub unloads : (o : Objects) (w : W) → Drops (objects o.id) w (kernel.close_objects o w)
    pub attaches : (i prog : ℕ) (h : Hook) (w : W) → Makes link w (kernel.attach_tcx i prog h w)
    pub closes : (l : ℕ) (w : W) → Drops (link l) w (kernel.close_link l w).1
    pub adds :
        (f : Filter) (prog : ℕ) (w : W)
        → (kernel.filter_add f prog w).0 ≡ true
        → Adds (resource_of f) w (kernel.filter_add f prog w).1
    pub refuses :
        (f : Filter) (prog : ℕ) (w : W)
        → (kernel.filter_add f prog w).0 ≡ false
        → Keeps w (kernel.filter_add f prog w).1
    pub deletes :
        (f : Filter) (w : W)
        → kernel.link_by_index f.if_index w ≡ true
        → Drops (resource_of f) w (kernel.filter_del f w).1
    pub gone :
        (i : ℕ) (h : Hook) (w : W) → kernel.link_by_index i w ≡ false → holds (filter i h) w ≡ false
