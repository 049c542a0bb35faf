-- ===== src/Orchestrator/Prober/Release.antt =====
-- AttachProber and DetachProber give back what they take of the kernel.
use hft_bench.Prelude.{
  ℕ, ◌≡◌, refl, sym, ap, ◌∙◌, subst, Bool, true, false, Option, none, some, List, [], ◌∷◌, ◌++◌,
  arith, Result, ok, err, All, Bool-cases, Option-cases, inl, inr,
}
use hft_bench.Prelude.Text.{Str}
use hft_bench.Orchestrator.Prober.{
  Hook, egress, ingress, Objects, Kernel, TapLink, TapProber, ProberError, attach_legacy_tc_filter,
  tcx_tried, attach_bpf_prog, has_clsact, ensure_clsact_qdisc, pin_path, ingress_tried,
  egress_tried, loaded, ensured, resolved, attach_prober, detach_prober,
}
use hft_bench.Orchestrator.Prober.Resources.{
  Resource, objects, link, filter, same, of_link, resources, given, same-holds, given-append,
  given_cases, given_swap, Keeps, Makes, IsReliable,
}
use hft_bench.Orchestrator.Prober.Closing.{close-given, detach_prober-given}

module _ {W : Type 0} (kernel : Kernel W) (holds : Resource → W → Bool)
    (k : IsReliable kernel holds) where
  -- From `w` to `w'` the resources of the list are held in addition, and none was held before.
  abbrev pub Has : List Resource → W → W → Type 0
  Has rs w w' =
      All (λ r. holds r w ≡ false) rs × ((x : Resource) → holds x w' ≡ given rs true x (holds x w))

  -- A resource that is not held after some were added was not held before.
  fresh-All :
      (rs ss : List Resource) (w w' : W)
      → ((x : Resource) → holds x w' ≡ given rs true x (holds x w))
      → All (λ r. holds r w' ≡ false) ss
      → All (λ r. holds r w ≡ false) ss
  fresh-All rs [] w w' h f = tt
  fresh-All rs (s ∷ ss) w w' h (f, fs) = (
    elim (given_cases rs true s) [
      | inl g ↦ absurd (ground (arith, h s, g (holds s w)))
      | inr g ↦ sym (h s ∙ g (holds s w)) ∙ f
    ],
    fresh-All rs ss w w' h fs,
  )

  append-All :
      (rs ss : List Resource) (w : W)
      → All (λ r. holds r w ≡ false) rs
      → All (λ r. holds r w ≡ false) ss
      → All (λ r. holds r w ≡ false) (rs ++ ss)
  append-All [] ss w f g = g
  append-All (r ∷ rs) ss w (e, f) g = (e, append-All rs ss w f g)

  Has-append :
      (rs ss : List Resource) (w w1 w2 : W) → Has rs w w1 → Has ss w1 w2 → Has (rs ++ ss) w w2
  Has-append rs ss w w1 w2 (f, h) (g, i) = (
    append-All rs ss w f (fresh-All rs ss w w1 h g),
    λ x.
        i x
        ∙ ap (given ss true x) (h x)
        ∙ given_swap ss rs true x (holds x w)
        ∙ sym (given-append rs ss true x (holds x w)),
  )

  -- What was added and given back is as if it had never been there.
  Has-back :
      (rs : List Resource) (w w1 w2 : W)
      → Has rs w w1
      → ((x : Resource) → holds x w2 ≡ given rs false x (holds x w1))
      → Keeps kernel holds w w2
  Has-back rs w w1 w2 (f, h) g x = g x ∙ back rs (holds x w1) f (h x)
    where
      back :
          (qs : List Resource) (b : Bool)
          → All (λ r. holds r w ≡ false) qs
          → b ≡ given qs true x (holds x w)
          → given qs false x b ≡ holds x w
      back [] b f e = e
      back (q ∷ qs) b (f, fs) e = elim (Bool-cases (same q x)) [
        | inl y ↦ rw y (sym f ∙ ap (λ r. holds r w) (same-holds q x y))
        | inr n ↦ rw n (back qs b fs (ground arith))
      ]

  -- If no link is made the kernel holds what it held.
  abbrev Links : W → Result ProberError TapLink × W → Type 0
  Links w (err e, w') = Keeps kernel holds w w'
  Links w (ok l, w') = Has (of_link l) w w'

  tcx_tried-Links :
      (i prog : ℕ) (h : Hook) (w : W) (t : Option ℕ × W)
      → Makes kernel holds link w t
      → Links w (tcx_tried kernel i prog h t)
  unfolding tcx_tried attach_legacy_tc_filter
  tcx_tried-Links i prog h w (some tcx, w') m = ((m.0, tt), m.1)
  tcx_tried-Links i prog h w (none, w') m =
      elim (Bool-cases (kernel.filter_add (record { if_index = i; parent = h }) prog w').0) [
        | inl e ↦
            let (new, held) = k.adds _ prog w' e in
            rw e (
              (sym (m (filter i h)) ∙ new, tt),
              λ x. held x ∙ ap (given (filter i h ∷ []) true x) (m x),
            )
        | inr e ↦ rw e (λ x. k.refuses _ prog w' e x ∙ m x)
      ]

  attach_bpf_prog-Links :
      (i prog : ℕ) (h : Hook) (w : W) → Links w (attach_bpf_prog kernel i prog h w)
  unfolding attach_bpf_prog
  attach_bpf_prog-Links i prog h w =
      tcx_tried-Links i prog h w (kernel.attach_tcx i prog h w) (k.attaches i prog h w)

  abbrev pub Takes : W → Result ProberError TapProber × W → Type 0
  Takes w (err e, w') = Keeps kernel holds w w'
  Takes w (ok p, w') = Has (resources p) w w'

  ingress_tried-Takes :
      (tap : Str) (o : Objects) (l : TapLink) (w w1 : W) (t : Result ProberError TapLink × W)
      → Has (objects o.id ∷ of_link l) w w1
      → Links w1 t
      → Takes w (ingress_tried kernel tap o l t)
  unfolding ingress_tried
  ingress_tried-Takes tap o l w w1 (err e, w2) has second =
      Has-back (objects o.id ∷ of_link l) w w2 _ (has.0, λ x. second x ∙ has.1 x)
        λ x.
          k.unloads o _ x
          ∙ ap (given (objects o.id ∷ []) false x) (close-given kernel holds k l w2 x)
  ingress_tried-Takes tap o l w w1 (ok l', w2) has second =
      Has-append (objects o.id ∷ of_link l) (of_link l') w w1 w2 has second

  egress_tried-Takes :
      (tap : Str) (i : ℕ) (o : Objects) (w w1 : W) (t : Result ProberError TapLink × W)
      → Has (objects o.id ∷ []) w w1
      → Links w1 t
      → Takes w (egress_tried kernel tap i o t)
  unfolding egress_tried
  egress_tried-Takes tap i o w w1 (err e, w2) has first =
      Has-back (objects o.id ∷ []) w w2 _ (has.0, λ x. first x ∙ has.1 x) (k.unloads o w2)
  egress_tried-Takes tap i o w w1 (ok l, w2) has first =
      ingress_tried-Takes tap o l w w2 _
        (Has-append (objects o.id ∷ []) (of_link l) w w1 w2 has first)
        (attach_bpf_prog-Links i o.tc_ingress ingress w2)

  loaded-Takes :
      (tap : Str) (i : ℕ) (w : W) (t : Option Objects × W)
      → Makes kernel holds (λ o. objects o.id) w t
      → Takes w (loaded kernel tap i t)
  unfolding loaded
  loaded-Takes tap i w (none, w1) m = m
  loaded-Takes tap i w (some o, w1) m =
      egress_tried-Takes tap i o w w1 _ ((m.0, tt), m.1)
        (attach_bpf_prog-Links i o.tc_egress egress w1)

  -- What is done to a state that holds the same is done to the first.
  Takes-Keeps :
      (w w1 : W) (t : Result ProberError TapProber × W)
      → Keeps kernel holds w w1
      → Takes w1 t
      → Takes w t
  Takes-Keeps w w1 (err e, w2) same h = λ x. h x ∙ same x
  Takes-Keeps w w1 (ok p, w2) same h = Has-append [] (resources p) w w1 w2 (tt, same) h

  ensure_clsact_qdisc-Keeps :
      (i : ℕ) (w : W) → Keeps kernel holds w (ensure_clsact_qdisc kernel i w).1
  unfolding ensure_clsact_qdisc
  ensure_clsact_qdisc-Keeps i w x = elim (Bool-cases (kernel.link_by_index i w)) [
    | inr n ↦ rw n refl
    | inl y ↦ elim (Option-cases (kernel.qdisc_list i w)) [
      | inl e ↦ rw (y, e) refl
      | inr (qdiscs, e) ↦ elim (Bool-cases (has_clsact kernel qdiscs)) [
        | inl t ↦ rw (y, e, t) refl
        | inr t ↦ rw (y, e, t) (k.qdiscs i w x)
      ]
    ]
  ]

  ensured-Takes :
      (tap : Str) (i : ℕ) (w : W) (t : Result ProberError (Unit {0}) × W)
      → Keeps kernel holds w t.1
      → Takes w (ensured kernel tap i t)
  unfolding ensured pin_path
  ensured-Takes tap i w (err e, w1) same = same
  ensured-Takes tap i w (ok _, w1) same =
      let (path, w2) = pin_path kernel tap w1 in
      Takes-Keeps w w2 _ (λ x. k.dirs _ w1 x ∙ same x) (loaded-Takes tap i w2 _ (k.loads path w2))

  resolved-Takes : (tap : Str) (w : W) (i : Option ℕ) → Takes w (resolved kernel tap w i)
  unfolding resolved
  resolved-Takes tap w none = λ x. refl
  resolved-Takes tap w (some i) = ensured-Takes tap i w _ (ensure_clsact_qdisc-Keeps i w)

  -- AttachProber, on a reliable kernel: if it fails, at whatever step, then no program, map, link
  -- or filter is held that was not held before. If it succeeds, exactly what the prober names is
  -- held in addition, and none of that was held before.
  pub attach_prober-Takes : (tap : Str) (w : W) → Takes w (attach_prober kernel tap w)
  unfolding attach_prober
  attach_prober-Takes tap w = resolved-Takes tap w (kernel.interface_by_name tap w)

  -- On a reliable kernel DetachProber of a prober that AttachProber returned gives back every program
  -- and map, TCX link and legacy filter: if nothing else changed what of these is held in between,
  -- the same of them is held as before the attachment. The clsact qdisc that AttachProber may have
  -- added and the directory that it makes for pins are not among these.
  pub attach_prober-detach_prober :
      (tap : Str) (p : TapProber) (w w' later : W)
      → attach_prober kernel tap w ≡ (ok p, w')
      → Keeps kernel holds w' later
      → (x : Resource) → holds x (detach_prober kernel (some p) later) ≡ holds x w
  attach_prober-detach_prober tap p w w' later e same =
      let (f, h) = subst (Takes w) e (attach_prober-Takes tap w) in
      Has-back (resources p) w later _ (f, λ x. same x ∙ h x)
        (detach_prober-given kernel holds k p later)
