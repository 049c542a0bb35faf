-- ===== src/Orchestrator/Prober/Closing.antt =====
-- What the closing of links and objects gives back.
use hft_bench.Prelude.{
  ◌≡◌, refl, sym, ap, ◌∙◌, subst, Bool, false, Option, none, some, ◌++◌, Bool-cases, Option-cases,
  inl, inr,
}
use hft_bench.Orchestrator.Prober.{
  Objects, Filter, Kernel, TapLink, TapProber, close_legacy, close, close_some, close_loaded,
  detach_prober,
}
use hft_bench.Orchestrator.Prober.Resources.{
  Resource, same, resource_of, of_link, of_some, of_objects, resources, given, same-holds,
  given-append, Drops, IsReliable,
}

module _ {W : Type 0} (kernel : Kernel W) (holds : Resource → W → Bool)
    (k : IsReliable kernel holds) where
  close_legacy-Drops :
      (f : Filter) (w : W) → Drops kernel holds (resource_of f) w (close_legacy kernel f w)
  unfolding close_legacy
  close_legacy-Drops f w x = elim (Bool-cases (kernel.link_by_index f.if_index w)) [
    | inl there ↦ rw there (k.deletes f w there x)
    | inr gone ↦ elim (Bool-cases (same (resource_of f) x)) [
      | inl e ↦
          rw (gone, e)
            (subst (λ r. holds r w ≡ false) (same-holds (resource_of f) x e)
              (k.gone f.if_index f.parent w gone))
      | inr ne ↦ rw (gone, ne) refl
    ]
  ]

  pub close-given :
      (l : TapLink) (w : W) (x : Resource)
      → holds x (close kernel l w) ≡ given (of_link l) false x (holds x w)
  unfolding close
  close-given l w x = elim (Option-cases l.tcx) [
    | inr (tcx, e) ↦ rw e (k.closes tcx w x)
    | inl e ↦ elim (Option-cases l.legacy) [
      | inl e' ↦ rw (e, e') refl
      | inr (f, e') ↦ rw (e, e') (close_legacy-Drops f w x)
    ]
  ]

  close_some-given :
      (l : Option TapLink) (w : W) (x : Resource)
      → holds x (close_some kernel l w) ≡ given (of_some l) false x (holds x w)
  unfolding close_some
  close_some-given none w x = refl
  close_some-given (some l) w x = close-given l w x

  close_loaded-given :
      (o : Option Objects) (w : W) (x : Resource)
      → holds x (close_loaded kernel o w) ≡ given (of_objects o) false x (holds x w)
  unfolding close_loaded
  close_loaded-given none w x = refl
  close_loaded-given (some o) w x = k.unloads o w x

  -- DetachProber gives back what the prober holds.
  pub detach_prober-given :
      (p : TapProber) (w : W) (x : Resource)
      → holds x (detach_prober kernel (some p) w) ≡ given (resources p) false x (holds x w)
  unfolding detach_prober
  detach_prober-given p w x =
      let w1 = close_some kernel p.ingress_l w in
      let w2 = close_some kernel p.egress_l w1 in
      close_loaded-given p.objs w2 x
      ∙ ap (given (of_objects p.objs) false x) (
          close_some-given p.egress_l w1 x
          ∙ ap (given (of_some p.egress_l) false x) (close_some-given p.ingress_l w x))
      ∙ sym (
          given-append (of_objects p.objs ++ of_some p.egress_l) (of_some p.ingress_l) false x
            (holds x w)
          ∙ given-append (of_objects p.objs) (of_some p.egress_l) false x
              (given (of_some p.ingress_l) false x (holds x w)))
