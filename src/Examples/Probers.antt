-- ===== src/Examples/Probers.antt =====
-- A kernel without TCX, as the list of what is held in it: the objects 7 and the filters.
use hft_bench.Prelude.{
  ◌≡◌, refl, ap, Bool, true, false, Option, none, some, List, [], ◌∷◌, if◌then◌else◌, arith, ok,
  err, Bool-cases, inl, inr,
}
use hft_bench.Prelude.Text.{codes}
use hft_bench.Orchestrator.Prober.{
  Filter, Objects, Kernel, TapProber, filter_add_failed, close, close_legacy, attach_bpf_prog,
  ensure_clsact_qdisc, attach_prober, detach_prober, egress, ingress,
}
use hft_bench.Orchestrator.Prober.Resources.{
  Resource, objects, link, filter, same, same-holds, resource_of, Adds, Keeps, Makes, IsReliable,
}
use hft_bench.Orchestrator.Prober.Release.{Takes, attach_prober-Takes, attach_prober-detach_prober}

abbrev holds : Resource → List Resource → Bool
holds x [] = false
holds x (r ∷ w) = if same r x then true else holds x w

unfoldable drop : Resource → List Resource → List Resource
drop r [] = []
drop r (s ∷ w) = let rest = drop r w in if same r s then rest else s ∷ rest

abbrev collection : Objects
collection = record { id = 7; tc_egress = 70; tc_ingress = 71; latency_rb = 72; drop_counter = 73 }

abbrev load_when : Bool → List Resource → Option Objects × List Resource
load_when true w = (none, w)
load_when false w = (some collection, objects 7 ∷ w)

abbrev add_when : Bool → Filter → List Resource → Bool × List Resource
add_when true f w = (false, w)
add_when false f w = (true, resource_of f ∷ w)

abbrev kernel : Kernel (List Resource)
kernel = record {
  interface_by_name = λ name w. some 4;
  link_by_index = λ i w. true;
  qdisc_list = λ i w. some [];
  qdisc_add = λ i w. (true, w);
  mkdir_all = λ d w. (true, w);
  load_objects = λ path w. load_when (holds (objects 7) w) w;
  close_objects = λ o w. drop (objects o.id) w;
  attach_tcx = λ i prog h w. (none, w);
  close_link = λ l w. (true, drop (link l) w);
  filter_add = λ f prog w. add_when (holds (resource_of f) w) f w;
  filter_del = λ f w. (true, drop (resource_of f) w);
  lookup_per_cpu = λ m w. some [];
}

drop-Drops :
    (r : Resource) (w : List Resource)
    → (x : Resource) → holds x (drop r w) ≡ (if same r x then false else holds x w)
unfolding drop
drop-Drops r [] x = elim (Bool-cases (same r x)) [ inl h ↦ rw h refl | inr h ↦ rw h refl ]
drop-Drops r (s ∷ w) x = elim (Bool-cases (same r s)) [
  | inl e ↦ ground (arith, drop-Drops r w x, ap (λ q. same q x) (same-holds r s e))
  | inr ne ↦ elim (Bool-cases (same s x)) [
    | inl t ↦ ground (arith, drop-Drops r w x, ap (same r) (same-holds s x t))
    | inr f ↦ ground (arith, drop-Drops r w x)
  ]
]

load_when-Makes :
    (b : Bool) (w : List Resource)
    → holds (objects 7) w ≡ b
    → Makes kernel holds (λ (o : Objects). objects o.id) w (load_when b w)
load_when-Makes true w e = λ x. refl
load_when-Makes false w e = (e, λ x. refl)

add_when-Adds :
    (b : Bool) (f : Filter) (w : List Resource)
    → holds (resource_of f) w ≡ b
    → (add_when b f w).0 ≡ true
    → Adds kernel holds (resource_of f) w (add_when b f w).1
add_when-Adds true f w e h = absurd (cc)
add_when-Adds false f w e h = (e, λ x. refl)

add_when-Keeps :
    (b : Bool) (f : Filter) (w : List Resource)
    → (add_when b f w).0 ≡ false
    → Keeps kernel holds w (add_when b f w).1
add_when-Keeps true f w h = λ x. refl
add_when-Keeps false f w h = absurd (cc)

kernel-IsReliable : IsReliable kernel holds
kernel-IsReliable = record {
  qdiscs = λ i w x. refl;
  dirs = λ d w x. refl;
  loads = λ path w. load_when-Makes _ w refl;
  unloads = λ o w. drop-Drops (objects o.id) w;
  attaches = λ i prog h w x. refl;
  closes = λ l w. drop-Drops (link l) w;
  adds = λ f prog w. add_when-Adds _ f w refl;
  refuses = λ f prog w. add_when-Keeps _ f w;
  deletes = λ f w e. drop-Drops (resource_of f) w;
  gone = λ i h w e. absurd (cc);
}

-- Filters are made on both hooks.
abbrev attached : TapProber
attached = record {
  objs = some collection;
  egress_l = some (record { tcx = none; legacy = some (record { if_index = 4; parent = egress }) });
  ingress_l =
      some (record { tcx = none; legacy = some (record { if_index = 4; parent = ingress }) });
  tap_name = codes "tap0";
}

abbrev held : List Resource
held = filter 4 ingress ∷ filter 4 egress ∷ objects 7 ∷ []

attached_run : attach_prober kernel (codes "tap0") [] ≡ (ok attached, held)
unfolding attach_prober attach_bpf_prog ensure_clsact_qdisc same
attached_run = refl

-- Where the filter of the ingress hook is there already, the rest is taken back.
refused_run :
    attach_prober kernel (codes "tap0") (filter 4 ingress ∷ [])
    ≡ (err filter_add_failed, filter 4 ingress ∷ [])
unfolding attach_prober attach_bpf_prog ensure_clsact_qdisc same drop close close_legacy
refused_run = refl

attach_prober-Takes_example :
    Takes kernel holds kernel-IsReliable
      (filter 4 ingress ∷ [])
      (attach_prober kernel (codes "tap0") (filter 4 ingress ∷ []))
attach_prober-Takes_example =
    attach_prober-Takes kernel holds kernel-IsReliable (codes "tap0") (filter 4 ingress ∷ [])

attach_prober-detach_prober_example :
    holds (objects 7) (detach_prober kernel (some attached) held) ≡ holds (objects 7) []
attach_prober-detach_prober_example =
    attach_prober-detach_prober kernel holds kernel-IsReliable (codes "tap0") attached [] held held
      attached_run (λ x. refl) (objects 7)
