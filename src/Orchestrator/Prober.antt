-- ===== src/Orchestrator/Prober.antt =====
-- services/sandbox-orchestrator/ebpf_prober.go: loading the latency programs, attaching them to
-- both hooks of a TAP interface, and detaching them. The net, os, netlink and ebpf packages are a
-- parameter over a world `W`. SpawnVM has the call of AttachProber commented out in this version.
pub mod Resources
pub mod Closing
pub mod Release
use hft_bench.Prelude.{
  ℕ, ◌+◌, ◌%◌, ◌^◌, Bool, true, false, Option, none, some, List, [], ◌∷◌, ◌++◌, if◌then◌else◌,
  Result, ok, err,
}
use hft_bench.Prelude.Text.{Str, codes, str_discrete}

-- The two hooks of clsact
pub data Hook : Type 0 where
  egress ingress : Hook

-- tc.TcLatencyObjects, whose `id` stands for the loaded collection
pub record Objects : Type 0 where
  pub id : ℕ
  pub tc_egress : ℕ
  pub tc_ingress : ℕ
  pub latency_rb : ℕ
  pub drop_counter : ℕ

-- netlink.BpfFilter, by the fields that differ: handle 0:1, priority 49152 and ETH_P_ALL are the
-- same in all of them.
pub record Filter : Type 0 where
  pub if_index : ℕ
  pub parent : Hook

-- The calls that answer from the state, and those that may change it.
pub record Kernel (W : Type 0) : Type 0 where
  -- net.InterfaceByName
  pub interface_by_name : Str → W → Option ℕ
  -- netlink.LinkByIndex
  pub link_by_index : ℕ → W → Bool
  -- the types of netlink.QdiscList
  pub qdisc_list : ℕ → W → Option (List Str)
  -- netlink.QdiscAdd of a clsact qdisc
  pub qdisc_add : ℕ → W → Bool × W
  pub mkdir_all : Str → W → Bool × W
  -- tc.LoadTcLatencyObjects with the pin path, if there is one
  pub load_objects : Option Str → W → Option Objects × W
  pub close_objects : Objects → W → W
  -- link.AttachTCX of a program, and Close of the link
  pub attach_tcx : ℕ → ℕ → Hook → W → Option ℕ × W
  pub close_link : ℕ → W → Bool × W
  -- netlink.FilterAdd of a program, and netlink.FilterDel
  pub filter_add : Filter → ℕ → W → Bool × W
  pub filter_del : Filter → W → Bool × W
  -- Lookup of key 0 in a map with one value for each CPU
  pub lookup_per_cpu : ℕ → W → Option (List ℕ)

pub record TapLink : Type 0 where
  pub tcx : Option ℕ
  pub legacy : Option Filter

pub record TapProber : Type 0 where
  pub objs : Option Objects
  pub egress_l : Option TapLink
  pub ingress_l : Option TapLink
  pub tap_name : Str

pub data ProberError : Type 0 where
  interface_not_found link_lookup_failed qdisc_list_failed qdisc_add_failed : ProberError
  load_failed : ProberError
  filter_add_failed : ProberError

module _ {W : Type 0} (kernel : Kernel W) where
  open kernel use {
    interface_by_name, link_by_index, qdisc_list, qdisc_add, mkdir_all, load_objects, close_objects,
    attach_tcx, close_link, filter_add, filter_del, lookup_per_cpu,
  }

  -- legacyTCLink.close: an interface that is gone has taken its filters along.
  unfoldable pub close_legacy : Filter → W → W
  close_legacy filter w = if link_by_index filter.if_index w then (filter_del filter w).1 else w

  -- tapLink.Close; its error is only logged by the callers.
  unfoldable pub close : TapLink → W → W
  unfolding close_legacy
  close link w = elim link.tcx [
    | some tcx ↦ (close_link tcx w).1
    | none ↦ elim link.legacy [ some filter ↦ close_legacy filter w | none ↦ w ]
  ]

  -- attachLegacyTCFilter
  attach_legacy_tc_filter : ℕ → ℕ → Hook → W → Result ProberError Filter × W
  attach_legacy_tc_filter if_index prog parent w =
      let filter : Filter = record { if_index = if_index; parent = parent } in
      let (added, w') = filter_add filter prog w in
      (if added then ok filter else err filter_add_failed, w')

  -- After link.AttachTCX
  tcx_tried : ℕ → ℕ → Hook → Option ℕ × W → Result ProberError TapLink × W
  unfolding attach_legacy_tc_filter
  tcx_tried if_index prog hook (some tcx, w) = (ok (record { tcx = some tcx; legacy = none }), w)
  tcx_tried if_index prog hook (none, w) =
      legacy_tried (attach_legacy_tc_filter if_index prog hook w)
    where
      legacy_tried : Result ProberError Filter × W → Result ProberError TapLink × W
      legacy_tried (err e, w') = (err e, w')
      legacy_tried (ok filter, w') = (ok (record { tcx = none; legacy = some filter }), w')

  -- attachBPFProg
  unfoldable pub attach_bpf_prog : ℕ → ℕ → Hook → W → Result ProberError TapLink × W
  unfolding tcx_tried
  attach_bpf_prog if_index prog hook w =
      tcx_tried if_index prog hook (attach_tcx if_index prog hook w)

  -- `q.Type() == "clsact"` for one of the qdiscs
  has_clsact : List Str → Bool
  unfolding str_discrete
  has_clsact [] = false
  has_clsact (q ∷ qdiscs) = elim (str_discrete q (codes "clsact")) [
    | yes e ↦ true
    | no ne ↦ has_clsact qdiscs
  ]

  -- ensureClsactQdisc
  unfoldable pub ensure_clsact_qdisc : ℕ → W → Result ProberError (Unit {0}) × W
  unfolding has_clsact
  ensure_clsact_qdisc if_index w =
      if link_by_index if_index w
      then elim (qdisc_list if_index w) [
        | none ↦ (err qdisc_list_failed, w)
        | some qdiscs ↦
            if has_clsact qdiscs
            then (ok tt, w)
            else (let (added, w') = qdisc_add if_index w in
                (if added then ok tt else err qdisc_add_failed, w'))
      ]
      else (err link_lookup_failed, w)

  -- The pin path, unless its directory cannot be made
  pin_path : Str → W → Option Str × W
  pin_path tap_name w =
      let dir = codes "/sys/fs/bpf/hft-bench/" ++ tap_name in
      let (made, w') = mkdir_all dir w in (if made then some dir else none, w')

  -- AttachProber after the program of the ingress hook
  ingress_tried :
      Str → Objects → TapLink → Result ProberError TapLink × W → Result ProberError TapProber × W
  ingress_tried tap_name objs egress_l (err e, w) = (err e, close_objects objs (close egress_l w))
  ingress_tried tap_name objs egress_l (ok ingress_l, w) = (
    ok (record {
      objs = some objs;
      egress_l = some egress_l;
      ingress_l = some ingress_l;
      tap_name = tap_name;
    }),
    w,
  )

  -- AttachProber after the program of the egress hook
  egress_tried :
      Str → ℕ → Objects → Result ProberError TapLink × W → Result ProberError TapProber × W
  egress_tried tap_name if_index objs (err e, w) = (err e, close_objects objs w)
  egress_tried tap_name if_index objs (ok egress_l, w) =
      ingress_tried tap_name objs egress_l (attach_bpf_prog if_index objs.tc_ingress ingress w)

  -- AttachProber after the objects are loaded
  loaded : Str → ℕ → Option Objects × W → Result ProberError TapProber × W
  loaded tap_name if_index (none, w) = (err load_failed, w)
  loaded tap_name if_index (some objs, w) =
      egress_tried tap_name if_index objs (attach_bpf_prog if_index objs.tc_egress egress w)

  -- AttachProber after the qdisc
  ensured : Str → ℕ → Result ProberError (Unit {0}) × W → Result ProberError TapProber × W
  unfolding pin_path
  ensured tap_name if_index (err e, w) = (err e, w)
  ensured tap_name if_index (ok _, w) =
      let (path, w') = pin_path tap_name w in loaded tap_name if_index (load_objects path w')

  -- AttachProber after net.InterfaceByName
  resolved : Str → W → Option ℕ → Result ProberError TapProber × W
  resolved tap_name w none = (err interface_not_found, w)
  resolved tap_name w (some if_index) = ensured tap_name if_index (ensure_clsact_qdisc if_index w)

  -- AttachProber
  unfoldable pub attach_prober : Str → W → Result ProberError TapProber × W
  unfolding resolved ensured loaded egress_tried ingress_tried
  attach_prober tap_name w = resolved tap_name w (interface_by_name tap_name w)

  close_some : Option TapLink → W → W
  close_some none w = w
  close_some (some link) w = close link w

  close_loaded : Option Objects → W → W
  close_loaded none w = w
  close_loaded (some objs) w = close_objects objs w

  -- DetachProber, which is called with nil where no prober is attached
  unfoldable pub detach_prober : Option TapProber → W → W
  unfolding close_some close_loaded
  detach_prober none w = w
  detach_prober (some p) w = close_loaded p.objs (close_some p.egress_l (close_some p.ingress_l w))

  -- `total += v` on uint64
  sum_from : ℕ → List ℕ → ℕ
  sum_from total [] = total
  sum_from total (v ∷ values) = sum_from ((total + v) % 2 ^ 64) values

  -- DropCount, of a prober with its objects
  unfoldable pub drop_count : Objects → W → Option ℕ
  unfolding sum_from
  drop_count objs w = elim (lookup_per_cpu objs.drop_counter w) [
    | none ↦ none
    | some values ↦ some (sum_from 0 values)
  ]

-- RingBufMap, of a prober with its objects
abbrev pub ring_buf_map : Objects → ℕ
ring_buf_map objs = objs.latency_rb
