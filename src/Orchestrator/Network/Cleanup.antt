-- ===== src/Orchestrator/Network/Cleanup.antt =====
-- What SetupTapInterface and CleanupTapInterface leave on the host.
use hft_bench.Prelude.{
  ◌≡◌, refl, subst, Bool, true, false, Option, none, some, List, [], ◌∷◌, arith, if◌then◌else◌,
  Result, ok, err, ite, Bool-cases, inl, inr, ◌≢◌,
}
use hft_bench.Prelude.Text.{Str, trim_space, trim_left, str_discrete}
use hft_bench.Orchestrator.Network.{
  TapConfig, tuntap_add, link_set_master, link_set_up, qdisc_add_root, qdisc_add_ingress,
  filter_add_police, link_delete, Net, NetworkError, up_failed, attach_failed, after_checks,
  is_listed, validate_tap_config, interface_exists, cleanup_tap_interface, limit_rates, bring_up,
  attach_to_bridge, create_tap, setup_tap_interface,
}

-- A host whose listing and whose `ip link delete` of an existing interface do not fail; `names` is
-- the interfaces that exist. `ip tuntap add` makes one interface or none, `ip link delete` takes
-- one away, and the other commands neither make nor remove any.
pub record IsReliable {W : Type 0} (net : Net W) (names : W → List Str) : Type 0 where
  pub lists : (w : W) → net.interfaces w ≡ some (names w)
  pub adds :
      (t x : Str) (w : W)
      → is_listed x (names (net.run_command (tuntap_add t) w).1) ≡ (
          if (net.run_command (tuntap_add t) w).0
          then ite (str_discrete t x) true (is_listed x (names w))
          else is_listed x (names w))
  pub deletes :
      (t : Str) (w : W)
      → is_listed t (names w) ≡ true
      → (net.run_command (link_delete t) w).0 ≡ true
  pub deleted :
      (t x : Str) (w : W)
      → is_listed t (names w) ≡ true
      → is_listed x (names (net.run_command (link_delete t) w).1)
        ≡ ite (str_discrete t x) false (is_listed x (names w))
  pub masters :
      (t b x : Str) (w : W)
      → is_listed x (names (net.run_command (link_set_master t b) w).1) ≡ is_listed x (names w)
  pub ups :
      (t x : Str) (w : W)
      → is_listed x (names (net.run_command (link_set_up t) w).1) ≡ is_listed x (names w)
  pub roots :
      (t x : Str) (w : W)
      → is_listed x (names (net.run_command (qdisc_add_root t) w).1) ≡ is_listed x (names w)
  pub ingresses :
      (t x : Str) (w : W)
      → is_listed x (names (net.run_command (qdisc_add_ingress t) w).1) ≡ is_listed x (names w)
  pub polices :
      (t x : Str) (w : W)
      → is_listed x (names (net.run_command (filter_add_police t) w).1) ≡ is_listed x (names w)

module _ {W : Type 0} (net : Net W) (names : W → List Str) (r : IsReliable net names) where
  open r use {lists, adds, deletes, deleted, masters, ups, roots, ingresses, polices}

  -- Cleanup takes the interface away and leaves every other one.
  pub cleanup_lem :
      (t x : Str) (w : W)
      → t ≢ []
      → (is_listed x (names (cleanup_tap_interface net t w).1)
          ≡ ite (str_discrete t x) false (is_listed x (names w)))
        × ((cleanup_tap_interface net t w).0 ≡ ok tt)
  unfolding cleanup_tap_interface
  cleanup_lem [] x w ne = absurd (ne refl)
  cleanup_lem (c ∷ t) x w ne = ground (arith, lists w, deletes (c ∷ t) w, deleted (c ∷ t) x w)

  -- What a stage of the setup leaves of the interface `x`: with the new interface after success,
  -- and as it was before the setup, `before`, after a failure.
  abbrev pub Leaves : TapConfig → Str → Bool → Result NetworkError (Unit {0}) × W → Type 0
  Leaves cfg x before (ok _, w) =
      is_listed x (names w) ≡ ite (str_discrete cfg.tap_name x) true before
  Leaves cfg x before (err _, w) = is_listed x (names w) ≡ before

  module _ (cfg : TapConfig) (x : Str) (before : Bool) (named : cfg.tap_name ≢ [])
      (fresh : cfg.tap_name ≡ x → before ≡ false) where
    abbrev HasTap : W → Type 0
    HasTap w = is_listed x (names w) ≡ ite (str_discrete cfg.tap_name x) true before

    limit_rates-Leaves : (w : W) → HasTap w → Leaves cfg x before (limit_rates net cfg w)
    unfolding limit_rates
    limit_rates-Leaves w h =
        let w1 = (net.run_command (qdisc_add_root cfg.tap_name) w).1 in
        let w2 = (net.run_command (qdisc_add_ingress cfg.tap_name) w1).1 in
        ground
          (arith, roots cfg.tap_name x w, ingresses cfg.tap_name x w1, polices cfg.tap_name x w2)

    undo-Leaves :
        (e : NetworkError) (w : W)
        → HasTap w
        → Leaves cfg x before (err e, (cleanup_tap_interface net cfg.tap_name w).1)
    undo-Leaves e w h = ground (arith, cleanup_lem cfg.tap_name x w named, fresh)

    bring_up-Leaves : (w : W) → HasTap w → Leaves cfg x before (bring_up net cfg w)
    unfolding bring_up
    bring_up-Leaves w h =
        let w1 = (net.run_command (link_set_up cfg.tap_name) w).1 in
        elim (Bool-cases (net.run_command (link_set_up cfg.tap_name) w).0) [
          | inl done ↦ rw done (limit_rates-Leaves w1 (ground (arith, ups cfg.tap_name x w)))
          | inr failed ↦ rw failed (undo-Leaves up_failed w1 (ground (arith, ups cfg.tap_name x w)))
        ]

    attach_to_bridge-Leaves : (w : W) → HasTap w → Leaves cfg x before (attach_to_bridge net cfg w)
    unfolding attach_to_bridge
    attach_to_bridge-Leaves w h =
        let w1 = (net.run_command (link_set_master cfg.tap_name cfg.bridge_name) w).1 in
        elim (Bool-cases (net.run_command (link_set_master cfg.tap_name cfg.bridge_name) w).0) [
          | inl done ↦
              rw done
                (bring_up-Leaves w1 (ground (arith, masters cfg.tap_name cfg.bridge_name x w)))
          | inr failed ↦ rw failed (
              undo-Leaves attach_failed w1
                (ground (arith, masters cfg.tap_name cfg.bridge_name x w)))
        ]

    create_tap-Leaves :
        (w : W) → is_listed x (names w) ≡ before → Leaves cfg x before (create_tap net cfg w)
    unfolding create_tap
    create_tap-Leaves w h =
        let w1 = (net.run_command (tuntap_add cfg.tap_name) w).1 in
        elim (Bool-cases (net.run_command (tuntap_add cfg.tap_name) w).0) [
          | inl done ↦ rw done (attach_to_bridge-Leaves w1 (ground (arith, adds cfg.tap_name x w)))
          | inr failed ↦ rw failed (ground (arith, adds cfg.tap_name x w))
        ]

  named_of_valid : (cfg : TapConfig) → validate_tap_config cfg ≡ ok tt → cfg.tap_name ≢ []
  unfolding validate_tap_config trim_space trim_left
  named_of_valid cfg h e = ground arith

  after_checks-Leaves :
      (valid : Result NetworkError (Unit {0})) (exists : Option Bool) (cfg : TapConfig) (x : Str)
      (w : W)
      → validate_tap_config cfg ≡ valid
      → interface_exists net cfg.tap_name w ≡ exists
      → Leaves cfg x (is_listed x (names w)) (after_checks net valid exists cfg w)
  unfolding after_checks interface_exists
  after_checks-Leaves (err e) exists cfg x w v o = refl
  after_checks-Leaves (ok _) none cfg x w v o = refl
  after_checks-Leaves (ok _) (some true) cfg x w v o = refl
  after_checks-Leaves (ok _) (some false) cfg x w v o =
      create_tap-Leaves cfg x (is_listed x (names w)) (named_of_valid cfg v)
        (λ same. subst (λ t. is_listed t (names w) ≡ false) same (ground (arith, lists w))) w refl

  -- On a reliable host a setup that fails leaves every interface as it was, at whatever command
  -- it fails, and one that succeeds adds the TAP interface and no other.
  pub setup_tap_interface-Leaves :
      (cfg : TapConfig) (x : Str) (w : W)
      → Leaves cfg x (is_listed x (names w)) (setup_tap_interface net cfg w)
  unfolding setup_tap_interface
  setup_tap_interface-Leaves cfg x w = after_checks-Leaves _ _ cfg x w refl refl

  -- Where a setup succeeds, the interface did not exist.
  pub setup_tap_interface-fresh :
      (cfg : TapConfig) (w : W)
      → (setup_tap_interface net cfg w).0 ≡ ok tt
      → is_listed cfg.tap_name (names w) ≡ false
  unfolding setup_tap_interface interface_exists
  setup_tap_interface-fresh cfg w h = elim (Bool-cases (is_listed cfg.tap_name (names w))) [
    | inr new ↦ new
    | inl old ↦ absurd (ground (arith, lists w))
  ]
