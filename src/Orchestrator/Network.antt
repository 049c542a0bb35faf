-- ===== src/Orchestrator/Network.antt =====
-- services/sandbox-orchestrator/network.go: TAP interfaces. The host is a parameter: what
-- `net.Interfaces` lists, and what the `ip` and `tc` commands do to the world. A command that
-- meets its timeout is one that fails.
pub mod Cleanup
use hft_bench.Prelude.{
  ℕ, Bool, true, false, ◌||◌, Option, none, some, List, [], ◌∷◌, if◌then◌else◌, Result, ok, err,
  ite,
}
use hft_bench.Prelude.Text.{Str, is_empty, trim_space, str_discrete}

pub record TapConfig : Type 0 where
  pub tap_name : Str
  pub bridge_name : Str

-- The command lines of the file, by their variable words.
pub data Command : Type 0 where
  -- ip tuntap add dev TAP mode tap
  tuntap_add : Str → Command
  -- ip link set TAP master BRIDGE
  link_set_master : Str → Str → Command
  -- ip link set TAP up
  link_set_up : Str → Command
  -- tc qdisc add dev TAP root tbf rate 100mbit burst 32kbit latency 400ms
  qdisc_add_root : Str → Command
  -- tc qdisc add dev TAP handle ffff: ingress
  qdisc_add_ingress : Str → Command
  -- tc filter add dev TAP parent ffff: … police rate 100mbit burst 32kbit drop flowid :1
  filter_add_police : Str → Command
  -- ip link delete TAP
  link_delete : Str → Command

pub record Net (W : Type 0) : Type 0 where
  -- net.Interfaces, by name
  pub interfaces : W → Option (List Str)
  -- runCommand: whether the command succeeded
  pub run_command : Command → W → Bool × W

pub data NetworkError : Type 0 where
  tap_name_required bridge_name_required check_failed already_exists : NetworkError
  create_failed attach_failed up_failed delete_failed : NetworkError

unfoldable pub is_listed : Str → List Str → Bool
is_listed name [] = false
is_listed name (iface ∷ ifaces) = ite (str_discrete iface name) true (is_listed name ifaces)

-- validateTAPConfig
unfoldable pub validate_tap_config : TapConfig → Result NetworkError (Unit {0})
validate_tap_config cfg =
    if is_empty (trim_space cfg.tap_name)
    then err tap_name_required
    else if is_empty (trim_space cfg.bridge_name)
    then err bridge_name_required
    else ok tt

module _ {W : Type 0} (net : Net W) where
  open net use {interfaces, run_command}

  -- interfaceExists
  unfoldable pub interface_exists : Str → W → Option Bool
  interface_exists name w = elim (interfaces w) [
    | none ↦ none
    | some ifaces ↦ some (is_listed name ifaces)
  ]

  delete_tap : Str → W → Result NetworkError (Unit {0}) × W
  delete_tap tap_name w =
      let (done, w') = run_command (link_delete tap_name) w in
      if done then (ok tt, w') else (err delete_failed, w')

  -- CleanupTapInterface
  unfoldable pub cleanup_tap_interface : Str → W → Result NetworkError (Unit {0}) × W
  unfolding interface_exists delete_tap
  cleanup_tap_interface [] w = (err tap_name_required, w)
  cleanup_tap_interface (c ∷ tap_name) w = elim (interface_exists (c ∷ tap_name) w) [
    | none ↦ (err check_failed, w)
    | some false ↦ (ok tt, w)
    | some true ↦ delete_tap (c ∷ tap_name) w
  ]

  -- The traffic limits, whose failures are only logged.
  limit_rates : TapConfig → W → Result NetworkError (Unit {0}) × W
  limit_rates cfg w =
      let (egress, w1) = run_command (qdisc_add_root cfg.tap_name) w in
      let (ingress, w2) = run_command (qdisc_add_ingress cfg.tap_name) w1 in
      if ingress then (ok tt, (run_command (filter_add_police cfg.tap_name) w2).1) else (ok tt, w2)

  bring_up : TapConfig → W → Result NetworkError (Unit {0}) × W
  bring_up cfg w =
      let (done, w1) = run_command (link_set_up cfg.tap_name) w in
      if done
      then limit_rates cfg w1
      else (err up_failed, (cleanup_tap_interface cfg.tap_name w1).1)

  attach_to_bridge : TapConfig → W → Result NetworkError (Unit {0}) × W
  attach_to_bridge cfg w =
      let (done, w1) = run_command (link_set_master cfg.tap_name cfg.bridge_name) w in
      if done
      then bring_up cfg w1
      else (err attach_failed, (cleanup_tap_interface cfg.tap_name w1).1)

  create_tap : TapConfig → W → Result NetworkError (Unit {0}) × W
  create_tap cfg w =
      let (done, w1) = run_command (tuntap_add cfg.tap_name) w in
      if done then attach_to_bridge cfg w1 else (err create_failed, w1)

  -- What the checks that come first allow: the validation, then whether the interface exists.
  after_checks :
      Result NetworkError (Unit {0})
      → Option Bool
      → TapConfig
      → W
      → Result NetworkError (Unit {0}) × W
  after_checks (err e) exists cfg w = (err e, w)
  after_checks (ok _) none cfg w = (err check_failed, w)
  after_checks (ok _) (some true) cfg w = (err already_exists, w)
  after_checks (ok _) (some false) cfg w = create_tap cfg w

  -- SetupTapInterface
  unfoldable pub setup_tap_interface : TapConfig → W → Result NetworkError (Unit {0}) × W
  unfolding after_checks create_tap attach_to_bridge bring_up limit_rates
  setup_tap_interface cfg w =
      after_checks (validate_tap_config cfg) (interface_exists cfg.tap_name w) cfg w
