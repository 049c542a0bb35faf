-- ===== src/Examples/Networks.antt =====
-- A host as the list of its interfaces, whose only bridge is br0.
use hft_bench.Prelude.{◌≡◌, refl, Bool, true, false, some, List, [], ◌∷◌, arith, ite, err}
use hft_bench.Prelude.Text.{Str, codes, str_discrete}
use hft_bench.Orchestrator.Network.{
  TapConfig, Command, tuntap_add, link_set_master, link_set_up, qdisc_add_root, qdisc_add_ingress,
  filter_add_police, link_delete, Net, is_listed, setup_tap_interface, validate_tap_config,
  interface_exists, cleanup_tap_interface, attach_failed,
}
use hft_bench.Orchestrator.Network.Cleanup.{IsReliable, Leaves, setup_tap_interface-Leaves}
use hft_bench.Prelude.Text.{trim_space, trim_left, is_space}

unfoldable pub delete_all : Str → List Str → List Str
delete_all t [] = []
delete_all t (x ∷ xs) = ite (str_discrete t x) (delete_all t xs) (x ∷ delete_all t xs)

abbrev command : Command → List Str → Bool × List Str
command (tuntap_add t) w = (true, t ∷ w)
command (link_set_master t b) w = (ite (str_discrete b (codes "br0")) true false, w)
command (link_set_up t) w = (true, w)
command (qdisc_add_root t) w = (true, w)
command (qdisc_add_ingress t) w = (true, w)
command (filter_add_police t) w = (true, w)
command (link_delete t) w = (is_listed t w, delete_all t w)

abbrev pub linux : Net (List Str)
linux = record { interfaces = λ w. some w; run_command = command }

listed_after_delete :
    (t x : Str) (w : List Str)
    → is_listed x (delete_all t w) ≡ ite (str_discrete t x) false (is_listed x w)
unfolding delete_all is_listed
listed_after_delete t x [] = ground arith
listed_after_delete t x (y ∷ w) = ground (arith, listed_after_delete t x w)

pub linux-IsReliable : IsReliable linux (λ w. w)
unfolding is_listed
linux-IsReliable = record {
  lists = λ w. refl;
  adds = λ t x w. refl;
  deletes = λ t w h. h;
  deleted = λ t x w h. listed_after_delete t x w;
  masters = λ t b x w. refl;
  ups = λ t x w. refl;
  roots = λ t x w. refl;
  ingresses = λ t x w. refl;
  polices = λ t x w. refl;
}

abbrev no_bridge : TapConfig
no_bridge = record { tap_name = codes "tap0"; bridge_name = codes "br9" }

-- The TAP interface is made, cannot be attached, and is removed.
no_bridge_run :
    setup_tap_interface linux no_bridge (codes "eth0" ∷ []) ≡ (err attach_failed, codes "eth0" ∷ [])
unfolding setup_tap_interface validate_tap_config interface_exists cleanup_tap_interface is_listed
    delete_all trim_space trim_left is_space str_discrete
no_bridge_run = refl

setup_tap_interface-Leaves_example :
    Leaves linux
      (λ w. w)
      linux-IsReliable
      no_bridge
      (codes "tap0")
      (is_listed (codes "tap0") (codes "eth0" ∷ []))
      (setup_tap_interface linux no_bridge (codes "eth0" ∷ []))
setup_tap_interface-Leaves_example =
    setup_tap_interface-Leaves linux (λ w. w) linux-IsReliable no_bridge (codes "tap0")
      (codes "eth0" ∷ [])
