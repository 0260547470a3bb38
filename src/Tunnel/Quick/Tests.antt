-- ===== src/Tunnel/Quick/Tests.antt =====
-- A system that keeps its interfaces in a list, and the theorems at it.
use text.Mathlib.TextLemmas.{append_cancel_left, append_cancel_right}
use dark_routev.Shell.{Shell}
use dark_routev.Base.{
  Bool, Bool-cases, List, String, [], arith, eq_iff, false, if◌then◌else◌, inl, inr, is_some, none,
  refl, some, str_eq, true, ◌&&◌, ◌*◌, ◌<>◌, ◌==◌, ◌∷◌, ◌≡◌,
}
use dark_routev.Config.{TunnelConfig, amnezia_wg, default_daemon_config}
use dark_routev.Tunnel.Waiting.{wait_loop, answered}
use dark_routev.Tunnel.Quick.{
  QuickSystem, wg_conf_path, awg_conf_path, awg_quick, wait_for_interface, wg_up, awg_up, bring_up,
  write_conf,
}
use dark_routev.Tunnel.Quick.Naming.{conf_named, awg_up-fails}
use dark_routev.Tunnel.Quick.Laws.{BroughtUp, up-BroughtUp}
use dark_routev.Samples.{wg_base, wg_block}

abbrev is_up_call : List String → Bool
is_up_call [] = false
is_up_call (action ∷ rest) = str_eq action "up"

-- One interface, there or not: "up" brings it, other calls remove it. It is seen at the second look.
abbrev system : QuickSystem Bool
system = record {
  shell = λ c there. (true, is_up_call c.1);
  make_dir = λ d there. (true, there);
  render_wg = λ p d there. (true, there);
  render_awg = λ p d there. (true, there);
  write_file = λ p t there. (true, there);
  interface_exists = λ iface there. there;
  on_disk = λ p there. true;
  time = λ there i. i * 200;
  seen = λ there iface i. there && i == 1;
}

up-BroughtUp_example :
    BroughtUp system "wg-quick"
      (wg_conf_path wg_base)
      wg_base.interface_name
      (wg_up system wg_base true)
    × BroughtUp system
        (awg_quick default_daemon_config)
        (awg_conf_path wg_base)
        wg_base.interface_name
        (awg_up system default_daemon_config wg_base true)
up-BroughtUp_example = up-BroughtUp system (λ k i. omega arith) default_daemon_config wg_base true

comes_up : (wg_up system wg_base false).0 ≡ none
unfolding wg_up wait_for_interface answered wait_loop bring_up write_conf
comes_up = refl

-- A system that knows which interfaces there are: awg-quick brings or removes the one that the file is
-- named for.
abbrev named_shell : Shell (String → Bool)
named_shell (tool, action ∷ conf ∷ []) k =
    (true, λ x. if str_eq (conf_named x) conf then str_eq action "up" else k x)
named_shell _ k = (false, k)

abbrev named_system : QuickSystem (String → Bool)
named_system = record {
  shell = named_shell;
  make_dir = λ d k. (true, k);
  render_wg = λ p d k. (true, k);
  render_awg = λ p d k. (true, k);
  write_file = λ p t k. (true, k);
  interface_exists = λ iface k. k iface;
  on_disk = λ p k. true;
  time = λ k i. i * 200;
  seen = λ k iface i. k iface;
}

same_name : (x y : String) → conf_named x ≡ conf_named y → x ≡ y
same_name x y e =
    append_cancel_right x y ".conf"
      (append_cancel_left "/tmp/vpn-watchdog/" (x <> ".conf") (y <> ".conf") e)

other_conf : (x y : String) → str_eq x y ≡ false → str_eq (conf_named x) (conf_named y) ≡ false
other_conf x y ne = elim (Bool-cases (str_eq (conf_named x) (conf_named y))) [
  | inl t ↦
      let e = (eq_iff x y).1 (same_name x y ((eq_iff (conf_named x) (conf_named y)).0 t)) in
      ground (arith, e, ne)
  | inr f ↦ f
]

abbrev awg_base : TunnelConfig
awg_base = record wg_base {
  protocol = amnezia_wg;
  wire_guard_config = none;
  amnezia_wg_config = some (record {
    wg = wg_block;
    junk_packet_count = 4;
    junk_packet_min_size = 40;
    junk_packet_max_size = 70;
    init_packet_junk_size = 0;
    response_packet_junk_size = 0;
    init_packet_magic_header = 1;
    response_packet_magic_header = 2;
    under_load_packet_magic_header = 3;
    transport_packet_magic_header = 4;
  });
}

awg_up-fails_example :
    is_some (awg_up named_system default_daemon_config awg_base (λ x. false)).0 ≡ true
awg_up-fails_example =
    awg_up-fails named_system (λ k i. omega arith) default_daemon_config awg_base (λ x. false)
      (record { dirs = λ d k. refl; files = λ p d k. refl; unseen = λ j k e. e })
      (λ action name iface k slash ne. rw (other_conf iface name ne) refl) refl refl
