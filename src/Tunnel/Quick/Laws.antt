-- ===== src/Tunnel/Quick/Laws.antt =====
-- daemon/internal/tunnel/wireguard.go and amneziawg.go: what Up and Down have done, by how they ended.
use dark_routev.Base.{
  Bool, Option, String, arith, false, if_ind, if◌then◌else◌, ltb, none, refl, some, str_eq, subst,
  true, ℕ, ◌&&◌, ◌+◌, ◌<>◌, ◌<◌, ◌≡◌, ◌≤◌,
}
use dark_routev.Config.{TunnelConfig, WireGuardConfig, AmneziaWgConfig, DaemonConfig}
use dark_routev.Shell.{status, run_ignored}
use dark_routev.Tunnel.Waiting.{answered}
use dark_routev.Tunnel.Waiting.Laws.{Waited, wait_loop-interface}
use dark_routev.Tunnel.Quick.{
  QuickSystem, QuickError, config_nil, psk_not_written, conf_not_written, not_appeared,
  quick_failed, quick, wg_conf_path, awg_conf_path, psk_path, awg_quick, wait_for_interface,
  after_quick, bring_up, wg_after_psk, wg_up_with, wg_up, awg_up_with, awg_up,
}

zero_plus : (j : ℕ) → 0 + j ≡ j
zero_plus j = omega arith

module _ {K : Type 0} (sys : QuickSystem K) where
  -- The interface is seen before the deadline, or it is not.
  abbrev pub Appears : String → K → Type 0
  Appears iface k = (j : ℕ) × (sys.time k j < sys.time k 0 + 5000) × (sys.seen k iface j ≡ true)

  abbrev pub StaysAway : String → K → Type 0
  StaysAway iface k =
      (j : ℕ) → (ltb (sys.time k j) (sys.time k 0 + 5000) && sys.seen k iface j) ≡ false

  -- What an Up has done: it has run the tool with "up" on the configuration, unless an earlier step has
  -- failed; its result is the tool's, and then whether the interface appears in time.
  abbrev pub BroughtUp : String → String → String → Option QuickError × K → Type 0
  BroughtUp tool conf iface (none, k') =
      (k : K) × (sys.shell (quick tool "up" conf) k ≡ (true, k')) × Appears iface k'
  BroughtUp tool conf iface (some not_appeared, k') =
      (k : K) × (sys.shell (quick tool "up" conf) k ≡ (true, k')) × StaysAway iface k'
  BroughtUp tool conf iface (some (quick_failed c), k') =
      (k : K) × (sys.shell (quick tool "up" conf) k ≡ (false, k')) × (c ≡ quick tool "up" conf)
  BroughtUp tool conf iface (some config_nil, k') = Unit {0}
  BroughtUp tool conf iface (some psk_not_written, k') = Unit {0}
  BroughtUp tool conf iface (some conf_not_written, k') = Unit {0}

  module _ (sleeps : (k : K) (i : ℕ) → sys.time k i + 200 ≤ sys.time k (i + 1)) where
    waited :
        (tool conf iface : String) (k k' : K) (o : Option Bool)
        → sys.shell (quick tool "up" conf) k ≡ (true, k')
        → Waited (sys.time k') (sys.seen k' iface) (sys.time k' 0 + 5000) 0 o
        → BroughtUp tool conf iface (if answered o then (none, k') else (some not_appeared, k'))
    unfolding answered
    waited tool conf iface k k' none e w = absurd w
    waited tool conf iface k k' (some true) e w = (k, e, w)
    waited tool conf iface k k' (some false) e w = (
      k,
      e,
      λ j.
          subst (λ n. (ltb (sys.time k' n) (sys.time k' 0 + 5000) && sys.seen k' iface n) ≡ false)
            (zero_plus j) (w j),
    )

    after_quick-BroughtUp :
        (tool conf iface : String) (k : K) (r : Bool × K)
        → sys.shell (quick tool "up" conf) k ≡ r
        → BroughtUp tool conf iface (after_quick sys iface (status (quick tool "up" conf) r))
    unfolding after_quick wait_for_interface
    after_quick-BroughtUp tool conf iface k (false, k') e = (k, e, refl)
    after_quick-BroughtUp tool conf iface k (true, k') e =
        waited tool conf iface k k' _ e
          (wait_loop-interface (sys.time k') (sys.seen k' iface) (sleeps k'))

    bring_up-BroughtUp :
        (tool conf iface : String) (r : Bool × K)
        → BroughtUp tool conf iface (bring_up sys tool conf iface r)
    unfolding bring_up
    bring_up-BroughtUp tool conf iface (false, k) = tt
    bring_up-BroughtUp tool conf iface (true, k) =
        let k₁ =
          if sys.interface_exists iface k
          then run_ignored sys.shell (quick tool "down" conf) k
          else k in
        after_quick-BroughtUp tool conf iface k₁ (sys.shell (quick tool "up" conf) k₁) refl

    wg_after_psk-BroughtUp :
        (tc : TunnelConfig) (wgc : WireGuardConfig) (psk : String) (r : Bool × K)
        → BroughtUp "wg-quick" (wg_conf_path tc) tc.interface_name (wg_after_psk sys tc wgc psk r)
    unfolding wg_after_psk
    wg_after_psk-BroughtUp tc wgc psk (false, k) = tt
    wg_after_psk-BroughtUp tc wgc psk (true, k) =
        bring_up-BroughtUp "wg-quick" (wg_conf_path tc) tc.interface_name _

    wg_up_with-BroughtUp :
        (tc : TunnelConfig) (o : Option WireGuardConfig) (k : K)
        → BroughtUp "wg-quick" (wg_conf_path tc) tc.interface_name (wg_up_with sys tc o k)
    unfolding wg_up_with
    wg_up_with-BroughtUp tc none k = tt
    wg_up_with-BroughtUp tc (some wgc) k =
        if_ind (BroughtUp "wg-quick" (wg_conf_path tc) tc.interface_name)
          (str_eq wgc.preshared_key "") _ _ (λ _. wg_after_psk-BroughtUp tc wgc "" (true, k))
          (λ _.
            wg_after_psk-BroughtUp tc wgc (psk_path tc)
              (sys.write_file (psk_path tc) (wgc.preshared_key <> "\n") k))

    awg_up_with-BroughtUp :
        (cfg : DaemonConfig) (tc : TunnelConfig) (o : Option AmneziaWgConfig) (k : K)
        → BroughtUp
            (awg_quick cfg)
            (awg_conf_path tc)
            tc.interface_name
            (awg_up_with sys cfg tc o k)
    unfolding awg_up_with
    awg_up_with-BroughtUp cfg tc none k = tt
    awg_up_with-BroughtUp cfg tc (some awg) k =
        bring_up-BroughtUp (awg_quick cfg) (awg_conf_path tc) tc.interface_name _

    -- Up of both backends ends, whatever the system does, if each look for the interface is followed by
    -- a sleep of 200 milliseconds. It returns nil only after the tool has exited with status 0 and the
    -- interface has been seen within five seconds; it reports the tool only where the tool has failed,
    -- and a missing interface only where none is seen within that time.
    pub up-BroughtUp :
        (cfg : DaemonConfig) (tc : TunnelConfig) (k : K)
        → BroughtUp "wg-quick" (wg_conf_path tc) tc.interface_name (wg_up sys tc k)
          × BroughtUp (awg_quick cfg) (awg_conf_path tc) tc.interface_name (awg_up sys cfg tc k)
    unfolding wg_up awg_up
    up-BroughtUp cfg tc k = (
      wg_up_with-BroughtUp tc tc.wire_guard_config k,
      awg_up_with-BroughtUp cfg tc tc.amnezia_wg_config k,
    )
