-- ===== src/Tunnel/Quick/Naming.antt =====
-- daemon/internal/tunnel/amneziawg.go: the name of the configuration against the name of the interface
-- that Up waits for. awg-quick takes the interface from the name of the file.
use text.Mathlib.TextLemmas.{append_assoc}
use text.Mathlib.TextPositions.{len-append}
use Prim.Native.String.{len}
use dark_routev.Base.{
  Bool, Bool-cases, Option, String, ap, arith, contains, eq_iff, false, inl, inr, is_some, none,
  refl, some, str_eq, subst, sym, true, ℕ, ◌+◌, ◌<>◌, ◌∙◌, ◌≡◌, ◌≤◌,
}
use dark_routev.Config.{TunnelConfig, AmneziaWgConfig, DaemonConfig}
use dark_routev.Shell.{Command, status}
use dark_routev.Tunnel.Waiting.{answered}
use dark_routev.Tunnel.Waiting.Laws.{Waited, wait_loop-interface}
use dark_routev.Tunnel.Quick.{
  QuickSystem, AwgConfData, quick, awg_conf_path, awg_quick, awg_data, wait_for_interface,
  after_quick, bring_up, write_conf, awg_up_with, awg_up,
}

-- A file of the daemon's directory by the name without ".conf"
abbrev pub conf_named : String → String
conf_named name = "/tmp/vpn-watchdog/" <> name <> ".conf"

awg_conf_path-name :
    (tc : TunnelConfig) → awg_conf_path tc ≡ conf_named (tc.interface_name <> "-awg")
awg_conf_path-name tc =
    ap (λ s. "/tmp/vpn-watchdog/" <> s) (sym (append_assoc tc.interface_name "-awg" ".conf"))

-- A longer name is another one.
longer : (i s : String) → (i ≡ i <> s → len s ≡ 0)
longer i s e = let l : len i ≡ len (i <> s) = ap len e in omega (arith, l, len-append i s)

other_name : (i : String) → str_eq i (i <> "-awg") ≡ false
other_name i = elim (Bool-cases (str_eq i (i <> "-awg"))) [
  | inl t ↦ let l = longer i "-awg" ((eq_iff i (i <> "-awg")).0 t) in ground (arith, l)
  | inr f ↦ f
]

module _ {K : Type 0} (sys : QuickSystem K) where
  -- The manual page of awg-quick: it acts on the interface that the file is named for, and on no other.
  abbrev pub NamesByFile : String → Type 0
  NamesByFile tool =
      (action name iface : String) (k : K)
      → contains name "/" ≡ false
      → str_eq iface name ≡ false
      → sys.interface_exists iface (sys.shell (quick tool action (conf_named name)) k).1
        ≡ sys.interface_exists iface k

  -- Files make no interface, and nobody else makes the interface while Up waits for it.
  pub record IsAlone (iface : String) : Type 0 where
    pub dirs :
        (d : String) (k : K)
        → sys.interface_exists iface (sys.make_dir d k).1 ≡ sys.interface_exists iface k
    pub files :
        (p : String) (d : AwgConfData) (k : K)
        → sys.interface_exists iface (sys.render_awg p d k).1 ≡ sys.interface_exists iface k
    pub unseen : (j : ℕ) (k : K) → sys.interface_exists iface k ≡ false → sys.seen k iface j ≡ false

  module _ (sleeps : (k : K) (i : ℕ) → sys.time k i + 200 ≤ sys.time k (i + 1)) (iface : String)
      (alone : IsAlone iface) where
    not_answered :
        (k : K) (o : Option Bool)
        → Waited (sys.time k) (sys.seen k iface) (sys.time k 0 + 5000) 0 o
        → ((j : ℕ) → sys.seen k iface j ≡ false)
        → answered o ≡ false
    unfolding answered
    not_answered k none w u = refl
    not_answered k (some false) w u = refl
    not_answered k (some true) (j, l, d) u = ground (arith, d, u j)

    after_quick-fails :
        (c : Command) (r : Bool × K)
        → sys.interface_exists iface r.1 ≡ false
        → is_some (after_quick sys iface (status c r)).0 ≡ true
    unfolding after_quick wait_for_interface
    after_quick-fails c (false, k) e = refl
    after_quick-fails c (true, k) e =
        rw
          (not_answered k _ (wait_loop-interface (sys.time k) (sys.seen k iface) (sleeps k))
            (λ j. alone.unseen j k e))
          refl

    bring_up-fails :
        (tool name : String) (r : Bool × K)
        → NamesByFile tool
        → contains name "/" ≡ false
        → str_eq iface name ≡ false
        → sys.interface_exists iface r.1 ≡ false
        → is_some (bring_up sys tool (conf_named name) iface r).0 ≡ true
    unfolding bring_up
    bring_up-fails tool name (false, k) h slash ne e = refl
    bring_up-fails tool name (true, k) h slash ne e = rw e (
        after_quick-fails (quick tool "up" (conf_named name))
          (sys.shell (quick tool "up" (conf_named name)) k) (h "up" name iface k slash ne ∙ e))

    written-absent :
        (p : String) (d : AwgConfData) (r : Bool × K)
        → sys.interface_exists iface r.1 ≡ false
        → sys.interface_exists iface (write_conf sys (sys.render_awg p d) r).1 ≡ false
    unfolding write_conf
    written-absent p d (false, k) e = e
    written-absent p d (true, k) e = alone.files p d k ∙ e

  with_block :
      (sleeps : (k : K) (i : ℕ) → sys.time k i + 200 ≤ sys.time k (i + 1)) (cfg : DaemonConfig)
      (tc : TunnelConfig) (k : K)
      → IsAlone tc.interface_name
      → NamesByFile (awg_quick cfg)
      → contains (tc.interface_name <> "-awg") "/" ≡ false
      → sys.interface_exists tc.interface_name k ≡ false
      → (o : Option AmneziaWgConfig) → is_some (awg_up_with sys cfg tc o k).0 ≡ true
  unfolding awg_up_with
  with_block sleeps cfg tc k alone h slash e none = refl
  with_block sleeps cfg tc k alone h slash e (some awg) =
      let i = tc.interface_name in
      let written =
        write_conf sys (sys.render_awg (awg_conf_path tc) (awg_data tc awg))
          (sys.make_dir "/tmp/vpn-watchdog" k) in
      subst (λ p. is_some (bring_up sys (awg_quick cfg) p i written).0 ≡ true)
        (sym (awg_conf_path-name tc))
        (bring_up-fails sleeps i alone (awg_quick cfg) (i <> "-awg") written h slash (other_name i)
          (written-absent sleeps i alone (awg_conf_path tc) (awg_data tc awg)
            (sys.make_dir "/tmp/vpn-watchdog" k) (alone.dirs "/tmp/vpn-watchdog" k ∙ e)))

  -- Where awg-quick acts on the interface that the file is named for, the name of the interface has no
  -- slash, and nobody else makes it: an AmneziaWG Up returns an error whenever the interface is not
  -- there before it, since the file is named for another interface.
  pub awg_up-fails :
      (sleeps : (k : K) (i : ℕ) → sys.time k i + 200 ≤ sys.time k (i + 1)) (cfg : DaemonConfig)
      (tc : TunnelConfig) (k : K)
      → IsAlone tc.interface_name
      → NamesByFile (awg_quick cfg)
      → contains (tc.interface_name <> "-awg") "/" ≡ false
      → sys.interface_exists tc.interface_name k ≡ false
      → is_some (awg_up sys cfg tc k).0 ≡ true
  unfolding awg_up
  awg_up-fails sleeps cfg tc k alone h slash e =
      with_block sleeps cfg tc k alone h slash e tc.amnezia_wg_config
