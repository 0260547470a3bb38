-- ===== src/Tunnel/Quick.antt =====
-- daemon/internal/tunnel/wireguard.go and amneziawg.go: the backends that write a configuration and run
-- wg-quick or awg-quick. The two files have the same steps, which are shared here; what text/template
-- makes of the data is left to it, so the data stands for the file.
pub mod Laws
pub mod Naming
mod Tests
use dark_routev.Base.{
  Bool, List, Option, String, [], false, if◌then◌else◌, none, some, str_eq, true, ℕ, ◌+◌, ◌<>◌,
  ◌==◌, ◌∷◌,
}
use dark_routev.Config.{TunnelConfig, WireGuardConfig, AmneziaWgConfig, DaemonConfig}
use dark_routev.Shell.{Command, Shell, Outcome, run, run_ignored}
use dark_routev.Tunnel.{routing_table_id, fwmark_for_table}
use dark_routev.Tunnel.Waiting.{wait_loop, interface_fuel, answered}

-- wgConfData, and awgConfData with the fields of the obfuscation
pub record WgConfData : Type 0 where
  pub private_key : String
  pub public_key : String
  pub preshared_key : String
  pub psk_file : String
  pub endpoint : String
  pub allowed_ips : String
  pub mtu : ℕ
  pub table_id : ℕ
  pub fwmark : ℕ
  pub keepalive : ℕ

pub record AwgConfData : Type 0 where
  pub private_key : String
  pub public_key : String
  pub preshared_key : String
  pub endpoint : String
  pub allowed_ips : String
  pub mtu : ℕ
  pub table_id : ℕ
  pub fwmark : ℕ
  pub keepalive : ℕ
  pub jc : ℕ
  pub jmin : ℕ
  pub jmax : ℕ
  pub s1 : ℕ
  pub s2 : ℕ
  pub h1 : ℕ
  pub h2 : ℕ
  pub h3 : ℕ
  pub h4 : ℕ

-- `strings.Join(xs, ", ")`
unfoldable pub join_commas : List String → String
join_commas [] = ""
join_commas (x ∷ []) = x
join_commas (x ∷ (y ∷ ys)) = x <> ", " <> join_commas (y ∷ ys)

-- `mtu := tc.MTU; if mtu == 0 { mtu = 1420 }`
abbrev pub used_mtu : TunnelConfig → ℕ
used_mtu tc = if tc.mtu == 0 then 1420 else tc.mtu

-- The data of `WGManager.Up`, with the file of the preshared key; PresharedKey is never set.
unfoldable pub wg_data : TunnelConfig → WireGuardConfig → String → WgConfData
wg_data tc wgc psk_file = record {
  private_key = wgc.private_key;
  public_key = wgc.public_key;
  preshared_key = "";
  psk_file = psk_file;
  endpoint = wgc.endpoint;
  allowed_ips = join_commas wgc.allowed_ips;
  mtu = used_mtu tc;
  table_id = routing_table_id tc;
  fwmark = fwmark_for_table (routing_table_id tc);
  keepalive = wgc.persistent_keepalive;
}

-- The data of `AWGManager.Up`
unfoldable pub awg_data : TunnelConfig → AmneziaWgConfig → AwgConfData
awg_data tc awg = record {
  private_key = awg.private_key;
  public_key = awg.public_key;
  preshared_key = awg.preshared_key;
  endpoint = awg.endpoint;
  allowed_ips = join_commas awg.allowed_ips;
  mtu = used_mtu tc;
  table_id = routing_table_id tc;
  fwmark = fwmark_for_table (routing_table_id tc);
  keepalive = awg.persistent_keepalive;
  jc = awg.junk_packet_count;
  jmin = awg.junk_packet_min_size;
  jmax = awg.junk_packet_max_size;
  s1 = awg.init_packet_junk_size;
  s2 = awg.response_packet_junk_size;
  h1 = awg.init_packet_magic_header;
  h2 = awg.response_packet_magic_header;
  h3 = awg.under_load_packet_magic_header;
  h4 = awg.transport_packet_magic_header;
}

-- The commands, os.MkdirAll, the opening and filling of a configuration by either template, os.WriteFile,
-- interfaceExists, whether a file is there, and for the waiting loop the time before the n-th look from
-- a first one on (in milliseconds), and whether the interface is then there.
pub record QuickSystem (K : Type 0) : Type 0 where
  pub shell : Shell K
  pub make_dir : String → K → Bool × K
  pub render_wg : String → WgConfData → K → Bool × K
  pub render_awg : String → AwgConfData → K → Bool × K
  pub write_file : String → String → K → Bool × K
  pub interface_exists : String → K → Bool
  pub on_disk : String → K → Bool
  pub time : K → ℕ → ℕ
  pub seen : K → String → ℕ → Bool

-- The errors of Up, by their texts
pub data QuickError : Type 0 where
  config_nil psk_not_written conf_not_written not_appeared : QuickError
  quick_failed : Command → QuickError

-- `confPath` of the two, for a name that filepath.Join leaves as it is
abbrev pub wg_conf_path : TunnelConfig → String
wg_conf_path tc = "/tmp/vpn-watchdog/" <> tc.interface_name <> ".conf"

abbrev pub awg_conf_path : TunnelConfig → String
awg_conf_path tc = "/tmp/vpn-watchdog/" <> tc.interface_name <> "-awg.conf"

abbrev pub psk_path : TunnelConfig → String
psk_path tc = "/tmp/vpn-watchdog/" <> tc.id <> "-psk"

abbrev pub awg_quick : DaemonConfig → String
awg_quick cfg = if str_eq cfg.awg_bin "" then "awg-quick" else cfg.awg_bin <> "-quick"

abbrev pub quick : String → String → String → Command
quick tool action conf = (tool, action ∷ conf ∷ [])

abbrev pub link_del : String → Command
link_del iface = ("ip", "link" ∷ "del" ∷ iface ∷ [])

module _ {K : Type 0} (sys : QuickSystem K) where
  -- `waitForInterface(tc.InterfaceName, 5*1e9)`
  unfoldable pub wait_for_interface : String → K → Bool
  wait_for_interface iface k =
      answered (wait_loop (sys.time k) (sys.seen k iface) (sys.time k 0 + 5000) interface_fuel 0)

  after_quick : String → Outcome K → Option QuickError × K
  after_quick iface (some c, k) = (some (quick_failed c), k)
  after_quick iface (none, k) =
      if wait_for_interface iface k then (none, k) else (some not_appeared, k)

  -- The end of both `Up`s, after the configuration has been written
  unfoldable pub bring_up : String → String → String → Bool × K → Option QuickError × K
  unfolding after_quick
  bring_up tool conf iface (false, k) = (some conf_not_written, k)
  bring_up tool conf iface (true, k) =
      let k₁ =
        if sys.interface_exists iface k
        then run_ignored sys.shell (quick tool "down" conf) k
        else k in
      after_quick iface (run sys.shell (quick tool "up" conf) k₁)

  -- `writeConf`, with the template of either
  unfoldable pub write_conf : (K → Bool × K) → Bool × K → Bool × K
  write_conf render (false, k) = (false, k)
  write_conf render (true, k) = render k

  wg_after_psk : TunnelConfig → WireGuardConfig → String → Bool × K → Option QuickError × K
  wg_after_psk tc wgc psk (false, k) = (some psk_not_written, k)
  wg_after_psk tc wgc psk (true, k) = bring_up "wg-quick" (wg_conf_path tc) tc.interface_name (
      write_conf (sys.render_wg (wg_conf_path tc) (wg_data tc wgc psk))
        (sys.make_dir "/tmp/vpn-watchdog" k))

  wg_up_with : TunnelConfig → Option WireGuardConfig → K → Option QuickError × K
  unfolding wg_after_psk
  wg_up_with tc none k = (some config_nil, k)
  wg_up_with tc (some wgc) k =
      if str_eq wgc.preshared_key ""
      then wg_after_psk tc wgc "" (true, k)
      else wg_after_psk tc wgc (psk_path tc)
          (sys.write_file (psk_path tc) (wgc.preshared_key <> "\n") k)

  -- `WGManager.Up`
  unfoldable pub wg_up : TunnelConfig → K → Option QuickError × K
  unfolding wg_up_with
  wg_up tc k = wg_up_with tc tc.wire_guard_config k

  awg_up_with : DaemonConfig → TunnelConfig → Option AmneziaWgConfig → K → Option QuickError × K
  awg_up_with cfg tc none k = (some config_nil, k)
  awg_up_with cfg tc (some awg) k = bring_up (awg_quick cfg) (awg_conf_path tc) tc.interface_name (
      write_conf (sys.render_awg (awg_conf_path tc) (awg_data tc awg))
        (sys.make_dir "/tmp/vpn-watchdog" k))

  -- `AWGManager.Up`
  unfoldable pub awg_up : DaemonConfig → TunnelConfig → K → Option QuickError × K
  unfolding awg_up_with
  awg_up cfg tc k = awg_up_with cfg tc tc.amnezia_wg_config k

  -- The body of both `Down`s
  unfoldable pub take_down : String → String → String → K → Outcome K
  take_down tool conf iface k =
      if sys.on_disk conf k
      then run sys.shell (quick tool "down" conf) k
      else if sys.interface_exists iface k
      then run sys.shell (link_del iface) k
      else (none, k)

  -- `WGManager.Down` and `AWGManager.Down`
  unfoldable pub wg_down : TunnelConfig → K → Outcome K
  wg_down tc k = take_down "wg-quick" (wg_conf_path tc) tc.interface_name k

  unfoldable pub awg_down : DaemonConfig → TunnelConfig → K → Outcome K
  awg_down cfg tc k = take_down (awg_quick cfg) (awg_conf_path tc) tc.interface_name k

  -- `IsUp` of both
  unfoldable pub is_quick_up : TunnelConfig → K → Bool
  is_quick_up tc k = sys.interface_exists tc.interface_name k
