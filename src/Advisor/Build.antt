-- ===== src/Advisor/Build.antt =====
-- BuildVariantFromRecommendation and applyAWGProfile of daemon/internal/aiadvisor/policy.go.
pub mod Laws
use dark_routev.Base.{
  Option, String, if◌then◌else◌, inl, inr, none, some, starts_with, str_eq, trim_prefix, true, ℕ,
  ◌<>◌, ◌⊎◌,
}
use dark_routev.Net.{split_endpoint_host_port, join_endpoint_host_port}
use dark_routev.Config.{
  Protocol, wire_guard, amnezia_wg, vless_protocol, other_protocol, TunnelConfig, WireGuardConfig,
  AmneziaWgConfig, VlessConfig,
}
use dark_routev.Advisor.{Recommendation}

-- The errors.
pub data BuildError : Type 0 where
  wg_config_missing awg_config_missing vless_config_missing : BuildError

-- `if p != nil { field = *p }`
abbrev pub or_else : Option ℕ → ℕ → ℕ
or_else none n = n
or_else (some m) _ = m

-- `if s != "" { field = s }`
abbrev pub or_text : String → String → String
or_text s t = if str_eq s "" then t else s

unfoldable pub with_port : Option (String × ℕ) → String → ℕ → String
with_port none endpoint port = endpoint
with_port (some (host, _)) endpoint port = join_endpoint_host_port host port

abbrev pub move_endpoint : Option ℕ → String → String
unfolding with_port
move_endpoint none endpoint = endpoint
move_endpoint (some port) endpoint = with_port (split_endpoint_host_port endpoint) endpoint port

-- `applyAWGProfile`
unfoldable pub apply_awg_profile : AmneziaWgConfig → String → AmneziaWgConfig
apply_awg_profile awg profile =
    if str_eq profile "mild"
    then record awg { junk_packet_count = 2; junk_packet_min_size = 20; junk_packet_max_size = 50 }
    else if str_eq profile "moderate"
    then record awg { junk_packet_count = 4; junk_packet_min_size = 40; junk_packet_max_size = 70 }
    else if str_eq profile "aggressive"
    then record awg { junk_packet_count = 7; junk_packet_min_size = 50; junk_packet_max_size = 100 }
    else awg

-- The path that the transport uses.
advised_path : String → String → String → String
advised_path transport path old =
    if str_eq path ""
    then old
    else if str_eq transport "grpc"
    then trim_prefix path "/"
    else if starts_with path "/"
    then path
    else "/" <> path

advised_vless : Recommendation → VlessConfig → VlessConfig
unfolding advised_path
advised_vless rec vl =
    let transport = or_text rec.vless_transport vl.transport in
    record vl {
      port = or_else rec.endpoint_port vl.port;
      transport = transport;
      fingerprint = or_text rec.vless_fingerprint vl.fingerprint;
      transport_path = advised_path transport rec.vless_path vl.transport_path;
    }

advised_wg : Recommendation → WireGuardConfig → WireGuardConfig
advised_wg rec wg = record wg { endpoint = move_endpoint rec.endpoint_port wg.endpoint }

advised_awg : Recommendation → AmneziaWgConfig → AmneziaWgConfig
advised_awg rec awg =
    apply_awg_profile
      (record awg {
        wg = record (awg.wg) { endpoint = move_endpoint rec.endpoint_port awg.wg.endpoint };
      })
      rec.awg_profile

-- The copy, before the part of the protocol is set.
marked_copy : TunnelConfig → Recommendation → TunnelConfig
marked_copy base rec = record base {
  is_variant = true;
  base_config_id = base.id;
  id = base.id <> ":dpi:ai";
  mtu = or_else rec.mtu base.mtu;
}

with_wg : TunnelConfig → Recommendation → Option WireGuardConfig → BuildError ⊎ TunnelConfig
with_wg v rec none = inl wg_config_missing
with_wg v rec (some wg) = inr (record v { wire_guard_config = some (advised_wg rec wg) })

with_awg : TunnelConfig → Recommendation → Option AmneziaWgConfig → BuildError ⊎ TunnelConfig
with_awg v rec none = inl awg_config_missing
with_awg v rec (some awg) = inr (record v { amnezia_wg_config = some (advised_awg rec awg) })

with_vless : TunnelConfig → Recommendation → Option VlessConfig → BuildError ⊎ TunnelConfig
with_vless v rec none = inl vless_config_missing
with_vless v rec (some vl) = inr (record v { vless_config = some (advised_vless rec vl) })

build_for : Protocol → TunnelConfig → Recommendation → BuildError ⊎ TunnelConfig
unfolding marked_copy with_wg with_awg with_vless advised_wg advised_awg advised_vless
    apply_awg_profile
build_for wire_guard base rec = with_wg (marked_copy base rec) rec base.wire_guard_config
build_for amnezia_wg base rec = with_awg (marked_copy base rec) rec base.amnezia_wg_config
build_for vless_protocol base rec = with_vless (marked_copy base rec) rec base.vless_config
build_for (other_protocol _) base rec = inr (marked_copy base rec)

-- `BuildVariantFromRecommendation` at a base that is not nil
unfoldable pub build_variant_from_recommendation :
    TunnelConfig → Recommendation → BuildError ⊎ TunnelConfig
unfolding build_for
build_variant_from_recommendation base rec = build_for base.protocol base rec
