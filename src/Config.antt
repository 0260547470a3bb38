-- ===== src/Config.antt =====
-- daemon/internal/config/types.go and the validation of daemon/internal/config/store.go.
-- Ports, MTUs, sizes, counts and durations (in nanoseconds) are natural numbers; a confidence is
-- given in hundredths. A pointer that may be nil is an `Option`.
pub mod Store
pub mod Targets
pub mod Uci
mod Tests
use dark_routev.Base.{Bool, List, Option, String, [], false, true, ℕ, ◌*◌, ◌∷◌}

pub data Protocol : Type 0 where
  wire_guard amnezia_wg vless_protocol : Protocol
  other_protocol : String → Protocol

-- DPISettings
pub record DpiSettings : Type 0 where
  pub auto_tune : Bool

pub record WireGuardConfig : Type 0 where
  pub private_key : String
  pub public_key : String
  pub preshared_key : String
  pub endpoint : String
  pub allowed_ips : List String
  pub persistent_keepalive : ℕ
  pub dns : List String

-- The embedded WireGuardConfig is the field `wg`.
pub record AmneziaWgConfig : Type 0 where
  pub wg : WireGuardConfig
  pub open wg use *
  pub junk_packet_count : ℕ
  pub junk_packet_min_size : ℕ
  pub junk_packet_max_size : ℕ
  pub init_packet_junk_size : ℕ
  pub response_packet_junk_size : ℕ
  pub init_packet_magic_header : ℕ
  pub response_packet_magic_header : ℕ
  pub under_load_packet_magic_header : ℕ
  pub transport_packet_magic_header : ℕ

pub record VlessConfig : Type 0 where
  pub uuid : String
  pub address : String
  pub port : ℕ
  pub security : String
  pub flow : String
  pub transport : String
  pub fingerprint : String
  pub sni : String
  pub reality_public_key : String
  pub reality_short_id : String
  pub ech : Bool
  pub ech_config : String
  pub domain_fronting : Bool
  pub fronting_host : String
  pub client_hello_split : Bool
  pub client_hello_bytes : ℕ
  pub fake_hello_ttl : ℕ
  pub shadow_tls : Bool
  pub shadow_tls_server : String
  pub cloak : Bool
  pub cloak_server : String
  pub transport_path : String
  pub local_port : ℕ

pub record TunnelConfig : Type 0 where
  pub id : String
  pub name : String
  pub protocol : Protocol
  pub enabled : Bool
  pub interface_name : String
  pub routing_table_id : ℕ
  pub mtu : ℕ
  pub wire_guard_config : Option WireGuardConfig
  pub amnezia_wg_config : Option AmneziaWgConfig
  pub vless_config : Option VlessConfig
  pub dpi : Option DpiSettings
  pub is_variant : Bool
  pub base_config_id : String

pub data ProbeType : Type 0 where
  icmp tcp http https : ProbeType
  other_probe : String → ProbeType

pub record ProbeTarget : Type 0 where
  pub host : String
  pub port : ℕ
  pub type : ProbeType
  pub timeout : ℕ

pub record AiAdvisorConfig : Type 0 where
  pub enabled : Bool
  pub provider : String
  pub endpoint : String
  pub api_key_file : String
  pub timeout : ℕ
  pub max_calls_per_hour : ℕ
  pub min_confidence : ℕ
  pub preset_ttl : ℕ

pub record DaemonConfig : Type 0 where
  pub probe_interval_healthy : ℕ
  pub probe_interval_degraded : ℕ
  pub degraded_threshold : ℕ
  pub probing_threshold : ℕ
  pub probe_timeout : ℕ
  pub switch_verify_timeout : ℕ
  pub parallel_probe_timeout : ℕ
  pub max_switch_attempts : ℕ
  pub post_switch_cooldown : ℕ
  pub probe_targets : List ProbeTarget
  pub probe_rotate_targets : Bool
  pub probe_target_pool : ℕ
  pub probe_use_doh : Bool
  pub probe_doh_endpoint : String
  pub vpn_domains : List String
  pub vpn_ips : List String
  pub vpn_domain_files : List String
  pub config_dir : String
  pub state_dir : String
  pub sing_box_bin : String
  pub wg_bin : String
  pub awg_bin : String
  pub log_file : String
  pub dpi_auto_tune : Bool
  pub dpi_max_variants : ℕ
  pub dpi_profile : String
  pub ai_advisor : AiAdvisorConfig

-- `time.Second` in nanoseconds
abbrev pub second : ℕ
second = 1000000000

-- DefaultDaemonConfig
abbrev pub default_daemon_config : DaemonConfig
default_daemon_config = record {
  probe_interval_healthy = 30 * second;
  probe_interval_degraded = 10 * second;
  degraded_threshold = 3;
  probing_threshold = 3;
  probe_timeout = 5 * second;
  switch_verify_timeout = 60 * second;
  parallel_probe_timeout = 15 * second;
  max_switch_attempts = 3;
  post_switch_cooldown = 90 * second;
  probe_targets =
      record { host = "1.1.1.1"; port = 0; type = icmp; timeout = 0 }
      ∷ record { host = "api.telegram.org"; port = 443; type = https; timeout = 0 }
      ∷ record { host = "connectivitycheck.gstatic.com"; port = 80; type = http; timeout = 0 }
      ∷ [];
  probe_rotate_targets = true;
  probe_target_pool = 3;
  probe_use_doh = true;
  probe_doh_endpoint = "https://1.1.1.1/dns-query";
  vpn_domains = [];
  vpn_ips = [];
  vpn_domain_files = [];
  config_dir = "/etc/vpn-watchdog/configs";
  state_dir = "/tmp/vpn-watchdog";
  sing_box_bin = "/usr/bin/sing-box";
  wg_bin = "/usr/bin/wg";
  awg_bin = "/usr/bin/awg";
  log_file = "";
  dpi_auto_tune = true;
  dpi_max_variants = 8;
  dpi_profile = "balanced";
  ai_advisor = record {
    enabled = false;
    provider = "disabled";
    endpoint = "";
    api_key_file = "";
    timeout = 8 * second;
    max_calls_per_hour = 12;
    min_confidence = 65;
    preset_ttl = 12 * 3600 * second;
  };
}

-- The IDs of configurations, in their order.
abbrev pub ids : List TunnelConfig → List String
ids [] = []
ids (v ∷ vs) = v.id ∷ ids vs
