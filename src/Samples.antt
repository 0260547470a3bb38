-- ===== src/Samples.antt =====
-- Configurations and answers of the outside at which the theorems are applied in the tests.
use dark_routev.Base.{List, String, [], false, inr, none, refl, some, true, ◌+◌, ◌∷◌}
use dark_routev.Config.{
  TunnelConfig, WireGuardConfig, VlessConfig, ProbeTarget, https, wire_guard, vless_protocol,
  default_daemon_config,
}
use dark_routev.Config.Store.{ConfigFile}
use dark_routev.Machine.{Machine, probing}
use dark_routev.Dpi.{DetectionResult, block_tls}
use dark_routev.Dpi.Variants.Derived.{IsVariantOf}
use dark_routev.Dpi.Learned.{LearnedEntry}
use dark_routev.Advisor.{AttemptEntry, Recommendation}
use dark_routev.Advisor.Manager.{Manager}
use dark_routev.Switch.{Engine, Outside}
use dark_routev.Watchdog.{Watchdog}

abbrev pub wg_block : WireGuardConfig
wg_block = record {
  private_key = "cHJpdmF0ZQ";
  public_key = "cHVibGlj";
  preshared_key = "";
  endpoint = "192.0.2.7:51820";
  allowed_ips = "0.0.0.0/0" ∷ [];
  persistent_keepalive = 25;
  dns = [];
}

abbrev pub vless_block : VlessConfig
vless_block = record {
  uuid = "6f1c";
  address = "192.0.2.8";
  port = 443;
  security = "reality";
  flow = "";
  transport = "ws";
  fingerprint = "chrome";
  sni = "example.org";
  reality_public_key = "cms";
  reality_short_id = "01";
  ech = false;
  ech_config = "";
  domain_fronting = false;
  fronting_host = "";
  client_hello_split = false;
  client_hello_bytes = 0;
  fake_hello_ttl = 0;
  shadow_tls = false;
  shadow_tls_server = "";
  cloak = false;
  cloak_server = "";
  transport_path = "/";
  local_port = 1080;
}

abbrev pub wg_base : TunnelConfig
wg_base = record {
  id = "office";
  name = "Office";
  protocol = wire_guard;
  enabled = true;
  interface_name = "wg0";
  routing_table_id = 0;
  mtu = 1420;
  wire_guard_config = some wg_block;
  amnezia_wg_config = none;
  vless_config = none;
  dpi = none;
  is_variant = false;
  base_config_id = "";
}

abbrev pub vless_base : TunnelConfig
vless_base = record {
  id = "home";
  name = "Home";
  protocol = vless_protocol;
  enabled = true;
  interface_name = "tun0";
  routing_table_id = 120;
  mtu = 1400;
  wire_guard_config = none;
  amnezia_wg_config = none;
  vless_config = some vless_block;
  dpi = none;
  is_variant = false;
  base_config_id = "";
}

abbrev pub vless_variant : TunnelConfig
vless_variant = record vless_base {
  id = "home:dpi:fp:firefox";
  is_variant = true;
  base_config_id = "home";
  vless_config = some (record vless_block { fingerprint = "firefox" });
}

-- A second variant, which changes the MTU
abbrev pub mtu_variant : TunnelConfig
mtu_variant = record vless_base {
  id = "home:dpi:mtu1280";
  is_variant = true;
  base_config_id = "home";
  mtu = 1280;
}

abbrev pub vless_variant-IsVariantOf : IsVariantOf vless_base vless_variant
vless_variant-IsVariantOf = record {
  marked = refl;
  based = refl;
  suffix = "fp:firefox";
  named = refl;
  same_protocol = refl;
  same_table = refl;
  same_interface = refl;
  same_wg_keys = refl;
  same_awg_keys = refl;
  same_vless_keys = refl;
}

abbrev pub files : List ConfigFile
files =
    record { stem = "office"; content = some wg_base }
    ∷ record { stem = "broken"; content = none }
    ∷ record { stem = "home"; content = some vless_base }
    ∷ []

abbrev pub target : ProbeTarget
target = record { host = "example.org"; port = 443; type = https; timeout = 0 }

abbrev pub advice : Recommendation
advice = record {
  base_config_id = "home";
  reasoning = "TLS fingerprint";
  confidence = 80;
  retry_budget = 1;
  expires_seconds = 3600;
  mtu = some 1280;
  endpoint_port = none;
  vless_transport = "grpc";
  vless_fingerprint = "safari";
  vless_path = "/api";
  awg_profile = "";
}

abbrev pub entry : String → AttemptEntry
entry id = record {
  timestamp = 1;
  config_id = id;
  base_config_id = id;
  variant_id = id;
  reason_code = "tls_reset";
  block_type = "tls_dpi";
  profile = "balanced";
  stage = "verify";
  success = true;
  error_summary = "";
}

abbrev pub learned_entry : LearnedEntry
learned_entry = record {
  base_config_id = "home";
  variant_suffix = "dpi:fp:firefox";
  effective_mtu = 1400;
  effective_fp = "firefox";
  effective_trans = "ws";
  awg_profile = "";
  success_count = 2;
  last_success = 5;
}

abbrev pub detection : DetectionResult
detection = record {
  block_type = block_tls;
  reason_code = "tls_reset";
  confidence = 80;
  evidence = [];
  stage_results = [];
  tested_at = 1;
}

abbrev pub advisor : Manager
advisor = record {
  cfg = record (default_daemon_config.ai_advisor) {
    enabled = true;
    provider = "http";
    max_calls_per_hour = 2;
  };
  attempts = record { entries = []; max_size = 300 };
  window_start = 0;
  calls_in_window = 0;
  status = record {
    enabled = true;
    provider = "http";
    last_call_at = 0;
    last_status = "";
    last_reject_reason = "";
    calls_remaining_hour = 2;
  };
}

abbrev pub machine : Machine
machine = record {
  current = probing;
  consecutive_fails = 0;
  active_config_id = "office";
  last_switch = 7;
  switch_attempts = 0;
  disk = none;
  can_write = true;
}

abbrev pub engine : Engine
engine = record {
  cfg = default_daemon_config;
  machine = machine;
  learned = [];
  ai = advisor;
  presets = [];
  effects = [];
}

-- Every tunnel comes up and every probe succeeds.
abbrev pub outside : Outside
outside = record {
  clock = λ n. 1000 + n;
  up = λ n tc. none;
  in_time = λ n. true;
  probe = λ n mark. true;
  draw = λ n. n;
  analyze = λ input. inr advice;
  reject_text = λ e. "rejected";
  rank = λ vs. vs;
}

abbrev pub watchdog : Watchdog
watchdog = record { engine = engine; last_dpi_result = detection; last_state_was_probing = true }
