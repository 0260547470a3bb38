-- ===== src/Config/Uci/Daemon.antt =====
-- daemon/internal/config/store.go, `LoadDaemonConfigFromUCI`.
pub mod Laws
use mathlib.Core.Option
use dark_routev.Base.{
  Bool, List, Option, String, false, if◌then◌else◌, is_empty, ltb, map, none, some, str_eq, true, ℕ,
  ◌%◌, ◌*◌, ◌-◌, ◌<>◌, ◌^◌, ◌||◌,
}
use dark_routev.Net.{trim_space}
use dark_routev.Config.{ProbeTarget, DaemonConfig, AiAdvisorConfig, default_daemon_config, second}
use dark_routev.Config.Targets.{append_domain_probe_targets}
use dark_routev.Config.Uci.{load_uci_string_list, load_uci_probe_targets}

-- The outputs of `uci get` of a key, of `uci show vpn-watchdog` and of `uci show vpn-watchdog.global`
-- by lines, each `none` for an error; strconv.Atoi and strconv.ParseFloat (in hundredths) where the
-- number is not negative; and what strconv.Atoi gives for a negative number, without its sign.
pub record Uci : Type 0 where
  pub get : String → Option String
  pub show : Option (List String)
  pub show_global : Option (List String)
  pub atoi : String → Option ℕ
  pub atoi_negative : String → Option ℕ
  pub parse_float : String → Option ℕ

or_default : {A : Type 0} → Option A → A → A
or_default none def = def
or_default (some a) def = a

trimmed : Option String → String
trimmed none = ""
trimmed (some out) = trim_space out

-- `switch v { case "compat", "balanced", "aggressive": … }`
abbrev pub is_profile : String → Bool
is_profile v = str_eq v "compat" || str_eq v "balanced" || str_eq v "aggressive"

-- A time.Duration by the 64 bits of its nanoseconds. A negative one counts as 0: a ticker refuses
-- both, a timeout is over at once for both, and no time that has passed is below either.
unfoldable pub duration : ℕ → ℕ
duration bits = if ltb bits (2 ^ 63) then bits else 0

-- `time.Duration(n) * time.Second`, which wraps around, of n and of -n
unfoldable pub seconds : ℕ → ℕ
seconds n = duration (n * second % 2 ^ 64)

unfoldable pub negative_seconds : ℕ → ℕ
negative_seconds n = duration ((2 ^ 64 - n * second % 2 ^ 64) % 2 ^ 64)

-- The two answers of strconv.Atoi, or an error
seconds_or : Option ℕ → Option ℕ → ℕ → ℕ
seconds_or (some n) negative def = seconds n
seconds_or none (some n) def = negative_seconds n
seconds_or none none def = def

module _ (uci : Uci) where
  -- The closure `get` of a key of vpn-watchdog.global
  unfoldable pub get_setting : String → String
  unfolding trimmed
  get_setting key = trimmed (uci.get ("vpn-watchdog.global." <> key))

  -- `getInt`, `getDur`, `getFloat`
  unfoldable pub get_int : String → ℕ → ℕ
  unfolding or_default
  get_int key def =
      let v = get_setting key in if str_eq v "" then def else or_default (uci.atoi v) def

  unfoldable pub get_dur : String → ℕ → ℕ
  unfolding seconds_or
  get_dur key def =
      let v = get_setting key in
      if str_eq v "" then def else seconds_or (uci.atoi v) (uci.atoi_negative v) def

  unfoldable pub get_float : String → ℕ → ℕ
  unfolding or_default
  get_float key def =
      let v = get_setting key in if str_eq v "" then def else or_default (uci.parse_float v) def

  -- `if v := get(key); v != "" { cfg.F = v }`
  unfoldable pub get_text : String → String → String
  get_text key def = let v = get_setting key in if str_eq v "" then def else v

  -- `if v := get(key); v == "0" { cfg.F = false }`
  unfoldable pub get_on : String → Bool → Bool
  get_on key def = if str_eq (get_setting key) "0" then false else def

  -- `dpi_profile`: another text is refused with a warning
  unfoldable pub get_profile : String → String
  get_profile def = let v = get_setting "dpi_profile" in if is_profile v then v else def

  unfoldable pub load_ai : AiAdvisorConfig → AiAdvisorConfig
  load_ai ai = record {
    enabled = (if str_eq (get_setting "ai_enabled") "1" then true else ai.enabled);
    provider = get_text "ai_provider" ai.provider;
    endpoint = get_text "ai_endpoint" ai.endpoint;
    api_key_file = get_text "ai_api_key_file" ai.api_key_file;
    timeout = get_dur "ai_timeout" ai.timeout;
    max_calls_per_hour = get_int "ai_max_calls_per_hour" ai.max_calls_per_hour;
    min_confidence = get_float "ai_min_confidence" ai.min_confidence;
    preset_ttl = get_dur "ai_preset_ttl" ai.preset_ttl;
  }

  -- The settings, with the targets that have been read
  unfoldable pub load_settings : DaemonConfig → List ProbeTarget → DaemonConfig
  load_settings cfg targets =
      let domains = load_uci_string_list "vpn-watchdog.global.vpn_domain" uci.show_global in
      record cfg {
        probe_interval_healthy = get_dur "probe_interval_healthy" cfg.probe_interval_healthy;
        probe_interval_degraded = get_dur "probe_interval_degraded" cfg.probe_interval_degraded;
        degraded_threshold = get_int "degraded_threshold" cfg.degraded_threshold;
        probing_threshold = get_int "probing_threshold" cfg.probing_threshold;
        max_switch_attempts = get_int "max_switch_attempts" cfg.max_switch_attempts;
        post_switch_cooldown = get_dur "post_switch_cooldown" cfg.post_switch_cooldown;
        switch_verify_timeout = get_dur "switch_verify_timeout" cfg.switch_verify_timeout;
        probe_rotate_targets = get_on "probe_rotate_targets" cfg.probe_rotate_targets;
        probe_target_pool = get_int "probe_target_pool" cfg.probe_target_pool;
        probe_use_doh = get_on "probe_use_doh" cfg.probe_use_doh;
        probe_doh_endpoint = get_text "probe_doh_endpoint" cfg.probe_doh_endpoint;
        config_dir = get_text "config_dir" cfg.config_dir;
        sing_box_bin = get_text "sing_box_bin" cfg.sing_box_bin;
        dpi_auto_tune = get_on "dpi_auto_tune" cfg.dpi_auto_tune;
        dpi_max_variants = get_int "dpi_max_variants" cfg.dpi_max_variants;
        dpi_profile = get_profile cfg.dpi_profile;
        ai_advisor = load_ai cfg.ai_advisor;
        probe_targets =
            append_domain_probe_targets (if is_empty targets then cfg.probe_targets else targets)
              domains 3;
        vpn_domains = domains;
        vpn_ips = load_uci_string_list "vpn-watchdog.global.vpn_ip" uci.show_global;
        vpn_domain_files =
            load_uci_string_list "vpn-watchdog.global.vpn_domain_file" uci.show_global;
      }

  -- `LoadDaemonConfigFromUCI`; `none` is a panic.
  unfoldable pub load_daemon_config : Option DaemonConfig
  load_daemon_config =
      Option.map (load_settings default_daemon_config) (load_uci_probe_targets uci.atoi uci.show)
