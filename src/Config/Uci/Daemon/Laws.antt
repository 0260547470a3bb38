-- ===== src/Config/Uci/Daemon/Laws.antt =====
-- daemon/internal/config/store.go: what LoadDaemonConfigFromUCI falls back to.
use mathlib.Core.Option
use dark_routev.Base.{
  Bool, List, Option, String, [], ap, arith, if_ind, none, refl, some, subst, sym, true, ℕ, ◌<>◌,
  ◌≡◌,
}
use dark_routev.Config.{ProbeTarget, DaemonConfig, AiAdvisorConfig, default_daemon_config}
use dark_routev.Config.Targets.{append_domain_probe_targets}
use dark_routev.Config.Uci.{load_uci_string_list, load_uci_probe_targets}
use dark_routev.Config.Uci.Daemon.{
  Uci, trimmed, is_profile, get_setting, get_int, get_dur, get_float, get_text, get_on, get_profile,
  load_ai, load_settings, load_daemon_config,
}

module _ (uci : Uci) (silent : (key : String) → uci.get key ≡ none) where
  no_setting : (key : String) → get_setting uci key ≡ ""
  unfolding get_setting trimmed
  no_setting key = rw (silent ("vpn-watchdog.global." <> key)) refl

  no_int : (key : String) (def : ℕ) → get_int uci key def ≡ def
  unfolding get_int
  no_int key def = rw (no_setting key) refl

  no_dur : (key : String) (def : ℕ) → get_dur uci key def ≡ def
  unfolding get_dur
  no_dur key def = rw (no_setting key) refl

  no_float : (key : String) (def : ℕ) → get_float uci key def ≡ def
  unfolding get_float
  no_float key def = rw (no_setting key) refl

  no_text : (key def : String) → get_text uci key def ≡ def
  unfolding get_text
  no_text key def = rw (no_setting key) refl

  no_on : (key : String) (def : Bool) → get_on uci key def ≡ def
  unfolding get_on
  no_on key def = rw (no_setting key) refl

  no_profile : (def : String) → get_profile uci def ≡ def
  unfolding get_profile
  no_profile def = rw (no_setting "dpi_profile") refl

  no_ai : (ai : AiAdvisorConfig) → load_ai uci ai ≡ ai
  unfolding load_ai
  no_ai ai =
      rw
        (
          no_setting "ai_enabled",
          no_text "ai_provider" ai.provider,
          no_text "ai_endpoint" ai.endpoint,
          no_text "ai_api_key_file" ai.api_key_file,
          no_dur "ai_timeout" ai.timeout,
          no_int "ai_max_calls_per_hour" ai.max_calls_per_hour,
          no_float "ai_min_confidence" ai.min_confidence,
          no_dur "ai_preset_ttl" ai.preset_ttl,
        )
        refl

  no_lists :
      (cfg : DaemonConfig) (show : Option (List String))
      → show ≡ none
      → let domains = load_uci_string_list "vpn-watchdog.global.vpn_domain" show in
        record cfg {
          probe_targets = append_domain_probe_targets cfg.probe_targets domains 3;
          vpn_domains = domains;
          vpn_ips = load_uci_string_list "vpn-watchdog.global.vpn_ip" show;
          vpn_domain_files = load_uci_string_list "vpn-watchdog.global.vpn_domain_file" show;
        }
        ≡ record cfg { vpn_domains = []; vpn_ips = []; vpn_domain_files = [] }
  unfolding load_uci_string_list append_domain_probe_targets
  no_lists cfg none e = refl
  no_lists cfg (some lines) e = ground arith

  no_settings :
      (cfg : DaemonConfig)
      → uci.show_global ≡ none
      → load_settings uci cfg []
        ≡ record cfg { vpn_domains = []; vpn_ips = []; vpn_domain_files = [] }
  unfolding load_settings
  no_settings cfg e =
      rw
        (
          no_dur "probe_interval_healthy" cfg.probe_interval_healthy,
          no_dur "probe_interval_degraded" cfg.probe_interval_degraded,
          no_dur "post_switch_cooldown" cfg.post_switch_cooldown,
          no_dur "switch_verify_timeout" cfg.switch_verify_timeout,
          no_int "degraded_threshold" cfg.degraded_threshold,
          no_int "probing_threshold" cfg.probing_threshold,
          no_int "max_switch_attempts" cfg.max_switch_attempts,
          no_int "probe_target_pool" cfg.probe_target_pool,
          no_int "dpi_max_variants" cfg.dpi_max_variants,
          no_on "probe_rotate_targets" cfg.probe_rotate_targets,
          no_on "probe_use_doh" cfg.probe_use_doh,
          no_on "dpi_auto_tune" cfg.dpi_auto_tune,
          no_text "probe_doh_endpoint" cfg.probe_doh_endpoint,
          no_text "config_dir" cfg.config_dir,
          no_text "sing_box_bin" cfg.sing_box_bin,
          no_profile cfg.dpi_profile,
          no_ai cfg.ai_advisor,
        )
        (no_lists cfg uci.show_global e)

  -- Where every `uci` command fails, the settings are the defaults.
  pub load_daemon_config_defaults :
      uci.show ≡ none → uci.show_global ≡ none → load_daemon_config uci ≡ some default_daemon_config
  unfolding load_daemon_config load_uci_probe_targets
  load_daemon_config_defaults e f =
      subst
        (λ o.
          Option.map (load_settings uci default_daemon_config) (load_uci_probe_targets uci.atoi o)
          ≡ some default_daemon_config)
        (sym e) (ap some (no_settings default_daemon_config f))

-- The profile is one of the three that the selector knows, whatever UCI holds.
pub load_settings-profile :
    (uci : Uci) (cfg : DaemonConfig) (targets : List ProbeTarget)
    → is_profile cfg.dpi_profile ≡ true
    → is_profile (load_settings uci cfg targets).dpi_profile ≡ true
unfolding load_settings get_profile
load_settings-profile uci cfg targets h =
    if_ind (λ p. is_profile p ≡ true) (is_profile (get_setting uci "dpi_profile"))
      (get_setting uci "dpi_profile") cfg.dpi_profile (λ t. t) (λ f. h)
