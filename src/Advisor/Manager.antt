-- ===== src/Advisor/Manager.antt =====
-- daemon/internal/aiadvisor/manager.go: when the provider is asked, and what is done with its answer.
-- The provider (an HTTP client) is a parameter: it returns an error text or a recommendation.
pub mod Laws
use dark_routev.Base.{
  Bool, List, Option, String, false, first, if◌then◌else◌, inl, inr, leb, ltb, none, not, some,
  str_eq, suc, true, ℕ, ◌&&◌, ◌-◌, ◌==◌, ◌⊎◌,
}
use dark_routev.Config.{TunnelConfig, AiAdvisorConfig}
use dark_routev.Dpi.{DetectionResult}
use dark_routev.Advisor.{AnalyzeInput, Recommendation}
use dark_routev.Advisor.Validate.{Rejection, validate_recommendation}
use dark_routev.Advisor.Build.{BuildError, build_variant_from_recommendation}
use dark_routev.Advisor.Attempts.{AttemptLog, recent}

pub record Status : Type 0 where
  pub enabled : Bool
  pub provider : String
  pub last_call_at : ℕ
  pub last_status : String
  pub last_reject_reason : String
  pub calls_remaining_hour : ℕ

pub record Manager : Type 0 where
  pub cfg : AiAdvisorConfig
  pub attempts : AttemptLog
  pub window_start : ℕ
  pub calls_in_window : ℕ
  pub status : Status

-- The errors of `Recommend`.
pub data AdviceError : Type 0 where
  disabled rate_limited : AdviceError
  provider_error : String → AdviceError
  rejected : Rejection → AdviceError
  unknown_base : String → AdviceError
  not_built : BuildError → AdviceError

abbrev pub hour : ℕ
hour = 3600000000000

-- `NewManager`
unfoldable pub new_manager : AiAdvisorConfig → AttemptLog → ℕ → Manager
new_manager cfg attempts now = record {
  cfg = cfg;
  attempts = attempts;
  window_start = now;
  calls_in_window = 0;
  status = record {
    enabled = cfg.enabled;
    provider = cfg.provider;
    last_call_at = 0;
    last_status = "";
    last_reject_reason = "";
    calls_remaining_hour = cfg.max_calls_per_hour;
  };
}

-- `Enabled`
abbrev pub is_enabled : Manager → Bool
is_enabled m = m.cfg.enabled && not (str_eq m.cfg.provider "disabled")

-- `Status`
unfoldable pub status_of : Manager → Status
status_of m =
    if ltb 0 m.cfg.max_calls_per_hour
    then record (m.status) { calls_remaining_hour = m.cfg.max_calls_per_hour - m.calls_in_window }
    else m.status

-- `if now.Sub(m.windowStart) >= time.Hour { ... }`
unfoldable pub open_window : ℕ → Manager → Manager
open_window now m =
    if leb hour (now - m.window_start)
    then record m { window_start = now; calls_in_window = 0 }
    else m

-- `acquireToken`
unfoldable pub acquire_token : ℕ → Manager → Bool × Manager
unfolding open_window
acquire_token now m =
    if m.cfg.max_calls_per_hour == 0
    then (true, m)
    else let opened = open_window now m in
      if leb opened.cfg.max_calls_per_hour opened.calls_in_window
      then (false, opened)
      else (true, record opened { calls_in_window = suc opened.calls_in_window })

-- `setStatus`
unfoldable pub set_status : String → String → Manager → Manager
set_status status reject m = record m {
  status = record (m.status) { last_status = status; last_reject_reason = reject };
}

-- `findBaseConfig`
unfoldable pub find_base_config : List TunnelConfig → String → Option TunnelConfig
find_base_config cs id = first (λ c. str_eq c.id id) cs

abbrev pub Answer : Type 0
Answer = AdviceError ⊎ (TunnelConfig × Recommendation)

module _ (analyze : AnalyzeInput → String ⊎ Recommendation)
    (reject_text : AdviceError → String) where
  refuse : AdviceError → Manager → Answer × Manager
  refuse e m = (inl e, set_status "rejected" (reject_text e) m)

  built : Recommendation → Manager → BuildError ⊎ TunnelConfig → Answer × Manager
  unfolding refuse
  built rec m (inl e) = refuse (not_built e) m
  built rec m (inr v) = (inr (v, rec), set_status "ok" "" m)

  located : Recommendation → Manager → Option TunnelConfig → Answer × Manager
  unfolding refuse built
  located rec m none = refuse (unknown_base rec.base_config_id) m
  located rec m (some base) = built rec m (build_variant_from_recommendation base rec)

  checked : List TunnelConfig → Recommendation → Manager → Option Rejection → Answer × Manager
  unfolding refuse located find_base_config
  checked base rec m (some e) = refuse (rejected e) m
  checked base rec m none = located rec m (find_base_config base rec.base_config_id)

  answered : List TunnelConfig → Manager → String ⊎ Recommendation → Answer × Manager
  unfolding checked
  answered base m (inl e) =
      (inl (provider_error e), set_status "provider_error" (reject_text (provider_error e)) m)
  answered base m (inr rec) = checked base rec m (validate_recommendation rec m.cfg.min_confidence)

  ask : ℕ → DetectionResult → List TunnelConfig → Manager → Answer × Manager
  unfolding answered
  ask now detected base m =
      answered base (record m { status = record (m.status) { last_call_at = now } })
        (analyze (record {
          detected = detected;
          recent_attempts = recent 100 m.attempts;
          base_configs = base;
        }))

  with_token : ℕ → DetectionResult → List TunnelConfig → Bool × Manager → Answer × Manager
  unfolding ask
  with_token now detected base (false, m) =
      (inl rate_limited, set_status "rate_limited" "hourly_call_limit" m)
  with_token now detected base (true, m) = ask now detected base m

  -- `Recommend`
  unfoldable pub recommend : ℕ → DetectionResult → List TunnelConfig → Manager → Answer × Manager
  unfolding with_token
  recommend now detected base m =
      if is_enabled m then with_token now detected base (acquire_token now m) else (inl disabled, m)
