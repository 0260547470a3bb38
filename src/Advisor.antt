-- ===== src/Advisor.antt =====
-- daemon/internal/aiadvisor: the advice of an external model is checked, turned into one variant, and
-- kept as a preset. This file has the types of types.go; a confidence is in hundredths.
pub mod Validate
pub mod Build
pub mod Presets
pub mod Attempts
pub mod Manager
mod Tests
use dark_routev.Base.{Bool, List, Option, String, ℕ}
use dark_routev.Config.{TunnelConfig}
use dark_routev.Dpi.{DetectionResult}

-- AttemptEntry
pub record AttemptEntry : Type 0 where
  pub timestamp : ℕ
  pub config_id : String
  pub base_config_id : String
  pub variant_id : String
  pub reason_code : String
  pub block_type : String
  pub profile : String
  pub stage : String
  pub success : Bool
  pub error_summary : String

-- AnalyzeInput
pub record AnalyzeInput : Type 0 where
  pub detected : DetectionResult
  pub recent_attempts : List AttemptEntry
  pub base_configs : List TunnelConfig

-- Recommendation
pub record Recommendation : Type 0 where
  pub base_config_id : String
  pub reasoning : String
  pub confidence : ℕ
  pub retry_budget : ℕ
  pub expires_seconds : ℕ
  pub mtu : Option ℕ
  pub endpoint_port : Option ℕ
  pub vless_transport : String
  pub vless_fingerprint : String
  pub vless_path : String
  pub awg_profile : String
