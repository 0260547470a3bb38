-- ===== src/Dpi.antt =====
-- The shared types of daemon/internal/dpi.
pub mod Variants
pub mod Learned
pub mod Detect
use dark_routev.Base.{Bool, List, String, false, true, ℕ}

-- BlockType: the five constants, and any other integer that a saved detection may hold.
pub data BlockType : Type 0 where
  block_none block_tcp block_http block_tls block_protocol : BlockType
  other_block : ℕ → BlockType

-- `BlockType.String`
unfoldable pub block_name : BlockType → String
block_name block_none = "none"
block_name block_tcp = "tcp_block"
block_name block_http = "http_dpi"
block_name block_tls = "tls_dpi"
block_name block_protocol = "protocol_dpi"
block_name (other_block n) = "unknown"

-- Comparison of block types with a constant, as the source writes `hint == BlockProtocol`.
abbrev pub is_block_none : BlockType → Bool
is_block_none block_none = true
is_block_none _ = false

abbrev pub is_block_tcp : BlockType → Bool
is_block_tcp block_tcp = true
is_block_tcp _ = false

abbrev pub is_block_http : BlockType → Bool
is_block_http block_http = true
is_block_http _ = false

abbrev pub is_block_tls : BlockType → Bool
is_block_tls block_tls = true
is_block_tls _ = false

abbrev pub is_block_protocol : BlockType → Bool
is_block_protocol block_protocol = true
is_block_protocol _ = false

-- StageResult; latency in milliseconds, confidence in hundredths
pub record StageResult : Type 0 where
  pub stage : String
  pub success : Bool
  pub reason_code : String
  pub latency_ms : ℕ
  pub detail : String
  pub confidence : ℕ

-- DetectionResult
pub record DetectionResult : Type 0 where
  pub block_type : BlockType
  pub reason_code : String
  pub confidence : ℕ
  pub evidence : List String
  pub stage_results : List StageResult
  pub tested_at : ℕ
