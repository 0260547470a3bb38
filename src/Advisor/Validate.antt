-- ===== src/Advisor/Validate.antt =====
-- ValidateRecommendation of daemon/internal/aiadvisor/policy.go.
pub mod Laws
use Prim.Native.String.{len}
use dark_routev.Base.{
  Bool, Option, String, false, if◌then◌else◌, ltb, none, not, some, str_eq, ℕ, ◌&&◌, ◌||◌,
}
use dark_routev.Advisor.{Recommendation}

-- The errors, in the order of the tests.
pub data Rejection : Type 0 where
  missing_base_config_id : Rejection
  low_confidence : ℕ → ℕ → Rejection
  mtu_out_of_range : Rejection
  port_out_of_range : Rejection
  unsupported_transport : Rejection
  path_too_long : Rejection
  unsupported_profile : Rejection

-- `p != nil && (*p < lo || *p > hi)`
abbrev pub outside : ℕ → ℕ → Option ℕ → Bool
outside lo hi none = false
outside lo hi (some n) = ltb n lo || ltb hi n

abbrev pub is_transport : String → Bool
is_transport t = str_eq t "tcp" || str_eq t "ws" || str_eq t "grpc" || str_eq t "httpupgrade"

abbrev pub is_profile : String → Bool
is_profile p = str_eq p "mild" || str_eq p "moderate" || str_eq p "aggressive"

-- `ValidateRecommendation`; `none` is the nil error.
unfoldable pub validate_recommendation : Recommendation → ℕ → Option Rejection
validate_recommendation rec min_confidence =
    if str_eq rec.base_config_id ""
    then some missing_base_config_id
    else if ltb rec.confidence min_confidence
    then some (low_confidence rec.confidence min_confidence)
    else if outside 1200 1420 rec.mtu
    then some mtu_out_of_range
    else if outside 1 65535 rec.endpoint_port
    then some port_out_of_range
    else if not (str_eq rec.vless_transport "") && not (is_transport rec.vless_transport)
    then some unsupported_transport
    else if not (str_eq rec.vless_path "") && ltb 64 (len rec.vless_path)
    then some path_too_long
    else if not (str_eq rec.awg_profile "") && not (is_profile rec.awg_profile)
    then some unsupported_profile
    else none
