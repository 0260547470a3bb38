-- ===== src/Dpi/Variants.antt =====
-- GenerateVariants of daemon/internal/dpi/variants.go: the mutated copies of a configuration. A copy is
-- a value, so the deep-copy helpers cloneWG, cloneAWG and cloneVLESS are the identity.
pub mod Shared
pub mod Derived
pub mod Wire
pub mod Vless
pub mod Laws
mod Tests
use dark_routev.Base.{List, [], if◌then◌else◌, take, ℕ, ◌==◌}
use dark_routev.Config.{
  Protocol, wire_guard, amnezia_wg, vless_protocol, other_protocol, TunnelConfig,
}
use dark_routev.Dpi.{BlockType}
use Wire.{wg_variants, awg_variants}
use Vless.{vless_variants}

-- The `switch` over the protocol.
variants_for : (ℕ → ℕ) → Protocol → TunnelConfig → BlockType → List TunnelConfig
variants_for draw wire_guard tc hint = wg_variants tc hint
variants_for draw amnezia_wg tc hint = awg_variants draw tc hint
variants_for draw vless_protocol tc hint = vless_variants tc hint
variants_for draw (other_protocol p) tc hint = []

-- `GenerateVariants`, with the default of eight for a maximum that is not positive
unfoldable pub generate_variants : (ℕ → ℕ) → TunnelConfig → BlockType → ℕ → List TunnelConfig
unfolding variants_for
generate_variants draw tc hint max_variants =
    take (if max_variants == 0 then 8 else max_variants) (variants_for draw tc.protocol tc hint)
