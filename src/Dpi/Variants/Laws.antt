-- ===== src/Dpi/Variants/Laws.antt =====
-- What GenerateVariants promises for every base, hint and random source.
use dark_routev.Base.{All, All-take, arith, if◌then◌else◌, length, length-take, ℕ, ◌==◌, ◌≤◌}
use dark_routev.Config.{
  Protocol, wire_guard, amnezia_wg, vless_protocol, other_protocol, TunnelConfig,
}
use dark_routev.Dpi.{BlockType}
use dark_routev.Dpi.Variants.{variants_for, generate_variants}
use dark_routev.Dpi.Variants.Derived.{IsVariantOf, Derived}
use dark_routev.Dpi.Variants.Wire.Laws.{wg_variants-Derived, awg_variants-Derived}
use dark_routev.Dpi.Variants.Vless.Laws.{vless_variants-Derived}

variants_for-Derived :
    (draw : ℕ → ℕ) (p : Protocol) (tc : TunnelConfig) (hint : BlockType)
    → Derived tc (variants_for draw p tc hint)
unfolding variants_for
variants_for-Derived draw wire_guard tc hint = wg_variants-Derived tc hint
variants_for-Derived draw amnezia_wg tc hint = awg_variants-Derived tc draw hint
variants_for-Derived draw vless_protocol tc hint = vless_variants-Derived tc hint
variants_for-Derived draw (other_protocol p) tc hint = tt

-- Every generated configuration is marked as a variant, names its base, has an ID of the form
-- `<base-id>:dpi:<suffix>`, and keeps the protocol, the routing table, the interface and the keys
-- of the base, whatever the hint and the random numbers are.
pub generate_variants-IsVariantOf :
    (draw : ℕ → ℕ) (tc : TunnelConfig) (hint : BlockType) (max_variants : ℕ)
    → All (IsVariantOf tc) (generate_variants draw tc hint max_variants)
unfolding generate_variants
generate_variants-IsVariantOf draw tc hint max_variants =
    All-take (IsVariantOf tc) _ _ (variants_for-Derived draw tc.protocol tc hint)

-- At most `max_variants` configurations are generated, and at most eight where that is zero.
pub length-generate_variants :
    (draw : ℕ → ℕ) (tc : TunnelConfig) (hint : BlockType) (max_variants : ℕ)
    → length (generate_variants draw tc hint max_variants)
      ≤ (if max_variants == 0 then 8 else max_variants)
unfolding generate_variants
length-generate_variants draw tc hint max_variants = ground (
  arith,
  length-take (if max_variants == 0 then 8 else max_variants)
      (variants_for draw tc.protocol tc hint),
)
