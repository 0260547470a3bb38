-- ===== src/Strategy/Tests.antt =====
-- The theorems on the selection at concrete variants.
use dark_routev.Base.{All, List, [], arith, contains, refl, true, ◌∷◌, ◌≡◌}
use dark_routev.Config.{TunnelConfig, ids}
use dark_routev.Dpi.{block_tls}
use dark_routev.Strategy.{match_by_pattern, select_variants}
use dark_routev.Strategy.Laws.{Distinct}
use dark_routev.Strategy.Distinctness.{select_variants-Distinct}
use dark_routev.Strategy.Coverage.{Holds, select_variants_aggressive, select_variants_low}
use dark_routev.Samples.{vless_variant, mtu_variant}

abbrev variants : List TunnelConfig
variants = vless_variant ∷ mtu_variant ∷ vless_variant ∷ []

select_variants-Distinct_example :
    Distinct (ids (select_variants "" "tls_reset" block_tls 80 variants))
select_variants-Distinct_example = select_variants-Distinct "" "tls_reset" block_tls 80 variants

select_variants_aggressive_example :
    All (Holds (select_variants "aggressive" "tls_reset" block_tls 80 variants)) variants
select_variants_aggressive_example =
    select_variants_aggressive "tls_reset" block_tls 80 variants (omega arith)

select_variants_low_example :
    All
      (λ v. contains v.id ":dpi:mtu" ≡ true)
      (select_variants "balanced" "tls_reset" block_tls 10 variants)
unfolding match_by_pattern
select_variants_low_example =
    select_variants_low "balanced" "tls_reset" block_tls 10 variants (omega arith) refl refl
