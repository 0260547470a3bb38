-- ===== src/Dpi/Variants/Tests.antt =====
-- The theorems on the generated variants at concrete configurations.
use dark_routev.Base.{All}
use dark_routev.Dpi.{block_tls}
use dark_routev.Dpi.Variants.{generate_variants}
use dark_routev.Dpi.Variants.Derived.{IsVariantOf}
use dark_routev.Dpi.Variants.Laws.{generate_variants-IsVariantOf}
use dark_routev.Samples.{vless_base}

generate_variants-IsVariantOf_example :
    All (IsVariantOf vless_base) (generate_variants (λ k. k) vless_base block_tls 4)
generate_variants-IsVariantOf_example =
    generate_variants-IsVariantOf (λ k. k) vless_base block_tls 4
