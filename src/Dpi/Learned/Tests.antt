-- ===== src/Dpi/Learned/Tests.antt =====
-- The theorems on learned variants at concrete ones.
use dark_routev.Base.{In, [], none, refl, some, ◌∷◌, ◌≡◌}
use dark_routev.Base.Dict.{lookup}
use dark_routev.Config.{TunnelConfig}
use dark_routev.Dpi.Learned.{
  LearnedDb, get_candidates, load, rebuild_copy, rebuild_variant, record_success, save,
}
use dark_routev.Dpi.Learned.Laws.{get_candidates-record_success}
use dark_routev.Dpi.Learned.Restart.{load-save}
use dark_routev.Dpi.Learned.Params.{vless_rest, awg_rest, rebuild_variant_forgets}
use dark_routev.Samples.{vless_base, vless_variant, vless_variant-IsVariantOf, learned_entry}

abbrev known : LearnedDb
known = (vless_variant.id, learned_entry) ∷ []

get_candidates-record_success_example :
    (t : TunnelConfig) × In t
      (get_candidates vless_base.id vless_base (record_success vless_variant 9 []))
    × (t.id ≡ vless_variant.id)
unfolding lookup
get_candidates-record_success_example =
    get_candidates-record_success vless_base vless_variant 9 [] vless_variant-IsVariantOf tt
      (λ e h. cc)

load-save_example :
    (load (some (save known)) none ≡ known) × (load none (some (save known)) ≡ known)
unfolding lookup
load-save_example = load-save known none (refl, refl, tt)

rebuild_variant_forgets_example :
    ((rebuild_copy vless_base learned_entry).wire_guard_config ≡ vless_base.wire_guard_config)
    × (vless_rest (rebuild_copy vless_base learned_entry).vless_config
        ≡ vless_rest vless_base.vless_config)
    × (awg_rest (rebuild_copy vless_base learned_entry).amnezia_wg_config
        ≡ awg_rest vless_base.amnezia_wg_config)
unfolding rebuild_variant
rebuild_variant_forgets_example =
    rebuild_variant_forgets vless_base (rebuild_copy vless_base learned_entry) learned_entry refl
