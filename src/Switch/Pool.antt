-- ===== src/Switch/Pool.antt =====
-- The candidate pool, the parallel probe and its results. The goroutines of parallelProbe are run one
-- after the other, in the order of the candidates: each fills its own slot of the results.
pub mod Laws
use dark_routev.Base.{
  Bool, List, Option, String, [], codes, false, if◌then◌else◌, inl, inr, is_empty, is_some, itoa,
  ltb, none, not, some, str_eq, true, ℕ, ◌&&◌, ◌++◌, ◌+◌, ◌<>◌, ◌∷◌, ◌⊎◌,
}
use dark_routev.Config.{TunnelConfig, DpiSettings}
use dark_routev.Strategy.{select_variants}
use dark_routev.Dpi.{BlockType}
use dark_routev.Dpi.Variants.{generate_variants}
use dark_routev.Dpi.Learned.{LearnedDb, get_candidates}
use dark_routev.Advisor.Presets.{Preset, get_active}
use dark_routev.Advisor.Build.{BuildError, build_variant_from_recommendation}
use dark_routev.Advisor.Manager.{is_enabled}
use dark_routev.Tunnel.{Backend, for_config, fwmark, hash_from, signed_mod}
use dark_routev.Switch.{
  Engine, Outside, Effect, tunnel_up, tunnel_down, probe_all, record_probe_result, moment, emit,
}

-- `filterVariantsByProfile`
unfoldable pub filter_variants_by_profile :
    String → BlockType → String → ℕ → List TunnelConfig → List TunnelConfig
filter_variants_by_profile dpi_profile hint reason confidence variants =
    let named = if str_eq dpi_profile "" then "balanced" else dpi_profile in
    let profile = if ltb confidence 40 then "compat" else named in
    if is_empty variants then variants else select_variants profile reason hint confidence variants

-- `bc.DPI == nil || bc.DPI.AutoTune`
abbrev pub auto_tunes : Option DpiSettings → Bool
auto_tunes none = true
auto_tunes (some d) = d.auto_tune

learned_part : LearnedDb → List TunnelConfig → List TunnelConfig
learned_part db [] = []
learned_part db (bc ∷ more) = get_candidates bc.id bc db ++ learned_part db more

module _ (o : Outside) (hint : BlockType) (reason : String) (confidence : ℕ) (e : Engine) where
  fresh_of : TunnelConfig → List TunnelConfig
  fresh_of bc =
      if auto_tunes bc.dpi
      then filter_variants_by_profile e.cfg.dpi_profile hint reason confidence
          (generate_variants o.draw bc hint e.cfg.dpi_max_variants)
      else []

  fresh_part : List TunnelConfig → List TunnelConfig
  unfolding fresh_of
  fresh_part [] = []
  fresh_part (bc ∷ more) = fresh_of bc ++ fresh_part more

  preset_of : TunnelConfig → BuildError ⊎ TunnelConfig → List TunnelConfig → List TunnelConfig
  preset_of bc (inl err) pool = pool
  preset_of bc (inr v) pool = record v { id = bc.id <> ":dpi:ai:preset" } ∷ pool

  preset_for : TunnelConfig → Option Preset → List TunnelConfig → List TunnelConfig
  unfolding preset_of
  preset_for bc none pool = pool
  preset_for bc (some p) pool =
      preset_of bc (build_variant_from_recommendation bc p.recommendation) pool

  -- Each preset goes to the front of the pool.
  add_presets : ℕ → List TunnelConfig → List TunnelConfig → List TunnelConfig
  unfolding preset_for
  add_presets now [] pool = pool
  add_presets now (bc ∷ more) pool =
      add_presets now more (preset_for bc (get_active bc.id now e.presets) pool)

  -- The candidates of ProbeAndSwitch, before they are probed.
  unfoldable pub candidate_pool : List TunnelConfig → List TunnelConfig
  unfolding add_presets fresh_part learned_part
  candidate_pool bases =
      let plain =
        learned_part e.learned bases
        ++ bases
        ++ (if e.cfg.dpi_auto_tune then fresh_part bases else []) in
      if is_enabled e.ai then add_presets (o.clock (moment e)) bases plain else plain

-- The interface name under which a variant is probed.
unfoldable pub probe_interface : TunnelConfig → String
unfolding hash_from signed_mod codes itoa
probe_interface tc = "vw" <> itoa (signed_mod (hash_from 0 (codes tc.id)) 9000 + 1000)

-- The change of `InterfaceName` in probeConfig, which later steps see through the pointer.
unfoldable pub renamed : String → TunnelConfig → TunnelConfig
unfolding probe_interface
renamed active_id tc =
    if not (str_eq tc.id active_id) && tc.is_variant && not (str_eq tc.interface_name "")
    then record tc { interface_name = probe_interface tc }
    else tc

-- parallelProbeResult; `success` is `res.Success`.
pub record ProbeResult : Type 0 where
  pub tc : TunnelConfig
  pub success : Bool
  pub err : Option String

abbrev failed_with : TunnelConfig → String → ProbeResult
failed_with tc text = record { tc = tc; success = false; err = some text }

module _ (o : Outside) where
  probe_through : TunnelConfig → Engine → ProbeResult × Engine
  probe_through tc e = (
    record { tc = tc; success = o.probe (moment e) (fwmark tc); err = none },
    emit (probe_all (fwmark tc) ∷ []) e,
  )

  settle : TunnelConfig → Engine → ProbeResult × Engine
  unfolding probe_through
  settle tc e =
      if o.in_time (moment e)
      then probe_through tc e
      else (failed_with tc "context deadline exceeded", emit (tunnel_down tc ∷ []) e)

  started : TunnelConfig → Engine → Option String → ProbeResult × Engine
  unfolding settle
  started tc e (some text) = (failed_with tc text, e)
  started tc e none = settle tc e

  probe_on : String → TunnelConfig → Engine → Option Backend → ProbeResult × Engine
  unfolding started probe_through
  probe_on active_id tc e none = (failed_with tc "unsupported protocol", e)
  probe_on active_id tc e (some _) =
      if str_eq tc.id active_id
      then probe_through tc e
      else started tc (emit (tunnel_up tc ∷ []) e) (o.up (moment e) tc)

  -- `probeConfig`
  unfoldable pub probe_config : String → TunnelConfig → Engine → ProbeResult × Engine
  unfolding probe_on renamed
  probe_config active_id given e =
      let tc = renamed active_id given in probe_on active_id tc e (for_config tc)

  -- `parallelProbe`
  unfoldable pub parallel_probe : String → List TunnelConfig → Engine → List ProbeResult × Engine
  parallel_probe active_id [] e = ([], e)
  parallel_probe active_id (tc ∷ more) e =
      let (r, next) = probe_config active_id tc e in
      let (rs, last) = parallel_probe active_id more next in (r ∷ rs, last)

-- The tunnels that are taken down after the probe.
unfoldable pub teardown : String → List ProbeResult → List Effect
teardown active_id [] = []
teardown active_id (r ∷ rs) =
    if not (is_some r.err) && not (str_eq r.tc.id active_id) && is_some (for_config r.tc)
    then tunnel_down r.tc ∷ teardown active_id rs
    else teardown active_id rs

unfoldable pub score_results : List ProbeResult → List Effect
score_results [] = []
score_results (r ∷ rs) =
    if is_some r.err
    then score_results rs
    else record_probe_result r.tc.id r.success ∷ score_results rs

unfoldable pub viable_of : List ProbeResult → List TunnelConfig
viable_of [] = []
viable_of (r ∷ rs) = if not (is_some r.err) && r.success then r.tc ∷ viable_of rs else viable_of rs
