-- ===== src/Switch/Apply.antt =====
-- The application of the ranked candidates, and ProbeAndSwitch.
pub mod Laws
pub mod Effects
pub mod Traces
use dark_routev.Base.{
  Bool, List, Option, String, [], codes, false, if◌then◌else◌, inl, inr, is_empty, is_some, leb,
  ltb, none, some, str_eq, suc, true, ℕ, ◌%◌, ◌++◌, ◌+◌, ◌==◌, ◌^◌, ◌∷◌,
}
use dark_routev.Config.{TunnelConfig}
use dark_routev.Machine.{enter_switching, switch_failed, switch_succeeded}
use dark_routev.Dpi.{BlockType, block_name, is_block_none, DetectionResult}
use dark_routev.Dpi.Learned as Learned
use dark_routev.Advisor.{Recommendation}
use dark_routev.Advisor.Attempts as Attempts
use dark_routev.Advisor.Presets.{save_preset, mark_success, mark_failure}
use dark_routev.Advisor.Manager.{Answer, is_enabled, recommend}
use dark_routev.Tunnel.{Backend, for_config, fwmark, hash_from, signed_mod}
use dark_routev.Switch.{
  Engine, Outside, Effect, tunnel_up, tunnel_down, policy_apply, policy_clear, probe_all,
  record_session, record_dpi_result, moment, emit,
}
use dark_routev.Switch.Pool.{
  ProbeResult, candidate_pool, parallel_probe, teardown, score_results, viable_of,
}

-- `fwmarkFor`
unfoldable pub fwmark_for : TunnelConfig → ℕ
unfolding hash_from signed_mod codes
fwmark_for tc =
    if ltb 0 tc.routing_table_id
    then tc.routing_table_id % 2 ^ 32
    else (100 + signed_mod (hash_from 0 (codes tc.id)) 100) % 2 ^ 32

-- `recordAttempt`
unfoldable pub record_attempt :
    Outside → TunnelConfig → String → Bool → String → BlockType → String → Engine → Engine
record_attempt o tc stage success summary hint reason e = record e {
  ai = record (e.ai) {
    attempts =
        Attempts.add
          (record {
            timestamp = o.clock (moment e);
            config_id = tc.id;
            base_config_id = if str_eq tc.base_config_id "" then tc.id else tc.base_config_id;
            variant_id = tc.id;
            reason_code = reason;
            block_type = block_name hint;
            profile = e.cfg.dpi_profile;
            stage = stage;
            success = success;
            error_summary = summary;
          })
          e.ai.attempts;
  };
}

-- `if dpiHint != dpi.BlockNone { e.db.RecordDPIResult(...) }`
abbrev pub dpi_outcome : TunnelConfig → BlockType → Bool → List Effect
dpi_outcome tc hint success =
    if is_block_none hint then [] else record_dpi_result tc.id (block_name hint) success ∷ []

-- `if maxAttempts <= 0 { maxAttempts = 3 }`
abbrev pub attempt_limit : Engine → ℕ
attempt_limit e = if e.cfg.max_switch_attempts == 0 then 3 else e.cfg.max_switch_attempts

module _ (o : Outside) where
  brought_up : TunnelConfig → Engine → Option String → Option String × Engine
  brought_up tc e (some text) = (some text, emit (tunnel_up tc ∷ []) e)
  brought_up tc e none = (none, emit (tunnel_up tc ∷ policy_apply (fwmark tc) ∷ []) e)

  apply_on : TunnelConfig → Engine → Option Backend → Option String × Engine
  unfolding brought_up
  apply_on tc e none = (some "unsupported protocol", e)
  apply_on tc e (some _) = brought_up tc e (o.up (moment e) tc)

  -- `apply`: the error of the policy is only logged.
  unfoldable pub apply : TunnelConfig → Engine → Option String × Engine
  unfolding apply_on
  apply tc e = apply_on tc e (for_config tc)

  -- `verify`
  unfoldable pub verify : Engine → Bool × Engine
  verify e =
      if o.in_time (moment e) then (o.probe (moment e) 0, emit (probe_all 0 ∷ []) e) else (false, e)

  module _ (hint : BlockType) (reason : String) (max_attempts : ℕ) where
    fail_machine : Engine → Engine
    fail_machine e = record e { machine = (switch_failed max_attempts e.machine).0 }

    -- After a failed apply
    apply_failed : TunnelConfig → String → Engine → Engine
    unfolding fail_machine
    apply_failed tc text e = record_attempt o tc "apply" false text hint reason (
        fail_machine (
          emit
            ((record_session tc.id false ∷ [])
              ++ dpi_outcome tc hint false
              ++ (policy_clear (fwmark_for tc) ∷ []))
            e))

    -- After a failed verification
    verify_failed : TunnelConfig → Engine → Engine
    unfolding fail_machine
    verify_failed tc e = record_attempt o tc "verify" false "verify failed" hint reason (
        fail_machine (
          emit
            ((if is_some (for_config tc) then tunnel_down tc ∷ [] else [])
              ++ ((policy_clear (fwmark_for tc) ∷ record_session tc.id false ∷ [])
                  ++ dpi_outcome tc hint false))
            e))

    succeeded : TunnelConfig → Engine → Engine
    succeeded tc e =
        let scored = emit ((record_session tc.id true ∷ []) ++ dpi_outcome tc hint true) e in
        let switched = record scored {
          learned = Learned.record_success tc (o.clock (moment scored)) e.learned;
          machine = switch_succeeded tc.id (o.clock (moment scored)) e.machine;
        } in
        let logged = record_attempt o tc "verify" true "" hint reason switched in
        record logged {
          presets = if is_enabled e.ai then mark_success tc.base_config_id e.presets else e.presets;
        }

    verified : TunnelConfig → Bool × Engine → Bool × Engine
    unfolding succeeded verify_failed
    verified tc (true, e) = (true, succeeded tc e)
    verified tc (false, e) = (false, verify_failed tc e)

    applied : TunnelConfig → Option String × Engine → Bool × Engine
    unfolding apply_failed verified
    applied tc (some text, e) = (false, apply_failed tc text e)
    applied tc (none, e) = verified tc (verify e)

    -- One round of the loop: whether the configuration was applied.
    unfoldable pub try_config : TunnelConfig → Engine → Bool × Engine
    unfolding applied
    try_config tc e = applied tc (apply tc (record e { machine = enter_switching tc.id e.machine }))

    -- The loop from its round `i` on; "" where no configuration was applied.
    unfoldable pub try_from : ℕ → List TunnelConfig → Engine → String × Engine
    try_from i [] e = ("", e)
    try_from i (tc ∷ more) e =
        let (ok, next) = try_config tc e in
        let later = try_from (suc i) more next in
        if leb max_attempts i then ("", e) else if ok then (tc.id, next) else later

  module _ (hint : BlockType) (reason : String) (confidence : ℕ) (active_id : String) where
    -- The probe of the advised variant
    advised : TunnelConfig → Recommendation → List ProbeResult × Engine → List TunnelConfig × Engine
    advised v rec (rs, e) =
        if is_empty (viable_of rs)
        then (
          [],
          record e {
            presets =
                mark_failure rec.base_config_id "ai_probe_failed" 1800000000000 (o.clock (moment e))
                  e.presets;
          },
        )
        else (
          viable_of rs,
          record e {
            presets =
                save_preset rec.base_config_id rec e.cfg.ai_advisor.preset_ttl (o.clock (moment e))
                  e.presets;
          },
        )

    consult : Engine → Answer → List TunnelConfig × Engine
    unfolding advised
    consult e (inl err) = ([], e)
    consult e (inr (v, rec)) = advised v rec (parallel_probe o active_id (v ∷ []) e)

    -- What is asked of the advisor if no candidate is viable
    ask_advisor : List TunnelConfig → Engine → List TunnelConfig × Engine
    unfolding consult
    ask_advisor bases e =
        let asked : DetectionResult = record {
          block_type = hint;
          reason_code = reason;
          confidence = confidence;
          evidence = [];
          stage_results = [];
          tested_at = 0;
        } in
        let (answer, ai) =
          recommend o.analyze o.reject_text (o.clock (moment e)) asked bases e.ai in
        if is_enabled e.ai then consult (record e { ai = ai }) answer else ([], e)

    -- The viable configurations, after the probe, and the advice if there are none
    unfoldable pub viable_candidates : List TunnelConfig → Engine → List TunnelConfig × Engine
    unfolding ask_advisor
    viable_candidates bases e =
        let (rs, probed) =
          parallel_probe o active_id (candidate_pool o hint reason confidence e bases) e in
        let scored = emit (teardown active_id rs ++ score_results rs) probed in
        if is_empty (viable_of rs) then ask_advisor bases scored else (viable_of rs, scored)

    -- `ProbeAndSwitch`: the ID that was applied, or ""
    unfoldable pub probe_and_switch : List TunnelConfig → Engine → String × Engine
    probe_and_switch [] e = ("", e)
    probe_and_switch (bc ∷ bases) e =
        let (viable, ready) = viable_candidates (bc ∷ bases) e in
        if is_empty viable
        then ("", ready)
        else try_from hint reason (attempt_limit ready) 0 (o.rank viable) ready
