-- ===== src/Switch/Apply/Laws.antt =====
-- What a call of ProbeAndSwitch does to the state machine.
use dark_routev.Base.{
  Bool, In, List, Option, String, [], ap, arith, false, if_ind, if◌then◌else◌, inl, inr, is_empty,
  leb, none, refl, some, subst, suc, true, ℕ, ◌++◌, ◌∙◌, ◌∷◌, ◌≡◌, ◌⊎◌,
}
use dark_routev.Config.{DaemonConfig, TunnelConfig}
use dark_routev.Machine.{
  healthy, probing, Machine, enter_switching, switch_failed, switch_succeeded,
}
use dark_routev.Dpi.{BlockType}
use dark_routev.Tunnel.{Backend, for_config, fwmark, fwmark_for_table, routing_table_id}
use dark_routev.Switch.{Engine, Outside, moment, emit}
use dark_routev.Switch.Pool.{
  ProbeResult, teardown, score_results, candidate_pool, parallel_probe, viable_of,
}
use dark_routev.Switch.Pool.Laws.{settled_part, parallel_probe-settled}
use dark_routev.Switch.Apply.{
  fwmark_for, record_attempt, apply, apply_on, brought_up, verify, verified, applied, apply_failed,
  verify_failed, succeeded, fail_machine, try_config, try_from, attempt_limit, advised, consult,
  ask_advisor, viable_candidates, probe_and_switch,
}
use dark_routev.Advisor.{Recommendation}
use dark_routev.Advisor.Manager.{Answer, is_enabled}

-- The mark whose policy the engine clears is the mark that the backends use for the configuration.
pub fwmark_for-fwmark : (tc : TunnelConfig) → fwmark_for tc ≡ fwmark tc
unfolding fwmark_for fwmark fwmark_for_table routing_table_id
fwmark_for-fwmark tc = ground arith

-- The machine serves the configuration.
pub record Serves (id : String) (m : Machine) : Type 0 where
  pub is_healthy : m.current ≡ healthy
  pub is_active : m.active_config_id ≡ id
  pub no_fails : m.consecutive_fails ≡ 0
  pub no_attempts : m.switch_attempts ≡ 0

-- The machine waits for the next round, with the configuration that was active before.
pub record Waits (before m : Machine) : Type 0 where
  pub is_probing : m.current ≡ probing
  pub kept_active : m.active_config_id ≡ before.active_config_id
  pub kept_time : m.last_switch ≡ before.last_switch

-- What the loop does, from the configurations it may apply
abbrev pub LoopDone : List TunnelConfig → Machine → String × Engine → Type 0
LoopDone tcs before r =
    ((tc : TunnelConfig) × In tc tcs × (r.0 ≡ tc.id) × Serves r.0 r.1.machine)
    ⊎ ((r.0 ≡ "") × ((r.1.machine ≡ before) ⊎ Waits before r.1.machine))

module _ (o : Outside) (hint : BlockType) (reason : String) (max_attempts : ℕ) where
  -- What one round does
  abbrev RoundDone : TunnelConfig → Machine → Bool × Engine → Type 0
  RoundDone tc before (true, e) = Serves tc.id e.machine
  RoundDone tc before (false, e) = Waits before e.machine

  abbrev Entered : Machine → Machine → Type 0
  Entered before m =
      (m.active_config_id ≡ before.active_config_id) × (m.last_switch ≡ before.last_switch)

  fail_machine-Waits :
      (before : Machine) (e : Engine)
      → Entered before e.machine
      → Waits before (fail_machine o hint reason max_attempts e).machine
  unfolding fail_machine switch_failed
  fail_machine-Waits before e h = record {
    is_probing = ground arith;
    kept_active = ground (arith, h);
    kept_time = ground (arith, h);
  }

  verified-RoundDone :
      (tc : TunnelConfig) (before : Machine) (r : Bool × Engine)
      → Entered before r.1.machine
      → RoundDone tc before (verified o hint reason max_attempts tc r)
  unfolding verified succeeded verify_failed record_attempt switch_succeeded
  verified-RoundDone tc before (true, e) h = record {
    is_healthy = ground arith;
    is_active = ground arith;
    no_fails = ground arith;
    no_attempts = ground arith;
  }
  verified-RoundDone tc before (false, e) h = fail_machine-Waits before e h

  verify-machine : (e : Engine) → (verify o e).1.machine ≡ e.machine
  unfolding verify
  verify-machine e = ground arith

  brought_up-machine :
      (tc : TunnelConfig) (e : Engine) (r : Option String)
      → (brought_up o tc e r).1.machine ≡ e.machine
  unfolding brought_up
  brought_up-machine tc e (some text) = refl
  brought_up-machine tc e none = refl

  apply_on-machine :
      (tc : TunnelConfig) (e : Engine) (b : Option Backend)
      → (apply_on o tc e b).1.machine ≡ e.machine
  unfolding apply_on
  apply_on-machine tc e none = refl
  apply_on-machine tc e (some b) = brought_up-machine tc e (o.up (moment e) tc)

  apply-machine : (tc : TunnelConfig) (e : Engine) → (apply o tc e).1.machine ≡ e.machine
  unfolding apply
  apply-machine tc e = apply_on-machine tc e (for_config tc)

  applied-RoundDone :
      (tc : TunnelConfig) (before : Machine) (r : Option String × Engine)
      → Entered before r.1.machine
      → RoundDone tc before (applied o hint reason max_attempts tc r)
  unfolding applied apply_failed record_attempt
  applied-RoundDone tc before (some text, e) h = fail_machine-Waits before e h
  applied-RoundDone tc before (none, e) h =
      verified-RoundDone tc before (verify o e) (rw (verify-machine e) h)

  try_config-RoundDone :
      (tc : TunnelConfig) (e : Engine)
      → RoundDone tc e.machine (try_config o hint reason max_attempts tc e)
  unfolding try_config enter_switching
  try_config-RoundDone tc e =
      let entered : Engine = record e { machine = enter_switching tc.id e.machine } in
      applied-RoundDone tc e.machine (apply o tc entered)
        (rw (apply-machine tc entered) (ground arith))

  Waits-trans : (a b c : Machine) → Waits a b → (c ≡ b) ⊎ Waits b c → Waits a c
  Waits-trans a b c w (inl same) = rw same w
  Waits-trans a b c w (inr v) = record {
    is_probing = v.is_probing;
    kept_active = v.kept_active ∙ w.kept_active;
    kept_time = v.kept_time ∙ w.kept_time;
  }

  later_done :
      (tc : TunnelConfig) (more : List TunnelConfig) (a b : Machine) (r : String × Engine)
      → Waits a b
      → LoopDone more b r
      → LoopDone (tc ∷ more) a r
  later_done tc more a b (id, e) w (inl (x, i, q, s)) = inl (x, inr i, q, s)
  later_done tc more a b (id, e) w (inr (none_applied, m)) =
      inr (none_applied, inr (Waits-trans a b e.machine w m))

  step_done :
      (tc : TunnelConfig) (more : List TunnelConfig) (before : Machine) (r : Bool × Engine)
      (later : String × Engine)
      → RoundDone tc before r
      → LoopDone more r.1.machine later
      → LoopDone (tc ∷ more) before (if r.0 then (tc.id, r.1) else later)
  step_done tc more before (true, e) later d l = inl (tc, inl refl, refl, d)
  step_done tc more before (false, e) later d l = later_done tc more before e.machine later d l

  -- The loop either applies one of the configurations, which the machine then serves, or it applies
  -- none; then the machine is as before, or in PROBING with the active configuration as before.
  pub try_from-LoopDone :
      (i : ℕ) (tcs : List TunnelConfig) (e : Engine)
      → LoopDone tcs e.machine (try_from o hint reason max_attempts i tcs e)
  unfolding try_from
  try_from-LoopDone i [] e = inr (refl, inl refl)
  try_from-LoopDone i (tc ∷ more) e =
      let r : Bool × Engine = try_config o hint reason max_attempts tc e in
      if_ind (LoopDone (tc ∷ more) e.machine) (leb max_attempts i) ("", e) _
        (λ _. inr (refl, inl refl))
        (λ _.
          step_done tc more e.machine r (try_from o hint reason max_attempts (suc i) more r.1)
            (try_config-RoundDone tc e) (try_from-LoopDone (suc i) more r.1))

module _ (o : Outside) (hint : BlockType) (reason : String) (confidence : ℕ)
    (active_id : String) where
  advised-settled :
      (v : TunnelConfig) (rec : Recommendation) (r : List ProbeResult × Engine)
      → settled_part (advised o hint reason confidence active_id v rec r).1 ≡ settled_part r.1
  unfolding advised
  advised-settled v rec (rs, e) =
      if_ind (λ (r : List TunnelConfig × Engine). settled_part r.1 ≡ settled_part e)
        (is_empty (viable_of rs)) _ _ (λ _. refl) (λ _. refl)

  consult-settled :
      (e : Engine) (a : Answer)
      → settled_part (consult o hint reason confidence active_id e a).1 ≡ settled_part e
  unfolding consult
  consult-settled e (inl err) = refl
  consult-settled e (inr (v, rec)) =
      advised-settled v rec (parallel_probe o active_id (v ∷ []) e)
      ∙ parallel_probe-settled o active_id (v ∷ []) e

  ask_advisor-settled :
      (bases : List TunnelConfig) (e : Engine)
      → settled_part (ask_advisor o hint reason confidence active_id bases e).1 ≡ settled_part e
  unfolding ask_advisor
  ask_advisor-settled bases e =
      if_ind (λ (r : List TunnelConfig × Engine). settled_part r.1 ≡ settled_part e)
        (is_enabled e.ai) _ _ (λ _. consult-settled _ _) (λ _. refl)

  viable_candidates-settled :
      (bases : List TunnelConfig) (e : Engine)
      → settled_part (viable_candidates o hint reason confidence active_id bases e).1
        ≡ settled_part e
  unfolding viable_candidates
  viable_candidates-settled bases e =
      let pool : List TunnelConfig = candidate_pool o hint reason confidence e bases in
      let r : List ProbeResult × Engine = parallel_probe o active_id pool e in
      let scored : Engine = emit (teardown active_id r.0 ++ score_results r.0) r.1 in
      let probed = parallel_probe-settled o active_id pool e in
      if_ind (λ (r : List TunnelConfig × Engine). settled_part r.1 ≡ settled_part e)
        (is_empty (viable_of r.0)) _ _ (λ _. ask_advisor-settled bases scored ∙ probed)
        (λ _. probed)

  finished :
      (tcs : List TunnelConfig) (before : Machine) (ready : Engine) (b : Bool)
      → ready.machine ≡ before
      → LoopDone tcs before
          (if b then ("", ready) else try_from o hint reason (attempt_limit ready) 0 tcs ready)
  finished tcs before ready true m = inr (refl, inl m)
  finished tcs before ready false m =
      subst (λ x. LoopDone tcs x (try_from o hint reason (attempt_limit ready) 0 tcs ready)) m
        (try_from-LoopDone o hint reason (attempt_limit ready) 0 tcs ready)

  -- One call of ProbeAndSwitch: if it answers an ID, that is the ID of a configuration the ranking
  -- returned for the viable ones, and the machine is HEALTHY with that ID active and cleared
  -- counters. Otherwise it answers the empty text, and the machine is as before the call, or in
  -- PROBING with the active configuration and the time of the last switch as before.
  pub probe_and_switch_done :
      (bases : List TunnelConfig) (e : Engine)
      → let viable = (viable_candidates o hint reason confidence active_id bases e).0 in
        LoopDone
          (o.rank viable)
          e.machine
          (probe_and_switch o hint reason confidence active_id bases e)
  unfolding probe_and_switch
  probe_and_switch_done [] e = inr (refl, inl refl)
  probe_and_switch_done (bc ∷ bases) e =
      let r = viable_candidates o hint reason confidence active_id (bc ∷ bases) e in
      finished (o.rank r.0) e.machine r.1 (is_empty r.0)
        (ap (λ (s : Machine × DaemonConfig). s.0) (viable_candidates-settled (bc ∷ bases) e))
