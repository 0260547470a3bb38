-- ===== src/Watchdog.antt =====
-- daemon/internal/watchdog/watchdog.go: the main loop. One tick is a function of the machine's state;
-- the detection is a parameter, and the probes and the backends are those of the engine's `Outside`.
pub mod Laws
pub mod Run
mod Tests
use dark_routev.Base.{
  Bool, List, [], false, if◌then◌else◌, is_empty, ltb, str_eq, true, ℕ, ◌&&◌, ◌*◌, ◌∷◌,
}
use dark_routev.Config.{DaemonConfig, TunnelConfig, second}
use dark_routev.Config.Store.{ConfigFile, load_all}
use dark_routev.Machine.{
  State, healthy, degraded, probing, switching, other_state, Machine, record_success,
  record_failure, in_cooldown,
}
use dark_routev.Dpi.{BlockType, block_none, DetectionResult}
use dark_routev.Switch.{Engine, Outside, probe_all, moment, emit}
use dark_routev.Switch.Apply.{probe_and_switch}

-- The fields that change; `engine` holds the state machine, the learned variants and the settings.
pub record Watchdog : Type 0 where
  pub engine : Engine
  pub last_dpi_result : DetectionResult
  pub last_state_was_probing : Bool

abbrev pub machine_of : Watchdog → Machine
machine_of w = w.engine.machine

abbrev pub with_machine : Machine → Watchdog → Watchdog
with_machine m w = record w { engine = record (w.engine) { machine = m } }

-- `dpiResult.Confidence < 0.6`, in hundredths
abbrev pub hint_of : DetectionResult → BlockType
hint_of r = if ltb r.confidence 60 then block_none else r.block_type

abbrev is_healthy : State → Bool
is_healthy healthy = true
is_healthy _ = false

-- Which files the configuration directory holds at a tick, and what `dpi.Detect` finds
module _ (o : Outside) (files : ℕ → List ConfigFile) (detect : ℕ → DetectionResult) where
  -- A healthy machine that is in its cooldown
  abbrev pub is_cooling : Watchdog → Bool
  is_cooling w =
      is_healthy (machine_of w).current
      && in_cooldown w.engine.cfg.post_switch_cooldown (o.clock (moment w.engine)) (machine_of w)

  probe_outcome : Watchdog → Bool → Watchdog
  probe_outcome w true = record (with_machine (record_success (machine_of w)) w) {
    last_state_was_probing = false;
  }
  probe_outcome w false =
      with_machine
        (record_failure w.engine.cfg.degraded_threshold w.engine.cfg.probing_threshold
          (machine_of w))
        w

  -- `doProbe`
  unfoldable pub do_probe : Watchdog → Watchdog
  unfolding probe_outcome
  do_probe w =
      if is_cooling w
      then w
      else probe_outcome (record w { engine = emit (probe_all 0 ∷ []) w.engine })
          (o.probe (moment w.engine) 0)

  -- The detection, once for each entry into PROBING
  unfoldable pub detected : Watchdog → Watchdog
  detected w =
      if w.last_state_was_probing
      then w
      else record w { last_dpi_result = detect (moment w.engine); last_state_was_probing = true }

  switch_with : List TunnelConfig → Watchdog → Watchdog
  switch_with candidates w =
      let dpi = w.last_dpi_result in
      let (applied, engine) =
        probe_and_switch o (hint_of dpi) dpi.reason_code dpi.confidence
          (machine_of w).active_config_id candidates w.engine in
      record w {
        engine = engine;
        last_state_was_probing = if str_eq applied "" then w.last_state_was_probing else false;
      }

  -- `doSwitch`
  unfoldable pub do_switch : Watchdog → Watchdog
  unfolding switch_with
  do_switch w =
      let candidates = load_all (files (moment w.engine)) in
      if is_empty candidates then w else switch_with candidates (detected w)

  tick_in : State → Watchdog → Watchdog
  tick_in healthy w = do_probe w
  tick_in degraded w = do_probe w
  tick_in probing w = do_switch w
  tick_in switching w = w
  tick_in (other_state _) w = w

  -- `tick`
  unfoldable pub tick : Watchdog → Watchdog
  unfolding tick_in
  tick w = tick_in (machine_of w).current w

-- `probeInterval`
unfoldable pub probe_interval : DaemonConfig → State → ℕ
probe_interval cfg degraded = cfg.probe_interval_degraded
probe_interval cfg probing = 5 * second
probe_interval cfg switching = 5 * second
probe_interval cfg healthy = cfg.probe_interval_healthy
probe_interval cfg (other_state _) = cfg.probe_interval_healthy
