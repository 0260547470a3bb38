-- ===== src/Watchdog/Run.antt =====
-- daemon/internal/watchdog/watchdog.go: Run, as a function of the events that its `select` meets, and
-- the reload of the settings on SIGHUP.
pub mod Laws
mod Tests
use dark_routev.Base.{List, Option, [], if◌then◌else◌, none, some, ℕ, ◌==◌, ◌∷◌}
use dark_routev.Config.{DaemonConfig}
use dark_routev.Config.Store.{ConfigFile}
use dark_routev.Config.Uci.Daemon.{Uci, load_daemon_config}
use dark_routev.Dpi.{DetectionResult}
use dark_routev.Advisor.{AttemptEntry}
use dark_routev.Advisor.Attempts.{new_attempt_log}
use dark_routev.Advisor.Presets.{PresetStore}
use dark_routev.Advisor.Manager.{new_manager}
use dark_routev.Switch.{Outside, Engine, moment}
use dark_routev.Watchdog.{Watchdog, machine_of, probe_interval, tick}

-- The ticker, SIGHUP, SIGTERM or SIGINT, and the end of the context
pub data Event : Type 0 where
  ticked hung_up terminated cancelled : Event

-- How the loop stands after the events: it waits for the next, has returned nil or the error of the
-- context, or has panicked.
pub data Standing : Type 0 where
  waiting returned_nil returned_error panicked : Standing

-- What UCI, the log of attempts and the file of presets hold at a moment
pub record Storage : Type 0 where
  pub uci : ℕ → Uci
  pub attempts : ℕ → List AttemptEntry
  pub presets : ℕ → PresetStore

module _ (o : Outside) (files : ℕ → List ConfigFile) (detect : ℕ → DetectionResult)
    (s : Storage) where
  -- `switcher.New`, with the database of scores and the machine of before
  unfoldable pub new_engine : DaemonConfig → Engine → Engine
  new_engine cfg e =
      let now = moment e in
      record e {
        cfg = cfg;
        ai = new_manager cfg.ai_advisor (new_attempt_log (s.attempts now) 300) (o.clock now);
        presets = s.presets now;
      }

  reload_with : Option DaemonConfig → Watchdog → Option Watchdog
  unfolding new_engine
  reload_with none w = none
  reload_with (some cfg) w = some (record w { engine = new_engine cfg w.engine })

  -- `reload`; `none` is a panic in the reading of the settings.
  unfoldable pub reload : Watchdog → Option Watchdog
  unfolding reload_with
  reload w = reload_with (load_daemon_config (s.uci (moment w.engine))) w

  -- The loop, with the field `cfg` of the watchdog, which only `reload` assigns. `ticker.Reset` panics
  -- for an interval that is not positive.
  loop : DaemonConfig → List Event → Watchdog → Standing × Watchdog
  loop cfg [] w = (waiting, w)
  loop cfg (ticked ∷ es) w =
      let next = tick o files detect w in
      let rest = loop cfg es next in
      if probe_interval cfg (machine_of next).current == 0 then (panicked, next) else rest
  loop cfg (hung_up ∷ es) w = elim (reload w) [
    | none ↦ (panicked, w)
    | some next ↦ loop next.engine.cfg es next
  ]
  loop cfg (terminated ∷ es) w = (returned_nil, w)
  loop cfg (cancelled ∷ es) w = (returned_error, w)

  -- `Run`; so does `time.NewTicker`.
  unfoldable pub run : List Event → Watchdog → Standing × Watchdog
  unfolding loop
  run es w =
      let rest = loop w.engine.cfg es w in
      if probe_interval w.engine.cfg (machine_of w).current == 0 then (panicked, w) else rest
