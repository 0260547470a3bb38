-- ===== src/Watchdog/Run/Laws.antt =====
-- daemon/internal/watchdog/watchdog.go, Run: the loop over any events, with reloads.
use dark_routev.Base.{
  Bool, List, Option, Option-cases, String, [], arith, false, inl, inr, is_some, none, refl, some,
  subst, sym, true, ℕ, ◌<◌, ◌==◌, ◌∙◌, ◌∷◌, ◌≡◌,
}
use dark_routev.Config.{DaemonConfig}
use dark_routev.Config.Store.{ConfigFile}
use dark_routev.Config.Uci.{load_uci_probe_targets}
use dark_routev.Config.Uci.Laws.{all_good, load_uci_probe_targets-all_good}
use dark_routev.Config.Uci.Daemon.{Uci, load_daemon_config}
use dark_routev.Dpi.{DetectionResult}
use dark_routev.Machine.{State, healthy, degraded, probing, switching, other_state}
use dark_routev.Machine.Resting.{IsResting}
use dark_routev.Switch.{Outside, moment}
use dark_routev.Watchdog.{Watchdog, tick, machine_of, probe_interval}
use dark_routev.Watchdog.Laws.{tick-TickDone}
use dark_routev.Watchdog.Run.{
  Event, ticked, hung_up, terminated, cancelled, Standing, panicked, Storage, reload, reload_with,
  new_engine, loop, run,
}

-- The targets that UCI shows can be read: there are none, or every line of them has its field.
abbrev pub is_readable : Uci → Bool
is_readable uci = elim uci.show [ none ↦ true | some lines ↦ all_good lines ]

shown_targets :
    (uci : Uci) (show : Option (List String))
    → elim show [ none ↦ true | some lines ↦ all_good lines ] ≡ true
    → is_some (load_uci_probe_targets uci.atoi show) ≡ true
unfolding load_uci_probe_targets
shown_targets uci none r = refl
shown_targets uci (some lines) r = load_uci_probe_targets-all_good uci.atoi lines ∙ r

loaded : (uci : Uci) → is_readable uci ≡ true → is_some (load_daemon_config uci) ≡ true
unfolding load_daemon_config
loaded uci r =
    let t = shown_targets uci uci.show r in
    elim (Option-cases (load_uci_probe_targets uci.atoi uci.show)) [
      | inl e ↦ ground (arith, t, e)
      | inr (ts, e) ↦ rw e refl
    ]

abbrev pub has_panicked : Standing → Bool
has_panicked panicked = true
has_panicked _ = false

-- The loop rests in a state that ticks act on, and has not panicked.
abbrev pub RunDone : Standing × Watchdog → Type 0
RunDone (st, w) = IsResting (machine_of w).current × (has_panicked st ≡ false)

-- The intervals between probes are positive.
abbrev pub HasIntervals : DaemonConfig → Type 0
HasIntervals cfg = (0 < cfg.probe_interval_healthy) × (0 < cfg.probe_interval_degraded)

probe_interval-HasIntervals :
    (cfg : DaemonConfig) → HasIntervals cfg → (st : State) → (probe_interval cfg st == 0) ≡ false
unfolding probe_interval
probe_interval-HasIntervals cfg h healthy = ground (arith, h.0)
probe_interval-HasIntervals cfg h degraded = ground (arith, h.1)
probe_interval-HasIntervals cfg h probing = refl
probe_interval-HasIntervals cfg h switching = refl
probe_interval-HasIntervals cfg h (other_state _) = ground (arith, h.0)

-- UCI can be read, and the settings that are read from it have intervals.
abbrev pub IsUsable : Uci → Type 0
IsUsable uci =
    (is_readable uci ≡ true)
    × ((cfg : DaemonConfig) → load_daemon_config uci ≡ some cfg → HasIntervals cfg)

module _ (o : Outside) (files : ℕ → List ConfigFile) (detect : ℕ → DetectionResult)
    (s : Storage) where
  -- A reload keeps the machine, and takes the settings.
  reload_with-machine :
      (c : Option DaemonConfig) (w : Watchdog)
      → is_some c ≡ true
      → ((cfg : DaemonConfig) → c ≡ some cfg → HasIntervals cfg)
      → (next : Watchdog) × (reload_with o files detect s c w ≡ some next)
        × (machine_of next ≡ machine_of w)
        × HasIntervals next.engine.cfg
  unfolding reload_with new_engine
  reload_with-machine none w e h = ground arith
  reload_with-machine (some cfg) w e h = (_, refl, refl, h cfg refl)

  loop-RunDone :
      ((n : ℕ) → IsUsable (s.uci n))
      → (cfg : DaemonConfig) (es : List Event) (w : Watchdog) → HasIntervals cfg
      → IsResting (machine_of w).current
      → RunDone (loop o files detect s cfg es w)
  unfolding loop reload
  loop-RunDone h cfg [] w i r = (r, refl)
  loop-RunDone h cfg (ticked ∷ es) w i r =
      let next = tick o files detect w in
      rw (probe_interval-HasIntervals cfg i (machine_of next).current)
        (loop-RunDone h cfg es next i ((tick-TickDone o files detect w r).0))
  loop-RunDone h cfg (hung_up ∷ es) w i r =
      let n = moment w.engine in
      let (next, e, m, j) =
        reload_with-machine (load_daemon_config (s.uci n)) w (loaded (s.uci n) ((h n).0))
          ((h n).1) in
      rw (e, loop)
        (loop-RunDone h next.engine.cfg es next j (subst (λ x. IsResting x.current) (sym m) r))
  loop-RunDone h cfg (terminated ∷ es) w i r = (r, refl)
  loop-RunDone h cfg (cancelled ∷ es) w i r = (r, refl)

  -- From HEALTHY, DEGRADED or PROBING with positive probe intervals, whatever ticks, reloads and
  -- signals the loop meets, it is in one of these states after them and has not panicked, where at each
  -- reload the targets that UCI holds are readable and the intervals that it sets are positive.
  pub run-RunDone :
      ((n : ℕ) → IsUsable (s.uci n))
      → (es : List Event) (w : Watchdog) → HasIntervals w.engine.cfg
      → IsResting (machine_of w).current
      → RunDone (run o files detect s es w)
  unfolding run
  run-RunDone h es w i r =
      rw (probe_interval-HasIntervals w.engine.cfg i (machine_of w).current)
        (loop-RunDone h w.engine.cfg es w i r)
