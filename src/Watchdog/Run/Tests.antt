-- ===== src/Watchdog/Run/Tests.antt =====
-- The loop over concrete events.
use dark_routev.Base.{
  List, Option, [], arith, if◌then◌else◌, inr, none, refl, some, str_eq, subst, ℕ, ◌∷◌, ◌≡◌,
}
use dark_routev.Net.{split_first}
use dark_routev.Config.{DaemonConfig}
use dark_routev.Config.Uci.{load_uci_probe_targets, scan_line}
use dark_routev.Config.Uci.Daemon.{load_daemon_config, load_settings, get_dur, get_setting}
use dark_routev.Watchdog.Run.{Event, Storage, ticked, hung_up, terminated, run}
use dark_routev.Watchdog.Run.Laws.{HasIntervals, IsUsable, RunDone, run-RunDone}
use dark_routev.Samples.{files, outside, detection, watchdog}

abbrev storage : Storage
storage = record {
  uci = λ n. record {
    get = λ key. if str_eq key "vpn-watchdog.global.degraded_threshold" then some "5" else none;
    show = some ("vpn-watchdog.global=global" ∷ []);
    show_global = none;
    atoi = λ s. if str_eq s "5" then some 5 else none;
    atoi_negative = λ s. none;
    parse_float = λ s. none;
  };
  attempts = λ n. [];
  presets = λ n. [];
}

abbrev events : List Event
events = ticked ∷ hung_up ∷ ticked ∷ terminated ∷ []

abbrev LoadedWith : Option DaemonConfig → Type 0
LoadedWith none = Unit {0}
LoadedWith (some cfg) = HasIntervals cfg

loaded_with :
    (c : Option DaemonConfig)
    → LoadedWith c
    → (cfg : DaemonConfig) → c ≡ some cfg
    → HasIntervals cfg
loaded_with c h cfg e = subst LoadedWith e h

-- The intervals of the storage are the defaults.
default_intervals : (n : ℕ) → LoadedWith (load_daemon_config (storage.uci n))
unfolding load_daemon_config load_settings get_dur get_setting load_uci_probe_targets scan_line
    split_first
default_intervals n = (omega arith, omega arith)

is_usable : (n : ℕ) → IsUsable (storage.uci n)
is_usable n = (refl, loaded_with (load_daemon_config (storage.uci n)) (default_intervals n))

run-RunDone_example : RunDone (run outside (λ n. files) (λ n. detection) storage events watchdog)
run-RunDone_example =
    run-RunDone outside (λ n. files) (λ n. detection) storage is_usable events watchdog
      (omega arith, omega arith) (inr (inr refl))
