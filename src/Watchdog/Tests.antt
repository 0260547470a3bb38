-- ===== src/Watchdog/Tests.antt =====
-- The theorems on the main loop at a concrete daemon.
use dark_routev.Base.{inr, refl, true, ◌≡◌}
use dark_routev.Machine.{new, enter_switching}
use dark_routev.Watchdog.{Watchdog, machine_of, with_machine, tick}
use dark_routev.Watchdog.Laws.{TickDone, ticks, tick-TickDone, ticks_after_crash}
use dark_routev.Samples.{files, outside, detection, machine, watchdog}

tick-TickDone_example :
    TickDone machine (machine_of (tick outside (λ n. files) (λ n. detection) watchdog))
tick-TickDone_example =
    tick-TickDone outside (λ n. files) (λ n. detection) watchdog (inr (inr refl))

abbrev crashed : Watchdog
crashed = with_machine (new (enter_switching "home" machine).disk true) watchdog

ticks_after_crash_example : ticks outside (λ n. files) (λ n. detection) 5 crashed ≡ crashed
ticks_after_crash_example =
    ticks_after_crash outside (λ n. files) (λ n. detection) 5 "home" machine crashed refl refl
