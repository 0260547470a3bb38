-- ===== src/Machine/Restart.antt =====
-- A restart of the daemon: the machine that `New` restores from the file of the one before.
use dark_routev.Base.{List, String, arith, refl, true, ℕ, ◌≡◌}
use dark_routev.Machine.{switching, Machine, snapshot, enter_switching, new}
use dark_routev.Machine.Laws.{Call, IsSaved}
use dark_routev.Machine.Runs.{run, run-IsSaved}

-- Round trip: after any sequence of calls with a writable state directory, from a machine that its
-- file describes, a restarted daemon has the same state, active configuration and time of the
-- last switch, and cleared counters.
pub new-run :
    (degraded_threshold probing_threshold : ℕ) (cs : List Call) (m : Machine)
    → IsSaved degraded_threshold probing_threshold m
    → let before = run degraded_threshold probing_threshold cs m in
      let after = new before.disk true in
      (snapshot after ≡ snapshot before)
      × (after.consecutive_fails ≡ 0)
      × (after.switch_attempts ≡ 0)
unfolding new
new-run d p cs m h = let saved = run-IsSaved d p cs m h in rw saved.1 (refl, refl, refl)

-- A crash during a switch is not undone: the restarted machine is in SWITCHING.
pub new-enter_switching :
    (id : String) (m : Machine)
    → m.can_write ≡ true
    → (new (enter_switching id m).disk true).current ≡ switching
unfolding new enter_switching
new-enter_switching id m h = ground arith
