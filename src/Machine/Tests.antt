-- ===== src/Machine/Tests.antt =====
-- The theorems on the state machine at concrete machines, and runs.
use dark_routev.Base.{List, [], arith, false, none, refl, some, true, ◌∷◌, ◌≡◌}
use dark_routev.Machine.{PersistedState, healthy, degraded, probing, new, snapshot}
use dark_routev.Machine.Laws.{Call, success, failure, CountsBelow}
use dark_routev.Machine.Runs.{
  run, run-new, failures, failures_schedule, attempt, attempts, attempts_budget,
}
use dark_routev.Machine.Restart.{new-run}

abbrev calls : List Call
calls = failure ∷ failure ∷ failure ∷ success ∷ failure ∷ []

abbrev saved : PersistedState
saved = record { current = healthy; active_config_id = "office"; last_switch = 5 }

run-new_example : CountsBelow 3 2 (run 3 2 calls (new (some saved) true))
run-new_example = run-new 3 2 calls (some saved) true (omega arith) (omega arith)

failures_schedule_example :
    ((failures 3 2 4 (new (some saved) true)).current ≡ degraded)
    × ((failures 3 2 4 (new (some saved) true)).consecutive_fails ≡ 4)
unfolding new
failures_schedule_example =
    failures_schedule 3 2 4 (new (some saved) true) (omega arith) (omega arith) (refl, refl)
      (omega arith)

attempts_budget_example :
    ((attempt 3 (attempts 3 2 (new none true))).1 ≡ false)
    × ((attempt 3 (attempts 3 2 (new none true))).0.switch_attempts ≡ 0)
    × ((attempt 3 (attempts 3 2 (new none true))).0.current ≡ probing)
unfolding new
attempts_budget_example = attempts_budget 3 2 (new none true) refl (omega arith)

new-run_example :
    (snapshot (new (run 3 2 calls (new (some saved) true)).disk true)
      ≡ snapshot (run 3 2 calls (new (some saved) true)))
    × ((new (run 3 2 calls (new (some saved) true)).disk true).consecutive_fails ≡ 0)
    × ((new (run 3 2 calls (new (some saved) true)).disk true).switch_attempts ≡ 0)
unfolding new
new-run_example = new-run 3 2 calls (new (some saved) true) (refl, refl)
