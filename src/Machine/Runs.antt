-- ===== src/Machine/Runs.antt =====
-- The state machine over sequences of calls.
use dark_routev.Base.{
  Bool, List, Option, [], arith, if◌then◌else◌, ltb, suc, zero, ℕ, ◌+◌, ◌<◌, ◌∷◌, ◌≡◌, ◌≤◌, ◌⊎◌,
}
use dark_routev.Machine.{
  PersistedState, healthy, degraded, probing, Machine, record_success, record_failure,
  enter_switching, switch_failed, new,
}
use dark_routev.Machine.Laws.{Call, apply, CountsBelow, apply-CountsBelow, IsSaved, apply-IsSaved}

module _ (degraded_threshold probing_threshold : ℕ) where
  pub run : List Call → Machine → Machine
  run [] m = m
  run (c ∷ cs) m = run cs (apply degraded_threshold probing_threshold c m)

  run-CountsBelow :
      (cs : List Call) (m : Machine)
      → 0 < degraded_threshold
      → 0 < probing_threshold
      → CountsBelow degraded_threshold probing_threshold m
      → CountsBelow degraded_threshold probing_threshold (run cs m)
  unfolding run
  run-CountsBelow [] m d p h = h
  run-CountsBelow (c ∷ cs) m d p h =
      run-CountsBelow cs _ d p (apply-CountsBelow degraded_threshold probing_threshold c m d p h)

  new-CountsBelow :
      (disk : Option PersistedState) (can_write : Bool)
      → 0 < degraded_threshold
      → CountsBelow degraded_threshold probing_threshold (new disk can_write)
  unfolding new
  new-CountsBelow disk can_write d = ground arith

  -- From a machine that was just created, on any file, every sequence of calls keeps the failure
  -- counter below the threshold of the current state, if both thresholds are at least one.
  pub run-new :
      (cs : List Call) (disk : Option PersistedState) (can_write : Bool)
      → 0 < degraded_threshold
      → 0 < probing_threshold
      → CountsBelow degraded_threshold probing_threshold (run cs (new disk can_write))
  run-new cs disk can_write d p = run-CountsBelow cs _ d p (new-CountsBelow disk can_write d)

  pub run-IsSaved :
      (cs : List Call) (m : Machine)
      → IsSaved degraded_threshold probing_threshold m
      → IsSaved degraded_threshold probing_threshold (run cs m)
  unfolding run
  run-IsSaved [] m h = h
  run-IsSaved (c ∷ cs) m h =
      run-IsSaved cs _ (apply-IsSaved degraded_threshold probing_threshold c m h)

  -- `n` failed probes in a row
  pub failures : ℕ → Machine → Machine
  failures zero m = m
  failures (suc n) m = record_failure degraded_threshold probing_threshold (failures n m)

  abbrev pub Fresh : Machine → Type 0
  Fresh m = (m.current ≡ healthy) × (m.consecutive_fails ≡ 0)

  -- Below the first threshold the machine stays healthy, from there to the sum it is degraded.
  abbrev Counting : ℕ → Machine → Type 0
  Counting n m =
      (n < degraded_threshold → (m.current ≡ healthy) × (m.consecutive_fails ≡ n))
      × (degraded_threshold ≤ n
          → n < degraded_threshold + probing_threshold
          → (m.current ≡ degraded) × (m.consecutive_fails ≡ n))

  failures-Counting :
      (n : ℕ) (m : Machine) → 0 < degraded_threshold → Fresh m → Counting n (failures n m)
  unfolding failures record_failure
  failures-Counting zero m d f = ground arith
  failures-Counting (suc n) m d f = ground (arith, failures-Counting n m d f)

  -- The schedule of the README: from a healthy machine with a cleared counter, and up to
  -- `degraded_threshold + probing_threshold` failures in a row, the machine is healthy after fewer than
  -- `degraded_threshold` of them, then degraded, and probing with a cleared counter at the sum.
  -- Both thresholds are at least one.
  pub failures_schedule :
      (n : ℕ) (m : Machine)
      → 0 < degraded_threshold
      → 0 < probing_threshold
      → Fresh m
      → n ≤ degraded_threshold + probing_threshold
      → ((failures n m).current ≡ (
          if ltb n degraded_threshold
          then healthy
          else if ltb n (degraded_threshold + probing_threshold)
          then degraded
          else probing))
        × ((failures n m).consecutive_fails
            ≡ (if ltb n (degraded_threshold + probing_threshold) then n else 0))
  unfolding failures record_failure
  failures_schedule zero m d p f le = ground arith
  failures_schedule (suc n) m d p f le =
      ground (arith, failures-Counting n m d f, failures-Counting (suc n) m d f)

  -- A success in between starts the count again.
  pub record_success-Fresh :
      (m : Machine) → (m.current ≡ healthy) ⊎ (m.current ≡ degraded) → Fresh (record_success m)
  unfolding record_success
  record_success-Fresh m h = ground arith

-- One attempt to switch that fails
pub attempt : ℕ → Machine → Machine × Bool
attempt max_attempts m = switch_failed max_attempts (enter_switching "" m)

-- `n` failed attempts, with the answer of the last
pub attempts : ℕ → ℕ → Machine → Machine
attempts max_attempts zero m = m
attempts max_attempts (suc n) m = (attempt max_attempts (attempts max_attempts n m)).0

attempts_count :
    (max_attempts n : ℕ) (m : Machine)
    → m.switch_attempts ≡ 0
    → n < max_attempts
    → (attempts max_attempts n m).switch_attempts ≡ n
unfolding attempts attempt enter_switching switch_failed
attempts_count max_attempts zero m z h = z
attempts_count max_attempts (suc n) m z h = ground (arith, attempts_count max_attempts n m z)

-- The retry budget: from a cleared attempt counter, and below the maximum, the failed switch
-- number `n + 1` answers that another may be tried exactly if `n + 1` is below the maximum; else the
-- counter is cleared. The machine is back in PROBING each time.
pub attempts_budget :
    (max_attempts n : ℕ) (m : Machine)
    → m.switch_attempts ≡ 0
    → n < max_attempts
    → let r = attempt max_attempts (attempts max_attempts n m) in
      (r.1 ≡ ltb (suc n) max_attempts)
      × (r.0.switch_attempts ≡ (if ltb (suc n) max_attempts then suc n else 0))
      × (r.0.current ≡ probing)
unfolding attempt enter_switching switch_failed
attempts_budget max_attempts n m z h = ground (arith, attempts_count max_attempts n m z h)
