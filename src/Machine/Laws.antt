-- ===== src/Machine/Laws.antt =====
-- The methods of the state machine one at a time: what every call keeps.
use dark_routev.Base.{String, arith, some, true, ℕ, ◌+◌, ◌<◌, ◌≡◌, ◌≢◌, ◌⊎◌}
use dark_routev.Machine.{
  healthy, degraded, Machine, snapshot, record_success, record_failure, enter_switching,
  switch_succeeded, switch_failed, set_active_config,
}

-- A call of one of the methods that change the machine.
pub data Call : Type 0 where
  success : Call
  failure : Call
  enter : String → Call
  succeeded : String → ℕ → Call
  failed : ℕ → Call
  activate : String → Call

-- The thresholds are those of one configuration.
module _ (degraded_threshold probing_threshold : ℕ) where
  unfoldable pub apply : Call → Machine → Machine
  apply success m = record_success m
  apply failure m = record_failure degraded_threshold probing_threshold m
  apply (enter id) m = enter_switching id m
  apply (succeeded id now) m = switch_succeeded id now m
  apply (failed max_attempts) m = (switch_failed max_attempts m).0
  apply (activate id) m = set_active_config id m

  -- A state that can still be left has not yet counted up to its threshold, so it is left in time.
  pub record CountsBelow (m : Machine) : Type 0 where
    pub in_healthy : (m.current ≢ healthy) ⊎ (m.consecutive_fails < degraded_threshold)
    pub in_degraded :
        (m.current ≢ degraded) ⊎ (m.consecutive_fails < degraded_threshold + probing_threshold)

  -- Every method keeps the failure counter below the threshold of the state that it leaves the
  -- machine in, if both thresholds are at least one.
  pub apply-CountsBelow :
      (c : Call) (m : Machine)
      → 0 < degraded_threshold
      → 0 < probing_threshold
      → CountsBelow m
      → CountsBelow (apply c m)
  unfolding apply record_success record_failure enter_switching switch_succeeded switch_failed
      set_active_config
  apply-CountsBelow success m d p h = ground arith
  apply-CountsBelow _ m d p h = ground arith

  -- The file holds what the machine would be restored from.
  abbrev pub IsSaved : Machine → Type 0
  IsSaved m = (m.can_write ≡ true) × (m.disk ≡ some (snapshot m))

  -- With a writable state directory, no method leaves the file behind the machine: the calls that
  -- do not write change only counters, which are not persisted.
  pub apply-IsSaved : (c : Call) (m : Machine) → IsSaved m → IsSaved (apply c m)
  unfolding apply record_success record_failure enter_switching switch_succeeded switch_failed
      set_active_config
  apply-IsSaved success m h = ground arith
  apply-IsSaved _ m h = ground arith
