-- ===== src/Machine.antt =====
-- daemon/internal/state/machine.go. A method that changes `*Machine` returns the new record, and
-- the clock is the argument `now`, in nanoseconds, where 0 is the zero time. The mutex makes each
-- method one step. The file state.json belongs to the record: `disk` is its content, and
-- `can_write` says whether the state directory can be written.
pub mod Laws
pub mod Runs
pub mod Resting
pub mod Restart
mod Tests
use dark_routev.Base.{
  Bool, Option, String, false, if◌then◌else◌, leb, ltb, none, not, some, suc, true, ℕ, ◌&&◌, ◌+◌,
  ◌==◌,
}

-- `type State string`: the four constants, and any other text that a file may hold.
pub data State : Type 0 where
  healthy degraded probing switching : State
  other_state : String → State

pub record PersistedState : Type 0 where
  pub current : State
  pub active_config_id : String
  pub last_switch : ℕ

pub record Machine : Type 0 where
  pub current : State
  pub consecutive_fails : ℕ
  pub active_config_id : String
  pub last_switch : ℕ
  pub switch_attempts : ℕ
  pub disk : Option PersistedState
  pub can_write : Bool

abbrev blank : Option PersistedState → Bool → Machine
blank disk can_write = record {
  current = healthy;
  consecutive_fails = 0;
  active_config_id = "";
  last_switch = 0;
  switch_attempts = 0;
  disk = disk;
  can_write = can_write;
}

-- `load`; `none` is a file that is not there or does not parse.
load : Machine → Machine
load m = elim m.disk [
  | none ↦ m
  | some ps ↦ record m {
    current = ps.current;
    active_config_id = ps.active_config_id;
    last_switch = ps.last_switch;
  }
]

-- `New`
unfoldable pub new : Option PersistedState → Bool → Machine
unfolding load
new disk can_write = load (blank disk can_write)

abbrev pub snapshot : Machine → PersistedState
snapshot m = record {
  current = m.current;
  active_config_id = m.active_config_id;
  last_switch = m.last_switch;
}

-- `save`: errors are ignored.
save : Machine → Machine
save m = if m.can_write then record m { disk = some (snapshot m) } else m

abbrev pub is_degraded : State → Bool
is_degraded degraded = true
is_degraded _ = false

-- `RecordSuccess`
unfoldable pub record_success : Machine → Machine
unfolding save
record_success m =
    let t = record m { consecutive_fails = 0 } in
    if is_degraded m.current then save (record t { current = healthy }) else t

-- The `switch` of RecordFailure, after the increment.
failure_in : State → ℕ → ℕ → Machine → Machine
failure_in healthy degraded_threshold probing_threshold m =
    if leb degraded_threshold m.consecutive_fails then save (record m { current = degraded }) else m
failure_in degraded degraded_threshold probing_threshold m =
    if leb (degraded_threshold + probing_threshold) m.consecutive_fails
    then save (record m { current = probing; consecutive_fails = 0; switch_attempts = 0 })
    else m
failure_in _ degraded_threshold probing_threshold m = m

-- `RecordFailure`; the state that it returns is the field `current` of the result.
unfoldable pub record_failure : ℕ → ℕ → Machine → Machine
unfolding failure_in save
record_failure degraded_threshold probing_threshold m =
    failure_in m.current degraded_threshold probing_threshold
      (record m { consecutive_fails = suc m.consecutive_fails })

-- `EnterSwitching`; its argument is only logged.
unfoldable pub enter_switching : String → Machine → Machine
unfolding save
enter_switching new_config_id m =
    save (record m { current = switching; switch_attempts = suc m.switch_attempts })

-- `SwitchSucceeded`
unfoldable pub switch_succeeded : String → ℕ → Machine → Machine
unfolding save
switch_succeeded config_id now m = save (record m {
  current = healthy;
  active_config_id = config_id;
  last_switch = now;
  consecutive_fails = 0;
  switch_attempts = 0;
})

-- `SwitchFailed`, with its answer whether to try the next configuration
unfoldable pub switch_failed : ℕ → Machine → Machine × Bool
unfolding save
switch_failed max_attempts m =
    if ltb m.switch_attempts max_attempts
    then (save (record m { current = probing }), true)
    else (save (record m { current = probing; switch_attempts = 0 }), false)

-- `SetActiveConfig`
unfoldable pub set_active_config : String → Machine → Machine
unfolding save
set_active_config id m = save (record m { active_config_id = id })

-- `InCooldown`: the last switch is known, and `now - last_switch < cooldown`.
unfoldable pub in_cooldown : ℕ → ℕ → Machine → Bool
in_cooldown cooldown now m = not (m.last_switch == 0) && ltb now (m.last_switch + cooldown)
