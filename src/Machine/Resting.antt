-- ===== src/Machine/Resting.antt =====
-- The states in which the main loop acts.
use dark_routev.Base.{arith, inr, refl, ℕ, ◌≡◌, ◌⊎◌}
use dark_routev.Machine.{
  State, healthy, degraded, probing, switching, other_state, Machine, record_success,
  record_failure, failure_in, save,
}

abbrev pub IsResting : State → Type 0
IsResting s = (s ≡ healthy) ⊎ (s ≡ degraded) ⊎ (s ≡ probing)

pub record_success-IsResting :
    (m : Machine) → IsResting m.current → IsResting (record_success m).current
unfolding record_success save
record_success-IsResting m r = ground arith

failure_in-IsResting :
    (s : State) (d p : ℕ) (m : Machine)
    → m.current ≡ s
    → IsResting s
    → IsResting (failure_in s d p m).current
unfolding failure_in save
failure_in-IsResting healthy d p m e r = ground arith
failure_in-IsResting degraded d p m e r = ground arith
failure_in-IsResting probing d p m e r = inr (inr e)
failure_in-IsResting switching d p m e r = ground arith
failure_in-IsResting (other_state x) d p m e r = ground arith

pub record_failure-IsResting :
    (d p : ℕ) (m : Machine) → IsResting m.current → IsResting (record_failure d p m).current
unfolding record_failure
record_failure-IsResting d p m r = failure_in-IsResting m.current d p _ refl r

pub record_success-active : (m : Machine) → (record_success m).active_config_id ≡ m.active_config_id
unfolding record_success save
record_success-active m = ground arith

failure_in-active :
    (s : State) (d p : ℕ) (m : Machine) → (failure_in s d p m).active_config_id ≡ m.active_config_id
unfolding failure_in save
failure_in-active healthy d p m = ground arith
failure_in-active degraded d p m = ground arith
failure_in-active probing d p m = refl
failure_in-active switching d p m = refl
failure_in-active (other_state x) d p m = refl

pub record_failure-active :
    (d p : ℕ) (m : Machine) → (record_failure d p m).active_config_id ≡ m.active_config_id
unfolding record_failure
record_failure-active d p m = failure_in-active m.current d p _
