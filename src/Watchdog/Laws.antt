-- ===== src/Watchdog/Laws.antt =====
-- What ticks do to the state, over any run of the loop.
use dark_routev.Base.{
  Bool, List, String, [], ap, arith, false, if_ind, inl, inr, is_empty, refl, subst, suc, true,
  zero, ℕ, ◌∙◌, ◌∷◌, ◌≡◌, ◌⊎◌,
}
use dark_routev.Config.Store.{ConfigFile, load_all}
use dark_routev.Config.{TunnelConfig}
use dark_routev.Machine.{
  State, healthy, degraded, probing, switching, other_state, Machine, new, enter_switching,
}
use dark_routev.Machine.Resting.{
  IsResting, record_success-IsResting, record_failure-IsResting, record_success-active,
  record_failure-active,
}
use dark_routev.Machine.Restart.{new-enter_switching}
use dark_routev.Dpi.{DetectionResult}
use dark_routev.Switch.{Engine, probe_all, Outside, moment, emit}
use dark_routev.Switch.Apply.{probe_and_switch, viable_candidates}
use dark_routev.Switch.Apply.Laws.{Serves, LoopDone, probe_and_switch_done}
use dark_routev.Watchdog.{
  Watchdog, is_cooling, machine_of, hint_of, tick, tick_in, do_probe, do_switch, detected,
  switch_with, probe_outcome,
}

-- What a tick may do to the machine: it rests, with the active configuration as before, or it
-- serves a configuration.
abbrev pub TickDone : Machine → Machine → Type 0
TickDone before m =
    IsResting m.current
    × ((m.active_config_id ≡ before.active_config_id) ⊎ ((id : String) × Serves id m))

module _ (o : Outside) (files : ℕ → List ConfigFile) (detect : ℕ → DetectionResult) where
  pub ticks : ℕ → Watchdog → Watchdog
  ticks zero w = w
  ticks (suc n) w = tick o files detect (ticks n w)

  outcome-TickDone :
      (w v : Watchdog) (b : Bool)
      → machine_of v ≡ machine_of w
      → IsResting (machine_of w).current
      → TickDone (machine_of w) (machine_of (probe_outcome o files detect v b))
  unfolding probe_outcome
  outcome-TickDone w v true e r =
      rw e (record_success-IsResting (machine_of w) r, inl (record_success-active (machine_of w)))
  outcome-TickDone w v false e r =
      let d = v.engine.cfg.degraded_threshold in
      let p = v.engine.cfg.probing_threshold in
      rw e (
        record_failure-IsResting d p (machine_of w) r,
        inl (record_failure-active d p (machine_of w)),
      )

  do_probe-TickDone :
      (w : Watchdog)
      → IsResting (machine_of w).current
      → TickDone (machine_of w) (machine_of (do_probe o files detect w))
  unfolding do_probe
  do_probe-TickDone w r =
      let probed : Watchdog = record w { engine = emit (probe_all 0 ∷ []) w.engine } in
      let b : Bool = o.probe (moment w.engine) 0 in
      if_ind (λ (v : Watchdog). TickDone (machine_of w) (machine_of v))
        (is_cooling o files detect w) w (probe_outcome o files detect probed b) (λ _. (r, inl refl))
        (λ _. outcome-TickDone w probed b refl r)

  loop-TickDone :
      (tcs : List TunnelConfig) (before : Machine) (r : String × Engine)
      → before.current ≡ probing
      → LoopDone tcs before r
      → TickDone before r.1.machine
  loop-TickDone tcs before r p (inl (tc, i, q, s)) = (inl s.is_healthy, inr (r.0, s))
  loop-TickDone tcs before r p (inr (q, inl same)) = rw same (inr (inr p), inl refl)
  loop-TickDone tcs before r p (inr (q, inr w)) = (inr (inr w.is_probing), inl w.kept_active)

  switch_with-TickDone :
      (tcs : List TunnelConfig) (w : Watchdog)
      → (machine_of w).current ≡ probing
      → TickDone (machine_of w) (machine_of (switch_with o files detect tcs w))
  unfolding switch_with
  switch_with-TickDone tcs w p =
      let dpi : DetectionResult = w.last_dpi_result in
      let active : String = (machine_of w).active_config_id in
      let viable =
        (viable_candidates o (hint_of dpi) dpi.reason_code dpi.confidence active tcs w.engine).0 in
      loop-TickDone (o.rank viable) (machine_of w)
        (probe_and_switch o (hint_of dpi) dpi.reason_code dpi.confidence active tcs w.engine) p
        (probe_and_switch_done o (hint_of dpi) dpi.reason_code dpi.confidence active tcs w.engine)

  detected-machine : (w : Watchdog) → machine_of (detected o files detect w) ≡ machine_of w
  unfolding detected
  detected-machine w = ground arith

  do_switch-TickDone :
      (w : Watchdog)
      → (machine_of w).current ≡ probing
      → TickDone (machine_of w) (machine_of (do_switch o files detect w))
  unfolding do_switch
  do_switch-TickDone w p =
      let tcs = load_all (files (moment w.engine)) in
      let v : Watchdog = detected o files detect w in
      let same : machine_of v ≡ machine_of w = detected-machine w in
      if_ind (λ (u : Watchdog). TickDone (machine_of w) (machine_of u)) (is_empty tcs) w _
        (λ _. (inr (inr p), inl refl))
        (λ _.
          subst (λ m. TickDone m (machine_of (switch_with o files detect tcs v))) same
            (switch_with-TickDone tcs v (ap (λ (m : Machine). m.current) same ∙ p)))

  tick_in-TickDone :
      (s : State) (w : Watchdog)
      → (machine_of w).current ≡ s
      → IsResting (machine_of w).current
      → TickDone (machine_of w) (machine_of (tick_in o files detect s w))
  unfolding tick_in
  tick_in-TickDone healthy w e r = do_probe-TickDone w r
  tick_in-TickDone degraded w e r = do_probe-TickDone w r
  tick_in-TickDone probing w e r = do_switch-TickDone w e
  tick_in-TickDone switching w e r = (r, inl refl)
  tick_in-TickDone (other_state _) w e r = (r, inl refl)

  -- A tick that starts in HEALTHY, DEGRADED or PROBING ends in one of these, never in SWITCHING; it
  -- keeps the active configuration, or the machine then serves a configuration (it is HEALTHY, with
  -- that ID active).
  pub tick-TickDone :
      (w : Watchdog)
      → IsResting (machine_of w).current
      → TickDone (machine_of w) (machine_of (tick o files detect w))
  unfolding tick
  tick-TickDone w r = tick_in-TickDone (machine_of w).current w refl r

  -- However long the loop runs from one of these states, it is in one of them between two ticks.
  pub ticks-IsResting :
      (n : ℕ) (w : Watchdog)
      → IsResting (machine_of w).current
      → IsResting (machine_of (ticks n w)).current
  unfolding ticks
  ticks-IsResting zero w r = r
  ticks-IsResting (suc n) w r = (tick-TickDone (ticks n w) (ticks-IsResting n w r)).0

  ticks_stuck : (n : ℕ) (w : Watchdog) → (machine_of w).current ≡ switching → ticks n w ≡ w
  unfolding ticks tick tick_in
  ticks_stuck zero w e = refl
  ticks_stuck (suc n) w e = rw (ticks_stuck n w e, e) refl

  -- A daemon that stops between EnterSwitching and the end of the switch does not recover: restarted
  -- from the file that EnterSwitching wrote, it changes nothing at any later tick.
  pub ticks_after_crash :
      (n : ℕ) (id : String) (m : Machine) (w : Watchdog)
      → m.can_write ≡ true
      → machine_of w ≡ new (enter_switching id m).disk true
      → ticks n w ≡ w
  ticks_after_crash n id m w c e =
      ticks_stuck n w (ap (λ (x : Machine). x.current) e ∙ new-enter_switching id m c)
