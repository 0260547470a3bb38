-- ===== src/Tunnel/Waiting/Laws.antt =====
-- The waiting loops of daemon/internal/tunnel end, and with the right answer.
use dark_routev.Base.{
  Bool, Option, arith, false, if_ind, if◌then◌else◌, ltb, none, not, some, subst, suc, sym, true,
  zero, ℕ, ◌&&◌, ◌*◌, ◌+◌, ◌<◌, ◌≡◌, ◌≤◌,
}
use dark_routev.Tunnel.Waiting.{wait_loop, port_fuel, interface_fuel}

-- What the loop answers when it starts at the i-th dialing: `true` after a dialing before the deadline
-- has succeeded, and `false` if no later one does.
abbrev pub Waited : (ℕ → ℕ) → (ℕ → Bool) → ℕ → ℕ → Option Bool → Type 0
Waited time dial deadline i none = ⊥
Waited time dial deadline i (some true) = (j : ℕ) × (time j < deadline) × (dial j ≡ true)
Waited time dial deadline i (some false) =
    (j : ℕ) → (ltb (time (i + j)) deadline && dial (i + j)) ≡ false

zero_after : (i : ℕ) → i ≡ i + 0
zero_after i = omega arith

suc_after : (i j : ℕ) → (i + 1) + j ≡ i + suc j
suc_after i j = omega arith

one_more : (n : ℕ) → n + 1 ≡ suc n
one_more n = omega arith

module _ (time : ℕ → ℕ) (dial : ℕ → Bool) (deadline : ℕ) where
  abbrev Fails : ℕ → Type 0
  Fails n = (ltb (time n) deadline && dial n) ≡ false

  -- A dialing that does not answer, and then the rest
  step_back : (i : ℕ) → Fails i → ((j : ℕ) → Fails ((i + 1) + j)) → (j : ℕ) → Fails (i + j)
  step_back i e w zero = subst Fails (zero_after i) e
  step_back i e w (suc j) = subst Fails (suc_after i j) (w j)

  next_round :
      (i : ℕ) (o : Option Bool)
      → Fails i
      → Waited time dial deadline (i + 1) o
      → Waited time dial deadline i o
  next_round i none e w = w
  next_round i (some true) e w = w
  next_round i (some false) e w = step_back i e w

  module _ (step : ℕ) (sleeps : (i : ℕ) → time i + step ≤ time (i + 1)) where
    time_le : (i j : ℕ) → time i ≤ time (i + j)
    time_le i zero = subst (λ n. time i ≤ time n) (zero_after i) (omega arith)
    time_le i (suc j) =
        let here = sleeps i in
        let next = time_le (i + 1) j in
        subst (λ n. time i ≤ time n) (suc_after i j) (omega (arith, here, next))

    late : (i : ℕ) → deadline ≤ time (i + 0) → deadline ≤ time i
    late i h = subst (λ n. deadline ≤ time n) (sym (zero_after i)) h

    past : (i : ℕ) → deadline ≤ time i → (j : ℕ) → Fails (i + j)
    past i h j = ground (arith, time_le i j)

    -- After n rounds, n sleeps have passed.
    time-rounds : (n : ℕ) → time 0 + n * step ≤ time n
    time-rounds zero = omega arith
    time-rounds (suc n) =
        let before = time-rounds n in
        let slept = sleeps n in
        subst (λ k. time 0 + suc n * step ≤ time k) (one_more n) (omega (arith, before, slept))

    wait_loop-Waited :
        (fuel i : ℕ)
        → deadline ≤ time (i + fuel)
        → Waited time dial deadline i (wait_loop time dial deadline (suc fuel) i)
    unfolding wait_loop
    wait_loop-Waited zero i h =
        if_ind (Waited time dial deadline i) (not (ltb (time i) deadline)) (some false) _
          (λ _. past i (late i h)) (λ f. ground (arith, late i h))
    wait_loop-Waited (suc fuel) i h =
        let rest = wait_loop time dial deadline (suc fuel) (i + 1) in
        let w =
          wait_loop-Waited fuel (i + 1)
            (subst (λ n. deadline ≤ time n) (sym (suc_after i fuel)) h) in
        if_ind (Waited time dial deadline i) (not (ltb (time i) deadline)) (some false)
          (if dial i then some true else rest) (λ t. past i (ground arith))
          (λ f.
            if_ind (Waited time dial deadline i) (dial i) (some true) rest
              (λ d. (i, ground (arith, f), d)) (λ d. next_round i rest (ground (arith, d)) w))

module _ (time : ℕ → ℕ) (dial : ℕ → Bool) where
  -- Where each round sleeps for 300 milliseconds, the loop of waitForPort ends within the fuel: with
  -- `true` after a dialing before the deadline that has succeeded, and with `false` if there is none.
  pub wait_loop-port :
      ((i : ℕ) → time i + 300 ≤ time (i + 1))
      → Waited time dial (time 0 + 10000) 0 (wait_loop time dial (time 0 + 10000) port_fuel 0)
  wait_loop-port sleeps =
      let passed = time-rounds time dial (time 0 + 10000) 300 sleeps 34 in
      wait_loop-Waited time dial (time 0 + 10000) 300 sleeps 34 0 (omega (arith, passed))

  -- Where each round sleeps for 200 milliseconds, so does the loop of waitForInterface.
  pub wait_loop-interface :
      ((i : ℕ) → time i + 200 ≤ time (i + 1))
      → Waited time dial (time 0 + 5000) 0 (wait_loop time dial (time 0 + 5000) interface_fuel 0)
  wait_loop-interface sleeps =
      let passed = time-rounds time dial (time 0 + 5000) 200 sleeps 25 in
      wait_loop-Waited time dial (time 0 + 5000) 200 sleeps 25 0 (omega (arith, passed))
