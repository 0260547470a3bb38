-- ===== src/Tunnel/Waiting.antt =====
-- The loops of waitForPort in daemon/internal/tunnel/vless.go and of waitForInterface in
-- daemon/internal/tunnel/tunnel.go: try, sleep, and try again until a deadline.
pub mod Laws
use dark_routev.Base.{
  Bool, Option, false, if◌then◌else◌, ltb, none, not, some, suc, true, zero, ℕ, ◌+◌,
}

-- The loop, on fuel: whether a try before the deadline has succeeded, or `none` when the fuel is spent.
-- The i-th round begins at `time i`, in milliseconds.
unfoldable pub wait_loop : (ℕ → ℕ) → (ℕ → Bool) → ℕ → ℕ → ℕ → Option Bool
wait_loop time try deadline zero i = none
wait_loop time try deadline (suc fuel) i =
    let later = wait_loop time try deadline fuel (i + 1) in
    if not (ltb (time i) deadline) then some false else if try i then some true else later

-- In ten seconds there are at most 34 rounds with a sleep of 300 milliseconds each, in five seconds at
-- most 25 with one of 200.
abbrev pub port_fuel : ℕ
port_fuel = 35

abbrev pub interface_fuel : ℕ
interface_fuel = 26

unfoldable pub answered : Option Bool → Bool
answered none = false
answered (some b) = b
