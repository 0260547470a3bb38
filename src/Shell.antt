-- ===== src/Shell.antt =====
-- The running of external programs, which daemon/internal/policy/policy.go and
-- daemon/internal/tunnel/vless.go do by os/exec. A program is a parameter: a function from the
-- command and the state of the system to whether it exits with status 0, and the state that it leaves.
pub mod Laws
use dark_routev.Base.{Bool, List, Option, String, false, if◌then◌else◌, none, some, true}

-- The name and the arguments of `exec.CommandContext`
abbrev pub Command : Type 0
Command = String × List String

abbrev pub Shell : Type 0 → Type 0
Shell K = Command → K → Bool × K

-- A Go `error`, here the command that has failed, or `none` for `nil`, with the state that is left.
abbrev pub Outcome : Type 0 → Type 0
Outcome K = Option Command × K

module _ {K : Type 0} where
  abbrev pub status : Command → Bool × K → Outcome K
  status c (true, k) = (none, k)
  status c (false, k) = (some c, k)

  -- exec.CommandContext: once its context is done, a command is not run.
  unfoldable pub in_context : (K → Bool) → Shell K → Shell K
  in_context done sh c k = if done k then (false, k) else sh c k

  -- `Manager.run` of policy.go and `run` of tunnel.go
  abbrev pub run : Shell K → Command → K → Outcome K
  run sh c k = status c (sh c k)

  -- `_ = run(…)`, and a loop's body that only logs the error
  abbrev pub run_ignored : Shell K → Command → K → K
  run_ignored sh c k = (sh c k).1

  -- `if err := …; err != nil { return err }`
  abbrev pub and_then : Outcome K → (K → Outcome K) → Outcome K
  and_then (some e, k) rest = (some e, k)
  and_then (none, k) rest = rest k
