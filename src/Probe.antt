-- ===== src/Probe.antt =====
-- daemon/internal/probe/probe.go: the types of the probe engine, the classes of errors, and the choice
-- of the targets. An error of Go's net package is what the tests on it say; times are in nanoseconds.
pub mod Attempt
pub mod Aggregate
pub mod Laws
mod Tests
use dark_routev.Base.{
  Bool, List, Option, String, [], contains, if◌then◌else◌, leb, length, none, not, some, suc, zero,
  ℕ, ◌==◌, ◌||◌, ◌∷◌,
}
use dark_routev.Config.{ProbeTarget, DaemonConfig}

-- ProbeErrType
pub data ProbeErrType : Type 0 where
  none_err timeout_err rst_err tls_handshake_err http_reject_err dns_err other_err : ProbeErrType

-- The value that `iota` gives to the constant
abbrev pub iota : ProbeErrType → ℕ
iota none_err = 0
iota timeout_err = 1
iota rst_err = 2
iota tls_handshake_err = 3
iota http_reject_err = 4
iota dns_err = 5
iota other_err = 6

-- `==` on the constants
abbrev pub same_err : ProbeErrType → ProbeErrType → Bool
same_err a b = iota a == iota b

-- `ProbeErrType.String`
unfoldable pub err_name : ProbeErrType → String
err_name none_err = "none"
err_name timeout_err = "timeout"
err_name rst_err = "rst"
err_name tls_handshake_err = "tls_handshake"
err_name http_reject_err = "http_reject"
err_name dns_err = "dns"
err_name other_err = "other"

-- What classifyErr asks of an error: whether it is a net.DNSError, a net.Error that has timed out, or
-- a net.OpError of ECONNRESET or ECONNREFUSED; and its text.
pub record ProbeError : Type 0 where
  pub dns : Bool
  pub timed_out : Bool
  pub reset_or_refused : Bool
  pub text : String

-- `classifyErr`
unfoldable pub classify_err : Option ProbeError → ProbeErrType
classify_err none = none_err
classify_err (some err) =
    if err.dns
    then dns_err
    else if err.timed_out
    then timeout_err
    else if err.reset_or_refused
    then rst_err
    else if contains err.text "tls:"
        || contains err.text "handshake"
        || contains err.text "certificate"
        || contains err.text "x509"
    then tls_handshake_err
    else if contains err.text "EOF"
        || contains err.text "connection reset"
        || contains err.text "broken pipe"
    then http_reject_err
    else other_err

-- Result
pub record ProbeResult : Type 0 where
  pub target : ProbeTarget
  pub success : Bool
  pub rtt : ℕ
  pub err : Option ProbeError
  pub err_type : ProbeErrType

-- `targets[perm[i]]`, where an index out of range has no target
abbrev pub at : {A : Type 0} → List A → ℕ → Option A
at [] i = none
at (x ∷ xs) zero = some x
at (x ∷ xs) (suc i) = at xs i

abbrev pub append_some : {A : Type 0} → Option A → List A → List A
append_some none xs = xs
append_some (some x) xs = x ∷ xs

-- The targets at the first indices of the permutation
unfoldable pub pick : {A : Type 0} → List A → ℕ → List ℕ → List A
pick targets zero perm = []
pick targets (suc n) [] = []
pick targets (suc n) (i ∷ perm) = append_some (at targets i) (pick targets n perm)

-- `selectTargets`; `perm` is what rand.Perm returns for a number of targets.
unfoldable pub select_targets : (ℕ → List ℕ) → DaemonConfig → List ProbeTarget
select_targets perm cfg =
    let targets = cfg.probe_targets in
    let n = length targets in
    let pool = cfg.probe_target_pool in
    if not cfg.probe_rotate_targets || leb n 1
    then targets
    else pick targets (if leb pool 0 || leb n pool then n else pool) (perm n)
