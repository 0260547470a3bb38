-- ===== src/Dpi/Detect.antt =====
-- daemon/internal/dpi/detector.go: how the errors of the probes are read, and what is probed. An error
-- of Go's net package is what the tests on it say; texts that are only shown are left out.
pub mod Pick
pub mod Ladder
pub mod Laws
mod Tests
use dark_routev.Base.{
  Bool, List, Option, String, [], contains, false, first, if◌then◌else◌, ltb, none, not, some,
  str_eq, true, ℕ, ◌++◌, ◌==◌, ◌||◌, ◌∷◌,
}
use dark_routev.Config.{ProbeTarget, ProbeType, http, https}
use dark_routev.Dpi.{BlockType, block_none, block_tcp, block_tls, block_protocol}

-- `isRSTError`, `isConnRefusedError` and `isTimeoutError` of the error, and its text in lower case
pub record NetError : Type 0 where
  pub reset : Bool
  pub refused : Bool
  pub timed_out : Bool
  pub lower_text : String

-- What a classification returns; the confidence is in hundredths.
pub record Verdict : Type 0 where
  pub block_type : BlockType
  pub reason : String
  pub confidence : ℕ

abbrev verdict : BlockType → String → ℕ → Verdict
verdict b r c = record { block_type = b; reason = r; confidence = c }

-- `200*time.Millisecond`
abbrev pub fast : ℕ
fast = 200000000

-- `classifyTCPError`
unfoldable pub classify_tcp_error : NetError → ℕ → Verdict
classify_tcp_error err elapsed =
    if err.reset
    then (if ltb elapsed fast
        then verdict block_protocol "tcp_rst_fast" 90
        else verdict block_tcp "tcp_rst" 80)
    else if err.refused
    then verdict block_none "tcp_refused" 30
    else if err.timed_out
    then verdict block_tcp "tcp_timeout" 70
    else verdict block_tcp "tcp_connect_error" 55

-- `classifyHTTPError`: the reason, the confidence, and whether DPI is likely
unfoldable pub classify_http_error : Option NetError → String × ℕ × Bool
classify_http_error none = ("ok", 90, false)
classify_http_error (some err) =
    if err.refused
    then ("http_unavailable", 35, false)
    else if err.reset
    then ("http_rst", 85, true)
    else if err.timed_out
    then ("http_timeout", 55, true)
    else ("http_probe_failed", 40, false)

-- `classifyTLSError`
unfoldable pub classify_tls_error : Option NetError → Bool → Verdict
classify_tls_error none http_ok = verdict block_none "ok" 95
classify_tls_error (some err) http_ok =
    if contains err.lower_text "x509:" || contains err.lower_text "certificate"
    then verdict block_none "tls_certificate_error" 90
    else if err.reset
    then verdict block_tls "tls_rst" (if http_ok then 70 else 50)
    else if err.timed_out
    then verdict block_tls "tls_timeout" (if http_ok then 65 else 45)
    else verdict block_tls "tls_handshake_error" (if http_ok then 60 else 40)

abbrev pub is_http : ProbeType → Bool
is_http http = true
is_http _ = false

abbrev pub is_https : ProbeType → Bool
is_https https = true
is_https _ = false

-- Membership in the map `seen`
abbrev pub has : ℕ → List ℕ → Bool
has p [] = false
has p (q ∷ qs) = q == p || has p qs

-- `p := t.Port; if p == 0 { p = 80 }`
abbrev pub http_port : ProbeTarget → ℕ
http_port t = if t.port == 0 then 80 else t.port

ports_loop : String → List ℕ → List ℕ → List ProbeTarget → List ℕ
ports_loop host seen ports [] = ports
ports_loop host seen ports (t ∷ targets) =
    let skip = ports_loop host seen ports targets in
    let add = ports_loop host (http_port t ∷ seen) (ports ++ (http_port t ∷ [])) targets in
    if not (str_eq t.host host) || not (is_http t.type)
    then skip
    else if has (http_port t) seen
    then skip
    else add

-- `detectionHTTPPorts`
unfoldable pub detection_http_ports : String → List ProbeTarget → List ℕ
unfolding ports_loop
detection_http_ports host targets = ports_loop host (80 ∷ []) (80 ∷ []) targets

first_http : List ProbeTarget → Option ProbeTarget → Option ProbeTarget
first_http targets (some t) = some t
first_http targets none = first (λ (t : ProbeTarget). is_http t.type) targets

first_any : List ProbeTarget → Option ProbeTarget → Option ProbeTarget
first_any targets (some t) = some t
first_any [] none = none
first_any (t ∷ targets) none = some t

-- `pickDetectionTarget`; `none` is the panic on an empty list, which no caller passes.
unfoldable pub pick_detection_target : List ProbeTarget → Option ProbeTarget
unfolding first_http first_any
pick_detection_target targets =
    first_any targets (first_http targets (first (λ (t : ProbeTarget). is_https t.type) targets))
