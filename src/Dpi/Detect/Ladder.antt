-- ===== src/Dpi/Detect/Ladder.antt =====
-- daemon/internal/dpi/detector.go, `Detect`: the stages one after the other, up to the first that
-- decides. What the connections answer is a parameter; texts that are only shown (the evidence and the
-- details of the stages) and the time of the test are left out.
pub mod Laws
use dark_routev.Base.{
  Bool, List, Option, String, [], false, if◌then◌else◌, is_some, none, some, true, ℕ, ◌++◌, ◌/◌,
  ◌==◌, ◌∷◌,
}
use dark_routev.Config.{ProbeTarget}
use dark_routev.Dpi.{BlockType, block_none, block_http}
use dark_routev.Dpi.Detect.{
  NetError, classify_tcp_error, classify_http_error, classify_tls_error, detection_http_ports,
  pick_detection_target,
}

-- The TCP connection to an address with the nanoseconds that it took, the HEAD request over HTTP to a
-- host and port (`probeHTTPHead`), and the one over HTTPS
pub record Wire : Type 0 where
  pub connect : String → ℕ → Option NetError
  pub elapsed : ℕ
  pub head : String → ℕ → Option NetError
  pub tls_head : String → ℕ → Option NetError

-- StageResult without its detail
pub record Stage : Type 0 where
  pub stage : String
  pub success : Bool
  pub reason_code : String
  pub latency_ms : ℕ
  pub confidence : ℕ

-- DetectionResult without its evidence
pub record Detected : Type 0 where
  pub block_type : BlockType
  pub reason_code : String
  pub confidence : ℕ
  pub stage_results : List Stage

-- `for _, p := range httpPorts`: whether one has answered, and the last error
unfoldable pub http_loop : (ℕ → Option NetError) → List ℕ → Option NetError → Bool × Option NetError
http_loop head [] err = (false, err)
http_loop head (p ∷ ps) err =
    let rest = http_loop head ps (head p) in if is_some (head p) then rest else (true, none)

abbrev plain_stage : String → Bool → String → ℕ → Stage
plain_stage name ok reason conf = record {
  stage = name;
  success = ok;
  reason_code = reason;
  latency_ms = 0;
  confidence = conf;
}

-- What follows the answer of the HTTPS request
https_stage : List Stage → Bool → Option NetError → Detected
https_stage stages http_ok none = record {
  block_type = block_none;
  reason_code = "ok";
  confidence = (if http_ok then 95 else 75);
  stage_results = stages ++ (plain_stage "https_head" true "ok" 90 ∷ []);
}
https_stage stages http_ok (some err) =
    let v = classify_tls_error (some err) http_ok in
    record {
      block_type = v.block_type;
      reason_code = v.reason;
      confidence = v.confidence;
      stage_results = stages ++ (plain_stage "https_head" false v.reason v.confidence ∷ []);
    }

-- What follows the HTTP requests: `httpOK`, the last error, and the answer of the HTTPS request
http_stage : List Stage → Bool × Option NetError → Option NetError → Detected
unfolding https_stage
http_stage stages (true, err) tls_err =
    https_stage (stages ++ (plain_stage "http_head" true "ok" 80 ∷ [])) true tls_err
http_stage stages (false, err) tls_err =
    let (reason, conf, likely_dpi) = classify_http_error err in
    let failed = stages ++ (plain_stage "http_head" false reason conf ∷ []) in
    if likely_dpi
    then record {
      block_type = block_http;
      reason_code = reason;
      confidence = conf;
      stage_results = failed;
    }
    else https_stage failed false tls_err

-- What follows the TCP connection, which has taken this many milliseconds
tcp_stage : ℕ → ℕ → Option NetError → Bool × Option NetError → Option NetError → Detected
unfolding http_stage
tcp_stage elapsed ms none http tls_err =
    http_stage
      (record {
        stage = "tcp_connect";
        success = true;
        reason_code = "ok";
        latency_ms = ms;
        confidence = 90;
      }
        ∷ [])
      http tls_err
tcp_stage elapsed ms (some err) http tls_err =
    let v = classify_tcp_error err elapsed in
    record {
      block_type = v.block_type;
      reason_code = v.reason;
      confidence = v.confidence;
      stage_results =
          record {
            stage = "tcp_connect";
            success = false;
            reason_code = v.reason;
            latency_ms = ms;
            confidence = v.confidence;
          }
          ∷ [];
    }

-- `port := target.Port; if port == 0 { port = 443 }`
abbrev pub detection_port : ProbeTarget → ℕ
detection_port t = if t.port == 0 then 443 else t.port

module _ (wire : Wire) where
  detect_at : List ProbeTarget → Option ProbeTarget → Detected
  unfolding tcp_stage
  detect_at targets none = record {
    block_type = block_none;
    reason_code = "no_probe_targets";
    confidence = 95;
    stage_results = plain_stage "precheck" false "no_probe_targets" 95 ∷ [];
  }
  detect_at targets (some t) =
      let port = detection_port t in
      tcp_stage wire.elapsed (wire.elapsed / 1000000) (wire.connect t.host port)
        (http_loop (wire.head t.host) (detection_http_ports t.host targets) none)
        (wire.tls_head t.host port)

  -- `Detect`; the target that is picked is `none` where there are no targets.
  unfoldable pub detect : List ProbeTarget → Detected
  unfolding detect_at
  detect targets = detect_at targets (pick_detection_target targets)
