-- ===== src/Dpi/Detect/Ladder/Laws.antt =====
-- daemon/internal/dpi/detector.go, `Detect`: the result against the answers of the connections.
use dark_routev.Base.{
  Bool, Bool-cases, List, Option, String, [], arith, contains, false, if_ind, if◌then◌else◌, inl,
  inr, is_some, ltb, none, not, refl, some, sym, true, ℕ, ◌&&◌, ◌++◌, ◌/◌, ◌||◌, ◌∙◌, ◌∷◌, ◌≡◌, ◌⊎◌,
}
use dark_routev.Config.{ProbeTarget}
use dark_routev.Dpi.{
  BlockType, block_none, block_tcp, block_http, block_tls, block_protocol, is_block_none,
}
use dark_routev.Dpi.Detect.{
  NetError, classify_tcp_error, classify_http_error, classify_tls_error, detection_http_ports,
  pick_detection_target,
}
use dark_routev.Dpi.Detect.Pick.{IsMeant, tls_port, pick_detection_target-IsMeant}
use dark_routev.Dpi.Detect.Ladder.{
  Wire, Stage, Detected, plain_stage, http_loop, https_stage, http_stage, tcp_stage, detection_port,
  detect_at, detect,
}

-- The last error of a list of ports that have all failed
abbrev pub all_fail : (ℕ → Option NetError) → List ℕ → Bool
all_fail head [] = true
all_fail head (p ∷ ps) = is_some (head p) && all_fail head ps

-- An error that suggests the filtering of HTTP: a reset or a timeout, and no refused port
abbrev pub looks_filtered : Option NetError → Bool
looks_filtered none = false
looks_filtered (some err) = not err.refused && (err.reset || err.timed_out)

-- The answer of the last port that is tried
abbrev pub last_answer : (ℕ → Option NetError) → List ℕ → Option NetError → Option NetError
last_answer head [] err = err
last_answer head (p ∷ ps) err = last_answer head ps (head p)

http_loop_lem :
    (head : ℕ → Option NetError) (ps : List ℕ) (err : Option NetError)
    → http_loop head ps err
      ≡ (if all_fail head ps then (false, last_answer head ps err) else (true, none))
unfolding http_loop
http_loop_lem head [] err = refl
http_loop_lem head (p ∷ ps) err = elim (Bool-cases (is_some (head p))) [
  | inl e ↦ rw e (http_loop_lem head ps (head p))
  | inr e ↦ rw e refl
]

-- A certificate that is not trusted is no sign of a block.
abbrev pub looks_broken : Option NetError → Bool
looks_broken none = false
looks_broken (some err) =
    not (contains err.lower_text "x509:" || contains err.lower_text "certificate")

-- The block that the answers mean: where TCP fails, the classification of its error; else an HTTP
-- block if filtering shows there; else a TLS block if TLS is broken.
abbrev pub meant : ℕ → Option NetError → Bool → Option NetError → Option NetError → BlockType
meant elapsed (some err) failed http_err tls_err =
    if err.reset && ltb elapsed 200000000
    then block_protocol
    else if err.reset
    then block_tcp
    else if err.refused
    then block_none
    else block_tcp
meant elapsed none failed http_err tls_err =
    if failed && looks_filtered http_err
    then block_http
    else if looks_broken tls_err
    then block_tls
    else block_none

abbrev tls_block : Option NetError → BlockType
tls_block tls_err = if looks_broken tls_err then block_tls else block_none

https_stage-block :
    (stages : List Stage) (ok : Bool) (e : Option NetError)
    → (https_stage stages ok e).block_type ≡ tls_block e
unfolding https_stage classify_tls_error
https_stage-block stages ok none = refl
https_stage-block stages ok (some err) = ground arith

likely_dpi : (e : Option NetError) → (classify_http_error e).2 ≡ looks_filtered e
unfolding classify_http_error
likely_dpi none = refl
likely_dpi (some err) = ground arith

-- A failed HTTP stage ends the ladder if filtering shows.
http_failed_ind :
    (P : Detected → Type 0) (stages : List Stage) (err tls_err : Option NetError)
    → (let (reason, conf, likely) = classify_http_error err in
        let failed = stages ++ (plain_stage "http_head" false reason conf ∷ []) in
        (looks_filtered err ≡ true
          → P (record {
            block_type = block_http;
            reason_code = reason;
            confidence = conf;
            stage_results = failed;
          }))
        → (looks_filtered err ≡ false → P (https_stage failed false tls_err))
        → P (http_stage stages (false, err) tls_err))
unfolding http_stage
http_failed_ind P stages err tls_err p q =
    if_ind P (classify_http_error err).2 _ _ (λ t. p (sym (likely_dpi err) ∙ t))
      (λ f. q (sym (likely_dpi err) ∙ f))

http_stage-block :
    (stages : List Stage) (failed : Bool) (http_err tls_err : Option NetError)
    → (http_stage stages (if failed then (false, http_err) else (true, none)) tls_err).block_type
      ≡ meant 0 none failed http_err tls_err
unfolding http_stage
http_stage-block stages false http_err tls_err = https_stage-block _ true tls_err
http_stage-block stages true err tls_err =
    http_failed_ind (λ d. d.block_type ≡ meant 0 none true err tls_err) stages err tls_err
      (λ t. rw t refl) (λ f. rw f (https_stage-block _ false tls_err))

abbrev connected : ℕ → List Stage
connected ms =
    record {
      stage = "tcp_connect";
      success = true;
      reason_code = "ok";
      latency_ms = ms;
      confidence = 90;
    }
    ∷ []

tcp_stage-block :
    (elapsed ms : ℕ) (tcp_err : Option NetError) (failed : Bool)
    (http_err tls_err : Option NetError)
    → (tcp_stage elapsed ms tcp_err
        (if failed then (false, http_err) else (true, none))
        tls_err).block_type
      ≡ meant elapsed tcp_err failed http_err tls_err
unfolding tcp_stage classify_tcp_error
tcp_stage-block elapsed ms none failed http_err tls_err =
    http_stage-block (connected ms) failed http_err tls_err
tcp_stage-block elapsed ms (some err) failed http_err tls_err = ground arith

-- For the target that is meant (the first of type https, else of type http, else the first of the
-- list), its port (443 for 0) and the ports of the HTTP stage, whose last error counts when all fail:
-- the type of block that is reported is the one that the answers mean.
pub detect-meant :
    (wire : Wire) (targets : List ProbeTarget) (t : ProbeTarget)
    → IsMeant t targets
    → let ports = detection_http_ports t.host targets in
      (detect wire targets).block_type
      ≡ meant wire.elapsed
          (wire.connect t.host (tls_port t))
          (all_fail (wire.head t.host) ports)
          (last_answer (wire.head t.host) ports none)
          (wire.tls_head t.host (tls_port t))
unfolding detect detect_at
detect-meant wire targets t picked =
    let e = pick_detection_target-IsMeant t targets picked in
    let head = wire.head t.host in
    let ports = detection_http_ports t.host targets in
    rw (e, http_loop_lem head ports none)
      (tcp_stage-block wire.elapsed (wire.elapsed / 1000000)
        (wire.connect t.host (detection_port t)) (all_fail head ports) (last_answer head ports none)
        (wire.tls_head t.host (detection_port t)))

-- The last stage explains the result.
abbrev pub Explains : Detected → List Stage → Type 0
Explains d [] = ⊥
Explains d (s ∷ []) =
    (d.reason_code ≡ s.reason_code)
    × (if s.success then is_block_none d.block_type ≡ true else d.confidence ≡ s.confidence)
Explains d (s ∷ (t ∷ rest)) = Explains d (t ∷ rest)

abbrev pub names : List Stage → List String
names [] = []
names (s ∷ rest) = s.stage ∷ names rest

abbrev pub InOrder : List String → Type 0
InOrder ns =
    (ns ≡ "precheck" ∷ [])
    ⊎ (ns ≡ "tcp_connect" ∷ [])
    ⊎ (ns ≡ "tcp_connect" ∷ "http_head" ∷ [])
    ⊎ (ns ≡ "tcp_connect" ∷ "http_head" ∷ "https_head" ∷ [])

abbrev pub IsExplained : Detected → Type 0
IsExplained d = Explains d d.stage_results × InOrder (names d.stage_results)

-- The HTTPS stage explains what it returns.
https_stage-IsExplained :
    (ms : ℕ) (b ok : Bool) (reason : String) (conf : ℕ) (e : Option NetError)
    → IsExplained (https_stage (connected ms ++ (plain_stage "http_head" b reason conf ∷ [])) ok e)
unfolding https_stage
https_stage-IsExplained ms b ok reason conf none = ((refl, refl), inr (inr (inr refl)))
https_stage-IsExplained ms b ok reason conf (some err) = ((refl, refl), inr (inr (inr refl)))

http_stage-IsExplained :
    (ms : ℕ) (http : Bool × Option NetError) (tls_err : Option NetError)
    → IsExplained (http_stage (connected ms) http tls_err)
unfolding http_stage
http_stage-IsExplained ms (true, err) tls_err = https_stage-IsExplained ms true true "ok" 80 tls_err
http_stage-IsExplained ms (false, err) tls_err =
    http_failed_ind IsExplained (connected ms) err tls_err
      (λ t. ((refl, refl), inr (inr (inl refl))))
      (λ f. https_stage-IsExplained ms false false _ _ tls_err)

tcp_stage-IsExplained :
    (elapsed ms : ℕ) (tcp_err : Option NetError) (http : Bool × Option NetError)
    (tls_err : Option NetError)
    → IsExplained (tcp_stage elapsed ms tcp_err http tls_err)
unfolding tcp_stage
tcp_stage-IsExplained elapsed ms none http tls_err = http_stage-IsExplained ms http tls_err
tcp_stage-IsExplained elapsed ms (some err) http tls_err = ((refl, refl), inr (inl refl))

detect_at-IsExplained :
    (wire : Wire) (targets : List ProbeTarget) (o : Option ProbeTarget)
    → IsExplained (detect_at wire targets o)
unfolding detect_at
detect_at-IsExplained wire targets none = ((refl, refl), inl refl)
detect_at-IsExplained wire targets (some t) =
    tcp_stage-IsExplained wire.elapsed _ (wire.connect t.host (detection_port t)) _
      (wire.tls_head t.host (detection_port t))

-- Every result is explained by its stages: they are an initial part of the ladder, or the failed
-- precheck; the last one carries the reason of the result; if it failed its confidence is that of the
-- result; if it succeeded no block is reported.
pub detect-IsExplained :
    (wire : Wire) (targets : List ProbeTarget) → IsExplained (detect wire targets)
unfolding detect
detect-IsExplained wire targets = detect_at-IsExplained wire targets (pick_detection_target targets)
