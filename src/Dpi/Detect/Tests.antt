-- ===== src/Dpi/Detect/Tests.antt =====
-- The ports and the classifications of concrete targets and errors.
use dark_routev.Base.{
  List, [], false, if◌then◌else◌, inl, inr, none, refl, some, true, ◌==◌, ◌∷◌, ◌≡◌,
}
use dark_routev.Config.{ProbeTarget, http}
use dark_routev.Dpi.{block_protocol, block_tls}
use dark_routev.Dpi.Detect.{
  NetError, classify_tcp_error, classify_tls_error, detection_http_ports, pick_detection_target,
}
use dark_routev.Dpi.Detect.Ladder.{Wire, detect, http_loop}
use dark_routev.Dpi.Detect.Pick.{IsMeant}
use dark_routev.Dpi.Detect.Ladder.Laws.{
  meant, all_fail, last_answer, IsExplained, detect-meant, detect-IsExplained,
}
use dark_routev.Samples.{target}

abbrev targets : List ProbeTarget
targets =
    record target { type = http; port = 8080 }
    ∷ record target { type = http; port = 0 }
    ∷ target
    ∷ record target { type = http; port = 8080 }
    ∷ []

two_ports : detection_http_ports "example.org" targets ≡ 80 ∷ 8080 ∷ []
unfolding detection_http_ports
two_ports = refl

https_first : pick_detection_target targets ≡ some target
unfolding pick_detection_target
https_first = refl

targets-IsMeant : IsMeant target targets
targets-IsMeant = inl (inr (refl, inr (refl, inl (refl, refl))))

reset : NetError
reset = record {
  reset = true;
  refused = false;
  timed_out = false;
  lower_text = "connection reset by peer";
}

fast_reset : (classify_tcp_error reset 5000000).block_type ≡ block_protocol
unfolding classify_tcp_error reset
fast_reset = refl

abbrev slow_reset : NetError
slow_reset = record {
  reset = true;
  refused = false;
  timed_out = false;
  lower_text = "read: connection reset by peer";
}

-- TCP and HTTP answer, HTTPS is reset.
abbrev wire : Wire
wire = record {
  connect = λ host port. none;
  elapsed = 30000000;
  head = λ host port. if port == 8080 then none else some slow_reset;
  tls_head = λ host port. some slow_reset;
}

detect-meant_example :
    (detect wire targets).block_type
    ≡ meant 30000000 none
        (all_fail (wire.head "example.org") (detection_http_ports "example.org" targets))
        (last_answer (wire.head "example.org") (detection_http_ports "example.org" targets) none)
        (some slow_reset)
detect-meant_example = detect-meant wire targets target targets-IsMeant

detect-IsExplained_example : IsExplained (detect wire targets)
detect-IsExplained_example = detect-IsExplained wire targets

tls_detected : (detect wire targets).block_type ≡ block_tls
unfolding detect pick_detection_target detection_http_ports http_loop classify_tls_error
tls_detected = refl
