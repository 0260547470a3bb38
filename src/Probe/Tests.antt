-- ===== src/Probe/Tests.antt =====
-- The theorems on the probe engine at concrete targets and networks, and runs.
use dark_routev.Base.{
  List, [], false, if_ind, if◌then◌else◌, inl, inr, none, refl, some, str_eq, suc, true, zero, ℕ,
  ◌∷◌, ◌≡◌,
}
use dark_routev.Config.{ProbeTarget, DaemonConfig, icmp, tcp, https, default_daemon_config}
use dark_routev.Probe.{
  ProbeError, ProbeErrType, ProbeResult, none_err, timeout_err, rst_err, tls_handshake_err,
  http_reject_err, dns_err, other_err,
}
use dark_routev.Probe.Aggregate.{ErrCounts, aggregate}
use dark_routev.Probe.Aggregate.Laws.{Aggregated, VisitsAll, aggregate-Aggregated}
use dark_routev.Probe.Attempt.{Network, probe_targets, new_err}
use dark_routev.Probe.Attempt.Laws.{IsAnswer, Resolves, Probed, probe_targets-Probed}

abbrev reset_err : ProbeError
reset_err = record { dns = false; timed_out = false; reset_or_refused = true; text = "reset" }

-- One host is known, and its port 443 is reset.
abbrev network : Network
network = record {
  parse_ip = λ s. none;
  doh_answers = λ at host. inr ((5, "alias.example") ∷ []);
  lookup_host = λ host.
      if str_eq host "example.org" then inr ("192.0.2.1" ∷ []) else inl (new_err "no such host");
  dial = λ a. if str_eq a "192.0.2.1:443" then some reset_err else none;
  head = λ url host. if str_eq url "https://192.0.2.1:443/" then some reset_err else none;
}

network-Resolves : Resolves network
network-Resolves host =
    if_ind (λ r. IsAnswer r) (str_eq host "example.org") (inr ("192.0.2.1" ∷ []))
      (inl (new_err "no such host")) (λ _. tt) (λ _. tt)

abbrev targets : List ProbeTarget
targets =
    record { host = "example.org"; port = 0; type = icmp; timeout = 0 }
    ∷ record { host = "example.org"; port = 0; type = https; timeout = 0 }
    ∷ record { host = "missing.example"; port = 8080; type = tcp; timeout = 0 }
    ∷ []

-- All kinds, from the first constant to the last
abbrev all_keys : ErrCounts → List ProbeErrType
all_keys _ =
    none_err ∷ timeout_err ∷ rst_err ∷ tls_handshake_err ∷ http_reject_err ∷ dns_err ∷ other_err
    ∷ []

all_keys-VisitsAll : VisitsAll all_keys
all_keys-VisitsAll counts none_err = inr (inl refl)
all_keys-VisitsAll counts timeout_err = inr (inr (inl refl))
all_keys-VisitsAll counts rst_err = inr (inr (inr (inl refl)))
all_keys-VisitsAll counts tls_handshake_err = inr (inr (inr (inr (inl refl))))
all_keys-VisitsAll counts http_reject_err = inr (inr (inr (inr (inr (inl refl)))))
all_keys-VisitsAll counts dns_err = inr (inr (inr (inr (inr (inr (inl refl))))))
all_keys-VisitsAll counts other_err = inr (inr (inr (inr (inr (inr (inr (inl refl)))))))

abbrev reset_result : ProbeResult
reset_result = record {
  target = record { host = "example.org"; port = 443; type = https; timeout = 0 };
  success = false;
  rtt = 40;
  err = some reset_err;
  err_type = rst_err;
}

abbrev good_result : ProbeResult
good_result = record reset_result { success = true; rtt = 20; err = none; err_type = none_err }

aggregate-Aggregated_example :
    Aggregated
      (reset_result ∷ good_result ∷ reset_result ∷ [])
      (aggregate all_keys (reset_result ∷ good_result ∷ reset_result ∷ []))
aggregate-Aggregated_example =
    aggregate-Aggregated all_keys all_keys-VisitsAll reset_result (good_result ∷ reset_result ∷ [])

aggregate_dominant :
    (aggregate all_keys (reset_result ∷ good_result ∷ reset_result ∷ [])).dominant_err_type
    ≡ rst_err
unfolding aggregate dark_routev.Probe.Aggregate.tally dark_routev.Probe.Aggregate.tally_one
    dark_routev.Probe.Aggregate.dominant_loop
aggregate_dominant = refl

probe_targets-Probed_example :
    Probed targets (probe_targets (λ _. network) (λ i. i) all_keys default_daemon_config targets)
probe_targets-Probed_example =
    probe_targets-Probed (λ _. network) (λ _. network-Resolves) (λ i. i) all_keys all_keys-VisitsAll
      default_daemon_config targets

-- The indices from the last to the first
abbrev countdown : ℕ → List ℕ
countdown zero = []
countdown (suc n) = n ∷ countdown n

abbrev rotating : DaemonConfig
rotating = record default_daemon_config { probe_targets = targets; probe_target_pool = 2 }
