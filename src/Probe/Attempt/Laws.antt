-- ===== src/Probe/Attempt/Laws.antt =====
-- daemon/internal/probe/probe.go: a round of probes ends without a panic, and what its result says.
use dark_routev.Base.{
  All, Bool, Bool-cases, List, Option, String, [], arith, false, if_ind, inl, inr, is_some, length,
  ltb, none, not, refl, some, true, ℕ, ◌+◌, ◌<◌, ◌==◌, ◌∷◌, ◌≡◌, ◌⊎◌,
}
use dark_routev.Config.{ProbeTarget, ProbeType, DaemonConfig, icmp, tcp, http, https, other_probe}
use dark_routev.Probe.{ProbeError, ProbeErrType, ProbeResult, none_err, same_err, classify_err}
use dark_routev.Probe.Aggregate.{AggResult, ErrCounts, aggregate}
use dark_routev.Probe.Aggregate.Laws.{
  Dominates, VisitsAll, failures, failures_of, successes, aggregate-Aggregated,
}
use dark_routev.Probe.Attempt.{
  Network, Ending, ended, panicked, lookup_host_doh, or_resolver, looked_up, find_addresses,
  icmp_at, probe_icmp, tcp_at, probe_tcp, http_at, probe_http, probe_as, result_of, run_probe,
  cons_result, run_all, probe_targets,
}

-- An error, or at least one address
abbrev pub IsAnswer : ProbeError ⊎ List String → Type 0
IsAnswer (inl e) = Unit {0}
IsAnswer (inr []) = ⊥
IsAnswer (inr (a ∷ more)) = Unit {0}

-- What the default resolver promises.
abbrev pub Resolves : Network → Type 0
Resolves net = (host : String) → IsAnswer (net.lookup_host host)

abbrev pub IsEnded : Ending → Type 0
IsEnded (ended e) = Unit {0}
IsEnded panicked = ⊥

module _ (net : Network) (h : Resolves net) (cfg : DaemonConfig) where
  or_resolver-IsAnswer :
      (host : String) (r : ProbeError ⊎ List String) → IsAnswer (or_resolver net host r)
  unfolding or_resolver
  or_resolver-IsAnswer host (inl e) = h host
  or_resolver-IsAnswer host (inr []) = h host
  or_resolver-IsAnswer host (inr (a ∷ more)) = tt

  looked_up-IsAnswer : (host : String) (ip : Option String) → IsAnswer (looked_up net cfg host ip)
  unfolding looked_up
  looked_up-IsAnswer host (some ip) = tt
  looked_up-IsAnswer host none =
      if_ind IsAnswer cfg.probe_use_doh _ _
        (λ _. or_resolver-IsAnswer host (lookup_host_doh net host cfg.probe_doh_endpoint))
        (λ _. h host)

  find_addresses-IsAnswer : (host : String) → IsAnswer (find_addresses net cfg host)
  unfolding find_addresses
  find_addresses-IsAnswer host = looked_up-IsAnswer host (net.parse_ip host)

  icmp_at-IsEnded : (host : String) (r : ProbeError ⊎ List String) → IsEnded (icmp_at net host r)
  unfolding icmp_at
  icmp_at-IsEnded host (inl e) = tt
  icmp_at-IsEnded host (inr []) = tt
  icmp_at-IsEnded host (inr (a ∷ more)) = tt

  tcp_at-IsEnded :
      (port : ℕ) (r : ProbeError ⊎ List String) → IsAnswer r → IsEnded (tcp_at net port r)
  unfolding tcp_at
  tcp_at-IsEnded port (inl e) a = tt
  tcp_at-IsEnded port (inr []) a = a
  tcp_at-IsEnded port (inr (x ∷ more)) a = tt

  http_at-IsEnded :
      (scheme host : String) (port : ℕ) (r : ProbeError ⊎ List String)
      → IsAnswer r
      → IsEnded (http_at net scheme host port r)
  unfolding http_at
  http_at-IsEnded scheme host port (inl e) a = tt
  http_at-IsEnded scheme host port (inr []) a = a
  http_at-IsEnded scheme host port (inr (x ∷ more)) a = tt

  probe_as-IsEnded :
      (type : ProbeType) (host : String) (port : ℕ) → IsEnded (probe_as net cfg type host port)
  unfolding probe_as probe_icmp probe_tcp probe_http
  probe_as-IsEnded icmp host port = icmp_at-IsEnded host (find_addresses net cfg host)
  probe_as-IsEnded tcp host port = tcp_at-IsEnded _ _ (find_addresses-IsAnswer host)
  probe_as-IsEnded http host port = http_at-IsEnded _ host _ _ (find_addresses-IsAnswer host)
  probe_as-IsEnded https host port = http_at-IsEnded _ host _ _ (find_addresses-IsAnswer host)
  probe_as-IsEnded (other_probe t) host port = tt

-- A result has the class none just if it is a success.
abbrev pub IsClassified : ProbeResult → Type 0
IsClassified r = same_err r.err_type none_err ≡ r.success

classify_err-none : (e : Option ProbeError) → same_err (classify_err e) none_err ≡ not (is_some e)
unfolding classify_err
classify_err-none none = refl
classify_err-none (some e) = ground arith

result_of-IsClassified :
    (t : ProbeTarget) (rtt : ℕ) (e : Ending)
    → IsEnded e
    → (r : ProbeResult) × (result_of t rtt e ≡ some r) × IsClassified r
unfolding result_of
result_of-IsClassified t rtt (ended e) h = (_, refl, classify_err-none e)
result_of-IsClassified t rtt panicked h = absurd h

module _ (nets : ℕ → Network) (h : (i : ℕ) → Resolves (nets i)) (elapsed : ℕ → ℕ)
    (cfg : DaemonConfig) where
  run_all-IsClassified :
      (i : ℕ) (ts : List ProbeTarget)
      → (rs : List ProbeResult) × (run_all nets elapsed cfg i ts ≡ some rs)
        × (length rs ≡ length ts)
        × All IsClassified rs
  unfolding run_all run_probe cons_result
  run_all-IsClassified i [] = ([], refl, refl, tt)
  run_all-IsClassified i (t ∷ ts) =
      let (r, e, c) =
        result_of-IsClassified t (elapsed i) (probe_as (nets i) cfg t.type t.host t.port)
          (probe_as-IsEnded (nets i) (h i) cfg t.type t.host t.port) in
      let (rs, es, l, cs) = run_all-IsClassified (i + 1) ts in
      (r ∷ rs, rw (e, es) refl, omega (arith, l), (c, cs))

failures_of-none : (rs : List ProbeResult) → All IsClassified rs → failures_of none_err rs ≡ 0
failures_of-none [] c = refl
failures_of-none (r ∷ rs) c = ground (arith, c.0, failures_of-none rs c.1)

-- Whatever has failed, it is counted under its kind.
failures_of-pos :
    (rs : List ProbeResult) → (failures rs ≡ 0) ⊎ ((et : ProbeErrType) × (0 < failures_of et rs))
failures_of-pos [] = inl refl
failures_of-pos (r ∷ rs) = elim (failures_of-pos rs) [
  | inr (et, p) ↦ inr (et, ground (arith, p))
  | inl e ↦ elim (Bool-cases r.success) [
    | inl s ↦ inl (ground (arith, e, s))
    | inr s ↦ inr (r.err_type, ground (arith, s))
  ]
]

-- What a round promises, which has not panicked.
abbrev pub Probed : List ProbeTarget → Option AggResult → Type 0
Probed ts none = ⊥
Probed ts (some agg) =
    (length agg.results ≡ length ts)
    × (agg.success ≡ ltb (failures agg.results) (successes agg.results))
    × (same_err agg.dominant_err_type none_err ≡ (failures agg.results == 0))

failures_of-same :
    (a b : ProbeErrType) (rs : List ProbeResult)
    → same_err a b ≡ true
    → failures_of a rs ≡ failures_of b rs
failures_of-same a b [] e = refl
failures_of-same a b (r ∷ rs) e = ground (arith, failures_of-same a b rs e)

dominant-none :
    (b : Bool) (d : ProbeErrType) (rs : List ProbeResult)
    → b ≡ (failures rs == 0)
    → All IsClassified rs
    → Dominates b d rs
    → same_err d none_err ≡ b
dominant-none true d rs e c h = rw h refl
dominant-none false d rs e c h = elim (failures_of-pos rs) [
  | inl z ↦ ground (arith, e, z)
  | inr (et, p) ↦
      let most = h et in
      let unseen = failures_of-none rs c in
      let alike = failures_of-same d none_err rs in ground (arith, p, most, unseen, alike)
]

aggregate-Probed :
    (keys : ErrCounts → List ProbeErrType)
    → VisitsAll keys
    → (ts : List ProbeTarget) (rs : List ProbeResult) → length rs ≡ length ts
    → All IsClassified rs
    → Probed ts (some (aggregate keys rs))
unfolding aggregate
aggregate-Probed keys v ts [] l c = (l, refl, refl)
aggregate-Probed keys v ts (r ∷ rs) l c =
    let agg = aggregate keys (r ∷ rs) in
    let (ok, lost, sent, d) = aggregate-Aggregated keys v r rs in
    (l, ok, dominant-none (failures (r ∷ rs) == 0) agg.dominant_err_type (r ∷ rs) refl c d)

module _ (nets : ℕ → Network) (h : (i : ℕ) → Resolves (nets i)) (elapsed : ℕ → ℕ) where
  -- A round of probes never panics, where the resolver answers with an error or an address: it has a
  -- result for every target, it succeeds if more of them have succeeded than failed, and its dominant
  -- error is none just if nothing failed.
  pub probe_targets-Probed :
      (keys : ErrCounts → List ProbeErrType)
      → VisitsAll keys
      → (cfg : DaemonConfig) (ts : List ProbeTarget)
      → Probed ts (probe_targets nets elapsed keys cfg ts)
  unfolding probe_targets
  probe_targets-Probed keys v cfg ts =
      let (rs, e, l, c) = run_all-IsClassified nets h elapsed cfg 0 ts in
      rw e (aggregate-Probed keys v ts rs l c)
