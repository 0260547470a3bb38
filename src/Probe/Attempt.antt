-- ===== src/Probe/Attempt.antt =====
-- daemon/internal/probe/probe.go: one probe, from the name of the target to the classified error. The
-- parsing of addresses, the resolvers, the dialer and the HTTP client are parameters.
pub mod Laws
use dark_routev.Config.{ProbeTarget, ProbeType, DaemonConfig, icmp, tcp, http, https, other_probe}
use dark_routev.Base.{
  Bool, List, Option, String, [], false, if◌then◌else◌, inl, inr, is_some, itoa, map, none, not,
  some, str_eq, true, ℕ, ◌&&◌, ◌+◌, ◌<>◌, ◌==◌, ◌∷◌, ◌⊎◌,
}
use dark_routev.Net.{join_endpoint_host_port}
use mathlib.Core.Option
use dark_routev.Probe.{ProbeError, ProbeErrType, ProbeResult, classify_err, select_targets}
use dark_routev.Probe.Aggregate.{AggResult, ErrCounts, aggregate}

-- net.ParseIP with the text of its result; the answers of the DNS-over-HTTPS server, by type and data,
-- or an error of the request; LookupHost of the default resolver; the dialing of an address; and the
-- HEAD request of a URL for a host.
pub record Network : Type 0 where
  pub parse_ip : String → Option String
  pub doh_answers : String → String → ProbeError ⊎ List (ℕ × String)
  pub lookup_host : String → ProbeError ⊎ List String
  pub dial : String → Option ProbeError
  pub head : String → String → Option ProbeError

-- `fmt.Errorf` of a text, and with `%w` at its end
abbrev pub new_err : String → ProbeError
new_err s = record { dns = false; timed_out = false; reset_or_refused = false; text = s }

abbrev pub wrapped_err : String → ProbeError → ProbeError
wrapped_err s e = record e { text = s <> e.text }

-- How a probe ends: with an error or `nil`, or with a panic of the Go runtime.
pub data Ending : Type 0 where
  ended : Option ProbeError → Ending
  panicked : Ending

module _ (net : Network) where
  is_address : Option String → Bool
  is_address none = false
  is_address (some ip) = true

  -- The loop over the answers: the addresses of the A records
  a_records : List (ℕ × String) → List String
  unfolding is_address
  a_records [] = []
  a_records ((type, text) ∷ answers) =
      let rest = a_records answers in
      if type == 1 && is_address (net.parse_ip text) then text ∷ rest else rest

  some_addresses : String → List String → ProbeError ⊎ List String
  some_addresses host [] = inl (new_err ("no A records for " <> host))
  some_addresses host (a ∷ more) = inr (a ∷ more)

  from_answers : String → ProbeError ⊎ List (ℕ × String) → ProbeError ⊎ List String
  unfolding some_addresses a_records
  from_answers host (inl e) = inl e
  from_answers host (inr answers) = some_addresses host (a_records answers)

  -- `lookupHostDoH`
  unfoldable pub lookup_host_doh : String → String → ProbeError ⊎ List String
  unfolding from_answers
  lookup_host_doh host endpoint =
      let at = if str_eq endpoint "" then "https://1.1.1.1/dns-query" else endpoint in
      from_answers host (net.doh_answers at host)

  or_resolver : String → ProbeError ⊎ List String → ProbeError ⊎ List String
  or_resolver host (inr (a ∷ more)) = inr (a ∷ more)
  or_resolver host _ = net.lookup_host host

  looked_up : DaemonConfig → String → Option String → ProbeError ⊎ List String
  unfolding or_resolver
  looked_up cfg host (some ip) = inr (ip ∷ [])
  looked_up cfg host none =
      if cfg.probe_use_doh
      then or_resolver host (lookup_host_doh host cfg.probe_doh_endpoint)
      else net.lookup_host host

  -- `lookupHost`
  unfoldable pub find_addresses : DaemonConfig → String → ProbeError ⊎ List String
  unfolding looked_up
  find_addresses cfg host = looked_up cfg host (net.parse_ip host)

  dial_again : String → String → Option ProbeError → Option ProbeError
  dial_again host addr none = none
  dial_again host addr (some e) =
      Option.map (wrapped_err ("icmp/tcp probe " <> host <> ": "))
        (net.dial (join_endpoint_host_port addr 443))

  icmp_at : String → ProbeError ⊎ List String → Ending
  unfolding dial_again
  icmp_at host (inl e) = ended (some (wrapped_err ("resolve " <> host <> ": ") e))
  icmp_at host (inr []) = ended (some (new_err ("no addresses for " <> host)))
  icmp_at host (inr (addr ∷ addrs)) =
      ended (dial_again host addr (net.dial (join_endpoint_host_port addr 80)))

  -- `probeICMP`
  unfoldable pub probe_icmp : DaemonConfig → String → Ending
  unfolding icmp_at
  probe_icmp cfg host = icmp_at host (find_addresses cfg host)

  -- `addrs[0]` panics where there are none.
  tcp_at : ℕ → ProbeError ⊎ List String → Ending
  tcp_at port (inl e) = ended (some e)
  tcp_at port (inr []) = panicked
  tcp_at port (inr (addr ∷ addrs)) = ended (net.dial (join_endpoint_host_port addr port))

  -- `probeTCP`
  unfoldable pub probe_tcp : DaemonConfig → String → ℕ → Ending
  unfolding tcp_at
  probe_tcp cfg host port = tcp_at (if port == 0 then 80 else port) (find_addresses cfg host)

  -- The URL has no brackets round an IPv6 address.
  http_at : String → String → ℕ → ProbeError ⊎ List String → Ending
  http_at scheme host port (inl e) = ended (some e)
  http_at scheme host port (inr []) = panicked
  http_at scheme host port (inr (addr ∷ addrs)) =
      ended (net.head (scheme <> "://" <> addr <> ":" <> itoa port <> "/") host)

  -- `probeHTTP`
  unfoldable pub probe_http : DaemonConfig → String → String → ℕ → Ending
  unfolding http_at
  probe_http cfg scheme host port =
      let used = if port == 0 then (if str_eq scheme "https" then 443 else 80) else port in
      http_at scheme host used (find_addresses cfg host)

  -- The switch of `runProbe`
  unfoldable pub probe_as : DaemonConfig → ProbeType → String → ℕ → Ending
  probe_as cfg icmp host port = probe_icmp cfg host
  probe_as cfg tcp host port = probe_tcp cfg host port
  probe_as cfg http host port = probe_http cfg "http" host port
  probe_as cfg https host port = probe_http cfg "https" host port
  probe_as cfg (other_probe t) host port = ended (some (new_err ("unknown probe type: " <> t)))

result_of : ProbeTarget → ℕ → Ending → Option ProbeResult
result_of t rtt panicked = none
result_of t rtt (ended err) = some (record {
  target = t;
  success = not (is_some err);
  rtt = rtt;
  err = err;
  err_type = classify_err err;
})

-- `runProbe`, with the time that it took; `none` for a panic
unfoldable pub run_probe : Network → DaemonConfig → ℕ → ProbeTarget → Option ProbeResult
unfolding result_of
run_probe net cfg rtt t = result_of t rtt (probe_as net cfg t.type t.host t.port)

cons_result : Option ProbeResult → Option (List ProbeResult) → Option (List ProbeResult)
cons_result (some r) (some rs) = some (r ∷ rs)
cons_result _ _ = none

-- The results of the goroutines, the network and the time of each by its index; a panic in one of them
-- ends the program.
unfoldable pub run_all :
    (ℕ → Network) → (ℕ → ℕ) → DaemonConfig → ℕ → List ProbeTarget → Option (List ProbeResult)
unfolding cons_result
run_all nets elapsed cfg idx [] = some []
run_all nets elapsed cfg idx (t ∷ ts) =
    cons_result (run_probe (nets idx) cfg (elapsed idx) t) (run_all nets elapsed cfg (idx + 1) ts)

-- `Engine.ProbeTargets`
unfoldable pub probe_targets :
    (ℕ → Network)
    → (ℕ → ℕ)
    → (ErrCounts → List ProbeErrType)
    → DaemonConfig
    → List ProbeTarget
    → Option AggResult
probe_targets nets elapsed keys cfg ts = Option.map (aggregate keys) (run_all nets elapsed cfg 0 ts)

-- `Engine.ProbeAll`
unfoldable pub probe_all :
    (ℕ → List ℕ)
    → (ℕ → Network)
    → (ℕ → ℕ)
    → (ErrCounts → List ProbeErrType)
    → DaemonConfig
    → Option AggResult
probe_all perm nets elapsed keys cfg = probe_targets nets elapsed keys cfg (select_targets perm cfg)
