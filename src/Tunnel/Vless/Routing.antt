-- ===== src/Tunnel/Vless/Routing.antt =====
-- daemon/internal/tunnel/vless.go: the rule, the route and the redirection that lead marked traffic to
-- the local port of sing-box, their roll-back and their removal. `runCmd` is the shell in a context,
-- which is given by whether it is done in a state.
pub mod Laws
use dark_routev.Base.{Bool, String, [], if◌then◌else◌, itoa, none, some, ℕ, ◌%◌, ◌+◌, ◌==◌, ◌∷◌}
use dark_routev.Config.{TunnelConfig, VlessConfig}
use dark_routev.Shell.{Command, Shell, Outcome, run, in_context, run, run_ignored, and_then}
use dark_routev.Tunnel.{routing_table_id}

abbrev pub rule : String → String → String → Command
rule action mark table =
    ("ip", "rule" ∷ action ∷ "fwmark" ∷ mark ∷ "table" ∷ table ∷ "priority" ∷ "100" ∷ [])

abbrev pub add_route : String → Command
add_route table = ("ip", "route" ∷ "add" ∷ "default" ∷ "via" ∷ "127.0.0.1" ∷ "table" ∷ table ∷ [])

abbrev pub flush_routes : String → Command
flush_routes table = ("ip", "route" ∷ "flush" ∷ "table" ∷ table ∷ [])

abbrev pub redirect : String → String → String → Command
redirect action mark port = (
  "iptables",
  "-t" ∷ "nat" ∷ action ∷ "OUTPUT" ∷ "-m" ∷ "mark" ∷ "--mark" ∷ mark ∷ "-p" ∷ "tcp" ∷ "-j"
      ∷ "REDIRECT" ∷ "--to-ports" ∷ port ∷ [],
)

-- `if err := runCmd(…); err != nil { undo; return … }`
abbrev pub or_undo : {K : Type 0} → (K → K) → Outcome K → (K → Outcome K) → Outcome K
or_undo undo (some e, k) rest = (some e, undo k)
or_undo undo (none, k) rest = rest k

module _ {K : Type 0} (sh : Shell K) where
  -- The body of `setupRouting`, with the commands as `runCmd` runs them
  unfoldable pub setup_with : ℕ → ℕ → ℕ → K → Outcome K
  setup_with socks_port table_id fwmark k =
      let mark = itoa fwmark in
      let table = itoa table_id in
      let del_rule = run_ignored sh (rule "del" mark table) in
      and_then (run sh (rule "add" mark table) k) λ k₁.
        or_undo del_rule (run sh (add_route table) k₁) λ k₂.
          or_undo (λ k₃. del_rule (run_ignored sh (flush_routes table) k₃))
            (run sh (redirect "-A" mark (itoa socks_port)) k₂) (λ k₃. (none, k₃))

  -- The body of `teardownRouting`, with the local port that it computes
  unfoldable pub teardown_with : ℕ → ℕ → ℕ → K → K
  teardown_with local_port table_id fwmark k =
      let mark = itoa fwmark in
      let table = itoa table_id in
      let k₁ = run_ignored sh (rule "del" mark table) k in
      let k₂ = run_ignored sh (flush_routes table) k₁ in
      run_ignored sh (redirect "-D" mark (itoa local_port)) k₂

module _ {K : Type 0} (done : K → Bool) (sh : Shell K) where
  -- `setupRouting`, in a context
  unfoldable pub setup_routing : ℕ → ℕ → ℕ → K → Outcome K
  setup_routing = setup_with (in_context done sh)

  -- `teardownRouting`, in a context
  unfoldable pub teardown_routing : ℕ → ℕ → ℕ → K → K
  teardown_routing = teardown_with (in_context done sh)

-- `if localPort == 0 { localPort = 10800 + (routingTableID(tc) % 200) }`
unfoldable pub local_port : TunnelConfig → VlessConfig → ℕ
local_port tc vless =
    if vless.local_port == 0 then 10800 + routing_table_id tc % 200 else vless.local_port
