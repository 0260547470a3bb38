-- ===== src/Tunnel.antt =====
-- daemon/internal/tunnel/tunnel.go: the routing table and the mark of a configuration, and which
-- backend serves it. What a backend does to the system is a parameter of the modules that use it.
pub mod Waiting
pub mod Quick
pub mod Vless
pub mod Splitter
pub mod Laws
mod Tests
use dark_routev.Base.{
  List, Option, [], codes, if◌then◌else◌, ltb, none, some, ℕ, ◌%◌, ◌*◌, ◌+◌, ◌-◌, ◌^◌, ◌∷◌,
}
use dark_routev.Config.{
  TunnelConfig, Protocol, wire_guard, amnezia_wg, vless_protocol, other_protocol,
}

pub data Backend : Type 0 where
  wg_manager awg_manager vless_manager : Backend

backend_of : Protocol → Option Backend
backend_of wire_guard = some wg_manager
backend_of amnezia_wg = some awg_manager
backend_of vless_protocol = some vless_manager
backend_of (other_protocol _) = none

-- `ForConfig`; `none` is the error for an unsupported protocol.
unfoldable pub for_config : TunnelConfig → Option Backend
unfolding backend_of
for_config tc = backend_of tc.protocol

-- The loop `h = h*31 + int(c)` on a 64-bit int, whose value is given modulo 2^64.
unfoldable pub hash_from : ℕ → List ℕ → ℕ
hash_from h [] = h
hash_from h (c ∷ cs) = hash_from ((h * 31 + c) % 2 ^ 64) cs

-- `(h%m + m) % m` of the signed number: Go's remainder has the sign of `h`.
unfoldable pub signed_mod : ℕ → ℕ → ℕ
signed_mod h m = if ltb h (2 ^ 63) then (h % m + m) % m else (m - (2 ^ 64 - h) % m) % m

-- `routingTableID`
unfoldable pub routing_table_id : TunnelConfig → ℕ
unfolding hash_from signed_mod codes
routing_table_id tc =
    if ltb 0 tc.routing_table_id
    then tc.routing_table_id
    else 100 + signed_mod (hash_from 0 (codes tc.id)) 100

-- `fwmarkForTable`, the conversion to uint32
unfoldable pub fwmark_for_table : ℕ → ℕ
fwmark_for_table table_id = table_id % 2 ^ 32

-- `FWMark` of all three backends
unfoldable pub fwmark : TunnelConfig → ℕ
fwmark tc = fwmark_for_table (routing_table_id tc)
