-- ===== src/Net/Laws.antt =====
-- Which ports an endpoint can have.
use dark_routev.Base.{Option, String, arith, none, some, ℕ, ◌<◌, ◌≡◌, ◌≤◌}
use dark_routev.Net.{
  checked_port, read_port, atoi_positive, trim_space, or_fallback, split_host_port,
  split_endpoint_host_port,
}

checked_port_bounds :
    (h : String) (o : Option ℕ) (host : String) (port : ℕ)
    → checked_port h o ≡ some (host, port)
    → (0 < port) × (port ≤ 65535)
unfolding checked_port
checked_port_bounds h none host port e = cc
checked_port_bounds h (some p) host port e = ground arith

read_port_bounds :
    (o : Option (String × String)) (host : String) (port : ℕ)
    → read_port o ≡ some (host, port)
    → (0 < port) × (port ≤ 65535)
unfolding read_port
read_port_bounds none host port e = cc
read_port_bounds (some (h, p)) host port e =
    checked_port_bounds h (atoi_positive (trim_space p)) host port e

-- A port that was read from an endpoint is between 1 and 65535.
pub split_endpoint_bounds :
    (endpoint host : String) (port : ℕ)
    → split_endpoint_host_port endpoint ≡ some (host, port)
    → (0 < port) × (port ≤ 65535)
unfolding split_endpoint_host_port
split_endpoint_bounds endpoint host port h =
    read_port_bounds (or_fallback endpoint (split_host_port endpoint)) host port h
