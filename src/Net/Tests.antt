-- ===== src/Net/Tests.antt =====
-- Endpoints as they occur in configurations.
use dark_routev.Base.{none, refl, some, ◌≡◌}
use dark_routev.Net.{split_endpoint_host_port, join_endpoint_host_port}

ip4 : split_endpoint_host_port "10.0.0.1:51820" ≡ some ("10.0.0.1", 51820)
unfolding split_endpoint_host_port
ip4 = refl

ip6 : split_endpoint_host_port "[fe80::1]:443" ≡ some ("fe80::1", 443)
unfolding split_endpoint_host_port
ip6 = refl

bare_ip6 : split_endpoint_host_port "fe80::1:443" ≡ some ("fe80::1", 443)
unfolding split_endpoint_host_port
bare_ip6 = refl

port_out_of_range : split_endpoint_host_port "vpn.example.org:70000" ≡ none
unfolding split_endpoint_host_port
port_out_of_range = refl

joined : join_endpoint_host_port "fe80::1" 443 ≡ "[fe80::1]:443"
unfolding join_endpoint_host_port
joined = refl
