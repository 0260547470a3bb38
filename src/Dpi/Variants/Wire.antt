-- ===== src/Dpi/Variants/Wire.antt =====
-- The WireGuard and AmneziaWG parts of daemon/internal/dpi/variants.go. `draw k` is the k-th number
-- that the package's random source yields during the call.
pub mod Laws
use dark_routev.Base.{
  Bool, List, Option, String, [], if◌then◌else◌, none, some, str_eq, ℕ, ◌&&◌, ◌++◌, ◌+◌, ◌<>◌, ◌==◌,
  ◌∷◌,
}
use dark_routev.Net.{split_endpoint_host_port, join_endpoint_host_port}
use dark_routev.Config.{TunnelConfig, WireGuardConfig, AmneziaWgConfig}
use dark_routev.Dpi.{BlockType, is_block_protocol}
use dark_routev.Dpi.Variants.Shared.{
  AwgProfile, mild, moderate, aggressive, awg_profiles, mtu_values, endpoint_ports, as_variant,
  mtu_loop, port_loop, rotates_ports, with_junk,
}

endpoint_variants :
    TunnelConfig → String → (String → TunnelConfig) → Option (String × ℕ) → List TunnelConfig
unfolding port_loop
endpoint_variants tc prefix with_endpoint none = []
endpoint_variants tc prefix with_endpoint (some (host, current)) =
    port_loop tc prefix current (λ p. with_endpoint (join_endpoint_host_port host p)) endpoint_ports

with_wg_endpoint : TunnelConfig → WireGuardConfig → String → TunnelConfig
with_wg_endpoint tc wg endpoint = record tc {
  wire_guard_config = some (record wg { endpoint = endpoint });
}

wg_ports : TunnelConfig → Option WireGuardConfig → List TunnelConfig
unfolding endpoint_variants with_wg_endpoint
wg_ports tc none = []
wg_ports tc (some wg) =
    if str_eq wg.endpoint ""
    then []
    else endpoint_variants tc "ep" (with_wg_endpoint tc wg) (split_endpoint_host_port wg.endpoint)

-- `wgEndpointPortVariants`
wg_endpoint_port_variants : TunnelConfig → List TunnelConfig
unfolding wg_ports
wg_endpoint_port_variants tc = wg_ports tc tc.wire_guard_config

with_awg_endpoint : TunnelConfig → AmneziaWgConfig → String → TunnelConfig
with_awg_endpoint tc awg endpoint = record tc {
  amnezia_wg_config = some (record awg { wg = record (awg.wg) { endpoint = endpoint } });
}

awg_ports : TunnelConfig → Option AmneziaWgConfig → List TunnelConfig
unfolding endpoint_variants with_awg_endpoint
awg_ports tc none = []
awg_ports tc (some awg) =
    if str_eq awg.endpoint ""
    then []
    else endpoint_variants tc "ep" (with_awg_endpoint tc awg)
        (split_endpoint_host_port awg.endpoint)

-- `awgEndpointPortVariants`
awg_endpoint_port_variants : TunnelConfig → List TunnelConfig
unfolding awg_ports
awg_endpoint_port_variants tc = awg_ports tc tc.amnezia_wg_config

-- `wgVariants`
unfoldable pub wg_variants : TunnelConfig → BlockType → List TunnelConfig
unfolding mtu_loop wg_endpoint_port_variants
wg_variants tc hint =
    mtu_loop tc mtu_values ++ (if rotates_ports hint then wg_endpoint_port_variants tc else [])

-- The current settings are those of the profile.
is_current : AmneziaWgConfig → AwgProfile → Bool
is_current cur prof =
    cur.junk_packet_count == prof.jc
    && cur.junk_packet_min_size == prof.jmin
    && cur.junk_packet_max_size == prof.jmax
    && cur.init_packet_magic_header == prof.h1
    && cur.response_packet_magic_header == prof.h2

-- `randomizeAWGHeaders`, which replaces the headers that the profile has just set. The argument is
-- the number of draws made before.
unfoldable pub randomize_awg_headers : (ℕ → ℕ) → ℕ → AmneziaWgConfig → AmneziaWgConfig
randomize_awg_headers draw k awg = record awg {
  init_packet_magic_header = draw k;
  response_packet_magic_header = draw (k + 1);
  under_load_packet_magic_header = draw (k + 2);
  transport_packet_magic_header = draw (k + 3);
}

with_profile : (ℕ → ℕ) → ℕ → AwgProfile → AmneziaWgConfig → AmneziaWgConfig
unfolding randomize_awg_headers
with_profile draw k prof awg =
    let set = record (with_junk prof awg) {
      init_packet_magic_header = prof.h1;
      response_packet_magic_header = prof.h2;
      under_load_packet_magic_header = prof.h3;
      transport_packet_magic_header = prof.h4;
    } in
    randomize_awg_headers draw k set

-- The loop over the profiles.
profile_loop : (ℕ → ℕ) → ℕ → TunnelConfig → AmneziaWgConfig → List AwgProfile → List TunnelConfig
unfolding is_current with_profile
profile_loop draw k tc awg [] = []
profile_loop draw k tc awg (prof ∷ rest) =
    let skip = profile_loop draw k tc awg rest in
    let more = profile_loop draw (k + 4) tc awg rest in
    if is_current awg prof
    then skip
    else as_variant tc ("awg:" <> prof.name)
        (record tc { amnezia_wg_config = some (with_profile draw k prof awg) })
      ∷ more

-- Aggressive first when a protocol signature was detected.
profiles_for : BlockType → List AwgProfile
profiles_for hint =
    if is_block_protocol hint then aggressive ∷ moderate ∷ mild ∷ [] else awg_profiles

awg_variants_of : (ℕ → ℕ) → TunnelConfig → BlockType → Option AmneziaWgConfig → List TunnelConfig
unfolding profile_loop profiles_for mtu_loop awg_endpoint_port_variants
awg_variants_of draw tc hint none = []
awg_variants_of draw tc hint (some awg) =
    profile_loop draw 0 tc awg (profiles_for hint)
    ++ (mtu_loop tc mtu_values
        ++ (if rotates_ports hint then awg_endpoint_port_variants tc else []))

-- `awgVariants`
unfoldable pub awg_variants : (ℕ → ℕ) → TunnelConfig → BlockType → List TunnelConfig
unfolding awg_variants_of
awg_variants draw tc hint = awg_variants_of draw tc hint tc.amnezia_wg_config
