-- ===== src/Dpi/Variants/Vless.antt =====
-- The VLESS part of daemon/internal/dpi/variants.go: fingerprints, transports, paths, ECH and ports.
pub mod Laws
use Prim.Native.Char.{code}
use dark_routev.Base.{
  List, Option, String, [], if◌then◌else◌, none, refl, some, starts_with, str_eq, trim_prefix, true,
  ◌++◌, ◌<>◌, ◌==◌, ◌||◌, ◌∷◌, ◌≡◌,
}
use dark_routev.Net.{trim_space}
use dark_routev.Config.{TunnelConfig, VlessConfig}
use dark_routev.Dpi.{BlockType, block_http, is_block_none, is_block_http, is_block_tls}
use dark_routev.Dpi.Variants.Shared.{as_variant, port_loop, endpoint_ports, rotates_ports}

-- `vlessFingerprints`
abbrev pub vless_fingerprints : List String
vless_fingerprints = "chrome" ∷ "firefox" ∷ "safari" ∷ "ios" ∷ "android" ∷ "360" ∷ []

-- `vlessTransports`
abbrev pub vless_transports : List String
vless_transports = "ws" ∷ "grpc" ∷ "httpupgrade" ∷ "tcp" ∷ "quic" ∷ "h3" ∷ []

-- `vlessPathVariants`
abbrev pub vless_paths : List String
vless_paths = "/" ∷ "/cdn-cgi/trace" ∷ "/api" ∷ "/v1" ∷ "grpc" ∷ []

-- A copy with another VLESS block.
abbrev with_vless : TunnelConfig → VlessConfig → TunnelConfig
with_vless tc vl = record tc { vless_config = some vl }

-- `vlessFingerprintVariants`
fingerprint_loop : TunnelConfig → VlessConfig → List String → List TunnelConfig
fingerprint_loop tc vl [] = []
fingerprint_loop tc vl (fp ∷ rest) =
    let more = fingerprint_loop tc vl rest in
    if str_eq fp vl.fingerprint
    then more
    else as_variant tc ("fp:" <> fp) (with_vless tc (record vl { fingerprint = fp })) ∷ more

-- gRPC and ws need a path.
with_transport : VlessConfig → String → VlessConfig
with_transport vl tr = record vl {
  transport = tr;
  transport_path = if str_eq vl.transport_path "" then "/" else vl.transport_path;
}

-- `vlessTransportVariants`
transport_loop : TunnelConfig → VlessConfig → List String → List TunnelConfig
unfolding with_transport
transport_loop tc vl [] = []
transport_loop tc vl (tr ∷ rest) =
    let more = transport_loop tc vl rest in
    if str_eq tr vl.transport
    then more
    else as_variant tc ("tr:" <> tr) (with_vless tc (with_transport vl tr)) ∷ more

-- `normalizeTransportPath`
unfoldable pub normalize_transport_path : String → String → String
normalize_transport_path transport path =
    let trimmed = trim_space path in
    let p = if str_eq trimmed "" then "/" else trimmed in
    if str_eq transport "grpc" then trim_prefix p "/" else if starts_with p "/" then p else "/" <> p

trim_slashes_left : String → String
trim_slashes_left String.[] = String.[]
trim_slashes_left (String.◌∷◌ c s) =
    let rest = trim_slashes_left s in if code c == b'/' then rest else String.◌∷◌ c s

trim_slashes_right : String → String
trim_slashes_right String.[] = String.[]
trim_slashes_right (String.◌∷◌ c s) = elim (trim_slashes_right s) [
  | String.[] ↦ if code c == b'/' then String.[] else String.◌∷◌ c String.[]
  | String.◌∷◌ d t ↦ String.◌∷◌ c (String.◌∷◌ d t)
]

-- Both calls of `strings.ReplaceAll`.
dash_separators : String → String
dash_separators String.[] = String.[]
dash_separators (String.◌∷◌ c s) =
    (if code c == b'/' || code c == b'_' then "-" else String.◌∷◌ c String.[]) <> dash_separators s

-- `slugPathVariant`
unfoldable pub slug_path_variant : String → String
unfolding trim_slashes_left trim_slashes_right dash_separators
slug_path_variant path =
    let slug = trim_slashes_right (trim_slashes_left path) in
    if str_eq slug "" then "root" else dash_separators slug

-- The loop of vlessPathVariantsForTransport.
path_loop : TunnelConfig → VlessConfig → List String → List TunnelConfig
unfolding normalize_transport_path slug_path_variant
path_loop tc vl [] = []
path_loop tc vl (path ∷ rest) =
    let more = path_loop tc vl rest in
    let normalized = normalize_transport_path vl.transport path in
    if str_eq normalized vl.transport_path
    then more
    else as_variant tc ("path:" <> slug_path_variant normalized)
        (with_vless tc (record vl { transport_path = normalized }))
      ∷ more

-- `vlessPathVariantsForTransport`
path_variants : TunnelConfig → VlessConfig → List TunnelConfig
unfolding path_loop
path_variants tc vl =
    if str_eq vl.transport "ws" || str_eq vl.transport "httpupgrade" || str_eq vl.transport "grpc"
    then path_loop tc vl vless_paths
    else []

-- `vlessECHVariants`
ech_variants : TunnelConfig → VlessConfig → List TunnelConfig
ech_variants tc vl =
    if str_eq vl.security "none" || vl.ech
    then []
    else as_variant tc "ech:on" (with_vless tc (record vl { ech = true })) ∷ []

-- `vlessPortVariants`
port_variants : TunnelConfig → VlessConfig → List TunnelConfig
port_variants tc vl =
    if vl.port == 0
    then []
    else port_loop tc "port" vl.port (λ p. with_vless tc (record vl { port = p })) endpoint_ports

-- The `switch` of vlessVariants.
by_layer : BlockType → TunnelConfig → VlessConfig → List TunnelConfig
unfolding fingerprint_loop transport_loop ech_variants
by_layer block_http tc vl =
    transport_loop tc vl vless_transports ++ fingerprint_loop tc vl vless_fingerprints
by_layer _ tc vl =
    fingerprint_loop tc vl vless_fingerprints
    ++ (transport_loop tc vl vless_transports ++ ech_variants tc vl)

vless_variants_of : TunnelConfig → BlockType → Option VlessConfig → List TunnelConfig
unfolding by_layer path_variants port_variants
vless_variants_of tc hint none = []
vless_variants_of tc hint (some vl) =
    by_layer hint tc vl
    ++ ((if is_block_http hint || is_block_tls hint || is_block_none hint
          then path_variants tc vl
          else [])
        ++ (if rotates_ports hint then port_variants tc vl else []))

-- `vlessVariants`
unfoldable pub vless_variants : TunnelConfig → BlockType → List TunnelConfig
unfolding vless_variants_of
vless_variants tc hint = vless_variants_of tc hint tc.vless_config

slugs :
    (slug_path_variant "/cdn-cgi/trace" ≡ "cdn-cgi-trace")
    × (slug_path_variant "/" ≡ "root")
    × (normalize_transport_path "ws" "grpc" ≡ "/grpc")
unfolding slug_path_variant normalize_transport_path trim_space
slugs = (refl, refl, refl)
