-- ===== src/Config/Store.antt =====
-- daemon/internal/config/store.go: validation, and what LoadAll makes of the files of ConfigDir.
-- A file is its base name without ".json" and its decoded content, `none` where it cannot be opened
-- or is no JSON of a TunnelConfig.
pub mod Laws
use dark_routev.Base.{
  List, Option, String, [], if◌then◌else◌, is_some, none, some, str_eq, ◌<>◌, ◌∷◌,
}
use dark_routev.Config.{
  Protocol, wire_guard, amnezia_wg, vless_protocol, other_protocol, TunnelConfig,
}

-- The config block that the protocol calls for, and the error for its absence.
validate_protocol : Protocol → TunnelConfig → Option String
validate_protocol wire_guard tc =
    if is_some tc.wire_guard_config then none else some "wg config missing"
validate_protocol amnezia_wg tc =
    if is_some tc.amnezia_wg_config then none else some "awg config missing"
validate_protocol vless_protocol tc =
    if is_some tc.vless_config then none else some "vless config missing"
validate_protocol (other_protocol p) tc = some ("unknown protocol: " <> p)

-- `validate`; `none` is the nil error.
unfoldable pub validate : TunnelConfig → Option String
unfolding validate_protocol
validate tc = if str_eq tc.id "" then some "missing id" else validate_protocol tc.protocol tc

pub record ConfigFile : Type 0 where
  pub stem : String
  pub content : Option TunnelConfig

check_loaded : TunnelConfig → Option TunnelConfig
unfolding validate
check_loaded tc = elim (validate tc) [ none ↦ some tc | some e ↦ none ]

load_content : String → Option TunnelConfig → Option TunnelConfig
unfolding check_loaded
load_content stem none = none
load_content stem (some tc) =
    check_loaded (record tc { id = if str_eq tc.id "" then stem else tc.id })

-- `loadFile`; `none` is an error.
unfoldable pub load_file : ConfigFile → Option TunnelConfig
unfolding load_content
load_file f = load_content f.stem f.content

add_enabled : Option TunnelConfig → List TunnelConfig → List TunnelConfig
add_enabled none rest = rest
add_enabled (some tc) rest = if tc.enabled then tc ∷ rest else rest

-- `LoadAll`, over the files in the order of the glob; the pattern is a constant, so it never fails.
unfoldable pub load_all : List ConfigFile → List TunnelConfig
unfolding add_enabled
load_all [] = []
load_all (f ∷ files) = add_enabled (load_file f) (load_all files)
