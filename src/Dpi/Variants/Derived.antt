-- ===== src/Dpi/Variants/Derived.antt =====
-- What a generated variant has in common with its base, and the loops that all kinds share.
use dark_routev.Base.{
  All, Bool, List, Option, String, [], false, if◌then◌else◌, itoa, none, refl, some, true, ℕ, ◌<>◌,
  ◌==◌, ◌∷◌, ◌≡◌,
}
use dark_routev.Config.{TunnelConfig, WireGuardConfig, AmneziaWgConfig, VlessConfig}
use dark_routev.Dpi.Variants.Shared.{as_variant, mtu_loop, port_loop}

-- The keys by which the server knows the client.
abbrev pub wg_keys : Option WireGuardConfig → Option (String × String × String)
wg_keys none = none
wg_keys (some wg) = some (wg.private_key, wg.public_key, wg.preshared_key)

abbrev pub awg_keys : Option AmneziaWgConfig → Option (String × String × String)
awg_keys none = none
awg_keys (some awg) = some (awg.private_key, awg.public_key, awg.preshared_key)

abbrev pub vless_keys : Option VlessConfig → Option (String × String × String)
vless_keys none = none
vless_keys (some vl) = some (vl.uuid, vl.address, vl.security)

-- A copy that is marked as a variant of the base, and that keeps how it is routed and the keys.
pub record IsVariantOf (tc v : TunnelConfig) : Type 0 where
  pub marked : v.is_variant ≡ true
  pub based : v.base_config_id ≡ tc.id
  pub suffix : String
  pub named : v.id ≡ tc.id <> (":dpi:" <> suffix)
  pub same_protocol : v.protocol ≡ tc.protocol
  pub same_table : v.routing_table_id ≡ tc.routing_table_id
  pub same_interface : v.interface_name ≡ tc.interface_name
  pub same_wg_keys : wg_keys v.wire_guard_config ≡ wg_keys tc.wire_guard_config
  pub same_awg_keys : awg_keys v.amnezia_wg_config ≡ awg_keys tc.amnezia_wg_config
  pub same_vless_keys : vless_keys v.vless_config ≡ vless_keys tc.vless_config

-- What a copy has to keep before it is marked.
pub record IsCopy (tc v : TunnelConfig) : Type 0 where
  pub copy_protocol : v.protocol ≡ tc.protocol
  pub copy_table : v.routing_table_id ≡ tc.routing_table_id
  pub copy_interface : v.interface_name ≡ tc.interface_name
  pub copy_wg : wg_keys v.wire_guard_config ≡ wg_keys tc.wire_guard_config
  pub copy_awg : awg_keys v.amnezia_wg_config ≡ awg_keys tc.amnezia_wg_config
  pub copy_vless : vless_keys v.vless_config ≡ vless_keys tc.vless_config

pub as_variant-IsVariantOf :
    (tc v : TunnelConfig) (s : String) → IsCopy tc v → IsVariantOf tc (as_variant tc s v)
as_variant-IsVariantOf tc v s c = record {
  marked = refl;
  based = refl;
  suffix = s;
  named = refl;
  same_protocol = c.copy_protocol;
  same_table = c.copy_table;
  same_interface = c.copy_interface;
  same_wg_keys = c.copy_wg;
  same_awg_keys = c.copy_awg;
  same_vless_keys = c.copy_vless;
}

module _ (tc : TunnelConfig) where
  abbrev pub Derived : List TunnelConfig → Type 0
  Derived = All (IsVariantOf tc)

  -- One round of a loop.
  pub round :
      (b : Bool) (s : String) (v : TunnelConfig) (more : List TunnelConfig)
      → IsCopy tc v
      → Derived more
      → Derived (if b then more else as_variant tc s v ∷ more)
  round true s v more c h = h
  round false s v more c h = (as_variant-IsVariantOf tc v s c, h)

  pub mtu_loop-Derived : (ms : List ℕ) → Derived (mtu_loop tc ms)
  unfolding mtu_loop
  mtu_loop-Derived [] = tt
  mtu_loop-Derived (m ∷ ms) =
      round (m == tc.mtu) ("mtu" <> itoa m) (record tc { mtu = m }) (mtu_loop tc ms)
        (record {
          copy_protocol = refl;
          copy_table = refl;
          copy_interface = refl;
          copy_wg = refl;
          copy_awg = refl;
          copy_vless = refl;
        })
        (mtu_loop-Derived ms)

  pub port_loop-Derived :
      (prefix : String) (current : ℕ) (with_port : ℕ → TunnelConfig) (ps : List ℕ)
      → ((p : ℕ) → IsCopy tc (with_port p))
      → Derived (port_loop tc prefix current with_port ps)
  unfolding port_loop
  port_loop-Derived prefix current with_port [] c = tt
  port_loop-Derived prefix current with_port (p ∷ ps) c =
      round (p == current) (prefix <> itoa p) (with_port p) _ (c p)
        (port_loop-Derived prefix current with_port ps c)

  pub Derived-if : (b : Bool) (vs : List TunnelConfig) → Derived vs → Derived (if b then vs else [])
  Derived-if true vs h = h
  Derived-if false vs h = tt
