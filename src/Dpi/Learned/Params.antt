-- ===== src/Dpi/Learned/Params.antt =====
-- Which parameters of a variant come back from its entry, and which do not.
use dark_routev.Base.{
  Bool, Option, String, ap, arith, eq_iff, none, refl, some, subst, ℕ, ◌<◌, ◌∙◌, ◌≡◌, ◌≢◌,
}
use mathlib.Core.Option.{some-injective}
use dark_routev.Config.{
  Protocol, wire_guard, other_protocol, TunnelConfig, VlessConfig, AmneziaWgConfig,
}
use dark_routev.Dpi.Learned.{
  LearnedEntry, capture, rebuild_copy, rebuild_for, rebuild_variant, restore_vless, restore_awg,
  map_option,
}

captured :
    (v : TunnelConfig) (now : ℕ) (e : LearnedEntry) (vl : VlessConfig)
    → v.vless_config ≡ some vl
    → ((capture v now e).effective_fp ≡ vl.fingerprint)
      × ((capture v now e).effective_trans ≡ vl.transport)
      × (0 < v.mtu → (capture v now e).effective_mtu ≡ v.mtu)
unfolding capture
captured v now e vl h = ground arith

rebuilt_mtu :
    (base : TunnelConfig) (e : LearnedEntry) (n : ℕ)
    → e.effective_mtu ≡ n
    → 0 < n
    → (rebuild_copy base e).mtu ≡ n
unfolding rebuild_copy
rebuilt_mtu base e n h p = ground arith

restored :
    (e : LearnedEntry) (b vl : VlessConfig)
    → e.effective_fp ≡ vl.fingerprint
    → e.effective_trans ≡ vl.transport
    → vl.fingerprint ≢ ""
    → vl.transport ≢ ""
    → restore_vless e b ≡ record b { fingerprint = vl.fingerprint; transport = vl.transport }
unfolding restore_vless
restored e b vl f t nf nt = ground (arith, eq_iff e.effective_fp "", eq_iff e.effective_trans "")

-- The MTU and, for VLESS, the fingerprint and the transport of a variant are restored, where the
-- variant has them. The port, the path, ECH and all else of the VLESS block are those of the base.
pub rebuild_copy-capture :
    (base v : TunnelConfig) (now : ℕ) (e : LearnedEntry) (b vl : VlessConfig)
    → base.vless_config ≡ some b
    → v.vless_config ≡ some vl
    → vl.fingerprint ≢ ""
    → vl.transport ≢ ""
    → 0 < v.mtu
    → let t = rebuild_copy base (capture v now e) in
      (t.mtu ≡ v.mtu)
      × (t.vless_config
          ≡ some (record b { fingerprint = vl.fingerprint; transport = vl.transport }))
unfolding rebuild_copy
rebuild_copy-capture base v now e b vl hb hv f t m =
    let (fp, tr, mtu) = captured v now e vl hv in
    (
      rebuilt_mtu base (capture v now e) v.mtu (mtu m) m,
      ap (map_option (restore_vless (capture v now e))) hb
          ∙ ap some (restored (capture v now e) b vl fp tr f t),
    )

abbrev pub vless_rest : Option VlessConfig → Option (ℕ × String × Bool)
vless_rest none = none
vless_rest (some vl) = some (vl.port, vl.transport_path, vl.ech)

abbrev pub awg_rest : Option AmneziaWgConfig → Option (String × ℕ × ℕ × ℕ × ℕ)
awg_rest none = none
awg_rest (some a) = some (
  a.endpoint, a.init_packet_magic_header, a.response_packet_magic_header,
  a.under_load_packet_magic_header, a.transport_packet_magic_header,
)

vless_rest-restore :
    (e : LearnedEntry) (o : Option VlessConfig)
    → vless_rest (map_option (restore_vless e) o) ≡ vless_rest o
unfolding restore_vless
vless_rest-restore e none = refl
vless_rest-restore e (some vl) = refl

awg_rest-restore :
    (e : LearnedEntry) (o : Option AmneziaWgConfig)
    → awg_rest (map_option (restore_awg e) o) ≡ awg_rest o
unfolding restore_awg
awg_rest-restore e none = refl
awg_rest-restore e (some a) = ground arith

abbrev Forgets : TunnelConfig → TunnelConfig → Type 0
Forgets base t =
    (t.wire_guard_config ≡ base.wire_guard_config)
    × (vless_rest t.vless_config ≡ vless_rest base.vless_config)
    × (awg_rest t.amnezia_wg_config ≡ awg_rest base.amnezia_wg_config)

rebuild_copy-Forgets :
    (base t : TunnelConfig) (e : LearnedEntry)
    → some (rebuild_copy base e) ≡ some t
    → Forgets base t
unfolding rebuild_copy
rebuild_copy-Forgets base t e h =
    subst (Forgets base) (some-injective _ _ h)
      (refl, vless_rest-restore e base.vless_config, awg_rest-restore e base.amnezia_wg_config)

rebuild_for-Forgets :
    (p : Protocol) (base t : TunnelConfig) (e : LearnedEntry)
    → rebuild_for p base e ≡ some t
    → Forgets base t
unfolding rebuild_for
rebuild_for-Forgets (other_protocol p) base t e h = cc
rebuild_for-Forgets wire_guard base t e h = rebuild_copy-Forgets base t e h
rebuild_for-Forgets _ base t e h = rebuild_copy-Forgets base t e h

-- Whatever was learned, a rebuilt candidate has the endpoint, the port, the path, the ECH setting
-- and the magic headers of the base: a port, path, ECH or header variant is not restored.
pub rebuild_variant_forgets :
    (base t : TunnelConfig) (e : LearnedEntry)
    → rebuild_variant base e ≡ some t
    → (t.wire_guard_config ≡ base.wire_guard_config)
      × (vless_rest t.vless_config ≡ vless_rest base.vless_config)
      × (awg_rest t.amnezia_wg_config ≡ awg_rest base.amnezia_wg_config)
unfolding rebuild_variant
rebuild_variant_forgets base t e h = rebuild_for-Forgets base.protocol base t e h
