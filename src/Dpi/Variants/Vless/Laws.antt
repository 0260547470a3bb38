-- ===== src/Dpi/Variants/Vless/Laws.antt =====
-- Every VLESS variant is derived from its base.
use dark_routev.Base.{
  All-append, List, Option, String, [], ap, if_ind, if◌then◌else◌, none, refl, some, str_eq, sym,
  true, ◌++◌, ◌<>◌, ◌==◌, ◌||◌, ◌∙◌, ◌∷◌, ◌≡◌,
}
use dark_routev.Config.{TunnelConfig, VlessConfig}
use dark_routev.Dpi.{BlockType, block_http, is_block_none, is_block_http, is_block_tls}
use dark_routev.Dpi.Variants.Shared.{endpoint_ports, rotates_ports}
use dark_routev.Dpi.Variants.Derived.{
  vless_keys, IsVariantOf, IsCopy, Derived, Derived-if, round, port_loop-Derived,
}
use dark_routev.Dpi.Variants.Vless.{
  fingerprint_loop, transport_loop, path_loop, path_variants, ech_variants, port_variants, by_layer,
  vless_variants_of, vless_variants, vless_fingerprints, vless_transports, vless_paths, with_vless,
  with_transport, normalize_transport_path, slug_path_variant,
}

module _ (tc : TunnelConfig) (vl : VlessConfig) (e : tc.vless_config ≡ some vl) where
  -- A copy with another VLESS block for the same server and user.
  with_vless-IsCopy :
      (w : VlessConfig) → vless_keys (some w) ≡ vless_keys (some vl) → IsCopy tc (with_vless tc w)
  with_vless-IsCopy w h = record {
    copy_protocol = refl;
    copy_table = refl;
    copy_interface = refl;
    copy_wg = refl;
    copy_awg = refl;
    copy_vless = h ∙ ap vless_keys (sym e);
  }

  fingerprint_loop-Derived : (fps : List String) → Derived tc (fingerprint_loop tc vl fps)
  unfolding fingerprint_loop
  fingerprint_loop-Derived [] = tt
  fingerprint_loop-Derived (fp ∷ rest) =
      round tc (str_eq fp vl.fingerprint) ("fp:" <> fp) _ (fingerprint_loop tc vl rest)
        (with_vless-IsCopy (record vl { fingerprint = fp }) refl) (fingerprint_loop-Derived rest)

  transport_loop-Derived : (trs : List String) → Derived tc (transport_loop tc vl trs)
  unfolding transport_loop
  transport_loop-Derived [] = tt
  transport_loop-Derived (tr ∷ rest) =
      round tc (str_eq tr vl.transport) ("tr:" <> tr) _ (transport_loop tc vl rest)
        (with_vless-IsCopy (with_transport vl tr) refl) (transport_loop-Derived rest)

  path_loop-Derived : (paths : List String) → Derived tc (path_loop tc vl paths)
  unfolding path_loop
  path_loop-Derived [] = tt
  path_loop-Derived (p ∷ rest) =
      let normalized = normalize_transport_path vl.transport p in
      round tc (str_eq normalized vl.transport_path) ("path:" <> slug_path_variant normalized) _
        (path_loop tc vl rest) (with_vless-IsCopy (record vl { transport_path = normalized }) refl)
        (path_loop-Derived rest)

  path_variants-Derived : Derived tc (path_variants tc vl)
  unfolding path_variants
  path_variants-Derived = Derived-if tc _ _ (path_loop-Derived vless_paths)

  ech_variants-Derived : Derived tc (ech_variants tc vl)
  unfolding ech_variants
  ech_variants-Derived =
      round tc (str_eq vl.security "none" || vl.ech) "ech:on" _ []
        (with_vless-IsCopy (record vl { ech = true }) refl) tt

  port_variants-Derived : Derived tc (port_variants tc vl)
  unfolding port_variants
  port_variants-Derived =
      if_ind (Derived tc) (vl.port == 0) [] _ (λ b. tt)
        (λ b.
          port_loop-Derived tc "port" vl.port _ endpoint_ports
            (λ p. with_vless-IsCopy (record vl { port = p }) refl))

  abbrev both : List TunnelConfig
  both =
      fingerprint_loop tc vl vless_fingerprints
      ++ (transport_loop tc vl vless_transports ++ ech_variants tc vl)

  both-Derived : Derived tc both
  both-Derived =
      All-append (IsVariantOf tc) (fingerprint_loop tc vl vless_fingerprints) _
        (fingerprint_loop-Derived vless_fingerprints)
        (All-append (IsVariantOf tc) (transport_loop tc vl vless_transports) _
          (transport_loop-Derived vless_transports) ech_variants-Derived)

  by_layer-Derived : (hint : BlockType) → Derived tc (by_layer hint tc vl)
  unfolding by_layer
  by_layer-Derived block_http =
      All-append (IsVariantOf tc) (transport_loop tc vl vless_transports) _
        (transport_loop-Derived vless_transports) (fingerprint_loop-Derived vless_fingerprints)
  by_layer-Derived _ = both-Derived

vless_variants_of-Derived :
    (tc : TunnelConfig) (hint : BlockType) (o : Option VlessConfig)
    → tc.vless_config ≡ o
    → Derived tc (vless_variants_of tc hint o)
unfolding vless_variants_of
vless_variants_of-Derived tc hint none e = tt
vless_variants_of-Derived tc hint (some vl) e =
    All-append (IsVariantOf tc) (by_layer hint tc vl) _ (by_layer-Derived tc vl e hint) (
      All-append (IsVariantOf tc)
        (if is_block_http hint || is_block_tls hint || is_block_none hint
          then path_variants tc vl
          else [])
        _ (Derived-if tc _ _ (path_variants-Derived tc vl e))
        (Derived-if tc (rotates_ports hint) _ (port_variants-Derived tc vl e)))

pub vless_variants-Derived :
    (tc : TunnelConfig) (hint : BlockType) → Derived tc (vless_variants tc hint)
unfolding vless_variants
vless_variants-Derived tc hint = vless_variants_of-Derived tc hint tc.vless_config refl
