-- ===== src/Dpi/Variants/Wire/Laws.antt =====
-- Every WireGuard and AmneziaWG variant is derived from its base.
use dark_routev.Base.{
  All-append, List, Option, String, [], ap, false, if_ind, none, refl, some, str_eq, sym, ℕ, ◌+◌,
  ◌<>◌, ◌∷◌, ◌≡◌,
}
use dark_routev.Net.{split_endpoint_host_port, join_endpoint_host_port}
use dark_routev.Config.{TunnelConfig, WireGuardConfig, AmneziaWgConfig}
use dark_routev.Dpi.{BlockType}
use dark_routev.Dpi.Variants.Shared.{
  AwgProfile, mtu_values, endpoint_ports, mtu_loop, rotates_ports,
}
use dark_routev.Dpi.Variants.Derived.{
  wg_keys, awg_keys, IsVariantOf, IsCopy, Derived, Derived-if, round, mtu_loop-Derived,
  port_loop-Derived,
}
use dark_routev.Dpi.Variants.Wire.{
  endpoint_variants, wg_ports, awg_ports, with_wg_endpoint, with_awg_endpoint, with_profile,
  is_current, profile_loop, profiles_for, awg_variants_of, wg_variants, awg_variants,
}

module _ (tc : TunnelConfig) where
  endpoint_variants-Derived :
      (prefix : String) (with_endpoint : String → TunnelConfig) (o : Option (String × ℕ))
      → ((e : String) → IsCopy tc (with_endpoint e))
      → Derived tc (endpoint_variants tc prefix with_endpoint o)
  unfolding endpoint_variants
  endpoint_variants-Derived prefix with_endpoint none c = tt
  endpoint_variants-Derived prefix with_endpoint (some (host, current)) c =
      port_loop-Derived tc prefix current _ endpoint_ports (λ p. c (join_endpoint_host_port host p))

  wg_ports-Derived :
      (o : Option WireGuardConfig) → tc.wire_guard_config ≡ o → Derived tc (wg_ports tc o)
  unfolding wg_ports
  wg_ports-Derived none e = tt
  wg_ports-Derived (some wg) e =
      if_ind (Derived tc) (str_eq wg.endpoint "") [] _ (λ b. tt)
        (λ b.
          endpoint_variants-Derived "ep" (with_wg_endpoint tc wg)
            (split_endpoint_host_port wg.endpoint)
            (λ h. record {
              copy_protocol = refl;
              copy_table = refl;
              copy_interface = refl;
              copy_wg = ap wg_keys (sym e);
              copy_awg = refl;
              copy_vless = refl;
            }))

  pub wg_variants-Derived : (hint : BlockType) → Derived tc (wg_variants tc hint)
  unfolding wg_variants
  wg_variants-Derived hint =
      All-append (IsVariantOf tc) (mtu_loop tc mtu_values) _ (mtu_loop-Derived tc mtu_values)
        (Derived-if tc (rotates_ports hint) _ (wg_ports-Derived tc.wire_guard_config refl))

  awg_ports-Derived :
      (o : Option AmneziaWgConfig) → tc.amnezia_wg_config ≡ o → Derived tc (awg_ports tc o)
  unfolding awg_ports
  awg_ports-Derived none e = tt
  awg_ports-Derived (some awg) e =
      if_ind (Derived tc) (str_eq awg.endpoint "") [] _ (λ b. tt)
        (λ b.
          endpoint_variants-Derived "ep" (with_awg_endpoint tc awg)
            (split_endpoint_host_port awg.endpoint)
            (λ h. record {
              copy_protocol = refl;
              copy_table = refl;
              copy_interface = refl;
              copy_wg = refl;
              copy_awg = ap awg_keys (sym e);
              copy_vless = refl;
            }))

  profile_loop-Derived :
      (draw : ℕ → ℕ) (k : ℕ) (awg : AmneziaWgConfig) (ps : List AwgProfile)
      → tc.amnezia_wg_config ≡ some awg
      → Derived tc (profile_loop draw k tc awg ps)
  unfolding profile_loop
  profile_loop-Derived draw k awg [] e = tt
  profile_loop-Derived draw k awg (p ∷ ps) e =
      if_ind (Derived tc) (is_current awg p) _ _ (λ b. profile_loop-Derived draw k awg ps e)
        (λ b.
          round tc false ("awg:" <> p.name)
            (record tc { amnezia_wg_config = some (with_profile draw k p awg) }) _
            (record {
              copy_protocol = refl;
              copy_table = refl;
              copy_interface = refl;
              copy_wg = refl;
              copy_awg = ap awg_keys (sym e);
              copy_vless = refl;
            })
            (profile_loop-Derived draw (k + 4) awg ps e))

  awg_variants_of-Derived :
      (draw : ℕ → ℕ) (hint : BlockType) (o : Option AmneziaWgConfig)
      → tc.amnezia_wg_config ≡ o
      → Derived tc (awg_variants_of draw tc hint o)
  unfolding awg_variants_of
  awg_variants_of-Derived draw hint none e = tt
  awg_variants_of-Derived draw hint (some awg) e =
      All-append (IsVariantOf tc) (profile_loop draw 0 tc awg (profiles_for hint)) _
        (profile_loop-Derived draw 0 awg (profiles_for hint) e)
        (All-append (IsVariantOf tc) (mtu_loop tc mtu_values) _ (mtu_loop-Derived tc mtu_values)
          (Derived-if tc (rotates_ports hint) _ (awg_ports-Derived tc.amnezia_wg_config refl)))

  pub awg_variants-Derived :
      (draw : ℕ → ℕ) (hint : BlockType) → Derived tc (awg_variants draw tc hint)
  unfolding awg_variants
  awg_variants-Derived draw hint = awg_variants_of-Derived draw hint tc.amnezia_wg_config refl
