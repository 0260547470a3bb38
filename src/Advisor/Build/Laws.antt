-- ===== src/Advisor/Build/Laws.antt =====
-- The advised variant is a variant of its base.
use dark_routev.Base.{
  Option, String, ap, if_ind, inl, inr, none, refl, some, str_eq, sym, ◌∙◌, ◌≡◌, ◌⊎◌,
}
use dark_routev.Config.{
  TunnelConfig, WireGuardConfig, AmneziaWgConfig, VlessConfig, Protocol, wire_guard, amnezia_wg,
  vless_protocol, other_protocol,
}
use dark_routev.Dpi.Variants.Derived.{IsVariantOf, wg_keys, awg_keys, vless_keys}
use dark_routev.Advisor.{Recommendation}
use dark_routev.Advisor.Build.{
  BuildError, build_variant_from_recommendation, build_for, with_wg, with_awg, with_vless,
  marked_copy, advised_wg, advised_awg, advised_vless, apply_awg_profile, or_else,
}

apply_awg_profile-keys :
    (a : AmneziaWgConfig) (p : String) → awg_keys (some (apply_awg_profile a p)) ≡ awg_keys (some a)
unfolding apply_awg_profile
apply_awg_profile-keys a p =
    let Same : AmneziaWgConfig → Type 0 = λ b. awg_keys (some b) ≡ awg_keys (some a) in
    if_ind Same (str_eq p "mild") _ _ (λ _. refl)
      (λ _.
        if_ind Same (str_eq p "moderate") _ _ (λ _. refl)
          (λ _. if_ind Same (str_eq p "aggressive") _ _ (λ _. refl) (λ _. refl)))

-- What is advised, of a result that is not an error.
abbrev pub Succeeds : TunnelConfig → Recommendation → BuildError ⊎ TunnelConfig → Type 0
Succeeds base rec (inl e) = Unit {0}
Succeeds base rec (inr v) = IsVariantOf base v × (v.mtu ≡ or_else rec.mtu base.mtu)

module _ (base : TunnelConfig) (rec : Recommendation) where
  wg_part :
      (o : Option WireGuardConfig)
      → base.wire_guard_config ≡ o
      → Succeeds base rec (with_wg (marked_copy base rec) rec o)
  unfolding with_wg marked_copy advised_wg
  wg_part none h = tt
  wg_part (some wg) h = (
    record {
      marked = refl;
      based = refl;
      suffix = "ai";
      named = refl;
      same_protocol = refl;
      same_table = refl;
      same_interface = refl;
      same_wg_keys = sym (ap wg_keys h);
      same_awg_keys = refl;
      same_vless_keys = refl;
    },
    refl,
  )

  awg_part :
      (o : Option AmneziaWgConfig)
      → base.amnezia_wg_config ≡ o
      → Succeeds base rec (with_awg (marked_copy base rec) rec o)
  unfolding with_awg marked_copy advised_awg
  awg_part none h = tt
  awg_part (some awg) h = (
    record {
      marked = refl;
      based = refl;
      suffix = "ai";
      named = refl;
      same_protocol = refl;
      same_table = refl;
      same_interface = refl;
      same_wg_keys = refl;
      same_awg_keys = apply_awg_profile-keys _ rec.awg_profile ∙ sym (ap awg_keys h);
      same_vless_keys = refl;
    },
    refl,
  )

  vless_part :
      (o : Option VlessConfig)
      → base.vless_config ≡ o
      → Succeeds base rec (with_vless (marked_copy base rec) rec o)
  unfolding with_vless marked_copy advised_vless
  vless_part none h = tt
  vless_part (some vl) h = (
    record {
      marked = refl;
      based = refl;
      suffix = "ai";
      named = refl;
      same_protocol = refl;
      same_table = refl;
      same_interface = refl;
      same_wg_keys = refl;
      same_awg_keys = refl;
      same_vless_keys = sym (ap vless_keys h);
    },
    refl,
  )

  build_for-Succeeds : (p : Protocol) → Succeeds base rec (build_for p base rec)
  unfolding build_for marked_copy
  build_for-Succeeds wire_guard = wg_part base.wire_guard_config refl
  build_for-Succeeds amnezia_wg = awg_part base.amnezia_wg_config refl
  build_for-Succeeds vless_protocol = vless_part base.vless_config refl
  build_for-Succeeds (other_protocol _) = (
    record {
      marked = refl;
      based = refl;
      suffix = "ai";
      named = refl;
      same_protocol = refl;
      same_table = refl;
      same_interface = refl;
      same_wg_keys = refl;
      same_awg_keys = refl;
      same_vless_keys = refl;
    },
    refl,
  )

-- Whenever a variant is built, it is a marked copy of the base under the suffix ai, with the base's
-- protocol, routing table, interface and keys, and its MTU is the advised one if one is given.
pub build_variant_from_recommendation-Succeeds :
    (base : TunnelConfig) (rec : Recommendation)
    → Succeeds base rec (build_variant_from_recommendation base rec)
unfolding build_variant_from_recommendation
build_variant_from_recommendation-Succeeds base rec = build_for-Succeeds base rec base.protocol
