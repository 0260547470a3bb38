-- ===== src/Advisor/Validate/Laws.antt =====
-- The allowlist that an accepted recommendation keeps to.
use Prim.Native.String.{len}
use dark_routev.Base.{
  Bool, Bool-cases, Option, String, arith, eq_iff, false, if◌then◌else◌, inl, inr, ltb, none, not,
  refl, some, str_eq, ℕ, ◌&&◌, ◌↔◌, ◌≡◌, ◌≢◌, ◌≤◌, ◌⊎◌,
}
use dark_routev.Advisor.{Recommendation}
use dark_routev.Advisor.Validate.{
  missing_base_config_id, low_confidence, mtu_out_of_range, port_out_of_range,
  unsupported_transport, path_too_long, unsupported_profile, outside, is_transport, is_profile,
  validate_recommendation,
}

-- A value that is given lies in the range.
abbrev pub Within : ℕ → ℕ → Option ℕ → Type 0
Within lo hi none = Unit {0}
Within lo hi (some n) = (lo ≤ n) × (n ≤ hi)

pub record IsAllowed (rec : Recommendation) (min_confidence : ℕ) : Type 0 where
  pub based : rec.base_config_id ≢ ""
  pub confident : min_confidence ≤ rec.confidence
  pub mtu_range : Within 1200 1420 rec.mtu
  pub port_range : Within 1 65535 rec.endpoint_port
  pub transport_known :
      (rec.vless_transport ≡ "")
      ⊎ (rec.vless_transport ≡ "tcp")
      ⊎ (rec.vless_transport ≡ "ws")
      ⊎ (rec.vless_transport ≡ "grpc")
      ⊎ (rec.vless_transport ≡ "httpupgrade")
  pub path_short : len rec.vless_path ≤ 64
  pub profile_known :
      (rec.awg_profile ≡ "")
      ⊎ (rec.awg_profile ≡ "mild")
      ⊎ (rec.awg_profile ≡ "moderate")
      ⊎ (rec.awg_profile ≡ "aggressive")

Within-outside : (lo hi : ℕ) (o : Option ℕ) → outside lo hi o ≡ false → Within lo hi o
Within-outside lo hi none h = tt
Within-outside lo hi (some n) h = ground arith

outside-Within : (lo hi : ℕ) (o : Option ℕ) → Within lo hi o → outside lo hi o ≡ false
outside-Within lo hi none h = refl
outside-Within lo hi (some n) h = ground arith

-- The chain of tests passes exactly if each test does.
chain :
    (b₁ b₂ b₃ b₄ b₅ b₆ b₇ : Bool) (c m : ℕ)
    → ((if b₁
          then some missing_base_config_id
          else if b₂
          then some (low_confidence c m)
          else if b₃
          then some mtu_out_of_range
          else if b₄
          then some port_out_of_range
          else if b₅
          then some unsupported_transport
          else if b₆
          then some path_too_long
          else if b₇
          then some unsupported_profile
          else none)
        ≡ none)
      ↔ ((b₁ ≡ false)
          × (b₂ ≡ false)
          × (b₃ ≡ false)
          × (b₄ ≡ false)
          × (b₅ ≡ false)
          × (b₆ ≡ false)
          × (b₇ ≡ false))
chain b₁ b₂ b₃ b₄ b₅ b₆ b₇ c m = (λ h. ground arith, λ h. ground arith)

transport_of :
    (t : String)
    → (not (str_eq t "") && not (is_transport t)) ≡ false
    → (t ≡ "") ⊎ (t ≡ "tcp") ⊎ (t ≡ "ws") ⊎ (t ≡ "grpc") ⊎ (t ≡ "httpupgrade")
transport_of t h =
    ground
      (arith, eq_iff t "", eq_iff t "tcp", eq_iff t "ws", eq_iff t "grpc", eq_iff t "httpupgrade")

of_transport :
    (t : String)
    → (t ≡ "") ⊎ (t ≡ "tcp") ⊎ (t ≡ "ws") ⊎ (t ≡ "grpc") ⊎ (t ≡ "httpupgrade")
    → (not (str_eq t "") && not (is_transport t)) ≡ false
of_transport t h =
    ground
      (arith, eq_iff t "", eq_iff t "tcp", eq_iff t "ws", eq_iff t "grpc", eq_iff t "httpupgrade")

profile_of :
    (p : String)
    → (not (str_eq p "") && not (is_profile p)) ≡ false
    → (p ≡ "") ⊎ (p ≡ "mild") ⊎ (p ≡ "moderate") ⊎ (p ≡ "aggressive")
profile_of p h =
    ground (arith, eq_iff p "", eq_iff p "mild", eq_iff p "moderate", eq_iff p "aggressive")

of_profile :
    (p : String)
    → (p ≡ "") ⊎ (p ≡ "mild") ⊎ (p ≡ "moderate") ⊎ (p ≡ "aggressive")
    → (not (str_eq p "") && not (is_profile p)) ≡ false
of_profile p h =
    ground (arith, eq_iff p "", eq_iff p "mild", eq_iff p "moderate", eq_iff p "aggressive")

path_of : (p : String) → (not (str_eq p "") && ltb 64 (len p)) ≡ false → len p ≤ 64
path_of p h = elim (Bool-cases (str_eq p "")) [
  | inl e ↦
      let empty : p ≡ "" = (eq_iff p "").0 e in
      let short : len p ≤ 64 = rw empty (omega arith) in short
  | inr e ↦ ground arith
]

-- A recommendation is accepted exactly if it names a base, is confident enough, and each field it
-- sets is in the allowlist: MTU 1200 to 1420, port 1 to 65535, a known transport and profile, and a
-- path of at most 64 bytes.
pub validate_recommendation-IsAllowed :
    (rec : Recommendation) (min_confidence : ℕ)
    → (validate_recommendation rec min_confidence ≡ none) ↔ IsAllowed rec min_confidence
unfolding validate_recommendation
validate_recommendation-IsAllowed rec min_confidence =
    let ladder =
      chain (str_eq rec.base_config_id "") (ltb rec.confidence min_confidence)
        (outside 1200 1420 rec.mtu) (outside 1 65535 rec.endpoint_port)
        (not (str_eq rec.vless_transport "") && not (is_transport rec.vless_transport))
        (not (str_eq rec.vless_path "") && ltb 64 (len rec.vless_path))
        (not (str_eq rec.awg_profile "") && not (is_profile rec.awg_profile)) rec.confidence
        min_confidence in
    (
      λ h.
          let (a, b, c, d, e, f, g) = ladder.0 h in
          record {
            based = ground (arith, eq_iff rec.base_config_id "");
            confident = ground arith;
            mtu_range = Within-outside 1200 1420 rec.mtu c;
            port_range = Within-outside 1 65535 rec.endpoint_port d;
            transport_known = transport_of rec.vless_transport e;
            path_short = path_of rec.vless_path f;
            profile_known = profile_of rec.awg_profile g;
          },
      λ h. ladder.1 (
        ground (arith, eq_iff rec.base_config_id "", h.based),
        ground (arith, h.confident),
        outside-Within 1200 1420 rec.mtu h.mtu_range,
        outside-Within 1 65535 rec.endpoint_port h.port_range,
        of_transport rec.vless_transport h.transport_known,
        ground (arith, h.path_short),
        of_profile rec.awg_profile h.profile_known,
      ),
    )
