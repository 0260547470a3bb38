-- ===== src/Dpi/Detect/Pick.antt =====
-- daemon/internal/dpi/detector.go, pickDetectionTarget: the target that is meant, and that it is picked.
use dark_routev.Base.{
  Bool, List, [], ap, arith, false, first, if◌then◌else◌, inl, inr, none, refl, some, true, ℕ, ◌==◌,
  ◌∙◌, ◌∷◌, ◌≡◌, ◌⊎◌,
}
use dark_routev.Base.First.{IsFirst, NoneIs, IsFirst-first, NoneIs-first, first-ext}
use dark_routev.Config.{ProbeTarget, ProbeType, icmp, tcp, http, https, other_probe}
use dark_routev.Dpi.Detect.{pick_detection_target, first_any, first_http, is_http, is_https}

-- The type of a target, and the port of its probes over TLS
abbrev pub is_type_https : ProbeType → Bool
is_type_https icmp = false
is_type_https tcp = false
is_type_https http = false
is_type_https https = true
is_type_https (other_probe _) = false

abbrev pub is_type_http : ProbeType → Bool
is_type_http icmp = false
is_type_http tcp = false
is_type_http http = true
is_type_http https = false
is_type_http (other_probe _) = false

abbrev pub asks_https : ProbeTarget → Bool
asks_https t = is_type_https t.type

abbrev pub asks_http : ProbeTarget → Bool
asks_http t = is_type_http t.type

abbrev pub tls_port : ProbeTarget → ℕ
tls_port t = if t.port == 0 then 443 else t.port

-- The target that is meant: the first of type https, else the first of type http, else the first.
abbrev pub IsMeant : ProbeTarget → List ProbeTarget → Type 0
IsMeant t targets =
    IsFirst asks_https t targets
    ⊎ (NoneIs asks_https targets × IsFirst asks_http t targets)
    ⊎ (NoneIs asks_https targets × NoneIs asks_http targets × IsFirst (λ _. true) t targets)

https_agrees : (t : ProbeType) → is_https t ≡ is_type_https t
https_agrees icmp = refl
https_agrees tcp = refl
https_agrees http = refl
https_agrees https = refl
https_agrees (other_probe _) = refl

http_agrees : (t : ProbeType) → is_http t ≡ is_type_http t
http_agrees icmp = refl
http_agrees tcp = refl
http_agrees http = refl
http_agrees https = refl
http_agrees (other_probe _) = refl

first_https :
    (targets : List ProbeTarget)
    → first (λ (t : ProbeTarget). is_https t.type) targets ≡ first asks_https targets
first_https targets = first-ext _ asks_https (λ t. https_agrees t.type) targets

first_of_http :
    (targets : List ProbeTarget)
    → first (λ (t : ProbeTarget). is_http t.type) targets ≡ first asks_http targets
first_of_http targets = first-ext _ asks_http (λ t. http_agrees t.type) targets

first_any-first :
    (t : ProbeTarget) (targets : List ProbeTarget)
    → IsFirst (λ _. true) t targets
    → first_any targets none ≡ some t
unfolding first_any
first_any-first t [] e = elim e [ ]
first_any-first t (x ∷ targets) (inl (_, e)) = ap some e
first_any-first t (x ∷ targets) (inr (f, h)) = ground (arith, f)

pick_detection_target_lem :
    (targets : List ProbeTarget)
    → pick_detection_target targets
      ≡ first_any targets (first_http targets (first asks_https targets))
unfolding pick_detection_target
pick_detection_target_lem targets =
    ap (λ o. first_any targets (first_http targets o)) (first_https targets)

first_http_lem : (targets : List ProbeTarget) → first_http targets none ≡ first asks_http targets
unfolding first_http
first_http_lem targets = first_of_http targets

pick_https :
    (t : ProbeTarget) (targets : List ProbeTarget)
    → first_any targets (first_http targets (some t)) ≡ some t
unfolding first_any first_http
pick_https t [] = refl
pick_https t (x ∷ targets) = refl

pick_http : (t : ProbeTarget) (targets : List ProbeTarget) → first_any targets (some t) ≡ some t
unfolding first_any
pick_http t [] = refl
pick_http t (x ∷ targets) = refl

-- The target that is meant is picked.
pub pick_detection_target-IsMeant :
    (t : ProbeTarget) (targets : List ProbeTarget)
    → IsMeant t targets
    → pick_detection_target targets ≡ some t
pick_detection_target-IsMeant t targets (inl h) =
    pick_detection_target_lem targets
    ∙ ap (λ o. first_any targets (first_http targets o)) (IsFirst-first asks_https t targets h)
    ∙ pick_https t targets
pick_detection_target-IsMeant t targets (inr (inl (n, h))) =
    pick_detection_target_lem targets
    ∙ ap (λ o. first_any targets (first_http targets o)) (NoneIs-first asks_https targets n)
    ∙ ap (first_any targets) (first_http_lem targets ∙ IsFirst-first asks_http t targets h)
    ∙ pick_http t targets
pick_detection_target-IsMeant t targets (inr (inr (n, m, h))) =
    pick_detection_target_lem targets
    ∙ ap (λ o. first_any targets (first_http targets o)) (NoneIs-first asks_https targets n)
    ∙ ap (first_any targets) (first_http_lem targets ∙ NoneIs-first asks_http targets m)
    ∙ first_any-first t targets h
