-- ===== src/Advisor/Manager/Laws.antt =====
-- The hourly limit, and what an accepted recommendation guarantees.
use dark_routev.Base.{
  All, Bool, List, Option, String, [], arith, false, if_ind, if◌then◌else◌, inl, inr, none, refl,
  some, str_eq, subst, suc, true, ℕ, ◌+◌, ◌-◌, ◌<◌, ◌∷◌, ◌≡◌, ◌≤◌, ◌⊎◌,
}
use dark_routev.Base.First.{IsFirst, first-IsFirst}
use dark_routev.Config.{TunnelConfig}
use dark_routev.Dpi.{DetectionResult}
use dark_routev.Dpi.Variants.Derived.{IsVariantOf}
use dark_routev.Advisor.{AnalyzeInput, Recommendation}
use dark_routev.Advisor.Validate.{Rejection, validate_recommendation}
use dark_routev.Advisor.Validate.Laws.{IsAllowed, validate_recommendation-IsAllowed}
use dark_routev.Advisor.Build.{BuildError, build_variant_from_recommendation}
use dark_routev.Advisor.Build.Laws.{Succeeds, build_variant_from_recommendation-Succeeds}
use dark_routev.Advisor.Manager.{
  Manager, Answer, AdviceError, acquire_token, open_window, hour, find_base_config, recommend,
  with_token, ask, answered, checked, located, built, refuse, is_enabled,
}

-- Requests for a token at the given times: how many were granted, and the manager after them.
pub granted : List ℕ → Manager → ℕ × Manager
granted [] m = (0, m)
granted (now ∷ times) m =
    let (ok, next) = acquire_token now m in
    let (n, last) = granted times next in ((if ok then suc n else n), last)

-- All times lie before the window's end.
abbrev pub InWindow : ℕ → List ℕ → Type 0
InWindow start = All (λ now. now - start < hour)

-- The count never passes the limit.
abbrev pub IsLimited : Manager → Type 0
IsLimited m = m.calls_in_window ≤ m.cfg.max_calls_per_hour

open_window-in : (now : ℕ) (m : Manager) → now - m.window_start < hour → open_window now m ≡ m
unfolding open_window
open_window-in now m h = ground arith

token_in :
    (now : ℕ) (m : Manager)
    → 0 < m.cfg.max_calls_per_hour
    → now - m.window_start < hour
    → ((acquire_token now m).0 ≡ false × (acquire_token now m).1 ≡ m)
      ⊎ (((acquire_token now m).0 ≡ true)
          × ((acquire_token now m).1 ≡ record m { calls_in_window = suc m.calls_in_window })
          × (m.calls_in_window < m.cfg.max_calls_per_hour))
unfolding acquire_token
token_in now m p h = rw (open_window-in now m h) (ground arith)

-- At a positive limit, the requests that are made before the window ends are granted at most as
-- often as the limit leaves, however many they are.
pub granted-limit :
    (times : List ℕ) (m : Manager)
    → 0 < m.cfg.max_calls_per_hour
    → IsLimited m
    → InWindow m.window_start times
    → (granted times m).0 + m.calls_in_window ≤ m.cfg.max_calls_per_hour
unfolding granted
granted-limit [] m p l h = omega (arith, l)
granted-limit (now ∷ times) m p l (h, hs) = elim (token_in now m p h) [
  | inl (refused, same) ↦
      let rest : (granted times (acquire_token now m).1).0 + m.calls_in_window
          ≤ m.cfg.max_calls_per_hour =
        rw same (granted-limit times m p l hs) in
      let out : (granted (now ∷ times) m).0 + m.calls_in_window ≤ m.cfg.max_calls_per_hour =
        rw refused rest in
      out
  | inr (ok, next, room) ↦
      let m' : Manager = record m { calls_in_window = suc m.calls_in_window } in
      let step : (granted times m').0 + suc m.calls_in_window ≤ m.cfg.max_calls_per_hour =
        granted-limit times m' p room hs in
      let rest : (granted times (acquire_token now m).1).0 + suc m.calls_in_window
          ≤ m.cfg.max_calls_per_hour =
        rw next step in
      let out : (granted (now ∷ times) m).0 + m.calls_in_window ≤ m.cfg.max_calls_per_hour =
        rw ok (omega (arith, rest)) in
      out
]

acquire_token-min_confidence :
    (now : ℕ) (m : Manager) → (acquire_token now m).1.cfg.min_confidence ≡ m.cfg.min_confidence
unfolding acquire_token open_window
acquire_token-min_confidence now m = ground arith

-- What an answer promises.
find_base_config-IsFirst :
    (base : List TunnelConfig) (id : String) (tc : TunnelConfig)
    → find_base_config base id ≡ some tc
    → IsFirst (λ (c : TunnelConfig). str_eq c.id id) tc base
unfolding find_base_config
find_base_config-IsFirst base id tc e =
    first-IsFirst (λ (c : TunnelConfig). str_eq c.id id) tc base e

module _ (base : List TunnelConfig) (min_confidence : ℕ) where
  abbrev pub Promised : AdviceError ⊎ (TunnelConfig × Recommendation) → Type 0
  Promised (inl e) = Unit {0}
  Promised (inr (v, rec)) =
      IsAllowed rec min_confidence
      × ((tc : TunnelConfig) × IsFirst (λ (c : TunnelConfig). str_eq c.id rec.base_config_id) tc
            base
          × IsVariantOf tc v)

module _ (analyze : AnalyzeInput → String ⊎ Recommendation)
    (reject_text : AdviceError → String) where
  built-Promised :
      (base : List TunnelConfig) (c : ℕ) (tc : TunnelConfig) (rec : Recommendation) (m : Manager)
      → IsAllowed rec c
      → find_base_config base rec.base_config_id ≡ some tc
      → (r : BuildError ⊎ TunnelConfig) → Succeeds tc rec r
      → Promised base c (built analyze reject_text rec m r).0
  unfolding built refuse
  built-Promised base c tc rec m a f (inl e) s = tt
  built-Promised base c tc rec m a f (inr v) (s, _) =
      (a, (tc, find_base_config-IsFirst base rec.base_config_id tc f, s))

  located-Promised :
      (base : List TunnelConfig) (c : ℕ) (rec : Recommendation) (m : Manager)
      → IsAllowed rec c
      → (o : Option TunnelConfig) → find_base_config base rec.base_config_id ≡ o
      → Promised base c (located analyze reject_text rec m o).0
  unfolding located refuse
  located-Promised base c rec m a none f = tt
  located-Promised base c rec m a (some tc) f =
      built-Promised base c tc rec m a f (build_variant_from_recommendation tc rec)
        (build_variant_from_recommendation-Succeeds tc rec)

  checked-Promised :
      (base : List TunnelConfig) (rec : Recommendation) (m : Manager) (o : Option Rejection)
      → validate_recommendation rec m.cfg.min_confidence ≡ o
      → Promised base m.cfg.min_confidence (checked analyze reject_text base rec m o).0
  unfolding checked refuse
  checked-Promised base rec m (some e) v = tt
  checked-Promised base rec m none v =
      located-Promised base m.cfg.min_confidence rec m
        ((validate_recommendation-IsAllowed rec m.cfg.min_confidence).0 v)
        (find_base_config base rec.base_config_id) refl

  answered-Promised :
      (base : List TunnelConfig) (m : Manager) (r : String ⊎ Recommendation)
      → Promised base m.cfg.min_confidence (answered analyze reject_text base m r).0
  unfolding answered
  answered-Promised base m (inl e) = tt
  answered-Promised base m (inr rec) = checked-Promised base rec m _ refl

  token-Promised :
      (now : ℕ) (detected : DetectionResult) (base : List TunnelConfig) (r : Bool × Manager)
      → Promised base r.1.cfg.min_confidence (with_token analyze reject_text now detected base r).0
  unfolding with_token ask
  token-Promised now detected base (false, m) = tt
  token-Promised now detected base (true, m) =
      answered-Promised base (record m { status = record (m.status) { last_call_at = now } }) _

  -- Whatever the provider answers, a recommendation that is passed on is in the allowlist at the
  -- configured confidence, names by its ID a base config of the list, and comes with a variant of the
  -- first config of the list with this ID.
  pub recommend-Promised :
      (now : ℕ) (detected : DetectionResult) (base : List TunnelConfig) (m : Manager)
      → Promised base m.cfg.min_confidence (recommend analyze reject_text now detected base m).0
  unfolding recommend
  recommend-Promised now detected base m =
      if_ind (λ (r : Answer × Manager). Promised base m.cfg.min_confidence r.0) (is_enabled m) _ _
        (λ _.
          subst
            (λ c.
              Promised base c
                (with_token analyze reject_text now detected base (acquire_token now m)).0)
            (acquire_token-min_confidence now m)
            (token-Promised now detected base (acquire_token now m)))
        (λ _. tt)
