-- ===== src/Advisor/Tests.antt =====
-- The theorems on the advisor at concrete advice.
use dark_routev.Base.{[], arith, inr, none, ◌+◌, ◌↔◌, ◌∷◌, ◌≡◌, ◌≤◌}
use dark_routev.Advisor.Validate.{validate_recommendation}
use dark_routev.Advisor.Validate.Laws.{IsAllowed, validate_recommendation-IsAllowed}
use dark_routev.Advisor.Manager.{recommend}
use dark_routev.Advisor.Manager.Laws.{granted, granted-limit, Promised, recommend-Promised}
use dark_routev.Samples.{vless_base, wg_base, advice, advisor, detection}

validate_recommendation-IsAllowed_example :
    (validate_recommendation advice 65 ≡ none) ↔ IsAllowed advice 65
validate_recommendation-IsAllowed_example = validate_recommendation-IsAllowed advice 65

recommend-Promised_example :
    Promised
      (wg_base ∷ vless_base ∷ [])
      65
      (recommend
        (λ input. inr advice)
        (λ e. "no")
        5
        detection
        (wg_base ∷ vless_base ∷ [])
        advisor).0
recommend-Promised_example =
    recommend-Promised (λ input. inr advice) (λ e. "no") 5 detection (wg_base ∷ vless_base ∷ [])
      advisor

granted-limit_example : (granted (1 ∷ 2 ∷ 3 ∷ []) advisor).0 + 0 ≤ 2
granted-limit_example =
    granted-limit (1 ∷ 2 ∷ 3 ∷ []) advisor (omega arith) (omega arith)
      (omega arith, (omega arith, (omega arith, tt)))
