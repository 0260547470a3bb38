-- ===== src/Scoring/Tests.antt =====
-- The ranking at concrete entries, with whole numbers in hundredths for the floats.
use mathlib.Core.List.{Perm}
use dark_routev.Base.{[], arith, ltb, refl, true, ℕ, ◌*◌, ◌+◌, ◌-◌, ◌/◌, ◌==◌, ◌∷◌, ◌≡◌}
use dark_routev.Base.Dict.{Dict, lookup, insert}
use dark_routev.Config.{ids}
use dark_routev.Scoring.{Floats, Entry, entry_or_default, composite_score, rank, record_session}
use dark_routev.Scoring.Laws.{IsDescending, rank-IsDescending}
use dark_routev.Samples.{wg_base, vless_base}

abbrev hundredths : Floats ℕ
hundredths = record {
  ratio = λ n d. n * 100 / d;
  plus = λ a b. a + b;
  minus = λ a b. a - b;
  times = λ a b. a * b / 100;
  over = λ a b. a * 100 / b;
  exp_of_negative = λ a. 100 - a;
  less = ltb;
  same = λ a b. a == b;
}

abbrev db : Dict (Entry ℕ)
db = record_session hundredths (record { config_id = "home"; started_at = 4; success = true }) []

rank-IsDescending_example :
    Perm (rank hundredths db (wg_base ∷ vless_base ∷ [])) (wg_base ∷ vless_base ∷ [])
    × IsDescending hundredths db (rank hundredths db (wg_base ∷ vless_base ∷ []))
rank-IsDescending_example =
    rank-IsDescending hundredths db (wg_base ∷ vless_base ∷ []) (λ a b h. ground (arith, h))

reliable_first : ids (rank hundredths db (wg_base ∷ vless_base ∷ [])) ≡ "home" ∷ "office" ∷ []
unfolding rank record_session composite_score entry_or_default lookup insert
reliable_first = refl
