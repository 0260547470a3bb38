-- ===== src/Advisor/Presets/Laws.antt =====
-- When a preset is offered again.
use dark_routev.Base.{
  Option-cases, String, arith, if◌then◌else◌, inl, inr, leb, none, refl, some, ℕ, ◌+◌, ◌<◌, ◌≡◌,
}
use dark_routev.Base.Dict.{lookup, lookup-insert_same}
use dark_routev.Advisor.{Recommendation}
use dark_routev.Advisor.Presets.{
  PresetStore, get_active, unless_suspended, save_preset, mark_failure, update, lifetime,
  fresh_preset,
}

-- A saved preset is offered for its base, with the fields it was saved with, up to and at the time
-- when its time to live (twelve hours if none is given) has passed, and nothing is offered later.
pub get_active-save_preset :
    (base_id : String) (rec : Recommendation) (ttl now later : ℕ) (store : PresetStore)
    → get_active base_id later (save_preset base_id rec ttl now store)
      ≡ (if leb later (now + lifetime ttl) then some (fresh_preset base_id rec ttl now) else none)
unfolding get_active save_preset unless_suspended
get_active-save_preset base_id rec ttl now later store =
    rw (lookup-insert_same base_id) (ground arith)

-- After a reported failure with a cooldown, the preset is offered at no time before the cooldown
-- is over.
pub get_active-mark_failure :
    (base_id reason : String) (cooldown now later : ℕ) (store : PresetStore)
    → 0 < cooldown
    → later < now + cooldown
    → get_active base_id later (mark_failure base_id reason cooldown now store) ≡ none
unfolding get_active mark_failure unless_suspended update
get_active-mark_failure base_id reason cooldown now later store p h =
    elim (Option-cases (lookup base_id store)) [
      | inl e ↦ rw (e, e) refl
      | inr (q, e) ↦ rw (e, lookup-insert_same) (ground arith)
    ]
