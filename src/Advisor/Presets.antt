-- ===== src/Advisor/Presets.antt =====
-- daemon/internal/aiadvisor/preset_store.go: the accepted recommendation of each base config. Times
-- are nanoseconds; `now` is what time.Now returns, and the zero time is 0.
pub mod Laws
use dark_routev.Base.{
  Bool, List, Option, String, if◌then◌else◌, ltb, none, not, some, suc, ℕ, ◌&&◌, ◌+◌, ◌==◌, ◌||◌,
}
use dark_routev.Base.Dict.{lookup, insert}
use dark_routev.Advisor.{Recommendation}

pub record Preset : Type 0 where
  pub base_config_id : String
  pub recommendation : Recommendation
  pub created_at : ℕ
  pub expires_at : ℕ
  pub success_streak : ℕ
  pub disabled_until : ℕ
  pub last_failure : String

-- `presets`; the file mirrors it.
abbrev pub PresetStore : Type 0
PresetStore = List (String × Preset)

-- `now.After(p.ExpiresAt) || (!p.DisabledUntil.IsZero() && now.Before(p.DisabledUntil))`
abbrev pub is_suspended : Preset → ℕ → Bool
is_suspended p now =
    ltb p.expires_at now || (not (p.disabled_until == 0) && ltb now p.disabled_until)

unless_suspended : ℕ → Option Preset → Option Preset
unless_suspended now none = none
unless_suspended now (some p) = if is_suspended p now then none else some p

-- `GetActive`
unfoldable pub get_active : String → ℕ → PresetStore → Option Preset
unfolding unless_suspended
get_active base_id now store = unless_suspended now (lookup base_id store)

-- `12 * time.Hour`
abbrev pub default_ttl : ℕ
default_ttl = 43200000000000

-- `if ttl <= 0 { ttl = 12 * time.Hour }`
abbrev pub lifetime : ℕ → ℕ
lifetime ttl = if ttl == 0 then default_ttl else ttl

abbrev pub fresh_preset : String → Recommendation → ℕ → ℕ → Preset
fresh_preset base_id rec ttl now = record {
  base_config_id = base_id;
  recommendation = rec;
  created_at = now;
  expires_at = now + lifetime ttl;
  success_streak = 0;
  disabled_until = 0;
  last_failure = "";
}

-- `SavePreset`
unfoldable pub save_preset : String → Recommendation → ℕ → ℕ → PresetStore → PresetStore
save_preset base_id rec ttl now store = insert base_id (fresh_preset base_id rec ttl now) store

update : (Preset → Preset) → String → Option Preset → PresetStore → PresetStore
update f base_id none store = store
update f base_id (some p) store = insert base_id (f p) store

-- `MarkSuccess`
unfoldable pub mark_success : String → PresetStore → PresetStore
unfolding update
mark_success base_id store =
    update (λ p. record p { success_streak = suc p.success_streak; last_failure = "" }) base_id
      (lookup base_id store) store

-- `MarkFailure`
unfoldable pub mark_failure : String → String → ℕ → ℕ → PresetStore → PresetStore
unfolding update
mark_failure base_id reason cooldown now store =
    update
      (λ p. record p {
        last_failure = reason;
        disabled_until = if ltb 0 cooldown then now + cooldown else p.disabled_until;
      })
      base_id (lookup base_id store) store
