-- ===== src/Switch.antt =====
-- daemon/internal/switch/switch.go: the engine that probes candidate configurations and applies the
-- best one. What the engine sees of the outside (the clock, a tunnel backend, the probes, the
-- random source, the provider, the ranking by scores) is the record `Outside`, each answer indexed by
-- the number of effects so far; what the engine does to the outside is the list `effects`.
pub mod Pool
pub mod Apply
mod Tests
use dark_routev.Base.{Bool, List, Option, String, length, ℕ, ◌++◌, ◌⊎◌}
use dark_routev.Config.{TunnelConfig, DaemonConfig}
use dark_routev.Machine.{Machine}
use dark_routev.Dpi.Learned.{LearnedDb}
use dark_routev.Advisor.{AnalyzeInput, Recommendation}
use dark_routev.Advisor.Presets.{PresetStore}
use dark_routev.Advisor.Manager as Advice

-- The calls of the backends, the policy manager and the scoring database, in their order.
pub data Effect : Type 0 where
  tunnel_up tunnel_down : TunnelConfig → Effect
  policy_apply policy_clear : ℕ → Effect
  probe_all : ℕ → Effect
  record_session : String → Bool → Effect
  record_dpi_result : String → String → Bool → Effect
  record_probe_result : String → Bool → Effect

pub record Engine : Type 0 where
  pub cfg : DaemonConfig
  pub machine : Machine
  pub learned : LearnedDb
  pub ai : Advice.Manager
  pub presets : PresetStore
  pub effects : List Effect

pub record Outside : Type 0 where
  pub clock : ℕ → ℕ
  pub up : ℕ → TunnelConfig → Option String
  pub in_time : ℕ → Bool
  pub probe : ℕ → ℕ → Bool
  pub draw : ℕ → ℕ
  pub analyze : AnalyzeInput → String ⊎ Recommendation
  pub reject_text : Advice.AdviceError → String
  pub rank : List TunnelConfig → List TunnelConfig

-- How far the outside has come.
abbrev pub moment : Engine → ℕ
moment e = length e.effects

abbrev pub emit : List Effect → Engine → Engine
emit es e = record e { effects = e.effects ++ es }
