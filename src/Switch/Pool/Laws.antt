-- ===== src/Switch/Pool/Laws.antt =====
-- The probing of the pool keeps the state machine and the configuration of the daemon.
use dark_routev.Base.{
  List, Option, String, [], arith, if_ind, none, refl, some, str_eq, ◌∙◌, ◌∷◌, ◌≡◌,
}
use dark_routev.Config.{TunnelConfig, DaemonConfig}
use dark_routev.Machine.{Machine}
use dark_routev.Tunnel.{Backend, for_config}
use dark_routev.Switch.{Engine, Outside}
use dark_routev.Switch.Pool.{
  ProbeResult, renamed, parallel_probe, probe_config, probe_on, started, settle, probe_through,
}

-- The part of the engine that probing leaves alone
abbrev pub settled_part : Engine → Machine × DaemonConfig
settled_part e = (e.machine, e.cfg)

module _ (o : Outside) where
  settle-settled :
      (tc : TunnelConfig) (e : Engine) → settled_part (settle o tc e).1 ≡ settled_part e
  unfolding settle probe_through
  settle-settled tc e = ground arith

  started-settled :
      (tc : TunnelConfig) (e : Engine) (r : Option String)
      → settled_part (started o tc e r).1 ≡ settled_part e
  unfolding started
  started-settled tc e (some text) = refl
  started-settled tc e none = settle-settled tc e

  probe_on-settled :
      (active_id : String) (tc : TunnelConfig) (e : Engine) (b : Option Backend)
      → settled_part (probe_on o active_id tc e b).1 ≡ settled_part e
  unfolding probe_on probe_through
  probe_on-settled active_id tc e none = refl
  probe_on-settled active_id tc e (some b) =
      if_ind (λ (r : ProbeResult × Engine). settled_part r.1 ≡ settled_part e)
        (str_eq tc.id active_id) _ _ (λ _. refl) (λ _. started-settled tc _ (o.up _ tc))

  pub parallel_probe-settled :
      (active_id : String) (tcs : List TunnelConfig) (e : Engine)
      → settled_part (parallel_probe o active_id tcs e).1 ≡ settled_part e
  unfolding parallel_probe probe_config
  parallel_probe-settled active_id [] e = refl
  parallel_probe-settled active_id (tc ∷ more) e =
      let used : TunnelConfig = renamed active_id tc in
      parallel_probe-settled active_id more (probe_on o active_id used e (for_config used)).1
      ∙ probe_on-settled active_id used e (for_config used)
