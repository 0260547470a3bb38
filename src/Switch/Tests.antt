-- ===== src/Switch/Tests.antt =====
-- The theorems on the engine at concrete configurations, and runs.
use dark_routev.Base.{List, [], ◌∷◌}
use dark_routev.Config.{TunnelConfig}
use dark_routev.Dpi.{block_tls}
use dark_routev.Switch.Apply.{try_config, viable_candidates, probe_and_switch}
use dark_routev.Switch.Apply.Laws.{LoopDone, probe_and_switch_done}
use dark_routev.Switch.Apply.Effects.{RoundTrace}
use dark_routev.Switch.Apply.Traces.{try_config-trace}
use dark_routev.Samples.{wg_base, vless_base, outside, engine, machine}

abbrev bases : List TunnelConfig
bases = wg_base ∷ vless_base ∷ []

probe_and_switch_example :
    LoopDone
      (viable_candidates outside block_tls "tls_reset" 80 "office" bases engine).0
      machine
      (probe_and_switch outside block_tls "tls_reset" 80 "office" bases engine)
probe_and_switch_example =
    probe_and_switch_done outside block_tls "tls_reset" 80 "office" bases engine

try_config-trace_example :
    RoundTrace vless_base [] (try_config outside block_tls "tls_reset" 3 vless_base engine)
try_config-trace_example = try_config-trace outside block_tls "tls_reset" 3 vless_base engine
