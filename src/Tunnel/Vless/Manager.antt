-- ===== src/Tunnel/Vless/Manager.antt =====
-- daemon/internal/tunnel/vless.go: Up, Down and IsUp. The state is the map of the processes, which are
-- known by their process groups, and the system, which is a parameter. Every process in the map has
-- been started and not yet waited for, as `killProc` waits only for one that it has deleted.
pub mod Killing
pub mod Laws
use dark_routev.Base.{
  Bool, List, Option, String, [], false, if◌then◌else◌, is_some, none, some, str_eq, true, ℕ, ◌+◌,
  ◌<>◌, ◌∷◌,
}
use dark_routev.Base.Dict.{Dict, lookup, insert, remove}
use dark_routev.Config.{TunnelConfig, VlessConfig, DaemonConfig}
use dark_routev.Shell.{Command, Shell, Outcome}
use dark_routev.Tunnel.{routing_table_id, fwmark_for_table}
use dark_routev.Tunnel.Waiting.{wait_loop, port_fuel, answered}
use dark_routev.Tunnel.Vless.Conf.{SingBoxConfig, sing_box_config}
use dark_routev.Tunnel.Vless.Routing.{setup_routing, teardown_routing, local_port}

-- The commands, os.MkdirAll, the marshalling and os.WriteFile, the start of a program with its process
-- group, a signal to a group, `Process.Wait`, the time before the n-th dialing of a port from a first
-- one on (in milliseconds), and whether it succeeds.
pub record System (K : Type 0) : Type 0 where
  pub shell : Shell K
  pub make_dir : String → K → Bool × K
  pub write_conf : String → SingBoxConfig → K → Bool × K
  pub start : String → List String → K → Option ℕ × K
  pub signal : ℕ → ℕ → K → K
  pub wait : ℕ → K → K
  pub time : K → ℕ → ℕ
  pub answers : K → ℕ → ℕ → Bool

pub record Vless (K : Type 0) : Type 0 where
  pub procs : Dict ℕ
  pub system : K

-- The errors of Up, by their texts
pub data UpError : Type 0 where
  vless_config_nil write_failed start_failed not_listening : UpError
  routing_failed : Command → UpError

-- `confPath`, for an ID that filepath.Join leaves as it is
abbrev pub conf_path : TunnelConfig → String
conf_path tc = "/tmp/vpn-watchdog/" <> tc.id <> "-singbox.json"

module _ {K : Type 0} (sys : System K) where
  -- `waitForPort(localPort, 10*time.Second)`
  unfoldable pub wait_for_port : ℕ → K → Bool
  wait_for_port port k =
      answered (wait_loop (sys.time k) (sys.answers k port) (sys.time k 0 + 10000) port_fuel 0)

  killed : String → Dict ℕ → K → Option ℕ → Vless K
  killed id procs k none = record { procs = procs; system = k }
  killed id procs k (some pid) = record {
    procs = remove id procs;
    system = sys.wait pid (sys.signal pid 9 (sys.signal pid 15 k));
  }

  -- `killProc`, whose error is always nil
  unfoldable pub kill_proc : String → Vless K → Vless K
  unfolding killed
  kill_proc id m = killed id m.procs m.system (lookup id m.procs)

  -- `IsUp`
  unfoldable pub is_up : TunnelConfig → Vless K → Bool
  is_up tc m = is_some (lookup tc.id m.procs)

  after_routing : TunnelConfig → Dict ℕ → Outcome K → Option UpError × Vless K
  after_routing tc procs (none, k) = (none, record { procs = procs; system = k })
  after_routing tc procs (some c, k) =
      (some (routing_failed c), kill_proc tc.id (record { procs = procs; system = k }))

module _ {K : Type 0} (sys : System K) (done : K → Bool) where
  after_start : TunnelConfig → VlessConfig → Dict ℕ → Option ℕ × K → Option UpError × Vless K
  unfolding after_routing
  after_start tc vless procs (none, k) = (some start_failed, record { procs = procs; system = k })
  after_start tc vless procs (some pid, k) =
      let port = local_port tc vless in
      let table = routing_table_id tc in
      let started = insert tc.id pid procs in
      if wait_for_port sys port k
      then after_routing sys tc started
          (setup_routing done sys.shell port table (fwmark_for_table table) k)
      else (some not_listening, kill_proc sys tc.id (record { procs = started; system = k }))

  after_write :
      DaemonConfig → TunnelConfig → VlessConfig → Dict ℕ → Bool × K → Option UpError × Vless K
  unfolding after_start
  after_write cfg tc vless procs (false, k) =
      (some write_failed, record { procs = procs; system = k })
  after_write cfg tc vless procs (true, k) =
      let bin = if str_eq cfg.sing_box_bin "" then "sing-box" else cfg.sing_box_bin in
      after_start tc vless procs (sys.start bin ("run" ∷ "-c" ∷ conf_path tc ∷ []) k)

  -- `writeConf`
  written : TunnelConfig → VlessConfig → Bool × K → Bool × K
  written tc vless (false, k) = (false, k)
  written tc vless (true, k) =
      sys.write_conf (conf_path tc) (sing_box_config vless (local_port tc vless)) k

  up_with : DaemonConfig → TunnelConfig → Option VlessConfig → Vless K → Option UpError × Vless K
  unfolding after_write written
  up_with cfg tc none m = (some vless_config_nil, m)
  up_with cfg tc (some vless) m =
      let clean = kill_proc sys tc.id m in
      after_write cfg tc vless clean.procs
        (written tc vless (sys.make_dir "/tmp/vpn-watchdog" clean.system))

  -- `Up` in a context; the error `none` is nil.
  unfoldable pub up : DaemonConfig → TunnelConfig → Vless K → Option UpError × Vless K
  unfolding up_with
  up cfg tc m = up_with cfg tc tc.vless_config m

  -- `Down` in a context, of a configuration with a VLESS block
  unfoldable pub down : TunnelConfig → VlessConfig → Vless K → Vless K
  down tc vless m =
      let table = routing_table_id tc in
      kill_proc sys tc.id (record m {
        system =
            teardown_routing done sys.shell (local_port tc vless) table (fwmark_for_table table)
              m.system;
      })
