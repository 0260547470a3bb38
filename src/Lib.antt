-- ===== src/Lib.antt =====
-- Verification of the daemon of DarkRoute (vpn-watchdog), which keeps an OpenWrt router connected
-- through one of several VPN tunnels and gets round blocks by trying variants of the configurations.
--
-- The program is daemon/. Its main loop (internal/watchdog) probes the connection and feeds the state
-- machine (internal/state): HEALTHY, DEGRADED, PROBING, SWITCHING. In PROBING it loads the
-- configurations (internal/config), detects the kind of block (internal/dpi) and calls the switch
-- engine (internal/switch). The engine collects candidates (the configurations, variants that worked
-- before, generated variants picked by internal/strategy, and presets of internal/aiadvisor), probes
-- them, ranks them (internal/scoring), and applies the best ones in turn through a tunnel backend
-- (internal/tunnel) until one works.
--
-- Files, and what they model:
--   Base            names of the libraries, Boolean tests, lists, texts, and maps as association lists
--   Config          config/types.go; Config/Store: validation and LoadAll of config/store.go;
--                   Config/Targets: appendDomainProbeTargets; Config/Uci: loadUCIStringList and
--                   loadUCIProbeTargets, Config/Uci/Daemon: LoadDaemonConfigFromUCI
--   Net             the endpoint functions of dpi/variants.go and aiadvisor/netutil.go
--   Machine         state/machine.go; Machine/Laws: single calls, Machine/Runs: sequences of calls,
--                   Machine/Restart: the file, Machine/Resting: the states in which the loop acts
--   Dpi             the types of dpi/detector.go; Dpi/Variants: dpi/variants.go (Wire: WireGuard and
--                   AmneziaWG, Vless: VLESS, Shared: the tables and loops, Derived: what a variant
--                   has in common with its base); Dpi/Learned: dpi/persist.go;
--                   Dpi/Detect: the reading of errors and the choice of what is probed in
--                   dpi/detector.go, Dpi/Detect/Pick: the target, Dpi/Detect/Ladder: Detect
--   Strategy        strategy/selector.go
--   Advisor         aiadvisor/types.go; Advisor/Validate and Advisor/Build: policy.go;
--                   Advisor/Attempts: attempt_log.go; Advisor/Presets: preset_store.go;
--                   Advisor/Manager: manager.go
--   Tunnel          tunnel/tunnel.go, and FWMark of the three backends; Tunnel/Vless: tunnel/vless.go
--                   (Routing: the rules, routes and redirections, Conf: the configuration of sing-box,
--                   Manager: Up and Down); Tunnel/Quick: tunnel/wireguard.go and amneziawg.go;
--                   Tunnel/Waiting: waitForPort and waitForInterface; Tunnel/Splitter:
--                   tunnel/clienthello_splitter.go
--   Scoring         scoring/scoring.go, over the operations on floats
--   Switch          switch/switch.go: Switch/Pool up to the results of the probes, Switch/Apply the
--                   loop that applies, and ProbeAndSwitch
--   Watchdog        watchdog/watchdog.go; Watchdog/Run: Run and reload
--   Shell           the running of commands, in policy/policy.go and tunnel/tunnel.go
--   Policy          policy/policy.go; Policy/Selectors: collectSelectors, Policy/Manager: Apply as a
--                   whole
--   Probe           probe/probe.go; Probe/Attempt: one probe and a round, Probe/Aggregate: aggregate
--   Samples         configurations for the tests, which are the modules called Tests
-- (paths from daemon/internal; a module named Laws, or for what it proves, has the proofs.)
--
-- How state and effects are modelled. A method that changes its receiver is a function from the old
-- record to the new one; the mutexes make each method one step. Errors are values. A pointer that may
-- be nil is an Option, a Go map with text keys an association list, whose order stands for the order
-- of iteration, which Go leaves open. Durations and times are nanoseconds, the zero time is 0, and a
-- confidence (a float in the source) is a number of hundredths. A setting in seconds wraps around as in
-- the 64 bits of a time.Duration; a negative duration counts as 0, which has the same effect in each of
-- its uses. Numbers that configuration files give
-- (ports, MTUs, thresholds) are taken to be not negative. Hashes and marks keep the wrap-around of
-- 64-bit and 32-bit integers.
--
-- The arithmetic of floats in the scores is the parameter Scoring.Floats.
--
-- The outside is a parameter. The clock, the result of bringing a tunnel up, the success of a probe,
-- time-outs, the random source, the provider of advice and the ranking by scores are the record
-- Switch.Outside, whose answers are indexed by the number of effects so far, so that they may differ
-- at each call. What the engine does to backends, policy and scores is a list of effects, in order.
-- The goroutines of the parallel probe each fill their own slot;
-- they are run one after the other.
--
-- Commands, files, processes and connections of the traffic policy, of the tunnel
-- backends and the probes, and the outputs of uci, are what the definitions take as parameters (Shell,
-- System, QuickSystem, Names, Network, Wire, Uci): for a command a function from the command
-- and the state of the system to the status and the state that is left. A context is given by whether it
-- is done in a state (Shell.in_context). What the manual pages of ip,
-- iptables, ipset and nft say of the commands is a record of laws on a view of the state (ObeysNft,
-- ObeysIpset, ObeysRouting, and IsUndisturbed for what nothing comes between), which the theorems take and which the tests fill with a concrete system.
--
-- Loops are structural recursion; there is no fuel but in the loops that wait, where 35
-- rounds are enough for ten seconds with a sleep of 300 milliseconds in each, and 26 for five seconds
-- with one of 200, and in the printing of numbers, which gets the
-- number itself, and a number has no more digits than that.
--
-- Not modelled: the sockets and HTTP clients under the probes, DetectProtocolBlock, the file of the
-- scores, the saved detection, the status snapshot, the saving and deleting of configurations, the HTTP
-- API and the web interface.
pub mod Base
pub mod Config
pub mod Net
pub mod Machine
pub mod Dpi
pub mod Strategy
pub mod Advisor
pub mod Tunnel
pub mod Scoring
pub mod Switch
pub mod Watchdog
pub mod Shell
pub mod Policy
pub mod Probe
pub mod Samples
