-- ===== src/Config/Uci/Tests.antt =====
-- The theorems on UCI at concrete outputs, and runs.
use dark_routev.Base.{List, Option, String, [], false, is_some, mem, none, refl, some, ℕ, ◌∷◌, ◌≡◌}
use dark_routev.Net.{split_first}
use dark_routev.Config.{default_daemon_config}
use dark_routev.Config.Uci.{
  load_uci_string_list, load_uci_probe_targets, scan_line, trim_left_of, trim_right_of,
}
use dark_routev.Config.Uci.Laws.{all_good, load_uci_probe_targets-all_good}
use dark_routev.Config.Uci.Daemon.{Uci, load_daemon_config}
use dark_routev.Config.Uci.Daemon.Laws.{load_daemon_config_defaults}

abbrev no_number : String → Option ℕ
no_number s = none

abbrev silent : Uci
silent = record {
  get = λ key. none;
  show = none;
  show_global = none;
  atoi = no_number;
  atoi_negative = no_number;
  parse_float = no_number;
}

load_daemon_config_defaults_example : load_daemon_config silent ≡ some default_daemon_config
load_daemon_config_defaults_example = load_daemon_config_defaults silent (λ key. refl) refl refl

abbrev shown : List (String × String)
shown =
    ("vpn-watchdog.global.vpn_ip", "'192.0.2.1'")
    ∷ ("vpn-watchdog.global.vpn_ip", "''")
    ∷ ("vpn-watchdog.global.vpn_domain", "'example.org'")
    ∷ ("vpn-watchdog.global.vpn_ip", "'192.0.2.1'")
    ∷ []

-- A list that UCI prints on one line is read as one text.
one_line :
    load_uci_string_list "vpn-watchdog.global.vpn_ip"
      (some ("vpn-watchdog.global.vpn_ip='192.0.2.1' '192.0.2.2'" ∷ []))
    ≡ "192.0.2.1' '192.0.2.2" ∷ []
unfolding load_uci_string_list split_first trim_left_of trim_right_of mem
one_line = refl

-- What `uci show` prints of a section: its type, and its options
abbrev section : List String
section =
    "vpn-watchdog.@probe_target[0]=probe_target" ∷ "vpn-watchdog.@probe_target[0].host='192.0.2.1'"
    ∷ "vpn-watchdog.@probe_target[0].type='https'" ∷ []

load_uci_probe_targets-all_good_example :
    is_some (load_uci_probe_targets no_number (some section)) ≡ all_good section
load_uci_probe_targets-all_good_example = load_uci_probe_targets-all_good no_number section

-- The line of the type ends in its bracket, and the reading panics.
section_panics : is_some (load_uci_probe_targets no_number (some section)) ≡ false
unfolding load_uci_probe_targets scan_line split_first
section_panics = refl
