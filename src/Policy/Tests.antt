-- ===== src/Policy/Tests.antt =====
-- A firewall that keeps its entries and rules in lists, the theorems at it, and runs.
use dark_routev.Base.{
  Bool, List, String, [], arith, false, if◌then◌else◌, itoa, mem, none, refl, some, str_eq, true,
  ◌++◌, ◌<>◌, ◌∷◌, ◌≡◌,
}
use dark_routev.Base.Unique.{NoRepeat}
use dark_routev.Config.{DaemonConfig, default_daemon_config}
use dark_routev.Shell.{Shell}
use dark_routev.Policy.{LookPath, Toolchain, backend_iptables, apply_iptables}
use dark_routev.Policy.Selectors.{
  Names, collect_selectors, add_files, add_lines, add, normalize_selector, resolve_domain_selectors,
  add_each, add_unseen, add_all,
}
use dark_routev.Net.{trim_space}
use dark_routev.Policy.Selectors.Laws.{requested, denoted_all, collect_selectors-denoted_all}
use dark_routev.Policy.Laws.{
  View, ObeysIpset, IptablesPromise, apply_iptables-IptablesPromise, remove_first,
}

record Firewall : Type 0 where
  members : List String
  rules : List String

abbrev wrapped : String → String
wrapped s = "{ " <> s <> " }"

-- The last argument
abbrev last : List String → String
last [] = ""
last (a ∷ []) = a
last (a ∷ b ∷ rest) = last (b ∷ rest)

abbrev nft_exec : String → String → String → Firewall → Firewall
nft_exec action kind arg k =
    if str_eq action "delete"
    then record { members = []; rules = [] }
    else if str_eq action "flush"
    then (if str_eq kind "set" then record k { members = [] } else record k { rules = [] })
    else if str_eq kind "element"
    then record k { members = arg ∷ k.members }
    else if str_eq kind "rule"
    then record k { rules = k.rules ++ (arg ∷ []) }
    else k

abbrev nft_shell : Shell Firewall
nft_shell (name, action ∷ kind ∷ args) k = (true, nft_exec action kind (last args) k)
nft_shell (name, _) k = (false, k)

abbrev nft_view : View Firewall
nft_view = record { holds = λ k x. mem (wrapped x) k.members; marks = λ k. k.rules }

abbrev find_tool : LookPath
find_tool name = if str_eq name "nft" then "/usr/sbin/nft" else ""

abbrev ipset_exec : String → List String → Firewall → Firewall
ipset_exec action (set_name ∷ entry ∷ rest) k =
    if str_eq action "add" then record k { members = entry ∷ k.members } else k
ipset_exec action _ k = if str_eq action "create" then k else record k { members = [] }

abbrev rule_exec : String → String → Firewall → Bool × Firewall
rule_exec action mark k =
    if str_eq action "-D"
    then (mem mark k.rules, record k { rules = remove_first mark k.rules })
    else (true, record k { rules = k.rules ++ (mark ∷ []) })

abbrev iptables_shell : Shell Firewall
iptables_shell (name, option ∷ table ∷ action ∷ args) k =
    if str_eq option "-t"
    then rule_exec action (last args) k
    else (true, ipset_exec option (table ∷ action ∷ args) k)
iptables_shell (name, action ∷ args) k = (true, ipset_exec action args k)
iptables_shell (name, []) k = (false, k)

abbrev iptables_toolchain : Toolchain
iptables_toolchain = record {
  backend = backend_iptables;
  nft = "";
  ipset = "/usr/sbin/ipset";
  iptables = "/usr/sbin/iptables";
}

abbrev iptables_view : View Firewall
iptables_view = record { holds = λ k x. mem x k.members; marks = λ k. k.rules }

absent_stays :
    (m : String) (ms : List String)
    → remove_first m ms ≡ (if mem m ms then remove_first m ms else ms)
unfolding mem
absent_stays m [] = refl
absent_stays m (x ∷ ms) = ground (arith, absent_stays m ms)

iptables_shell-ObeysIpset : ObeysIpset iptables_view (λ s. s) iptables_shell iptables_toolchain
unfolding mem
iptables_shell-ObeysIpset = record {
  creates = λ k. ((λ x. refl), refl);
  flushes = λ k. ((λ x. refl), refl);
  inserts = λ s k. ((λ x. refl), refl);
  deletes = λ m k. ((λ x. ground arith), absent_stays (itoa m) k.rules);
  appends = λ m k. ((λ x. refl), refl);
}

abbrev names : Names
names = record {
  parse_addr4 = λ v. if str_eq v "192.0.2.1" then some v else none;
  parse_prefix4 = λ v. if str_eq v "198.51.100.0/24" then some v else none;
  lookup_ip4 = λ d. if str_eq d "example.org" then some ("192.0.2.1" ∷ "192.0.2.2" ∷ []) else none;
  file_lines =
      λ f. if str_eq f "/etc/list" then some ("# comment" ∷ " example.org " ∷ "" ∷ []) else none;
}

abbrev cfg : DaemonConfig
cfg = record default_daemon_config {
  vpn_ips = "192.0.2.1" ∷ "198.51.100.0/24" ∷ "192.0.2.1" ∷ [];
  vpn_domains = "missing.example" ∷ [];
  vpn_domain_files = "/etc/list" ∷ "/etc/none" ∷ [];
}

collect_selectors_run :
    collect_selectors names cfg ≡ "192.0.2.1" ∷ "198.51.100.0/24" ∷ "192.0.2.2" ∷ []
unfolding collect_selectors add_files add_lines trim_space add normalize_selector
    resolve_domain_selectors add_each add_unseen mem add_all
collect_selectors_run = refl

abbrev before : Firewall
before = record { members = "203.0.113.9" ∷ []; rules = "32968" ∷ "33001" ∷ [] }

collect_selectors-denoted_all_example :
    NoRepeat (collect_selectors names cfg)
    × ((x : String)
        → mem x (collect_selectors names cfg) ≡ mem x (denoted_all names (requested names cfg)))
collect_selectors-denoted_all_example = collect_selectors-denoted_all names cfg

apply_iptables-IptablesPromise_example :
    IptablesPromise iptables_view iptables_shell
      (λ s. s)
      iptables_toolchain
      ("192.0.2.1" ∷ [])
      33001
      before
      (apply_iptables iptables_shell iptables_toolchain ("192.0.2.1" ∷ []) 33001 before)
apply_iptables-IptablesPromise_example =
    apply_iptables-IptablesPromise iptables_view iptables_shell (λ s. s) iptables_toolchain
      iptables_shell-ObeysIpset ("192.0.2.1" ∷ []) 33001 before
