-- ===== src/Policy.antt =====
-- daemon/internal/policy/policy.go: the choice of the firewall tools, and the commands that enforce
-- the selectors. The warning that no tool is found is logging and left out.
pub mod Selectors
pub mod Laws
mod Manager
mod Tests
use dark_routev.Base.{
  Bool, List, String, [], false, if◌then◌else◌, itoa, none, not, str_eq, ℕ, ◌&&◌, ◌<>◌, ◌∷◌,
}
use dark_routev.Config.{DaemonConfig}
use dark_routev.Shell.{Command, Shell, Outcome, run, run_ignored, and_then}
use dark_routev.Policy.Selectors.{Names, collect_selectors}

pub data BackendType : Type 0 where
  backend_none backend_nft backend_iptables : BackendType

pub record Toolchain : Type 0 where
  pub backend : BackendType
  pub nft : String
  pub ipset : String
  pub iptables : String

-- `toolchain.available`
abbrev pub available_on : BackendType → Toolchain → Bool
available_on backend_nft tc = not (str_eq tc.nft "")
available_on backend_iptables tc = not (str_eq tc.ipset "") && not (str_eq tc.iptables "")
available_on backend_none tc = false

abbrev pub available : Toolchain → Bool
available tc = available_on tc.backend tc

-- `exec.LookPath`, with "" for an error
abbrev pub LookPath : Type 0
LookPath = String → String

-- `firstAvailable`
unfoldable pub first_available : LookPath → List String → String
first_available look [] = ""
first_available look (name ∷ names) =
    let later = first_available look names in if str_eq (look name) "" then later else look name

-- `detectToolchain`
unfoldable pub detect_toolchain : LookPath → Toolchain
detect_toolchain look =
    let nft_path = first_available look ("nft" ∷ []) in
    let tc : Toolchain = record {
      backend = backend_iptables;
      nft = "";
      ipset = first_available look ("ipset" ∷ []);
      iptables = first_available look ("iptables" ∷ "iptables-nft" ∷ []);
    } in
    if not (str_eq nft_path "")
    then record { backend = backend_nft; nft = nft_path; ipset = ""; iptables = "" }
    else if available tc
    then tc
    else record tc { backend = backend_none }

-- The commands, with the names of the constants written out.
module _ (tc : Toolchain) where
  abbrev pub create_set : Command
  create_set = (tc.ipset, "create" ∷ "vw_vpn_dst" ∷ "hash:net" ∷ "-exist" ∷ [])

  abbrev pub flush_set : Command
  flush_set = (tc.ipset, "flush" ∷ "vw_vpn_dst" ∷ [])

  abbrev pub destroy_set : Command
  destroy_set = (tc.ipset, "destroy" ∷ "vw_vpn_dst" ∷ [])

  abbrev pub add_to_set : String → Command
  add_to_set ip = (tc.ipset, "add" ∷ "vw_vpn_dst" ∷ ip ∷ "-exist" ∷ [])

  abbrev pub mark_rule : String → ℕ → Command
  mark_rule action fwmark = (
    tc.iptables,
    "-t"
        ∷ "mangle"
        ∷ action
        ∷ "OUTPUT"
        ∷ "-m"
        ∷ "set"
        ∷ "--match-set"
        ∷ "vw_vpn_dst"
        ∷ "dst"
        ∷ "-j"
        ∷ "MARK"
        ∷ "--set-mark"
        ∷ itoa fwmark
        ∷ [],
  )

  abbrev pub delete_rule : ℕ → Command
  delete_rule fwmark = mark_rule "-D" fwmark

  abbrev pub append_rule : ℕ → Command
  append_rule fwmark = mark_rule "-A" fwmark

  abbrev pub add_table : Command
  add_table = (tc.nft, "add" ∷ "table" ∷ "inet" ∷ "vpn_watchdog" ∷ [])

  abbrev pub add_chain : Command
  add_chain = (
    tc.nft,
    "add" ∷ "chain" ∷ "inet" ∷ "vpn_watchdog" ∷ "output"
        ∷ "{ type route hook output priority mangle ; policy accept ; }" ∷ [],
  )

  abbrev pub add_nft_set : Command
  add_nft_set = (
    tc.nft,
    "add" ∷ "set" ∷ "inet" ∷ "vpn_watchdog" ∷ "vpn_dst" ∷ "{ type ipv4_addr ; flags interval ; }"
        ∷ [],
  )

  abbrev pub flush_nft_set : Command
  flush_nft_set = (tc.nft, "flush" ∷ "set" ∷ "inet" ∷ "vpn_watchdog" ∷ "vpn_dst" ∷ [])

  abbrev pub flush_chain : Command
  flush_chain = (tc.nft, "flush" ∷ "chain" ∷ "inet" ∷ "vpn_watchdog" ∷ "output" ∷ [])

  abbrev pub delete_table : Command
  delete_table = (tc.nft, "delete" ∷ "table" ∷ "inet" ∷ "vpn_watchdog" ∷ [])

  abbrev pub add_element : String → Command
  add_element selector = (
    tc.nft,
    "add" ∷ "element" ∷ "inet" ∷ "vpn_watchdog" ∷ "vpn_dst" ∷ ("{ " <> selector <> " }") ∷ [],
  )

  abbrev pub add_mark : ℕ → Command
  add_mark fwmark = (
    tc.nft,
    "add"
        ∷ "rule"
        ∷ "inet"
        ∷ "vpn_watchdog"
        ∷ "output"
        ∷ "ip"
        ∷ "daddr"
        ∷ "@vpn_dst"
        ∷ "meta"
        ∷ "mark"
        ∷ "set"
        ∷ itoa fwmark
        ∷ [],
  )

module _ {K : Type 0} (sh : Shell K) where
  -- `for _, selector := range selectors { run(…) }`, where a failure is only logged
  abbrev pub run_each : (String → Command) → List String → K → K
  run_each command [] k = k
  run_each command (s ∷ ss) k = run_each command ss (run_ignored sh (command s) k)

  -- `applyIPTables`
  unfoldable pub apply_iptables : Toolchain → List String → ℕ → K → Outcome K
  apply_iptables tc selectors fwmark k = and_then (run sh (create_set tc) k) λ k₁.
      and_then (run sh (flush_set tc) k₁) λ k₂.
        let k₃ = run_each (add_to_set tc) selectors k₂ in
        run sh (append_rule tc fwmark) (run_ignored sh (delete_rule tc fwmark) k₃)

  -- `applyNFT`
  unfoldable pub apply_nft : Toolchain → List String → ℕ → K → Outcome K
  apply_nft tc selectors fwmark k =
      let k₁ = run_ignored sh (add_table tc) k in
      let k₂ = run_ignored sh (add_chain tc) k₁ in
      let k₃ = run_ignored sh (add_nft_set tc) k₂ in
      and_then (run sh (flush_nft_set tc) k₃) λ k₄.
        let k₅ = run_each (add_element tc) selectors k₄ in
        and_then (run sh (flush_chain tc) k₅) λ k₆. run sh (add_mark tc fwmark) k₆

  clear_on : BackendType → Toolchain → ℕ → K → K
  clear_on backend_nft tc fwmark k = run_ignored sh (delete_table tc) k
  clear_on _ tc fwmark k =
      run_ignored sh (destroy_set tc) (run_ignored sh (delete_rule tc fwmark) k)

  -- `Manager.Clear`
  unfoldable pub clear : Toolchain → ℕ → K → Outcome K
  unfolding clear_on
  clear tc fwmark k = if available tc then (none, clear_on tc.backend tc fwmark k) else (none, k)

  apply_on : BackendType → Toolchain → List String → ℕ → K → Outcome K
  apply_on backend_nft tc selectors fwmark k = apply_nft tc selectors fwmark k
  apply_on _ tc selectors fwmark k = apply_iptables tc selectors fwmark k

  -- `Manager.Apply` of the selectors that were collected
  unfoldable pub apply_selectors : Toolchain → List String → ℕ → K → Outcome K
  unfolding apply_on
  apply_selectors tc [] fwmark k = clear tc fwmark k
  apply_selectors tc (s ∷ ss) fwmark k = apply_on tc.backend tc (s ∷ ss) fwmark k

  -- `Manager.Apply`
  unfoldable pub apply : Names → DaemonConfig → Toolchain → ℕ → K → Outcome K
  apply names cfg tc fwmark k =
      if available tc then apply_selectors tc (collect_selectors names cfg) fwmark k else (none, k)
