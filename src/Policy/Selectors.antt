-- ===== src/Policy/Selectors.antt =====
-- daemon/internal/policy/policy.go, `collectSelectors`: the addresses and networks whose traffic is
-- to go through the tunnel. The parsing of addresses, the resolver and the files are parameters.
pub mod Laws
use dark_routev.Base.{
  List, Option, String, [], if◌then◌else◌, mem, none, some, starts_with, str_eq, ◌++◌, ◌||◌, ◌∷◌,
}
use dark_routev.Config.{DaemonConfig}
use dark_routev.Net.{trim_space}

-- netip.ParseAddr and netip.ParsePrefix, where the result is IPv4, with its text; LookupNetIP, with
-- `none` for an error; and the lines of a file, with `none` if it cannot be opened.
pub record Names : Type 0 where
  pub parse_addr4 : String → Option String
  pub parse_prefix4 : String → Option String
  pub lookup_ip4 : String → Option (List String)
  pub file_lines : String → Option (List String)

-- The set `seen` and the list `out`
pub record Collected : Type 0 where
  pub seen : List String
  pub out : List String

module _ (names : Names) where
  first_parse : Option String → Option String → Option String
  first_parse (some ip) pfx = some ip
  first_parse none pfx = pfx

  -- `normalizeSelector`
  unfoldable pub normalize_selector : String → Option String
  unfolding first_parse
  normalize_selector v =
      let t = trim_space v in
      if str_eq t "" then none else first_parse (names.parse_addr4 t) (names.parse_prefix4 t)

-- `if _, ok := seen[v]; ok { continue }; seen[v] = …; out = append(out, v)`
unfoldable pub add_unseen : String → Collected → Collected
add_unseen v c = if mem v c.seen then c else record { seen = v ∷ c.seen; out = c.out ++ (v ∷ []) }

unfoldable pub add_each : List String → Collected → Collected
add_each [] c = c
add_each (v ∷ vs) c = add_each vs (add_unseen v c)

module _ (names : Names) where
  resolved : Option (List String) → Collected → Collected
  resolved none c = c
  resolved (some ips) c = add_each ips c

  -- `resolveDomainSelectors`
  unfoldable pub resolve_domain_selectors : String → Collected → Collected
  unfolding resolved
  resolve_domain_selectors domain c =
      let d = trim_space domain in if str_eq d "" then c else resolved (names.lookup_ip4 d) c

  added : Option String → String → Collected → Collected
  added (some norm) v c = add_unseen norm c
  added none v c = resolve_domain_selectors v c

  -- The closure `add`
  unfoldable pub add : String → Collected → Collected
  unfolding added
  add v c = added (normalize_selector names v) v c

  unfoldable pub add_all : List String → Collected → Collected
  add_all [] c = c
  add_all (v ∷ vs) c = add_all vs (add v c)

  -- The loop over the lines of one file
  unfoldable pub add_lines : List String → Collected → Collected
  add_lines [] c = c
  add_lines (l ∷ ls) c =
      let line = trim_space l in
      add_lines ls (if str_eq line "" || starts_with line "#" then c else add line c)

  add_opened : Option (List String) → Collected → Collected
  add_opened none c = c
  add_opened (some ls) c = add_lines ls c

  unfoldable pub add_files : List String → Collected → Collected
  unfolding add_opened
  add_files [] c = c
  add_files (path ∷ paths) c = add_files paths (add_opened (names.file_lines path) c)

  -- `collectSelectors`
  unfoldable pub collect_selectors : DaemonConfig → List String
  collect_selectors cfg =
      let ips = add_all cfg.vpn_ips (record { seen = []; out = [] }) in
      (add_files cfg.vpn_domain_files (add_all cfg.vpn_domains ips)).out
