-- ===== src/Config/Uci.antt =====
-- daemon/internal/config/store.go: the settings of UCI, OpenWrt's store. The program `uci` is a
-- parameter, by its outputs; so is strconv.Atoi, whose number is not negative.
pub mod Daemon
pub mod Laws
pub mod Listed
mod Tests
use Prim.Native.Char.{code}
use Prim.Native.String.{len, find, slice}
use dark_routev.Base.{
  Bool, List, Option, String, [], contains, if◌then◌else◌, is_some, leb, mem, none, some,
  starts_with, str_eq, ℕ, ◌&&◌, ◌++◌, ◌+◌, ◌<>◌, ◌==◌, ◌||◌, ◌∷◌,
}
use dark_routev.Base.Dict.{Dict, lookup, insert}
use dark_routev.Net.{split_first}
use dark_routev.Config.{ProbeTarget, ProbeType, icmp, tcp, http, https, other_probe}

-- `strings.Trim` of the characters that the test accepts
unfoldable pub trim_left_of : (ℕ → Bool) → String → String
trim_left_of cut String.[] = String.[]
trim_left_of cut (String.◌∷◌ x s) =
    let rest = trim_left_of cut s in if cut (code x) then rest else String.◌∷◌ x s

unfoldable pub trim_right_of : (ℕ → Bool) → String → String
trim_right_of cut String.[] = String.[]
trim_right_of cut (String.◌∷◌ x s) = elim (trim_right_of cut s) [
  | String.[] ↦ if cut (code x) then String.[] else String.◌∷◌ x String.[]
  | String.◌∷◌ y t ↦ String.◌∷◌ x (String.◌∷◌ y t)
]

abbrev pub trim : (ℕ → Bool) → String → String
trim cut s = trim_right_of cut (trim_left_of cut s)

abbrev pub is_quote : ℕ → Bool
is_quote c = c == 39

-- The cut set "' \t\r\n"
abbrev pub is_quote_or_space : ℕ → Bool
is_quote_or_space c = c == 39 || c == 32 || c == 9 || c == 13 || c == 10

-- The loop of `loadUCIStringList` over the lines
abbrev listed_value : String → String → Option String
listed_value prefix line =
    if starts_with line (prefix <> "=")
    then elim (split_first b'=' line) [
      | none ↦ none
      | some (key, value) ↦ some (trim is_quote_or_space value)
    ]
    else none

add_value : Option String → List String → List String → List String × List String
add_value none seen vals = (seen, vals)
add_value (some v) seen vals =
    if str_eq v "" || mem v seen then (seen, vals) else (v ∷ seen, vals ++ (v ∷ []))

list_loop : String → List String → List String → List String → List String
unfolding add_value
list_loop prefix [] seen vals = vals
list_loop prefix (line ∷ lines) seen vals =
    let (seen', vals') = add_value (listed_value prefix line) seen vals in
    list_loop prefix lines seen' vals'

-- `loadUCIStringList`, of the output of `uci show`, `none` for an error
unfoldable pub load_uci_string_list : String → Option (List String) → List String
unfolding list_loop
load_uci_string_list prefix none = []
load_uci_string_list prefix (some lines) = list_loop prefix lines [] []

-- `strings.Index`, with `none` for -1
abbrev pub index : String → String → Option ℕ
index s sub = if leb (find s sub) (len s) then some (find s sub) else none

-- `s[a:b]`, with `none` for a panic
abbrev pub cut_out : String → ℕ → ℕ → Option String
cut_out s a b = if leb a b && leb b (len s) then some (slice s a b) else none

-- The map `seen` and the slice `order`
pub record Sections : Type 0 where
  pub seen : Dict ProbeTarget
  pub order : List String

-- `ProbeType(val)`
unfoldable pub probe_type : String → ProbeType
probe_type val =
    if str_eq val "icmp"
    then icmp
    else if str_eq val "tcp"
    then tcp
    else if str_eq val "http"
    then http
    else if str_eq val "https"
    then https
    else other_probe val

-- The zero value
abbrev zero_target : ProbeTarget
zero_target = record { host = ""; port = 0; type = other_probe ""; timeout = 0 }

abbrev or_zero : Option ProbeTarget → ProbeTarget
or_zero none = zero_target
or_zero (some t) = t

abbrev or_0 : Option ℕ → ℕ
or_0 none = 0
or_0 (some n) = n

module _ (atoi : String → Option ℕ) where
  -- The switch on the field
  unfoldable pub set_field : String → String → ProbeTarget → ProbeTarget
  set_field field val t =
      if str_eq field "host"
      then record t { host = val }
      else if str_eq field "port"
      then record t { port = or_0 (atoi val) }
      else if str_eq field "type"
      then record t { type = probe_type val }
      else t

  noted : String → Dict ProbeTarget → List String → List String
  noted idx seen order = if is_some (lookup idx seen) then order else order ++ (idx ∷ [])

  store_field : String → String → String → Sections → Sections
  unfolding noted
  store_field idx field val st = record {
    seen = insert idx (set_field field val (or_zero (lookup idx st.seen))) st.seen;
    order = noted idx st.seen st.order;
  }

  with_parts : Option String → Option String → String → Sections → Option Sections
  unfolding store_field
  with_parts (some idx) (some field) val st = some (store_field idx field val st)
  with_parts _ _ val st = none

  with_brackets : String → String → Option ℕ → Option ℕ → Sections → Option Sections
  unfolding with_parts
  with_brackets key val (some a) (some b) st =
      with_parts (cut_out key (a + 1) b) (cut_out key (b + 2) (len key)) val st
  with_brackets key val _ _ st = some st

  with_key : Option (String × String) → Sections → Option Sections
  unfolding with_brackets
  with_key none st = some st
  with_key (some (key, value)) st =
      with_brackets key (trim is_quote value) (index key "[") (index key "]") st

  -- One line of the scan; `none` is a panic.
  unfoldable pub scan_line : String → Sections → Option Sections
  unfolding with_key
  scan_line line st =
      if contains line "probe_target" then with_key (split_first b'=' line) st else some st

  scan_lines : List String → Option Sections → Option Sections
  scan_lines _ none = none
  scan_lines [] (some st) = some st
  scan_lines (line ∷ lines) (some st) = scan_lines lines (scan_line line st)

  -- The last loop
  collect_targets : Dict ProbeTarget → List String → List ProbeTarget
  collect_targets seen [] = []
  collect_targets seen (idx ∷ order) =
      let rest = collect_targets seen order in
      let t = or_zero (lookup idx seen) in if str_eq t.host "" then rest else t ∷ rest

  targets_of : Option Sections → Option (List ProbeTarget)
  unfolding collect_targets
  targets_of none = none
  targets_of (some st) = some (collect_targets st.seen st.order)

  -- `loadUCIProbeTargets`, of the output of `uci show`; `none` is a panic.
  unfoldable pub load_uci_probe_targets : Option (List String) → Option (List ProbeTarget)
  unfolding scan_lines targets_of
  load_uci_probe_targets none = some []
  load_uci_probe_targets (some lines) =
      targets_of (scan_lines lines (some (record { seen = []; order = [] })))
