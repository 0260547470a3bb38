-- ===== src/Config/Uci/Laws.antt =====
-- daemon/internal/config/store.go: what loadUCIStringList collects, and where loadUCIProbeTargets panics.
use Prim.Native.String.{len}
use dark_routev.Base.{
  Bool, List, Option, String, [], arith, contains, eq_iff, if_ind, if◌then◌else◌, is_some, ltb, mem,
  none, not, refl, some, str_eq, true, ℕ, ◌&&◌, ◌++◌, ◌+◌, ◌||◌, ◌∙◌, ◌∷◌, ◌≡◌,
}
use dark_routev.Base.Unique.{NoRepeat, mem-snoc, snoc-NoRepeat}
use dark_routev.Net.{split_first}
use dark_routev.Config.Uci.{
  listed_value, add_value, list_loop, load_uci_string_list, index, Sections, with_parts,
  with_brackets, with_key, scan_line, scan_lines, targets_of, load_uci_probe_targets, trim,
  is_quote,
}

abbrev pub cons_value : Option String → List String → List String
cons_value none rest = rest
cons_value (some v) rest = if str_eq v "" then rest else v ∷ rest

-- The values of the lines with the prefix that are not empty
abbrev pub listed : String → List String → List String
listed prefix [] = []
listed prefix (line ∷ lines) = cons_value (listed_value prefix line) (listed prefix lines)

-- `seen` and `vals` hold the same texts, each once in `vals`.
abbrev pub IsConsistent : List String × List String → Type 0
IsConsistent (seen, vals) = ((x : String) → mem x seen ≡ mem x vals) × NoRepeat vals

add_value-IsConsistent :
    (o : Option String) (seen vals : List String)
    → IsConsistent (seen, vals)
    → IsConsistent (add_value o seen vals)
      × ((x : String) → mem x (add_value o seen vals).1 ≡ (mem x vals || mem x (cons_value o [])))
unfolding add_value mem
add_value-IsConsistent none seen vals h = (h, λ x. ground arith)
add_value-IsConsistent (some v) seen vals h =
    if_ind
      (λ (p : List String × List String).
        IsConsistent p
        × ((x : String) → mem x p.1 ≡ (mem x vals || mem x (cons_value (some v) []))))
      (str_eq v "" || mem v seen) (seen, vals) (v ∷ seen, vals ++ (v ∷ []))
      (λ t. (h, λ x. ground (arith, h.0 x, h.0 v, eq_iff v x)))
      (λ f. (
        (
          (λ x. ground (arith, h.0 x, mem-snoc x v vals)),
          snoc-NoRepeat v vals h.1 (ground (arith, h.0 v)),
        ),
        λ x. ground (arith, mem-snoc x v vals),
      ))

mem-cons_value :
    (x : String) (o : Option String) (rest : List String)
    → mem x (cons_value o rest) ≡ (mem x (cons_value o []) || mem x rest)
unfolding mem
mem-cons_value x none rest = refl
mem-cons_value x (some v) rest = ground arith

list_loop_lem :
    (prefix : String) (lines seen vals : List String)
    → IsConsistent (seen, vals)
    → NoRepeat (list_loop prefix lines seen vals)
      × ((x : String)
          → mem x (list_loop prefix lines seen vals) ≡ (mem x vals || mem x (listed prefix lines)))
unfolding list_loop mem
list_loop_lem prefix [] seen vals h = (h.1, λ x. ground arith)
list_loop_lem prefix (line ∷ lines) seen vals h =
    let o = listed_value prefix line in
    let (c, m) = add_value-IsConsistent o seen vals h in
    let p = add_value o seen vals in
    let (n, e) = list_loop_lem prefix lines p.0 p.1 c in
    (n, λ x. ground (arith, m x, e x, mem-cons_value x o (listed prefix lines)))

-- The list holds the values of the lines of its key that are not empty, no other, and none twice.
pub load_uci_string_list-listed :
    (prefix : String) (lines : List String)
    → NoRepeat (load_uci_string_list prefix (some lines))
      × ((x : String)
          → mem x (load_uci_string_list prefix (some lines)) ≡ mem x (listed prefix lines))
unfolding load_uci_string_list mem
load_uci_string_list-listed prefix lines = list_loop_lem prefix lines [] [] ((λ x. refl), tt)

abbrev in_order : ℕ → ℕ → ℕ → Bool
in_order a b n = ltb a b && ltb (b + 1) n

abbrev good_brackets : String → Option ℕ → Option ℕ → Bool
good_brackets key (some a) (some b) = in_order a b (len key)
good_brackets key none _ = true
good_brackets key (some a) none = true

abbrev good_key : Option (String × String) → Bool
good_key none = true
good_key (some (key, value)) = good_brackets key (index key "[") (index key "]")

-- If the line is on a probe target and its key has brackets, these are in order and at least one
-- character follows them.
abbrev pub good_line : String → Bool
good_line line = not (contains line "probe_target") || good_key (split_first b'=' line)

abbrev pub all_good : List String → Bool
all_good [] = true
all_good (line ∷ lines) = good_line line && all_good lines

module _ (atoi : String → Option ℕ) where
  with_brackets-good :
      (key val : String) (a b : Option ℕ) (st : Sections)
      → is_some (with_brackets atoi key val a b st) ≡ good_brackets key a b
  unfolding with_brackets with_parts
  with_brackets-good key val (some a) (some b) st = ground arith
  with_brackets-good key val none b st = refl
  with_brackets-good key val (some a) none st = refl

  with_key-good :
      (o : Option (String × String)) (st : Sections) → is_some (with_key atoi o st) ≡ good_key o
  unfolding with_key
  with_key-good none st = refl
  with_key-good (some (key, value)) st =
      with_brackets-good key (trim is_quote value) (index key "[") (index key "]") st

  scan_line-good :
      (line : String) (st : Sections) → is_some (scan_line atoi line st) ≡ good_line line
  unfolding scan_line
  scan_line-good line st = ground (arith, with_key-good (split_first b'=' line) st)

  scan_lines-good :
      (lines : List String) (o : Option Sections)
      → is_some (scan_lines atoi lines o) ≡ (is_some o && all_good lines)
  unfolding scan_lines
  scan_lines-good [] none = refl
  scan_lines-good (line ∷ lines) none = refl
  scan_lines-good [] (some st) = refl
  scan_lines-good (line ∷ lines) (some st) =
      ground (arith, scan_lines-good lines (scan_line atoi line st), scan_line-good line st)

  is_some-targets_of : (o : Option Sections) → is_some (targets_of atoi o) ≡ is_some o
  unfolding targets_of
  is_some-targets_of none = refl
  is_some-targets_of (some st) = refl

  -- The reading of the targets returns if and only if in every line on a probe target whose key has
  -- brackets these are in order and at least one character follows them; else it panics.
  pub load_uci_probe_targets-all_good :
      (lines : List String) → is_some (load_uci_probe_targets atoi (some lines)) ≡ all_good lines
  unfolding load_uci_probe_targets
  load_uci_probe_targets-all_good lines =
      is_some-targets_of (scan_lines atoi lines (some _)) ∙ scan_lines-good lines (some _)
