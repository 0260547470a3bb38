-- ===== src/Policy/Selectors/Laws.antt =====
-- daemon/internal/policy/policy.go, `collectSelectors`: `seen` and `out` hold the same texts, each
-- once, and what was asked for is among them.
use dark_routev.Base.{
  Bool, Bool-cases, List, Option, String, [], ap, arith, eq_iff, false, if_ind, if◌then◌else◌, inl,
  inr, mem, none, refl, some, starts_with, str_eq, subst, sym, true, ◌++◌, ◌||◌, ◌∙◌, ◌∷◌, ◌≡◌,
}
use dark_routev.Base.Unique.{NoRepeat, mem-snoc, snoc-NoRepeat, mem-append}
use dark_routev.Config.{DaemonConfig}
use dark_routev.Net.{trim_space}
use dark_routev.Policy.Selectors.{
  Names, Collected, normalize_selector, add_unseen, add_each, resolve_domain_selectors, add,
  add_all, add_lines, add_files, collect_selectors, resolved, added, add_opened, first_parse,
}

-- The set and the list agree, and the list has no repetition.
abbrev pub IsConsistent : Collected → Type 0
IsConsistent c = ((v : String) → mem v c.seen ≡ mem v c.out) × NoRepeat c.out

-- A step that adds the given texts, and no others.
abbrev pub Adds : Collected → List String → Collected → Type 0
Adds c xs d = IsConsistent d × ((x : String) → mem x d.out ≡ (mem x c.out || mem x xs))

Adds-none : (c : Collected) → IsConsistent c → Adds c [] c
unfolding mem
Adds-none c h = (h, λ x. ground arith)

-- Two steps after each other.
Adds-Adds :
    (c d e : Collected) (xs ys : List String)
    → Adds c xs d
    → (IsConsistent d → Adds d ys e)
    → Adds c (xs ++ ys) e
Adds-Adds c d e xs ys g h = ((h g.0).0, λ x. ground (arith, (h g.0).1 x, g.1 x, mem-append x xs ys))

add_unseen-Adds : (x : String) (c : Collected) → IsConsistent c → Adds c (x ∷ []) (add_unseen x c)
unfolding add_unseen mem
add_unseen-Adds x c h =
    if_ind (Adds c (x ∷ [])) (mem x c.seen) c
      (record { seen = x ∷ c.seen; out = c.out ++ (x ∷ []) })
      (λ t. (h, λ v. ground (arith, h.0 v, eq_iff x v)))
      (λ f. (
        (
          (λ v. ground (arith, h.0 v, mem-snoc v x c.out)),
          snoc-NoRepeat x c.out h.1 (ground (arith, h.0 x)),
        ),
        λ v. ground (arith, mem-snoc v x c.out),
      ))

add_each-Adds : (xs : List String) (c : Collected) → IsConsistent c → Adds c xs (add_each xs c)
unfolding add_each
add_each-Adds [] c h = Adds-none c h
add_each-Adds (x ∷ xs) c h =
    Adds-Adds c (add_unseen x c) _ (x ∷ []) xs (add_unseen-Adds x c h)
      (add_each-Adds xs (add_unseen x c))

Adds-if :
    (c d e : Collected) (xs ys : List String) (b : Bool)
    → Adds c xs d
    → Adds c ys e
    → Adds c (if b then xs else ys) (if b then d else e)
Adds-if c d e xs ys true g h = g
Adds-if c d e xs ys false g h = h

module _ (names : Names) where
  abbrev or_none : Option (List String) → List String
  or_none none = []
  or_none (some xs) = xs

  denoted_text : Option String → Option String → Option (List String) → List String
  denoted_text (some ip) network addresses = ip ∷ []
  denoted_text none (some network) addresses = network ∷ []
  denoted_text none none addresses = or_none addresses

  -- What one entry of the configuration stands for: without the spaces around it nothing if it is
  -- empty, the address or the network that it is, else the addresses of the domain.
  unfoldable pub denoted : String → List String
  unfolding denoted_text
  denoted v =
      let t = trim_space v in
      if str_eq t ""
      then []
      else denoted_text (names.parse_addr4 t) (names.parse_prefix4 t) (names.lookup_ip4 t)

  unfoldable pub denoted_all : List String → List String
  denoted_all [] = []
  denoted_all (v ∷ vs) = denoted v ++ denoted_all vs

  -- The lines of a file that are neither empty nor comments
  abbrev pub entries : List String → List String
  entries [] = []
  entries (l ∷ ls) =
      let line = trim_space l in
      let rest = entries ls in if str_eq line "" || starts_with line "#" then rest else line ∷ rest

  abbrev pub file_entries : List String → List String
  file_entries [] = []
  file_entries (path ∷ paths) = entries (or_none (names.file_lines path)) ++ file_entries paths

  -- Every entry of the configuration
  abbrev pub requested : DaemonConfig → List String
  requested cfg = cfg.vpn_ips ++ (cfg.vpn_domains ++ file_entries cfg.vpn_domain_files)

  resolved-Adds :
      (o : Option (List String)) (c : Collected)
      → IsConsistent c
      → Adds c (or_none o) (resolved names o c)
  unfolding resolved
  resolved-Adds none c h = Adds-none c h
  resolved-Adds (some ips) c h = add_each-Adds ips c h

  -- A text that is not empty, by its parses
  text-Adds :
      (ip network : Option String) (v : String) (c : Collected)
      → IsConsistent c
      → str_eq (trim_space v) "" ≡ false
      → Adds c
          (denoted_text ip network (names.lookup_ip4 (trim_space v)))
          (added names (first_parse names ip network) v c)
  unfolding added denoted_text first_parse resolve_domain_selectors
  text-Adds (some ip) network v c h f = add_unseen-Adds ip c h
  text-Adds none (some network) v c h f = add_unseen-Adds network c h
  text-Adds none none v c h f = rw f (resolved-Adds (names.lookup_ip4 (trim_space v)) c h)

  empty-Adds :
      (v : String) (c : Collected)
      → IsConsistent c
      → str_eq (trim_space v) "" ≡ true
      → Adds c [] (added names none v c)
  unfolding added resolve_domain_selectors
  empty-Adds v c h e = rw e (Adds-none c h)

  add-Adds : (v : String) (c : Collected) → IsConsistent c → Adds c (denoted v) (add names v c)
  unfolding add denoted normalize_selector
  add-Adds v c h =
      let t = trim_space v in
      elim (Bool-cases (str_eq t "")) [
        | inl e ↦ rw e (empty-Adds v c h e)
        | inr e ↦ rw e (text-Adds (names.parse_addr4 t) (names.parse_prefix4 t) v c h e)
      ]

  add_all-Adds :
      (vs : List String) (c : Collected)
      → IsConsistent c
      → Adds c (denoted_all vs) (add_all names vs c)
  unfolding add_all denoted_all
  add_all-Adds [] c h = Adds-none c h
  add_all-Adds (v ∷ vs) c h =
      Adds-Adds c (add names v c) _ (denoted v) (denoted_all vs) (add-Adds v c h)
        (add_all-Adds vs (add names v c))

  -- The loop over the lines is the loop over its entries.
  add_lines-add_all :
      (ls : List String) (c : Collected) → add_lines names ls c ≡ add_all names (entries ls) c
  unfolding add_lines add_all
  add_lines-add_all [] c = refl
  add_lines-add_all (l ∷ ls) c =
      elim (Bool-cases (str_eq (trim_space l) "" || starts_with (trim_space l) "#")) [
        | inl e ↦ rw e (add_lines-add_all ls c)
        | inr e ↦ rw e (add_lines-add_all ls (add names (trim_space l) c))
      ]

  add_all-append :
      (vs ws : List String) (c : Collected)
      → add_all names (vs ++ ws) c ≡ add_all names ws (add_all names vs c)
  unfolding add_all
  add_all-append [] ws c = refl
  add_all-append (v ∷ vs) ws c = add_all-append vs ws (add names v c)

  add_opened-add_all :
      (o : Option (List String)) (c : Collected)
      → add_opened names o c ≡ add_all names (entries (or_none o)) c
  unfolding add_opened add_all
  add_opened-add_all none c = refl
  add_opened-add_all (some ls) c = add_lines-add_all ls c

  add_files-add_all :
      (paths : List String) (c : Collected)
      → add_files names paths c ≡ add_all names (file_entries paths) c
  unfolding add_files add_all
  add_files-add_all [] c = refl
  add_files-add_all (path ∷ paths) c =
      let o = names.file_lines path in
      add_files-add_all paths (add_opened names o c)
      ∙ ap (λ d. add_all names (file_entries paths) d) (add_opened-add_all o c)
      ∙ sym (add_all-append (entries (or_none o)) (file_entries paths) c)

  collect_selectors-add_all :
      (cfg : DaemonConfig)
      → collect_selectors names cfg
        ≡ (add_all names (requested cfg) (record { seen = []; out = [] })).out
  unfolding collect_selectors
  collect_selectors-add_all cfg =
      let start : Collected = record { seen = []; out = [] } in
      let ips = add_all names cfg.vpn_ips start in
      ap (λ (d : Collected). d.out)
        (add_files-add_all cfg.vpn_domain_files (add_all names cfg.vpn_domains ips)
          ∙ sym (add_all-append cfg.vpn_domains (file_entries cfg.vpn_domain_files) ips)
          ∙ sym (add_all-append cfg.vpn_ips _ start))

  collected-Adds :
      (cfg : DaemonConfig)
      → Adds
          (record { seen = []; out = [] })
          (denoted_all (requested cfg))
          (add_all names (requested cfg) (record { seen = []; out = [] }))
  unfolding mem
  collected-Adds cfg = add_all-Adds (requested cfg) _ ((λ v. refl), tt)

  -- The selectors are exactly what the entries of the configuration (addresses, domains, and the lines
  -- of the files that are neither empty nor comments) stand for, each without the spaces around it: the
  -- IPv4 address or network that it is, else the addresses that its name resolves to; and none of them
  -- is collected twice.
  pub collect_selectors-denoted_all :
      (cfg : DaemonConfig)
      → NoRepeat (collect_selectors names cfg)
        × ((x : String) → mem x (collect_selectors names cfg) ≡ mem x (denoted_all (requested cfg)))
  unfolding mem
  collect_selectors-denoted_all cfg =
      let a = collected-Adds cfg in
      let e = sym (collect_selectors-add_all cfg) in
      (
        subst NoRepeat e a.0.1,
        λ x. subst (λ out. mem x out ≡ mem x (denoted_all (requested cfg))) e (a.1 x),
      )
