-- ===== src/Config/Targets/Laws.antt =====
-- What the added probe targets are.
use dark_routev.Base.{
  All, Bool, In, In-append_left, List, String, Subset, Subset-of_In, Subset_refl, [], arith,
  eq_refl, false, if_ind, if◌then◌else◌, inl, inr, is_empty, leb, length, length-append, mem, refl,
  str_eq, suc, sym, true, ℕ, ◌++◌, ◌+◌, ◌==◌, ◌||◌, ◌∙◌, ◌∷◌, ◌≡◌, ◌≤◌, ◌⊎◌,
}
use dark_routev.Config.{ProbeTarget}
use dark_routev.Config.Targets.{hosts, domain_target, append_loop, append_domain_probe_targets}

hosts-append :
    (xs : List ProbeTarget) (d : String) → mem d (hosts (xs ++ (domain_target d ∷ []))) ≡ true
unfolding mem
hosts-append [] d = rw eq_refl
hosts-append (x ∷ xs) d = ground (arith, hosts-append xs d)

mem-hosts_append :
    (xs : List ProbeTarget) (d e : String)
    → mem e (hosts (xs ++ (domain_target d ∷ []))) ≡ (mem e (hosts xs) || str_eq d e)
unfolding mem
mem-hosts_append [] d e = ground arith
mem-hosts_append (x ∷ xs) d e = ground (arith, mem-hosts_append xs d e)

length-hosts_append :
    (xs : List ProbeTarget) (d : String) → length (xs ++ (domain_target d ∷ [])) ≡ suc (length xs)
length-hosts_append xs d = omega (arith, length-append {0} xs (domain_target d ∷ []))

abbrev Agrees : List String → List ProbeTarget → Type 0
Agrees seen base = (e : String) → mem e seen ≡ mem e (hosts base)

Agrees-more :
    (seen : List String) (base : List ProbeTarget) (d : String)
    → Agrees seen base
    → Agrees (d ∷ seen) (base ++ (domain_target d ∷ []))
unfolding mem
Agrees-more seen base d h e = rw mem-hosts_append (ground (arith, h e))

append_loop_within :
    (limit : ℕ) (ds seen : List String) (count : ℕ) (base : List ProbeTarget)
    → count ≤ limit
    → length (append_loop limit ds seen count base) + count ≤ length base + limit
unfolding append_loop
append_loop_within limit [] seen count base h = omega arith
append_loop_within limit (d ∷ ds) seen count base h = ground (
  arith,
  append_loop_within limit ds seen count base h,
  append_loop_within limit ds (d ∷ seen) (suc count) (base ++ (domain_target d ∷ [])),
  length-hosts_append base d,
)

append_loop-In :
    (limit : ℕ) (ds seen : List String) (count : ℕ) (base : List ProbeTarget) (t : ProbeTarget)
    → In t base
    → In t (append_loop limit ds seen count base)
unfolding append_loop
append_loop-In limit [] seen count base t i = i
append_loop-In limit (d ∷ ds) seen count base t i =
    go (leb limit count) (mem d seen) _ _ (append_loop-In limit ds seen count base t i) (
      append_loop-In limit ds (d ∷ seen) (suc count) (base ++ (domain_target d ∷ [])) t
        (In-append_left t base (domain_target d ∷ []) i))
  where
    go :
        (a b : Bool) (again more : List ProbeTarget)
        → In t again
        → In t more
        → In t (if a then base else if b then again else more)
    go true b again more p q = i
    go false true again more p q = p
    go false false again more p q = q

append_loop_keeps :
    (limit : ℕ) (ds seen : List String) (count : ℕ) (base : List ProbeTarget) (e : String)
    → mem e (hosts base) ≡ true
    → mem e (hosts (append_loop limit ds seen count base)) ≡ true
unfolding append_loop
append_loop_keeps limit [] seen count base e i = i
append_loop_keeps limit (d ∷ ds) seen count base e i = ground (
  arith,
  append_loop_keeps limit ds seen count base e i,
  append_loop_keeps limit ds (d ∷ seen) (suc count) (base ++ (domain_target d ∷ [])) e,
  mem-hosts_append base d e,
)

-- Each domain is among the hosts, or the limit is used up.
abbrev Covers : ℕ → List String → List ProbeTarget → Type 0
Covers full ds out = All (λ d. mem d (hosts out) ≡ true) ds ⊎ (length out ≡ full)

Covers-cons :
    (full : ℕ) (d : String) (ds : List String) (out : List ProbeTarget)
    → Covers full ds out
    → mem d (hosts out) ≡ true
    → Covers full (d ∷ ds) out
Covers-cons full d ds out (inl p) m = inl (m, p)
Covers-cons full d ds out (inr q) m = inr q

append_loop-Covers :
    (limit full : ℕ) (ds seen : List String) (count : ℕ) (base : List ProbeTarget)
    → count ≤ limit
    → full + count ≡ length base + limit
    → Agrees seen base
    → Covers full ds (append_loop limit ds seen count base)
unfolding append_loop
append_loop-Covers limit full [] seen count base h r a = inl tt
append_loop-Covers limit full (d ∷ ds) seen count base h r a =
    let base' = base ++ (domain_target d ∷ []) in
    let again = append_loop limit ds seen count base in
    let more = append_loop limit ds (d ∷ seen) (suc count) base' in
    if_ind (Covers full (d ∷ ds)) (leb limit count) base (if mem d seen then again else more)
      (λ used. inr (ground arith))
      (λ room.
        if_ind (Covers full (d ∷ ds)) (mem d seen) again more
          (λ old.
            Covers-cons full d ds again (append_loop-Covers limit full ds seen count base h r a)
              (append_loop_keeps limit ds seen count base d (sym (a d) ∙ old)))
          (λ fresh.
            Covers-cons full d ds more
              (append_loop-Covers limit full ds (d ∷ seen) (suc count) base' (ground arith)
                (omega (arith, length-hosts_append base d)) (Agrees-more seen base d a))
              (append_loop_keeps limit ds (d ∷ seen) (suc count) base' d (hosts-append base d))))

append_loop-Subset :
    (limit : ℕ) (ds seen : List String) (count : ℕ) (base : List ProbeTarget)
    → Subset base (append_loop limit ds seen count base)
append_loop-Subset limit ds seen count base =
    Subset-of_In base _ (append_loop-In limit ds seen count base)

abbrev IsExtension : List ProbeTarget → List String → ℕ → List ProbeTarget → Type 0
IsExtension base domains limit out =
    Subset base out × (length out ≤ length base + limit) × Covers (length base + limit) domains out

none_asked :
    (base : List ProbeTarget) (domains : List String) (limit : ℕ)
    → (is_empty domains || limit == 0) ≡ true
    → Covers (length base + limit) domains base
none_asked base [] limit e = inl tt
none_asked base (d ∷ ds) limit e = inr (ground arith)

-- The result keeps every target that was there and adds at most `limit`; and each of the domains is
-- the host of a target in it, unless exactly `limit` targets were added.
pub append_domain_probe_targets_lem :
    (base : List ProbeTarget) (domains : List String) (limit : ℕ)
    → let out = append_domain_probe_targets base domains limit in
      Subset base out
      × (length out ≤ length base + limit)
      × (All (λ d. mem d (hosts out) ≡ true) domains ⊎ (length out ≡ length base + limit))
unfolding append_domain_probe_targets
append_domain_probe_targets_lem base domains limit =
    let out = append_loop limit domains (hosts base) 0 base in
    if_ind (IsExtension base domains limit) (is_empty domains || limit == 0) base out
      (λ e. (Subset_refl base, omega arith, none_asked base domains limit e))
      (λ e. (
        append_loop-Subset limit domains (hosts base) 0 base,
        omega (arith, append_loop_within limit domains (hosts base) 0 base (omega arith)),
        append_loop-Covers limit (length base + limit) domains (hosts base) 0 base (omega arith)
            (omega arith) (λ e. refl),
      ))
