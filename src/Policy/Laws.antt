-- ===== src/Policy/Laws.antt =====
-- daemon/internal/policy/policy.go: what Apply and Clear make of a firewall that obeys the documented
-- behaviour of ipset, iptables and nft. The firewall is seen by the entries of the destination set and
-- by the marks, as texts, of the rules that match it, in their order.
use dark_routev.Base.{
  Bool, List, String, [], arith, false, if◌then◌else◌, inl, inr, itoa, mem, none, refl, some,
  str_eq, subst, true, ℕ, ◌&&◌, ◌++◌, ◌||◌, ◌∷◌, ◌≡◌, ◌⊎◌,
}
use dark_routev.Shell.{Command, Shell, Outcome, run_ignored}
use dark_routev.Shell.Laws.{status_ind, and_then_ind}
use dark_routev.Policy.{
  Toolchain, create_set, flush_set, add_to_set, delete_rule, append_rule, add_table, add_chain,
  add_nft_set, flush_nft_set, flush_chain, delete_table, add_element, add_mark, run_each,
  apply_iptables,
}

-- The view of a firewall in the state K
pub record View (K : Type 0) : Type 0 where
  pub holds : K → String → Bool
  pub marks : K → List String

-- `iptables -D` removes the first rule that is equal.
abbrev pub remove_first : String → List String → List String
remove_first m [] = []
remove_first m (x ∷ xs) = let rest = remove_first m xs in if str_eq x m then xs else x ∷ rest

module _ {K : Type 0} (w : View K) where
  -- After the step, the entries and the marks are these functions of what they were.
  abbrev pub Changes : (String → Bool → Bool) → (List String → List String) → Bool × K → K → Type 0
  Changes entry rules (done, k') k =
      ((x : String) → w.holds k' x ≡ (if done then entry x (w.holds k x) else w.holds k x))
      × (w.marks k' ≡ (if done then rules (w.marks k) else w.marks k))

  -- A command that leaves both as they are.
  abbrev pub Keeps : Shell K → Command → Type 0
  Keeps sh c = (k : K) → Changes (λ _ b. b) (λ ms. ms) (sh c k) k

  -- A command that empties the set, that adds the entry for a text to it, and that changes the rules.
  abbrev pub Flushes : Shell K → Command → Type 0
  Flushes sh c = (k : K) → Changes (λ _ _. false) (λ ms. ms) (sh c k) k

  abbrev pub Inserts : Shell K → (String → Command) → (String → String) → Type 0
  Inserts sh c entry =
      (s : String) (k : K) → Changes (λ x b. str_eq (entry s) x || b) (λ ms. ms) (sh (c s) k) k

  abbrev pub Rules : Shell K → Command → (List String → List String) → Type 0
  Rules sh c rules = (k : K) → Changes (λ _ b. b) rules (sh c k) k

  -- What the manual pages of ipset and iptables say of the commands that succeed; one that fails changes
  -- nothing, so no text need be accepted. `network` is the entry of a hash:net set for a text, with the
  -- bits outside the prefix cleared.
  pub record ObeysIpset (network : String → String) (sh : Shell K) (tc : Toolchain) : Type 0 where
    pub creates : Keeps sh (create_set tc)
    pub flushes : Flushes sh (flush_set tc)
    pub inserts : Inserts sh (add_to_set tc) network
    pub deletes : (m : ℕ) → Rules sh (delete_rule tc m) (remove_first (itoa m))
    pub appends : (m : ℕ) → Rules sh (append_rule tc m) (λ ms. ms ++ (itoa m ∷ []))

  -- What the manual page of nft says of the commands that succeed; one that fails, as for an interval
  -- that overlaps another or a set that is missing, changes nothing.
  pub record ObeysNft (sh : Shell K) (tc : Toolchain) : Type 0 where
    pub makes_table : Keeps sh (add_table tc)
    pub makes_chain : Keeps sh (add_chain tc)
    pub makes_set : Keeps sh (add_nft_set tc)
    pub flushes : Flushes sh (flush_nft_set tc)
    pub inserts : Inserts sh (add_element tc) (λ s. s)
    pub flushes_chain : Rules sh (flush_chain tc) (λ _. [])
    pub appends : (m : ℕ) → Rules sh (add_mark tc m) (λ ms. ms ++ (itoa m ∷ []))
    pub drops : (k : K) → Changes (λ _ _. false) (λ _. []) (sh (delete_table tc) k) k

  module _ (sh : Shell K) where
    -- The entries of those texts whose command succeeds, when the commands run one after the other
    abbrev pub taken : (String → Command) → (String → String) → List String → K → List String
    taken c entry [] k = []
    taken c entry (s ∷ ss) k =
        let rest = taken c entry ss (run_ignored sh (c s) k) in
        if (sh (c s) k).0 then entry s ∷ rest else rest

    taken_one :
        (c : String → Command) (entry : String → String) (s x : String) (ss : List String) (k : K)
        → mem x (taken c entry (s ∷ ss) k) ≡ (
            ((sh (c s) k).0 && str_eq (entry s) x)
            || mem x (taken c entry ss (run_ignored sh (c s) k)))
    unfolding mem
    taken_one c entry s x ss k = ground arith

    -- The loop over the selectors adds those that are taken, and changes no rule.
    run_each-Inserts :
        (c : String → Command) (entry : String → String) (h : Inserts sh c entry) (ss : List String)
        (k : K)
        → ((x : String)
            → w.holds (run_each sh c ss k) x ≡ (w.holds k x || mem x (taken c entry ss k)))
          × (w.marks (run_each sh c ss k) ≡ w.marks k)
    unfolding mem
    run_each-Inserts c entry h [] k = ((λ x. ground arith), refl)
    run_each-Inserts c entry h (s ∷ ss) k =
        let (entries, rules) = h s k in
        let (later, kept) = run_each-Inserts c entry h ss (run_ignored sh (c s) k) in
        (
          (λ x. ground (arith, later x, entries x, taken_one c entry s x ss k)),
          ground (arith, kept, rules),
        )

    -- The set holds what is taken of the selectors from a state in which it is empty.
    abbrev pub Filled : (String → Command) → (String → String) → List String → K → Type 0
    Filled c entry ss k' =
        (start : K) × ((x : String) → w.holds start x ≡ false)
        × ((x : String) → w.holds k' x ≡ mem x (taken c entry ss start))

    -- How an Apply of selectors with nft may end
    abbrev pub NftPromise : Toolchain → List String → ℕ → K → Outcome K → Type 0
    NftPromise tc ss m k (none, k') =
        Filled (add_element tc) (λ s. s) ss k' × (w.marks k' ≡ itoa m ∷ [])
    NftPromise tc ss m k (some c, k') =
        ((c ≡ flush_nft_set tc)
          × ((x : String) → w.holds k' x ≡ w.holds k x)
          × (w.marks k' ≡ w.marks k))
        ⊎ ((c ≡ flush_chain tc) × (w.marks k' ≡ w.marks k))
        ⊎ ((c ≡ add_mark tc m) × (w.marks k' ≡ []))

    -- The rules of before, with the mark's first one or without
    abbrev pub Unmarked : ℕ → K → List String → Type 0
    Unmarked m k ms = (ms ≡ w.marks k) ⊎ (ms ≡ remove_first (itoa m) (w.marks k))

    -- How an Apply of selectors with iptables may end
    abbrev pub IptablesPromise :
        (String → String) → Toolchain → List String → ℕ → K → Outcome K → Type 0
    IptablesPromise network tc ss m k (none, k') =
        Filled (add_to_set tc) network ss k'
        × ((ms : List String) × Unmarked m k ms × (w.marks k' ≡ ms ++ (itoa m ∷ [])))
    IptablesPromise network tc ss m k (some c, k') =
        ((c ≡ create_set tc)
          × ((x : String) → w.holds k' x ≡ w.holds k x)
          × (w.marks k' ≡ w.marks k))
        ⊎ ((c ≡ flush_set tc)
            × ((x : String) → w.holds k' x ≡ w.holds k x)
            × (w.marks k' ≡ w.marks k))
        ⊎ ((c ≡ append_rule tc m) × Unmarked m k (w.marks k'))

    unmarked :
        (m : ℕ) (k : K) (b : Bool) (ms : List String)
        → ms ≡ (if b then remove_first (itoa m) (w.marks k) else w.marks k)
        → Unmarked m k ms
    unmarked m k true ms e = inr e
    unmarked m k false ms e = inl e

    -- With iptables, an Apply of selectors that succeeds leaves in the set exactly the networks of those
    -- whose addition succeeded, each run after the one before and the first on an empty set, and the rule
    -- of the mark behind the old rules, of which at most its own first copy is gone. If the set cannot be
    -- created or emptied, set and rules are the old ones; if the rule cannot be appended, the rules are
    -- the old ones but for that copy. No other error is returned.
    pub apply_iptables-IptablesPromise :
        (network : String → String) (tc : Toolchain) (h : ObeysIpset network sh tc)
        (ss : List String) (m : ℕ) (k : K)
        → IptablesPromise network tc ss m k (apply_iptables sh tc ss m k)
    unfolding apply_iptables
    apply_iptables-IptablesPromise network tc h ss m k =
        let P = IptablesPromise network tc ss m k in
        let (e₁, m₁) = h.creates k in
        and_then_ind P sh (create_set tc) k _
          (λ f. inl (refl, (λ x. ground (arith, e₁ x)), ground (arith, m₁)))
          (λ t₁.
            let k₁ = run_ignored sh (create_set tc) k in
            let (e₂, m₂) = h.flushes k₁ in
            and_then_ind P sh (flush_set tc) k₁ _
              (λ f. inr (inl (refl, (λ x. ground (arith, e₁ x, e₂ x)), ground (arith, m₁, m₂))))
              (λ t₂.
                let k₂ = run_ignored sh (flush_set tc) k₁ in
                let k₃ = run_each sh (add_to_set tc) ss k₂ in
                let (e₃, m₃) = run_each-Inserts (add_to_set tc) network h.inserts ss k₂ in
                let (e₄, m₄) = h.deletes m k₃ in
                let k₄ = run_ignored sh (delete_rule tc m) k₃ in
                let (e₅, m₅) = h.appends m k₄ in
                let old : w.marks k₃ ≡ w.marks k = ground (arith, m₁, m₂, m₃) in
                let left : Unmarked m k (w.marks k₄) =
                  unmarked m k (sh (delete_rule tc m) k₃).0 (w.marks k₄)
                    (ground (arith, m₄, old)) in
                status_ind P (append_rule tc m) (sh (append_rule tc m) k₄)
                  (λ f. inr (inr (refl, subst (Unmarked m k) (ground (arith, m₅, f)) left)))
                  (λ t₅. (
                    (
                      k₂,
                      (λ x. ground (arith, e₂ x)),
                      (λ x. ground (arith, e₂ x, e₃ x, e₄ x, e₅ x)),
                    ),
                    (w.marks k₄, left, ground (arith, m₅, t₅)),
                  ))))
