-- ===== src/Policy/Manager.antt =====
-- daemon/internal/policy/policy.go, `Manager.Apply` as a whole, where nft is found: from the entries of
-- the configuration to the firewall.
use dark_routev.Base.{
  List, String, [], false, itoa, mem, none, refl, some, str_eq, ℕ, ◌∷◌, ◌≡◌, ◌⊎◌,
}
use dark_routev.Shell.{Shell, Outcome}
use dark_routev.Policy.{
  Toolchain, LookPath, backend_nft, detect_toolchain, first_available, delete_table, add_element,
}
use dark_routev.Policy.Laws.{View, Filled}

-- The toolchain that is detected where nft is found
abbrev pub nft_toolchain : String → Toolchain
nft_toolchain path = record { backend = backend_nft; nft = path; ipset = ""; iptables = "" }

module _ {K : Type 0} (w : View K) (sh : Shell K) where
  -- The set and the rules are gone, or the deletion of the table fails and changes nothing.
  abbrev pub IsCleared : String → K → K → Type 0
  IsCleared path k k' =
      (((x : String) → w.holds k' x ≡ false) × (w.marks k' ≡ []))
      ⊎ (((sh (delete_table (nft_toolchain path)) k).0 ≡ false)
          × ((x : String) → w.holds k' x ≡ w.holds k x)
          × (w.marks k' ≡ w.marks k))

  -- What a success means for the texts that are asked for, whatever the firewall was before
  abbrev pub IsEnforced : String → List String → ℕ → K → Outcome K → Type 0
  IsEnforced path xs m k (some c, k') = Unit {0}
  IsEnforced path [] m k (none, k') = IsCleared path k k'
  IsEnforced path (x₁ ∷ xs) m k (none, k') =
      (selectors : List String) × ((x : String) → mem x selectors ≡ mem x (x₁ ∷ xs))
      × Filled w sh (add_element (nft_toolchain path)) (λ s. s) selectors k'
      × (w.marks k' ≡ itoa m ∷ [])

module _ {K : Type 0} (w : View K) (sh : Shell K) where
  first_nft :
      (look : LookPath)
      → str_eq (look "nft") "" ≡ false
      → first_available look ("nft" ∷ []) ≡ look "nft"
  unfolding first_available
  first_nft look found = rw found refl

  detected :
      (look : LookPath)
      → str_eq (look "nft") "" ≡ false
      → detect_toolchain look ≡ nft_toolchain (look "nft")
  unfolding detect_toolchain
  detected look found = rw (first_nft look found, found) refl
