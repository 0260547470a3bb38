-- ===== src/Config/Store/Laws.antt =====
-- What the rest of the daemon may rely on for a loaded configuration.
use dark_routev.Base.{
  All, All-cons_if, Bool, In, In-cons_if, List, Option, Option-cases, String, [], arith, eq_iff,
  false, if◌then◌else◌, inl, inr, is_some, none, refl, some, str_eq, true, ◌↔◌, ◌∷◌, ◌≡◌, ◌≢◌, ◌⊎◌,
}
use dark_routev.Config.{TunnelConfig, wire_guard, amnezia_wg, vless_protocol}
use dark_routev.Config.Store.{
  validate, ConfigFile, check_loaded, load_content, add_enabled, load_file, load_all,
}

-- The protocol is a known one, its block is there, and the ID is not empty.
pub record IsUsable (tc : TunnelConfig) : Type 0 where
  pub named : tc.id ≢ ""
  pub configured :
      ((tc.protocol ≡ wire_guard) × (is_some tc.wire_guard_config ≡ true))
      ⊎ ((tc.protocol ≡ amnezia_wg) × (is_some tc.amnezia_wg_config ≡ true))
      ⊎ ((tc.protocol ≡ vless_protocol) × (is_some tc.vless_config ≡ true))

-- A configuration passes validation exactly when it is usable.
pub validate-IsUsable : (tc : TunnelConfig) → (validate tc ≡ none) ↔ IsUsable tc
unfolding validate
validate-IsUsable tc = (λ h. ground (arith, eq_iff tc.id ""), λ u. ground (arith, eq_iff tc.id ""))

check_loaded-validate :
    (tc : TunnelConfig) {tc' : TunnelConfig} → check_loaded tc ≡ some tc' → validate tc' ≡ none
unfolding check_loaded
check_loaded-validate tc h = elim (Option-cases (validate tc)) [
  | inl e ↦ ground arith
  | inr (x, e) ↦ ground arith
]

load_content-IsUsable :
    (stem : String) (c : Option TunnelConfig) (tc : TunnelConfig)
    → load_content stem c ≡ some tc
    → IsUsable tc
unfolding load_content
load_content-IsUsable stem none tc h = cc
load_content-IsUsable stem (some t) tc h =
    (validate-IsUsable tc).0
      (check_loaded-validate (record t { id = if str_eq t.id "" then stem else t.id }) h)

load_file-IsUsable : (f : ConfigFile) (tc : TunnelConfig) → load_file f ≡ some tc → IsUsable tc
unfolding load_file
load_file-IsUsable f tc h = load_content-IsUsable f.stem f.content tc h

abbrev pub IsRunnable : TunnelConfig → Type 0
IsRunnable tc = IsUsable tc × (tc.enabled ≡ true)

add_enabled-All :
    (o : Option TunnelConfig) (rest : List TunnelConfig)
    → ((tc : TunnelConfig) → o ≡ some tc → IsUsable tc)
    → All IsRunnable rest
    → All IsRunnable (add_enabled o rest)
unfolding add_enabled
add_enabled-All none rest h r = r
add_enabled-All (some tc) rest h r =
    All-cons_if IsRunnable tc.enabled tc rest (λ e. (h tc refl, e)) r

-- Whatever the files hold, each configuration that LoadAll returns is usable and enabled.
pub load_all-IsUsable : (files : List ConfigFile) → All IsRunnable (load_all files)
unfolding load_all
load_all-IsUsable [] = tt
load_all-IsUsable (f ∷ files) =
    add_enabled-All (load_file f) (load_all files) (load_file-IsUsable f) (load_all-IsUsable files)

add_enabled-In :
    (o : Option TunnelConfig) (rest : List TunnelConfig) (tc : TunnelConfig)
    → In tc rest
    → In tc (add_enabled o rest)
unfolding add_enabled
add_enabled-In none rest tc i = i
add_enabled-In (some t) rest tc i = In-cons_if t.enabled tc t rest i

enabled-In :
    (tc : TunnelConfig) (rest : List TunnelConfig)
    → tc.enabled ≡ true
    → In tc (add_enabled (some tc) rest)
unfolding add_enabled
enabled-In tc rest e = go tc.enabled e
  where
    go : (b : Bool) → b ≡ true → In tc (if b then tc ∷ rest else rest)
    go true h = inl refl
    go false h = cc

-- A broken or disabled file hides no other: each file that loads to an enabled configuration is in
-- the result.
pub load_all_complete :
    (files : List ConfigFile) (f : ConfigFile) (tc : TunnelConfig)
    → In f files
    → load_file f ≡ some tc
    → tc.enabled ≡ true
    → In tc (load_all files)
unfolding load_all
load_all_complete [] f tc i l e = elim i [ ]
load_all_complete (g ∷ files) f tc (inl i) l e = rw (← i, l) (enabled-In tc (load_all files) e)
load_all_complete (g ∷ files) f tc (inr i) l e =
    add_enabled-In (load_file g) (load_all files) tc (load_all_complete files f tc i l e)
