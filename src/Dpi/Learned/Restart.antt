-- ===== src/Dpi/Learned/Restart.antt =====
-- A restart reads back what was saved.
use mathlib.Core.List.{append_assoc, append-nil}
use dark_routev.Base.{
  List, Option, String, [], ap, arith, eq_iff, false, if_ind, none, refl, some, str_eq, sym, ℕ,
  ◌++◌, ◌<>◌, ◌∙◌, ◌∷◌, ◌≡◌,
}
use dark_routev.Base.Dict.{lookup, insert, values, lookup-insert, insert_new}
use dark_routev.Config.{TunnelConfig}
use dark_routev.Dpi.Variants.Derived.{IsVariantOf}
use dark_routev.Dpi.Learned.{
  LearnedEntry, LearnedDb, entry_or_new, record_success, load_entries, load, save,
}
use dark_routev.Dpi.Learned.Laws.{
  extract_variant_suffix_lem, Fits, written, written_entry, entry_Fits,
}

-- The key under which loadFrom files an entry.
abbrev pub key_of : LearnedEntry → String
key_of e = e.base_config_id <> (":" <> e.variant_suffix)

-- Every entry stands under its own key, and no key stands twice.
abbrev pub IsKeyed : LearnedDb → Type 0
IsKeyed [] = Unit
IsKeyed ((k, e) ∷ m) = (k ≡ key_of e) × (lookup k m ≡ none) × IsKeyed m

-- No key of the second map is bound in the first.
abbrev Apart : LearnedDb → LearnedDb → Type 0
Apart acc [] = Unit
Apart acc ((k, e) ∷ m) = (lookup k acc ≡ none) × Apart acc m

lookup-append_none :
    (k j : String) (e : LearnedEntry) (acc : LearnedDb)
    → lookup k acc ≡ none
    → str_eq j k ≡ false
    → lookup k (acc ++ ((j, e) ∷ [])) ≡ none
unfolding lookup
lookup-append_none k j e [] h n = rw n
lookup-append_none k j e ((i, f) ∷ acc) h n = ground (arith, lookup-append_none k j e acc)

Apart-append :
    (acc : LearnedDb) (k : String) (e : LearnedEntry) (m : LearnedDb)
    → Apart acc m
    → lookup k m ≡ none
    → Apart (acc ++ ((k, e) ∷ [])) m
unfolding lookup
Apart-append acc k e [] a h = tt
Apart-append acc k e ((j, f) ∷ m) a h = (
  lookup-append_none j k e acc a.0 (ground (arith, eq_iff j k, eq_iff k j)),
  Apart-append acc k e m a.1 (ground arith),
)

load_entries-values :
    (m acc : LearnedDb) → IsKeyed m → Apart acc m → load_entries (values m) acc ≡ acc ++ m
unfolding load_entries
load_entries-values [] acc h a = sym (append-nil acc)
load_entries-values ((k, e) ∷ m) acc (own, new, rest) (fresh, apart) =
    ap (load_entries (values m)) (rw (← own) (insert_new k e acc fresh))
    ∙ (load_entries-values m (acc ++ ((k, e) ∷ [])) rest (Apart-append acc k e m apart new)
        ∙ append_assoc acc ((k, e) ∷ []) m)

Apart-nil : (m : LearnedDb) → Apart [] m
unfolding lookup
Apart-nil [] = tt
Apart-nil ((k, e) ∷ m) = (refl, Apart-nil m)

-- Round trip: loading the saved list, whichever of the two files is read, gives the same map, if
-- every entry stands under its own key and no key stands twice.
pub load-save :
    (db : LearnedDb) (runtime : Option (List LearnedEntry))
    → IsKeyed db
    → (load (some (save db)) runtime ≡ db) × (load none (some (save db)) ≡ db)
unfolding load save
load-save db runtime h =
    (load_entries-values db [] h (Apart-nil db), load_entries-values db [] h (Apart-nil db))

lookup-insert_other :
    (j k : String) (e : LearnedEntry) (m : LearnedDb)
    → str_eq j k ≡ false
    → lookup k m ≡ none
    → lookup k (insert j e m) ≡ none
lookup-insert_other j k e m n h = rw (← lookup-insert j k e m, n) h

insert-IsKeyed :
    (k : String) (e : LearnedEntry) (m : LearnedDb)
    → k ≡ key_of e
    → IsKeyed m
    → IsKeyed (insert k e m)
unfolding insert
insert-IsKeyed k e [] own h = (own, unfold lookup in refl, tt)
insert-IsKeyed k e ((j, f) ∷ m) own h =
    if_ind IsKeyed (str_eq j k) ((k, e) ∷ m) ((j, f) ∷ insert k e m)
      (λ same. (own, rw (← (eq_iff j k).0 same) h.1, h.2))
      (λ other. (
        h.0,
        lookup-insert_other k j e m (ground (arith, eq_iff j k, eq_iff k j)) h.1,
        insert-IsKeyed k e m own h.2,
      ))

-- Recording a success of a variant of some base keeps the map in that form, if an earlier entry
-- under its ID is one for the same variant.
pub record_success-IsKeyed :
    (base v : TunnelConfig) (now : ℕ) (db : LearnedDb)
    → IsVariantOf base v
    → Fits v db
    → IsKeyed db
    → IsKeyed (record_success v now db)
unfolding record_success
record_success-IsKeyed base v now db d f h =
    let e = entry_or_new v (lookup v.id db) in
    let (b, x, n) = written_entry v now e in
    let (b', x') = entry_Fits v (lookup v.id db) f in
    rw d.marked (
      insert-IsKeyed v.id (written v now db) db
        (rw (b, x, b', x', d.based) (sym (extract_variant_suffix_lem base v d))) h)
