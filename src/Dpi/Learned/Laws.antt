-- ===== src/Dpi/Learned/Laws.antt =====
-- What is learned is found again, in this process and after a restart.
use Prim.Native.String.{len, slice}
use text.Mathlib.TextPositions.{slice-append_left, slice-append_right, len-append}
use text.Mathlib.TextLemmas.{append_assoc}
use dark_routev.Base.{
  In, In-keep, List, Option, String, [], ap, arith, eq_iff, eq_refl, if_ind, inl, inr, ltb, lt→ltb,
  none, refl, some, suc, sym, true, ℕ, ◌<>◌, ◌<◌, ◌∙◌, ◌∷◌, ◌≡◌, ◌⊎◌,
}
use dark_routev.Base.Dict.{lookup, insert, values, In-values-insert}
use dark_routev.Config.{Protocol, wire_guard, other_protocol, TunnelConfig}
use dark_routev.Dpi.Variants.Derived.{IsVariantOf}
use dark_routev.Dpi.Learned.{
  LearnedEntry, LearnedDb, extract_variant_suffix, new_entry, capture, entry_or_new, record_success,
  rebuild_copy, rebuild_for, rebuild_variant, insert_by_count, sort_by_count, matches, add_some,
  rebuild_all, get_candidates,
}

extract_append :
    (base s : String) → 0 < len s → extract_variant_suffix ((base <> ":") <> s) base ≡ s
unfolding extract_variant_suffix
extract_append base s h =
    rw (longer, slice-append_left, eq_refl)
      (ap (slice ((base <> ":") <> s) (len (base <> ":"))) (len-append (base <> ":") s)
        ∙ slice-append_right (base <> ":") s)
  where
    longer : ltb (len (base <> ":")) (len ((base <> ":") <> s)) ≡ true
    longer = rw (len-append (base <> ":") s) (lt→ltb _ _ (omega arith))

variant_id : (base s : String) → base <> (":dpi:" <> s) ≡ (base <> ":") <> ("dpi:" <> s)
variant_id base s =
    ap (◌<>◌ base) (append_assoc ":" "dpi:" s) ∙ sym (append_assoc base ":" ("dpi:" <> s))

len-suffix : (s : String) → 0 < len ("dpi:" <> s)
len-suffix s = rw (len-append "dpi:" s) (omega arith)

-- The suffix of a variant's ID is what follows the base ID and a colon, and with both the ID is
-- built again.
pub extract_variant_suffix_lem :
    (base v : TunnelConfig)
    → IsVariantOf base v
    → base.id <> (":" <> extract_variant_suffix v.id base.id) ≡ v.id
extract_variant_suffix_lem base v d =
    rw
      (
        d.named,
        variant_id base.id d.suffix,
        extract_append base.id ("dpi:" <> d.suffix) (len-suffix d.suffix),
      )
      (sym (append_assoc base.id ":" ("dpi:" <> d.suffix)))

In-insert_by_count :
    (e f : LearnedEntry) (es : List LearnedEntry) → (e ≡ f) ⊎ In e es → In e (insert_by_count f es)
unfolding insert_by_count
In-insert_by_count e f [] h = h
In-insert_by_count e f (g ∷ es) h =
    if_ind (In e) (ltb f.success_count g.success_count) _ _
      (λ t. later h (λ x. In-insert_by_count e f es x)) (λ t. h)
  where
    later :
        (e ≡ f) ⊎ In e (g ∷ es)
        → ((e ≡ f) ⊎ In e es → In e (insert_by_count f es))
        → In e (g ∷ insert_by_count f es)
    later (inl p) ih = inr (ih (inl p))
    later (inr (inl p)) ih = inl p
    later (inr (inr p)) ih = inr (ih (inr p))

In-sort_by_count : (e : LearnedEntry) (es : List LearnedEntry) → In e es → In e (sort_by_count es)
unfolding sort_by_count
In-sort_by_count e [] i = i
In-sort_by_count e (f ∷ es) (inl p) = In-insert_by_count e f (sort_by_count es) (inl p)
In-sort_by_count e (f ∷ es) (inr p) =
    In-insert_by_count e f (sort_by_count es) (inr (In-sort_by_count e es p))

In-add_some :
    (t : TunnelConfig) (o : Option TunnelConfig) (rest : List TunnelConfig)
    → In t rest
    → In t (add_some o rest)
unfolding add_some
In-add_some t none rest i = i
In-add_some t (some u) rest i = inr i

In-rebuild_all :
    (base t : TunnelConfig) (e : LearnedEntry) (es : List LearnedEntry)
    → rebuild_variant base e ≡ some t
    → In e es
    → In t (rebuild_all base es)
unfolding rebuild_all
In-rebuild_all base t e [] r i = i
In-rebuild_all base t e (f ∷ es) r (inl p) = rw (← p, r) (inl refl)
In-rebuild_all base t e (f ∷ es) r (inr p) =
    In-add_some t (rebuild_variant base f) (rebuild_all base es) (In-rebuild_all base t e es r p)

-- An entry that is there under the variant's ID is one of the same base and suffix.
abbrev pub Fits : TunnelConfig → LearnedDb → Type 0
Fits v db =
    (e : LearnedEntry)
    → lookup v.id db ≡ some e
    → (e.base_config_id ≡ v.base_config_id)
      × (e.variant_suffix ≡ extract_variant_suffix v.id v.base_config_id)

abbrev pub IsKnown : Protocol → Type 0
IsKnown (other_protocol p) = ⊥
IsKnown _ = Unit

-- The entry that RecordSuccess writes.
abbrev pub written : TunnelConfig → ℕ → LearnedDb → LearnedEntry
written v now db = capture v now (entry_or_new v (lookup v.id db))

pub written_entry :
    (v : TunnelConfig) (now : ℕ) (e : LearnedEntry)
    → ((capture v now e).base_config_id ≡ e.base_config_id)
      × ((capture v now e).variant_suffix ≡ e.variant_suffix)
      × ((capture v now e).success_count ≡ suc e.success_count)
unfolding capture
written_entry v now e = ground arith

pub entry_Fits :
    (v : TunnelConfig) (o : Option LearnedEntry)
    → ((e : LearnedEntry)
        → o ≡ some e
        → (e.base_config_id ≡ v.base_config_id)
          × (e.variant_suffix ≡ extract_variant_suffix v.id v.base_config_id))
    → ((entry_or_new v o).base_config_id ≡ v.base_config_id)
      × ((entry_or_new v o).variant_suffix ≡ extract_variant_suffix v.id v.base_config_id)
unfolding entry_or_new new_entry
entry_Fits v none h = (refl, refl)
entry_Fits v (some e) h = h e refl

rebuild_known :
    (p : Protocol) (base : TunnelConfig) (e : LearnedEntry)
    → IsKnown p
    → rebuild_for p base e ≡ some (rebuild_copy base e)
unfolding rebuild_for
rebuild_known (other_protocol p) base e k = absurd k
rebuild_known wire_guard base e k = refl
rebuild_known _ base e k = refl

matches_lem :
    (base_id : String) (e : LearnedEntry) {n : ℕ}
    → e.base_config_id ≡ base_id
    → e.success_count ≡ suc n
    → matches base_id e ≡ true
unfolding matches
matches_lem base_id e b c = ground (arith, eq_iff e.base_config_id base_id)

rebuild_copy-id :
    (base v : TunnelConfig) (now : ℕ) (db : LearnedDb)
    → IsVariantOf base v
    → Fits v db
    → ((written v now db).base_config_id ≡ base.id)
      × ((rebuild_copy base (written v now db)).id ≡ v.id)
unfolding rebuild_copy
rebuild_copy-id base v now db d f =
    let e = entry_or_new v (lookup v.id db) in
    let (b, x, n) = written_entry v now e in
    let (b', x') = entry_Fits v (lookup v.id db) f in
    let same : (written v now db).base_config_id ≡ base.id = b ∙ (b' ∙ d.based) in
    (same, rw (same, x, x', d.based) (extract_variant_suffix_lem base v d))

-- After a variant of `base` was recorded as working, the candidates for `base` contain a
-- configuration with its ID, if the protocol of `base` is a known one and an earlier entry under
-- that ID is one for the same variant.
pub get_candidates-record_success :
    (base v : TunnelConfig) (now : ℕ) (db : LearnedDb)
    → IsVariantOf base v
    → IsKnown base.protocol
    → Fits v db
    → (t : TunnelConfig) × In t (get_candidates base.id base (record_success v now db))
      × (t.id ≡ v.id)
unfolding get_candidates record_success rebuild_variant
get_candidates-record_success base v now db d k f =
    let e = written v now db in
    let (same, id) = rebuild_copy-id base v now db d f in
    (
      rebuild_copy base e,
      rw d.marked (
          In-rebuild_all base (rebuild_copy base e) e _ (rebuild_known base.protocol base e k) (
            In-sort_by_count e _ (
              In-keep (matches base.id) e (values (insert v.id e db)) (In-values-insert v.id e db) (
                matches_lem base.id e same
                  (written_entry v now (entry_or_new v (lookup v.id db))).2)))),
      id,
    )
