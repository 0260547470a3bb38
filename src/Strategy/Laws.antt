-- ===== src/Strategy/Laws.antt =====
-- The laws of `append_unique`, on which the selections rest.
use dark_routev.Base.{
  All, All-append, Bool-cases, List, String, [], arith, eq_iff, false, inl, inr, mem, refl, str_eq,
  sym, ◌++◌, ◌||◌, ◌∙◌, ◌∷◌, ◌≡◌,
}
use dark_routev.Config.{TunnelConfig, ids}
use dark_routev.Strategy.{append_unseen, append_unique}

abbrev pub Distinct : List String → Type 0
Distinct [] = Unit
Distinct (x ∷ xs) = (mem x xs ≡ false) × Distinct xs

mem-ids_append :
    (dst : List TunnelConfig) (s : TunnelConfig) (x : String)
    → mem x (ids (dst ++ (s ∷ []))) ≡ (mem x (ids dst) || str_eq s.id x)
unfolding mem
mem-ids_append [] s x = ground arith
mem-ids_append (d ∷ dst) s x = ground (arith, mem-ids_append dst s x)

Distinct-append :
    (dst : List TunnelConfig) (s : TunnelConfig)
    → Distinct (ids dst)
    → mem s.id (ids dst) ≡ false
    → Distinct (ids (dst ++ (s ∷ [])))
unfolding mem
Distinct-append [] s d h = (refl, tt)
Distinct-append (x ∷ dst) s d h = (
  rw mem-ids_append (ground (arith, eq_iff s.id x.id, eq_iff x.id s.id)),
  Distinct-append dst s d.1 (ground arith),
)

-- The map `seen` holds the IDs of the slice.
abbrev Agrees : List String → List TunnelConfig → Type 0
Agrees seen dst = (x : String) → mem x seen ≡ mem x (ids dst)

Agrees-more :
    (seen : List String) (dst : List TunnelConfig) (s : TunnelConfig)
    → Agrees seen dst
    → Agrees (s.id ∷ seen) (dst ++ (s ∷ []))
unfolding mem
Agrees-more seen dst s h x = rw mem-ids_append (ground (arith, h x))

append_unseen-Distinct :
    (src dst : List TunnelConfig) (seen : List String)
    → Agrees seen dst
    → Distinct (ids dst)
    → Distinct (ids (append_unseen dst seen src))
unfolding append_unseen
append_unseen-Distinct [] dst seen a d = d
append_unseen-Distinct (s ∷ src) dst seen a d = elim (Bool-cases (mem s.id seen)) [
  | inl e ↦ rw e (append_unseen-Distinct src dst seen a d)
  | inr e ↦ rw e (
      append_unseen-Distinct src (dst ++ (s ∷ [])) (s.id ∷ seen) (Agrees-more seen dst s a)
        (Distinct-append dst s d (sym (a s.id) ∙ e)))
]

-- No two elements of the result have one ID, if no two of the destination do.
pub append_unique-Distinct :
    (dst src : List TunnelConfig) → Distinct (ids dst) → Distinct (ids (append_unique dst src))
unfolding append_unique
append_unique-Distinct dst src d = append_unseen-Distinct src dst (ids dst) (λ x. refl) d

mem-append_unseen :
    (src dst : List TunnelConfig) (seen : List String) (x : String)
    → Agrees seen dst
    → mem x (ids (append_unseen dst seen src)) ≡ (mem x (ids dst) || mem x (ids src))
unfolding append_unseen mem
mem-append_unseen [] dst seen x a = ground arith
mem-append_unseen (s ∷ src) dst seen x a = elim (Bool-cases (mem s.id seen)) [
  | inl e ↦ rw e (mem-append_unseen src dst seen x a ∙ ground (arith, a s.id, eq_iff s.id x))
  | inr e ↦ rw e (
      mem-append_unseen src (dst ++ (s ∷ [])) (s.id ∷ seen) x (Agrees-more seen dst s a)
      ∙ rw mem-ids_append (ground arith))
]

-- The IDs of the result are those of both slices.
pub mem-append_unique :
    (dst src : List TunnelConfig) (x : String)
    → mem x (ids (append_unique dst src)) ≡ (mem x (ids dst) || mem x (ids src))
unfolding append_unique
mem-append_unique dst src x = mem-append_unseen src dst (ids dst) x (λ y. refl)

module _ {κ} (P : TunnelConfig → Type κ) where
  append_unseen-All :
      (src dst : List TunnelConfig) (seen : List String)
      → All P dst
      → All P src
      → All P (append_unseen dst seen src)
  unfolding append_unseen
  append_unseen-All [] dst seen d s = d
  append_unseen-All (x ∷ src) dst seen d s = elim (Bool-cases (mem x.id seen)) [
    | inl e ↦ rw e (append_unseen-All src dst seen d s.1)
    | inr e ↦ rw e (
        append_unseen-All src (dst ++ (x ∷ [])) (x.id ∷ seen)
          (All-append P dst (x ∷ []) d (s.0, tt)) s.1)
  ]

  -- The result consists of elements of the two slices.
  pub append_unique-All :
      (dst src : List TunnelConfig) → All P dst → All P src → All P (append_unique dst src)
  unfolding append_unique
  append_unique-All dst src d s = append_unseen-All src dst (ids dst) d s
