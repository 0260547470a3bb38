-- ===== src/Strategy/Selection.antt =====
-- What SelectVariants promises on every profile.
use dark_routev.Base.{
  All, All-append, All-keep, All-take, In, List, String, Subset, Subset_refl, [], contains, false,
  if_ind, if◌then◌else◌, is_empty, keep, leb, length, ltb, not, str_eq, take, true, ℕ, ◌&&◌, ◌==◌,
  ◌||◌, ◌∷◌,
}
use dark_routev.Config.{TunnelConfig}
use dark_routev.Dpi.{BlockType, is_block_protocol}
use dark_routev.Strategy.{
  match_by_pattern, append_unique, cap_variants, patterns_for_reason, append_matches, append_head,
  compat_fallback, compat_select, fill_balanced, balanced_select, fill_aggressive,
  aggressive_select, select_by, select_variants,
}
use dark_routev.Strategy.Laws.{append_unique-All}

-- A property of configurations that every variant has.
module _ (P : TunnelConfig → Type 0) (variants : List TunnelConfig) (every : All P variants) where
  pub match_by_pattern-All : (p : String) → All P (match_by_pattern variants p)
  unfolding match_by_pattern
  match_by_pattern-All p =
      if_ind (All P) (str_eq p "") [] (keep (λ (v : TunnelConfig). contains v.id p) variants)
        (λ e. tt) (λ e. All-keep P (λ (v : TunnelConfig). contains v.id p) variants every)

  append_matches-All :
      (ps : List String) (out : List TunnelConfig)
      → All P out
      → All P (append_matches variants ps out)
  unfolding append_matches
  append_matches-All [] out h = h
  append_matches-All (p ∷ ps) out h =
      append_matches-All ps _ (append_unique-All P out _ h (match_by_pattern-All p))

  append_head-All :
      (vs : List TunnelConfig) (out : List TunnelConfig)
      → All P vs
      → All P out
      → All P (append_head out vs)
  unfolding append_head
  append_head-All [] out a h = h
  append_head-All (v ∷ vs) out a h = All-append P out (v ∷ []) h (a.0, tt)

  compat_fallback-All : (out : List TunnelConfig) → All P out → All P (compat_fallback variants out)
  unfolding compat_fallback
  compat_fallback-All out h =
      if_ind (All P) (is_empty out) _ out
        (λ e.
          append_unique-All P _ _ (append_unique-All P out _ h (match_by_pattern-All ":dpi:mtu"))
            (match_by_pattern-All ":dpi:awg:mild"))
        (λ e. h)

  cap_variants-All : (out : List TunnelConfig) (n : ℕ) → All P out → All P (cap_variants out n)
  unfolding cap_variants
  cap_variants-All out n h =
      if_ind (All P) (n == 0 || leb (length out) n) out (take n out) (λ e. h)
        (λ e. All-take P n out h)

  fill_balanced-All :
      (hint : BlockType) (vs out : List TunnelConfig)
      → All P vs
      → All P out
      → All P (fill_balanced hint vs out)
  unfolding fill_balanced
  fill_balanced-All hint [] out a h = h
  fill_balanced-All hint (v ∷ vs) out a h = fill_balanced-All hint vs _ a.1 (
      if_ind (All P) (contains v.id ":dpi:awg:aggressive" && not (is_block_protocol hint)) out
        (append_unique out (v ∷ [])) (λ e. h) (λ e. append_unique-All P out (v ∷ []) h (a.0, tt)))

  fill_aggressive-All :
      (vs out : List TunnelConfig) → All P vs → All P out → All P (fill_aggressive vs out)
  unfolding fill_aggressive
  fill_aggressive-All [] out a h = h
  fill_aggressive-All (v ∷ vs) out a h =
      fill_aggressive-All vs _ a.1 (append_unique-All P out (v ∷ []) h (a.0, tt))

  compat_select-All :
      (reason : String) (hint : BlockType) → All P (compat_select reason hint variants)
  unfolding compat_select
  compat_select-All reason hint =
      let out = append_matches variants (patterns_for_reason reason hint true) [] in
      let out' = compat_fallback variants out in
      let h =
        compat_fallback-All out (append_matches-All (patterns_for_reason reason hint true) [] tt) in
      cap_variants-All _ 3 (
        if_ind (All P) (is_empty out') (append_head out' variants) out'
          (λ e. append_head-All variants out' every h) (λ e. h))

  select_by-All :
      (profile reason : String) (hint : BlockType) → All P (select_by profile reason hint variants)
  unfolding select_by balanced_select aggressive_select
  select_by-All profile reason hint =
      let matched = append_matches-All (patterns_for_reason reason hint false) [] tt in
      if_ind (All P) (str_eq profile "compat") _ _ (λ e. compat_select-All reason hint)
        (λ e.
          if_ind (All P) (str_eq profile "aggressive") _ _
            (λ f. fill_aggressive-All variants _ every matched)
            (λ f. cap_variants-All _ 6 (fill_balanced-All hint variants _ every matched)))

select_variants-All :
    (P : TunnelConfig → Type 0) (profile reason : String) (hint : BlockType) (confidence : ℕ)
    (variants : List TunnelConfig)
    → All P variants
    → All P (select_variants profile reason hint confidence variants)
unfolding select_variants
select_variants-All P profile reason hint confidence [] h = tt
select_variants-All P profile reason hint confidence (v ∷ vs) h =
    if_ind (All P) (ltb confidence 40) _ _
      (λ e. select_by-All P (v ∷ vs) h "compat" "low_confidence" hint)
      (λ e.
        select_by-All P (v ∷ vs) h (if str_eq profile "" then "balanced" else profile) reason hint)

-- The selection only picks and orders: every element is one of the generated variants.
pub select_variants-Subset :
    (profile reason : String) (hint : BlockType) (confidence : ℕ) (variants : List TunnelConfig)
    → Subset (select_variants profile reason hint confidence variants) variants
select_variants-Subset profile reason hint confidence variants =
    select_variants-All (λ v. In v variants) profile reason hint confidence variants
      (Subset_refl variants)
