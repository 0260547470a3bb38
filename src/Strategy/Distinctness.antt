-- ===== src/Strategy/Distinctness.antt =====
-- SelectVariants offers no configuration ID twice, and keeps to the size of its profile.
use dark_routev.Base.{
  List, String, [], arith, contains, eq_iff, false, if_ind, if◌then◌else◌, inl, inr, is_empty, leb,
  length, length-take, ltb, mem, not, refl, str_eq, suc, take, true, zero, ℕ, ◌&&◌, ◌<◌, ◌==◌, ◌||◌,
  ◌∷◌, ◌≡◌, ◌≢◌, ◌≤◌, ◌⊎◌,
}
use dark_routev.Config.{TunnelConfig, ids}
use dark_routev.Dpi.{BlockType, is_block_protocol}
use dark_routev.Strategy.{
  append_unique, cap_variants, patterns_for_reason, append_matches, append_head, compat_fallback,
  compat_select, fill_balanced, balanced_select, fill_aggressive, aggressive_select, select_by,
  select_variants,
}
use dark_routev.Strategy.Laws.{Distinct, append_unique-Distinct}

abbrev IsDistinct : List TunnelConfig → Type 0
IsDistinct vs = Distinct (ids vs)

mem-ids-take :
    (n : ℕ) (vs : List TunnelConfig) (x : String)
    → mem x (ids vs) ≡ false
    → mem x (ids (take n vs)) ≡ false
unfolding mem
mem-ids-take zero vs x h = refl
mem-ids-take (suc n) [] x h = refl
mem-ids-take (suc n) (v ∷ vs) x h = ground (arith, mem-ids-take n vs x)

take-IsDistinct : (n : ℕ) (vs : List TunnelConfig) → IsDistinct vs → IsDistinct (take n vs)
take-IsDistinct zero vs h = tt
take-IsDistinct (suc n) [] h = tt
take-IsDistinct (suc n) (v ∷ vs) h = (mem-ids-take n vs v.id h.0, take-IsDistinct n vs h.1)

cap_variants-IsDistinct :
    (vs : List TunnelConfig) (n : ℕ) → IsDistinct vs → IsDistinct (cap_variants vs n)
unfolding cap_variants
cap_variants-IsDistinct vs n h =
    if_ind IsDistinct (n == 0 || leb (length vs) n) vs (take n vs) (λ e. h)
      (λ e. take-IsDistinct n vs h)

append_matches-IsDistinct :
    (variants : List TunnelConfig) (ps : List String) (out : List TunnelConfig)
    → IsDistinct out
    → IsDistinct (append_matches variants ps out)
unfolding append_matches
append_matches-IsDistinct variants [] out h = h
append_matches-IsDistinct variants (p ∷ ps) out h =
    append_matches-IsDistinct variants ps _ (append_unique-Distinct out _ h)

fill_balanced-IsDistinct :
    (hint : BlockType) (vs out : List TunnelConfig)
    → IsDistinct out
    → IsDistinct (fill_balanced hint vs out)
unfolding fill_balanced
fill_balanced-IsDistinct hint [] out h = h
fill_balanced-IsDistinct hint (v ∷ vs) out h = fill_balanced-IsDistinct hint vs _ (
    if_ind IsDistinct (contains v.id ":dpi:awg:aggressive" && not (is_block_protocol hint)) out
      (append_unique out (v ∷ [])) (λ e. h) (λ e. append_unique-Distinct out (v ∷ []) h))

fill_aggressive-IsDistinct :
    (vs out : List TunnelConfig) → IsDistinct out → IsDistinct (fill_aggressive vs out)
unfolding fill_aggressive
fill_aggressive-IsDistinct [] out h = h
fill_aggressive-IsDistinct (v ∷ vs) out h =
    fill_aggressive-IsDistinct vs _ (append_unique-Distinct out (v ∷ []) h)

append_head-IsDistinct :
    (out vs : List TunnelConfig) → is_empty out ≡ true → IsDistinct (append_head out vs)
unfolding append_head mem
append_head-IsDistinct [] [] h = tt
append_head-IsDistinct [] (v ∷ vs) h = (refl, tt)
append_head-IsDistinct (o ∷ out) vs h = cc

compat_select-IsDistinct :
    (reason : String) (hint : BlockType) (variants : List TunnelConfig)
    → IsDistinct (compat_select reason hint variants)
unfolding compat_select compat_fallback
compat_select-IsDistinct reason hint variants =
    let out = append_matches variants (patterns_for_reason reason hint true) [] in
    let d = append_matches-IsDistinct variants (patterns_for_reason reason hint true) [] tt in
    let out' = compat_fallback variants out in
    let d' =
      if_ind IsDistinct (is_empty out) _ out
        (λ e. append_unique-Distinct _ _ (append_unique-Distinct out _ d)) (λ e. d) in
    cap_variants-IsDistinct _ 3 (
      if_ind IsDistinct (is_empty out') (append_head out' variants) out'
        (λ e. append_head-IsDistinct out' variants e) (λ e. d'))

select_by-IsDistinct :
    (profile reason : String) (hint : BlockType) (variants : List TunnelConfig)
    → IsDistinct (select_by profile reason hint variants)
unfolding select_by balanced_select aggressive_select
select_by-IsDistinct profile reason hint variants =
    let d = append_matches-IsDistinct variants (patterns_for_reason reason hint false) [] tt in
    if_ind IsDistinct (str_eq profile "compat") _ _
      (λ e. compat_select-IsDistinct reason hint variants)
      (λ e.
        if_ind IsDistinct (str_eq profile "aggressive") _ _
          (λ f. fill_aggressive-IsDistinct variants _ d)
          (λ f. cap_variants-IsDistinct _ 6 (fill_balanced-IsDistinct hint variants _ d)))

-- Whatever the variants are, also if they repeat an ID: no two selected ones have the same ID.
pub select_variants-Distinct :
    (profile reason : String) (hint : BlockType) (confidence : ℕ) (variants : List TunnelConfig)
    → Distinct (ids (select_variants profile reason hint confidence variants))
unfolding select_variants
select_variants-Distinct profile reason hint confidence [] = tt
select_variants-Distinct profile reason hint confidence (v ∷ vs) =
    if_ind IsDistinct (ltb confidence 40) _ _
      (λ e. select_by-IsDistinct "compat" "low_confidence" hint (v ∷ vs))
      (λ e.
        select_by-IsDistinct (if str_eq profile "" then "balanced" else profile) reason hint
          (v ∷ vs))

length-cap_variants : (vs : List TunnelConfig) (n : ℕ) → 0 < n → length (cap_variants vs n) ≤ n
unfolding cap_variants
length-cap_variants vs n h = ground (arith, length-take n vs)

length-compat_select :
    (reason : String) (hint : BlockType) (variants : List TunnelConfig)
    → length (compat_select reason hint variants) ≤ 3
unfolding compat_select
length-compat_select reason hint variants = length-cap_variants _ 3 (omega arith)

length-select_by_compat :
    (reason : String) (hint : BlockType) (variants : List TunnelConfig)
    → length (select_by "compat" reason hint variants) ≤ 3
unfolding select_by
length-select_by_compat = length-compat_select

length-select_by :
    (profile reason : String) (hint : BlockType) (variants : List TunnelConfig)
    → str_eq profile "aggressive" ≡ false
    → length (select_by profile reason hint variants) ≤ 6
unfolding select_by balanced_select
length-select_by profile reason hint variants h =
    if_ind (λ (vs : List TunnelConfig). length vs ≤ 6) (str_eq profile "compat") _ _
      (λ e. omega (arith, length-compat_select reason hint variants))
      (λ e.
        if_ind (λ (vs : List TunnelConfig). length vs ≤ 6) (str_eq profile "aggressive") _ _
          (λ f. cc) (λ f. length-cap_variants _ 6 (omega arith)))

not_aggressive :
    (profile : String)
    → profile ≢ "aggressive"
    → str_eq (if str_eq profile "" then "balanced" else profile) "aggressive" ≡ false
not_aggressive profile h =
    if_ind (λ (p : String). str_eq p "aggressive" ≡ false) (str_eq profile "") "balanced" profile
      (λ e. refl) (λ e. ground (arith, eq_iff profile "aggressive"))

compat_case :
    (confidence : ℕ) (profile reason : String) (hint : BlockType) (variants : List TunnelConfig)
    → ltb confidence 40 ≡ false
    → (confidence < 40) ⊎ (profile ≡ "compat")
    → length (select_by (if str_eq profile "" then "balanced" else profile) reason hint variants)
      ≤ 3
compat_case confidence profile reason hint variants e (inl c) = absurd (ground arith)
compat_case confidence profile reason hint variants e (inr p) =
    rw p (length-select_by_compat reason hint variants)

-- At most three variants are tried under low confidence (below 0.4) or the compat profile.
pub length-select_variants :
    (profile reason : String) (hint : BlockType) (confidence : ℕ) (variants : List TunnelConfig)
    → (confidence < 40) ⊎ (profile ≡ "compat")
    → length (select_variants profile reason hint confidence variants) ≤ 3
unfolding select_variants
length-select_variants profile reason hint confidence [] h = omega arith
length-select_variants profile reason hint confidence (v ∷ vs) h =
    if_ind (λ (out : List TunnelConfig). length out ≤ 3) (ltb confidence 40) _ _
      (λ e. length-select_by_compat "low_confidence" hint (v ∷ vs))
      (λ e. compat_case confidence profile reason hint (v ∷ vs) e h)

-- At most six variants are tried under every profile but the aggressive one.
pub length-select_variants_six :
    (profile reason : String) (hint : BlockType) (confidence : ℕ) (variants : List TunnelConfig)
    → profile ≢ "aggressive"
    → length (select_variants profile reason hint confidence variants) ≤ 6
unfolding select_variants
length-select_variants_six profile reason hint confidence [] h = omega arith
length-select_variants_six profile reason hint confidence (v ∷ vs) h =
    if_ind (λ (out : List TunnelConfig). length out ≤ 6) (ltb confidence 40) _ _
      (λ e. omega (arith, length-select_by_compat "low_confidence" hint (v ∷ vs)))
      (λ e. length-select_by _ reason hint (v ∷ vs) (not_aggressive profile h))
