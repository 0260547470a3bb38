-- ===== src/Strategy/Coverage.antt =====
-- What SelectVariants does not leave out.
use dark_routev.Base.{
  All, All-take, List, String, [], arith, contains, eq_refl, false, if_ind, if◌then◌else◌, inl, inr,
  is_empty, keep-All, leb, length, ltb, mem, refl, str_eq, suc, take, true, ℕ, ◌<◌, ◌==◌, ◌||◌, ◌∙◌,
  ◌∷◌, ◌≡◌, ◌≤◌, ◌⊎◌,
}
use dark_routev.Config.{TunnelConfig, ids}
use dark_routev.Dpi.{BlockType, is_block_protocol}
use dark_routev.Strategy.{
  match_by_pattern, append_unique, cap_variants, patterns_for_reason, append_matches, append_head,
  compat_fallback, compat_select, fill_aggressive, aggressive_select, select_by, select_variants,
}
use dark_routev.Strategy.Laws.{mem-append_unique, append_unique-All}

is_empty-cap_variants :
    (vs : List TunnelConfig) (n : ℕ)
    → is_empty vs ≡ false
    → is_empty (cap_variants vs (suc n)) ≡ false
unfolding cap_variants
is_empty-cap_variants [] n h = cc
is_empty-cap_variants (v ∷ vs) n h = ground arith

is_empty-append_head :
    (v : TunnelConfig) (vs out : List TunnelConfig) → is_empty (append_head out (v ∷ vs)) ≡ false
unfolding append_head
is_empty-append_head v vs [] = refl
is_empty-append_head v vs (o ∷ out) = refl

abbrev IsFilled : List TunnelConfig → Type 0
IsFilled vs = is_empty vs ≡ false

is_empty-compat_select :
    (reason : String) (hint : BlockType) (v : TunnelConfig) (vs : List TunnelConfig)
    → IsFilled (compat_select reason hint (v ∷ vs))
unfolding compat_select
is_empty-compat_select reason hint v vs =
    let out' =
      compat_fallback (v ∷ vs)
        (append_matches (v ∷ vs) (patterns_for_reason reason hint true) []) in
    is_empty-cap_variants _ 2 (
      if_ind IsFilled (is_empty out') (append_head out' (v ∷ vs)) out'
        (λ e. is_empty-append_head v vs out') (λ e. e))

fill_aggressive_keeps :
    (vs out : List TunnelConfig) (x : String)
    → mem x (ids (fill_aggressive vs out)) ≡ (mem x (ids out) || mem x (ids vs))
unfolding fill_aggressive mem
fill_aggressive_keeps [] out x = ground arith
fill_aggressive_keeps (v ∷ vs) out x =
    fill_aggressive_keeps vs (append_unique out (v ∷ [])) x ∙ rw mem-append_unique (ground arith)

-- Every ID of the second list is in the first.
abbrev pub Holds : List TunnelConfig → TunnelConfig → Type 0
Holds vs v = mem v.id (ids vs) ≡ true

Holds-All :
    (vs out : List TunnelConfig)
    → ((x : String) → mem x (ids vs) ≡ true → mem x (ids out) ≡ true)
    → All (Holds out) vs
unfolding mem
Holds-All [] out h = tt
Holds-All (v ∷ vs) out h = (h v.id (rw eq_refl), Holds-All vs out (λ x m. h x (ground arith)))

select_by_compat :
    (reason : String) (hint : BlockType) (vs : List TunnelConfig)
    → select_by "compat" reason hint vs ≡ compat_select reason hint vs
unfolding select_by
select_by_compat reason hint vs = refl

select_by_aggressive :
    (reason : String) (hint : BlockType) (vs : List TunnelConfig)
    → select_by "aggressive" reason hint vs ≡ aggressive_select reason hint vs
unfolding select_by
select_by_aggressive reason hint vs = refl

aggressive_holds :
    (reason : String) (hint : BlockType) (vs : List TunnelConfig) (x : String)
    → mem x (ids vs) ≡ true
    → mem x (ids (aggressive_select reason hint vs)) ≡ true
unfolding aggressive_select
aggressive_holds reason hint vs x m = rw fill_aggressive_keeps (ground arith)

IsFilled-if :
    (confidence : ℕ) (profile reason : String) (hint : BlockType) (v : TunnelConfig)
    (vs : List TunnelConfig)
    → ltb confidence 40 ≡ false
    → (confidence < 40) ⊎ (profile ≡ "compat")
    → IsFilled (select_by (if str_eq profile "" then "balanced" else profile) reason hint (v ∷ vs))
IsFilled-if confidence profile reason hint v vs e (inl c) = absurd (ground arith)
IsFilled-if confidence profile reason hint v vs e (inr p) =
    rw (p, select_by_compat) (is_empty-compat_select reason hint v vs)

-- The aggressive profile, at a confidence of 0.4 or more, tries every variant.
pub select_variants_aggressive :
    (reason : String) (hint : BlockType) (confidence : ℕ) (variants : List TunnelConfig)
    → 40 ≤ confidence
    → All (Holds (select_variants "aggressive" reason hint confidence variants)) variants
unfolding select_variants
select_variants_aggressive reason hint confidence [] h = tt
select_variants_aggressive reason hint confidence (v ∷ vs) h =
    let sure : ltb confidence 40 ≡ false = ground arith in
    Holds-All (v ∷ vs) _
      (λ x m. rw (sure, select_by_aggressive) (aggressive_holds reason hint (v ∷ vs) x m))

-- Low confidence (below 0.4) and the compat profile leave at least one of the generated variants to
-- try.
pub select_variants_compat :
    (profile reason : String) (hint : BlockType) (confidence : ℕ) (variants : List TunnelConfig)
    → (confidence < 40) ⊎ (profile ≡ "compat")
    → is_empty (select_variants profile reason hint confidence variants) ≡ is_empty variants
unfolding select_variants
select_variants_compat profile reason hint confidence [] h = refl
select_variants_compat profile reason hint confidence (v ∷ vs) h =
    if_ind IsFilled (ltb confidence 40) _ _
      (λ e. rw select_by_compat (is_empty-compat_select "low_confidence" hint v vs))
      (λ e. IsFilled-if confidence profile reason hint v vs e h)

-- The variants that change the MTU.
abbrev pub mtu_variants : List TunnelConfig → List TunnelConfig
mtu_variants variants = match_by_pattern variants ":dpi:mtu"

abbrev IsMtu : TunnelConfig → Type 0
IsMtu v = contains v.id ":dpi:mtu" ≡ true

mtu_variants-All : (variants : List TunnelConfig) → All IsMtu (mtu_variants variants)
unfolding match_by_pattern
mtu_variants-All variants = keep-All (λ (v : TunnelConfig). contains v.id ":dpi:mtu") variants

append_unique_fills :
    (v : TunnelConfig) (vs : List TunnelConfig) → IsFilled (append_unique [] (v ∷ vs))
unfolding mem
append_unique_fills v vs =
    go (append_unique [] (v ∷ vs)) (mem-append_unique [] (v ∷ vs) v.id ∙ rw eq_refl)
  where
    go : (out : List TunnelConfig) → mem v.id (ids out) ≡ true → IsFilled out
    go [] m = cc
    go (o ∷ out) m = refl

first_matches : (vs : List TunnelConfig) → IsFilled vs → IsFilled (append_unique [] vs)
first_matches [] h = cc
first_matches (v ∷ vs) h = append_unique_fills v vs

low_patterns :
    (hint : BlockType)
    → is_block_protocol hint ≡ false
    → patterns_for_reason "low_confidence" hint true ≡ ":dpi:mtu" ∷ []
unfolding patterns_for_reason
low_patterns hint h = rw h

compat_select_low :
    (hint : BlockType) (variants : List TunnelConfig)
    → is_block_protocol hint ≡ false
    → IsFilled (mtu_variants variants)
    → compat_select "low_confidence" hint variants
      ≡ cap_variants (append_unique [] (mtu_variants variants)) 3
unfolding compat_select append_matches compat_fallback
compat_select_low hint variants h f = rw (
  low_patterns hint h,
  first_matches (mtu_variants variants) f,
  first_matches (mtu_variants variants) f,
)

cap_variants-IsMtu : (vs : List TunnelConfig) (n : ℕ) → All IsMtu vs → All IsMtu (cap_variants vs n)
unfolding cap_variants
cap_variants-IsMtu vs n h =
    if_ind (All IsMtu) (n == 0 || leb (length vs) n) vs (take n vs) (λ e. h)
      (λ e. All-take IsMtu n vs h)

-- With low confidence (below 0.4) only variants that change the MTU are tried, if there is one and
-- the hint is not a protocol block.
pub select_variants_low :
    (profile reason : String) (hint : BlockType) (confidence : ℕ) (variants : List TunnelConfig)
    → confidence < 40
    → is_block_protocol hint ≡ false
    → is_empty (mtu_variants variants) ≡ false
    → All
        (λ v. contains v.id ":dpi:mtu" ≡ true)
        (select_variants profile reason hint confidence variants)
unfolding select_variants
select_variants_low profile reason hint confidence [] c h f = tt
select_variants_low profile reason hint confidence (v ∷ vs) c h f =
    if_ind (All IsMtu) (ltb confidence 40) _ _
      (λ e.
        rw (select_by_compat, compat_select_low hint (v ∷ vs) h f)
          (cap_variants-IsMtu _ 3
            (append_unique-All IsMtu [] (mtu_variants (v ∷ vs)) tt (mtu_variants-All (v ∷ vs)))))
      (λ e. absurd (ground arith))
