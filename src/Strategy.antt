-- ===== src/Strategy.antt =====
-- daemon/internal/strategy/selector.go: which of the generated variants are tried, and in what
-- order. Confidence is in hundredths.
pub mod Laws
pub mod Selection
pub mod Distinctness
pub mod Coverage
mod Tests
use dark_routev.Base.{
  Bool, List, String, [], contains, false, if◌then◌else◌, is_empty, keep, leb, length, ltb, mem,
  not, starts_with, str_eq, take, true, ℕ, ◌&&◌, ◌++◌, ◌==◌, ◌||◌, ◌∷◌,
}
use dark_routev.Config.{TunnelConfig, ids}
use dark_routev.Dpi.{BlockType, is_block_protocol}

-- `matchByPattern`
unfoldable pub match_by_pattern : List TunnelConfig → String → List TunnelConfig
match_by_pattern variants pattern_text =
    if str_eq pattern_text ""
    then []
    else keep (λ (v : TunnelConfig). contains v.id pattern_text) variants

-- The second loop of appendUnique, with its map `seen`.
append_unseen : List TunnelConfig → List String → List TunnelConfig → List TunnelConfig
append_unseen dst seen [] = dst
append_unseen dst seen (s ∷ src) =
    let skip = append_unseen dst seen src in
    let add = append_unseen (dst ++ (s ∷ [])) (s.id ∷ seen) src in
    if mem s.id seen then skip else add

-- `appendUnique`
unfoldable pub append_unique : List TunnelConfig → List TunnelConfig → List TunnelConfig
unfolding append_unseen
append_unique dst src = append_unseen dst (ids dst) src

-- `capVariants`
unfoldable pub cap_variants : List TunnelConfig → ℕ → List TunnelConfig
cap_variants vs n = if n == 0 || leb (length vs) n then vs else take n vs

-- `patternsForReason`
unfoldable pub patterns_for_reason : String → BlockType → Bool → List String
patterns_for_reason reason hint safe_only =
    if starts_with reason "tls_"
    then (if safe_only
        then ":dpi:fp:" ∷ ":dpi:mtu" ∷ []
        else ":dpi:fp:" ∷ ":dpi:path:" ∷ ":dpi:tr:tcp" ∷ ":dpi:tr:ws" ∷ ":dpi:mtu" ∷ [])
    else if starts_with reason "http_"
    then (if safe_only
        then ":dpi:path:" ∷ ":dpi:tr:ws" ∷ ":dpi:tr:httpupgrade" ∷ ":dpi:mtu" ∷ []
        else ":dpi:path:" ∷ ":dpi:tr:ws" ∷ ":dpi:tr:httpupgrade" ∷ ":dpi:tr:grpc" ∷ ":dpi:mtu" ∷ [])
    else if starts_with reason "tcp_"
    then ":dpi:ep" ∷ ":dpi:port" ∷ ":dpi:mtu" ∷ ":dpi:awg:mild" ∷ []
    else if starts_with reason "protocol_" || is_block_protocol hint
    then (if safe_only
        then ":dpi:ep" ∷ ":dpi:port" ∷ ":dpi:awg:mild" ∷ ":dpi:mtu" ∷ []
        else ":dpi:ep" ∷ ":dpi:port" ∷ ":dpi:awg:aggressive" ∷ ":dpi:awg:moderate" ∷ ":dpi:awg:mild"
          ∷ ":dpi:mtu" ∷ [])
    else if str_eq reason "low_confidence"
    then ":dpi:mtu" ∷ []
    else if safe_only
    then ":dpi:mtu" ∷ ":dpi:fp:" ∷ []
    else ":dpi:mtu" ∷ ":dpi:fp:" ∷ ":dpi:tr:" ∷ []

-- `for _, p := range patterns { out = appendUnique(out, matchByPattern(variants, p)...) }`
append_matches : List TunnelConfig → List String → List TunnelConfig → List TunnelConfig
append_matches variants [] out = out
append_matches variants (p ∷ ps) out =
    append_matches variants ps (append_unique out (match_by_pattern variants p))

-- `out = append(out, variants[0])`, which panics on an empty slice; no caller passes one.
append_head : List TunnelConfig → List TunnelConfig → List TunnelConfig
append_head out [] = out
append_head out (v ∷ vs) = out ++ (v ∷ [])

compat_fallback : List TunnelConfig → List TunnelConfig → List TunnelConfig
compat_fallback variants out =
    if is_empty out
    then append_unique (append_unique out (match_by_pattern variants ":dpi:mtu"))
        (match_by_pattern variants ":dpi:awg:mild")
    else out

-- `compatSelect`
unfoldable pub compat_select : String → BlockType → List TunnelConfig → List TunnelConfig
unfolding append_matches append_head compat_fallback
compat_select reason hint variants =
    let out = append_matches variants (patterns_for_reason reason hint true) [] in
    let out' = compat_fallback variants out in
    cap_variants (if is_empty out' then append_head out' variants else out') 3

-- The second loop of balancedSelect.
fill_balanced : BlockType → List TunnelConfig → List TunnelConfig → List TunnelConfig
fill_balanced hint [] out = out
fill_balanced hint (v ∷ vs) out = fill_balanced hint vs (
    if contains v.id ":dpi:awg:aggressive" && not (is_block_protocol hint)
    then out
    else append_unique out (v ∷ []))

-- `balancedSelect`
unfoldable pub balanced_select : String → BlockType → List TunnelConfig → List TunnelConfig
unfolding append_matches fill_balanced
balanced_select reason hint variants =
    cap_variants
      (fill_balanced hint variants
        (append_matches variants (patterns_for_reason reason hint false) []))
      6

-- The second loop of aggressiveSelect.
fill_aggressive : List TunnelConfig → List TunnelConfig → List TunnelConfig
fill_aggressive [] out = out
fill_aggressive (v ∷ vs) out = fill_aggressive vs (append_unique out (v ∷ []))

-- `aggressiveSelect`
unfoldable pub aggressive_select : String → BlockType → List TunnelConfig → List TunnelConfig
unfolding append_matches fill_aggressive
aggressive_select reason hint variants =
    fill_aggressive variants (append_matches variants (patterns_for_reason reason hint false) [])

select_by : String → String → BlockType → List TunnelConfig → List TunnelConfig
select_by profile reason hint variants =
    if str_eq profile "compat"
    then compat_select reason hint variants
    else if str_eq profile "aggressive"
    then aggressive_select reason hint variants
    else balanced_select reason hint variants

-- `SelectVariants`
unfoldable pub select_variants :
    String → String → BlockType → ℕ → List TunnelConfig → List TunnelConfig
unfolding select_by
select_variants profile reason hint confidence [] = []
select_variants profile reason hint confidence (v ∷ vs) =
    if ltb confidence 40
    then select_by "compat" "low_confidence" hint (v ∷ vs)
    else select_by (if str_eq profile "" then "balanced" else profile) reason hint (v ∷ vs)
