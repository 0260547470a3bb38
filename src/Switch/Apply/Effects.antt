-- ===== src/Switch/Apply/Effects.antt =====
-- What is read off the calls that the engine makes, and what its failure branches add to them.
use dark_routev.Base.{
  Bool, In, In-append_left, In-append_right, List, [], ap, arith, false, if_ind, if◌then◌else◌, inl,
  is_some, refl, suc, sym, true, ℕ, ◌++◌, ◌+◌, ◌∙◌, ◌∷◌, ◌≡◌,
}
use dark_routev.Config.{TunnelConfig}
use dark_routev.Dpi.{BlockType, block_name, is_block_none}
use dark_routev.Tunnel.{for_config, fwmark}
use dark_routev.Switch.{
  Engine, Effect, tunnel_up, tunnel_down, policy_apply, policy_clear, probe_all, record_session,
  record_dpi_result, record_probe_result,
}
use dark_routev.Switch.Apply.{fwmark_for, dpi_outcome}
use dark_routev.Switch.Apply.Laws.{fwmark_for-fwmark}

-- Every mark whose policy is applied is later cleared.
abbrev pub AllCleared : List Effect → Type 0
AllCleared [] = Unit {0}
AllCleared (policy_apply m ∷ es) = In (policy_clear m) es × AllCleared es
AllCleared (_ ∷ es) = AllCleared es

-- The sessions that are recorded
abbrev pub sessions : List Effect → ℕ
sessions [] = 0
sessions (record_session id b ∷ es) = suc (sessions es)
sessions (_ ∷ es) = sessions es

pub sessions-append : (es fs : List Effect) → sessions (es ++ fs) ≡ sessions es + sessions fs
sessions-append [] fs = omega arith
sessions-append (record_session id b ∷ es) fs = omega (arith, sessions-append es fs)
sessions-append (tunnel_up tc ∷ es) fs = sessions-append es fs
sessions-append (tunnel_down tc ∷ es) fs = sessions-append es fs
sessions-append (policy_apply m ∷ es) fs = sessions-append es fs
sessions-append (policy_clear m ∷ es) fs = sessions-append es fs
sessions-append (probe_all m ∷ es) fs = sessions-append es fs
sessions-append (record_dpi_result a b c ∷ es) fs = sessions-append es fs
sessions-append (record_probe_result a b ∷ es) fs = sessions-append es fs

pub sessions-dpi :
    (tc : TunnelConfig) (hint : BlockType) (b : Bool) → sessions (dpi_outcome tc hint b) ≡ 0
sessions-dpi tc hint b = ground arith

pub append_assoc : (a b c : List Effect) → (a ++ b) ++ c ≡ a ++ (b ++ c)
append_assoc [] b c = refl
append_assoc (x ∷ a) b c = ap (λ t. x ∷ t) (append_assoc a b c)

pub append_nil : (h : List Effect) → h ++ [] ≡ h
append_nil [] = refl
append_nil (x ∷ h) = ap (λ t. x ∷ t) (append_nil h)

-- A round ends with one recorded session of the configuration, and if it fails, with every policy
-- cleared that it applied.
module _ (tc : TunnelConfig) where
  abbrev pub RoundTrace : List Effect → Bool × Engine → Type 0
  RoundTrace before (true, e) = (es : List Effect) × (e.effects ≡ before ++ es) × (sessions es ≡ 1)
  RoundTrace before (false, e) =
      (es : List Effect) × (e.effects ≡ before ++ es) × (sessions es ≡ 1) × AllCleared es

pub AllCleared-append :
    (es fs : List Effect) → AllCleared es → AllCleared fs → AllCleared (es ++ fs)
AllCleared-append [] fs c d = d
AllCleared-append (policy_apply m ∷ es) fs (i, c) d =
    (In-append_left (policy_clear m) es fs i, AllCleared-append es fs c d)
AllCleared-append (record_session id b ∷ es) fs c d = AllCleared-append es fs c d
AllCleared-append (tunnel_up tc ∷ es) fs c d = AllCleared-append es fs c d
AllCleared-append (tunnel_down tc ∷ es) fs c d = AllCleared-append es fs c d
AllCleared-append (policy_clear m ∷ es) fs c d = AllCleared-append es fs c d
AllCleared-append (probe_all m ∷ es) fs c d = AllCleared-append es fs c d
AllCleared-append (record_dpi_result x y z ∷ es) fs c d = AllCleared-append es fs c d
AllCleared-append (record_probe_result x y ∷ es) fs c d = AllCleared-append es fs c d

pub dpi_outcome-AllCleared :
    (tc : TunnelConfig) (hint : BlockType) (b : Bool) → AllCleared (dpi_outcome tc hint b)
dpi_outcome-AllCleared tc hint b =
    if_ind AllCleared (is_block_none hint) [] (record_dpi_result tc.id (block_name hint) b ∷ [])
      (λ _. tt) (λ _. tt)

-- The effects that the failure branches add
unfoldable pub after_apply : TunnelConfig → BlockType → List Effect
after_apply tc hint =
    (record_session tc.id false ∷ [])
    ++ dpi_outcome tc hint false
    ++ (policy_clear (fwmark_for tc) ∷ [])

unfoldable pub down_part : TunnelConfig → List Effect
down_part tc = if is_some (for_config tc) then tunnel_down tc ∷ [] else []

unfoldable pub after_verify : TunnelConfig → BlockType → List Effect
after_verify tc hint =
    down_part tc
    ++ ((policy_clear (fwmark_for tc) ∷ record_session tc.id false ∷ [])
        ++ dpi_outcome tc hint false)

pub after_apply-sessions :
    (tc : TunnelConfig) (hint : BlockType) → sessions (after_apply tc hint) ≡ 1
unfolding after_apply
after_apply-sessions tc hint = omega (
  arith,
  sessions-append (dpi_outcome tc hint false) (policy_clear (fwmark_for tc) ∷ []),
  sessions-dpi tc hint false,
)

pub after_apply-AllCleared :
    (tc : TunnelConfig) (hint : BlockType) → AllCleared (after_apply tc hint)
unfolding after_apply
after_apply-AllCleared tc hint =
    AllCleared-append (dpi_outcome tc hint false) _ (dpi_outcome-AllCleared tc hint false) tt

down_part-quiet : (tc : TunnelConfig) → (sessions (down_part tc) ≡ 0) × AllCleared (down_part tc)
unfolding down_part
down_part-quiet tc =
    if_ind (λ d. (sessions d ≡ 0) × AllCleared d) (is_some (for_config tc)) (tunnel_down tc ∷ []) []
      (λ _. (refl, tt)) (λ _. (refl, tt))

pub after_verify-sessions :
    (tc : TunnelConfig) (hint : BlockType) → sessions (after_verify tc hint) ≡ 1
unfolding after_verify
after_verify-sessions tc hint = omega (
  arith,
  sessions-append (down_part tc)
      (policy_clear (fwmark_for tc) ∷ record_session tc.id false ∷ dpi_outcome tc hint false),
  sessions-dpi tc hint false,
  (down_part-quiet tc).0,
)

pub after_verify-AllCleared :
    (tc : TunnelConfig) (hint : BlockType) → AllCleared (after_verify tc hint)
unfolding after_verify
after_verify-AllCleared tc hint =
    AllCleared-append (down_part tc) _ (down_part-quiet tc).1 (dpi_outcome-AllCleared tc hint false)

pub after_verify-clear :
    (tc : TunnelConfig) (hint : BlockType) → In (policy_clear (fwmark tc)) (after_verify tc hint)
unfolding after_verify
after_verify-clear tc hint =
    In-append_right (policy_clear (fwmark tc)) (down_part tc) _
      (inl (ap policy_clear (sym (fwmark_for-fwmark tc))))

-- A failed round whose effects are `ups` and then `added`
pub failed_round :
    (tc : TunnelConfig) (before ups added : List Effect) (e : Engine)
    → e.effects ≡ before ++ ups
    → sessions ups ≡ 0
    → sessions added ≡ 1
    → AllCleared (ups ++ added)
    → (es : List Effect) × (e.effects ++ added ≡ before ++ es) × (sessions es ≡ 1) × AllCleared es
failed_round tc before ups added e h z k c = (
  ups ++ added,
  ap (λ t. t ++ added) h ∙ append_assoc before ups added,
  omega (arith, sessions-append ups added, z, k),
  c,
)
