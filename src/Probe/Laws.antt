-- ===== src/Probe/Laws.antt =====
-- daemon/internal/probe/probe.go, `selectTargets`: how many targets are probed, and which.
use Prim.Native.Nat.{min}
use dark_routev.Base.{
  All, In, List, Subset, Subset_refl, [], arith, if_ind, if◌then◌else◌, inl, inr, leb, length, ltb,
  not, refl, some, suc, zero, ℕ, ◌&&◌, ◌<◌, ◌||◌, ◌∷◌, ◌≡◌,
}
use dark_routev.Config.{ProbeTarget, DaemonConfig}
use dark_routev.Probe.{at, pick, select_targets}

-- What rand.Perm promises: n indices below n.
abbrev pub IsIndexing : (ℕ → List ℕ) → ℕ → Type 0
IsIndexing perm n = (length (perm n) ≡ n) × All (λ i. i < n) (perm n)

module _ {A : Type 0} where
  at_cases : (xs : List A) (i : ℕ) → i < length xs → (x : A) × (at xs i ≡ some x) × In x xs
  at_cases [] i h = ground arith
  at_cases (x ∷ xs) zero h = (x, refl, inl refl)
  at_cases (x ∷ xs) (suc i) h = let (y, e, m) = at_cases xs i (omega arith) in (y, e, inr m)

  -- The first n indices give n elements of the list.
  pick_lem :
      (xs : List A) (n : ℕ) (ixs : List ℕ)
      → All (λ i. i < length xs) ixs
      → (length (pick xs n ixs) ≡ min n (length ixs)) × Subset (pick xs n ixs) xs
  unfolding pick
  pick_lem xs zero ixs h = (omega arith, tt)
  pick_lem xs (suc n) [] h = (omega arith, tt)
  pick_lem xs (suc n) (i ∷ ixs) h =
      let (x, e, m) = at_cases xs i h.0 in
      let (l, s) = pick_lem xs n ixs h.1 in rw e (omega (arith, l), (m, s))

-- As many targets are probed as the pool allows, all of them if there is no rotation or no pool, and
-- each is one of the configured targets.
pub length-select_targets :
    (perm : ℕ → List ℕ) (cfg : DaemonConfig)
    → IsIndexing perm (length cfg.probe_targets)
    → (length (select_targets perm cfg) ≡ (
        if cfg.probe_rotate_targets && ltb 0 cfg.probe_target_pool
        then min cfg.probe_target_pool (length cfg.probe_targets)
        else length cfg.probe_targets))
      × Subset (select_targets perm cfg) cfg.probe_targets
unfolding select_targets
length-select_targets perm cfg h =
    let ts = cfg.probe_targets in
    let n = length ts in
    let pool = cfg.probe_target_pool in
    let p = pick_lem ts (if leb pool 0 || leb n pool then n else pool) (perm n) h.1 in
    if_ind
      (λ (out : List ProbeTarget).
        (length out ≡ (if cfg.probe_rotate_targets && ltb 0 pool then min pool n else n))
        × Subset out ts)
      (not cfg.probe_rotate_targets || leb n 1) ts
      (pick ts (if leb pool 0 || leb n pool then n else pool) (perm n))
      (λ t. (ground arith, Subset_refl ts)) (λ f. (ground (arith, p.0, h.0), p.1))
