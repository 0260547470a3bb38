-- ===== src/Probe/Aggregate/Laws.antt =====
-- daemon/internal/probe/probe.go, `aggregate`: the loops against counts of the results.
use native.Mathlib.Nat.{div-lt_iff_lt-mul}
use dark_routev.Base.{
  All, Bool, In, List, [], arith, false, if_ind, if◌then◌else◌, inl, inr, length, ltb, refl, subst,
  suc, sym, true, zero, ℕ, ◌*◌, ◌+◌, ◌==◌, ◌∷◌, ◌≡◌, ◌≤◌, ◌⊎◌,
}
use dark_routev.Probe.{ProbeErrType, ProbeResult, none_err, other_err, same_err}
use dark_routev.Probe.Aggregate.{
  AggResult, ErrCounts, Tally, count_err, tally_one, tally, dominant_loop, average, aggregate,
}

-- The successful results, the failed ones, and those that failed in one way.
abbrev pub successes : List ProbeResult → ℕ
successes [] = 0
successes (r ∷ rs) = let n = successes rs in if r.success then suc n else n

abbrev pub failures : List ProbeResult → ℕ
failures [] = 0
failures (r ∷ rs) = let n = failures rs in if r.success then n else suc n

abbrev pub failures_of : ProbeErrType → List ProbeResult → ℕ
failures_of et [] = 0
failures_of et (r ∷ rs) =
    let n = failures_of et rs in
    if r.success then n else if same_err r.err_type et then suc n else n

-- No successful result took longer.
abbrev pub IsWithin : ℕ → List ProbeResult → Type 0
IsWithin m rs = All (λ (r : ProbeResult). (if r.success then r.rtt else 0) ≤ m) rs

successes-failures : (rs : List ProbeResult) → successes rs + failures rs ≡ length rs
successes-failures [] = refl
successes-failures (r ∷ rs) = ground (arith, successes-failures rs)

-- What the first loop has computed
tally_lem :
    (rs : List ProbeResult) (t : Tally)
    → ((tally rs t).success ≡ t.success + successes rs)
      × ((et : ProbeErrType) → (tally rs t).err_counts et ≡ t.err_counts et + failures_of et rs)
unfolding tally tally_one
tally_lem [] t = (omega arith, λ et. omega arith)
tally_lem (r ∷ rs) t =
    let (n, counts) = tally_lem rs (tally_one r t) in
    (ground (arith, n), λ et. ground (arith, counts et))

tally-total :
    (m : ℕ) (rs : List ProbeResult) (t : Tally)
    → IsWithin m rs
    → t.total_rtt ≤ t.success * m
    → (tally rs t).total_rtt ≤ (tally rs t).success * m
unfolding tally tally_one
tally-total m [] t w h = h
tally-total m (r ∷ rs) t w h = tally-total m rs (tally_one r t) w.1 (
    if_ind (λ (u : Tally). u.total_rtt ≤ u.success * m) r.success
      (record t { success = t.success + 1; total_rtt = t.total_rtt + r.rtt })
      (record t { err_counts = count_err r.err_type t.err_counts })
      (λ e.
        let rtt_le : r.rtt ≤ m = subst (λ b. (if b then r.rtt else 0) ≤ m) e w.0 in
        omega (arith, h, rtt_le))
      (λ e. h))

-- The answer of the second loop has the largest count that it has met.
dominant_loop-max :
    (counts : ErrCounts) (keys : List ProbeErrType) (d : ProbeErrType) (m : ℕ)
    → m ≤ counts d
    → let r = dominant_loop counts keys d m in
      (m ≤ counts r) × All (λ et. counts et ≤ counts r) keys
unfolding dominant_loop
dominant_loop-max counts [] d m h = (h, tt)
dominant_loop-max counts (et ∷ ets) d m h =
    if_ind (λ r. (m ≤ counts r) × All (λ e. counts e ≤ counts r) (et ∷ ets)) (ltb m (counts et))
      (dominant_loop counts ets et (counts et)) (dominant_loop counts ets d m)
      (λ t.
        let (p, a) = dominant_loop-max counts ets et (counts et) (omega arith) in
        (ground (arith, p), (p, a)))
      (λ f. let (p, a) = dominant_loop-max counts ets d m h in (p, (ground (arith, p), a)))

average-le : (m total s : ℕ) → total ≤ s * m → average total s ≤ m
unfolding average
average-le m total zero h = omega arith
average-le m total (suc n) h =
    let q =
      (div-lt_iff_lt-mul {k = suc n} {x = total} {y = suc m} (omega arith)).1 (omega (arith, h)) in
    omega (arith, q)

-- Where nothing has failed there is no error; else no other error is more frequent than this one.
abbrev pub Dominates : Bool → ProbeErrType → List ProbeResult → Type 0
Dominates true d rs = d ≡ none_err
Dominates false d rs = (et : ProbeErrType) → failures_of et rs ≤ failures_of d rs

Dominates-if :
    (b : Bool) (d : ProbeErrType) (rs : List ProbeResult)
    → ((et : ProbeErrType) → failures_of et rs ≤ failures_of d rs)
    → Dominates b (if b then none_err else d) rs
Dominates-if true d rs h = refl
Dominates-if false d rs h = h

-- What the aggregated result of at least one probe says of the results.
abbrev pub Aggregated : List ProbeResult → AggResult → Type 0
Aggregated rs agg =
    (agg.success ≡ ltb (failures rs) (successes rs))
    × (agg.lost ≡ failures rs)
    × (agg.sent ≡ length rs)
    × Dominates (failures rs == 0) agg.dominant_err_type rs

-- The counts that Go visits: every kind that has been counted is among them.
abbrev pub VisitsAll : (ErrCounts → List ProbeErrType) → Type 0
VisitsAll keys = (counts : ErrCounts) (et : ProbeErrType) → (counts et ≡ 0) ⊎ In et (keys counts)

abbrev start : Tally
start = record { success = 0; total_rtt = 0; err_counts = λ _. 0 }

In-All : {A : Type 0} (P : A → Type 0) (a : A) (xs : List A) → All P xs → In a xs → P a
In-All P a [] h i = absurd i
In-All P a (x ∷ xs) h (inl e) = subst P (sym e) h.0
In-All P a (x ∷ xs) h (inr i) = In-All P a xs h.1 i

-- The second loop finds a kind with the most failures.
dominant-max :
    (keys : ErrCounts → List ProbeErrType)
    → VisitsAll keys
    → (counts : ErrCounts) (et : ProbeErrType)
    → counts et ≤ counts (dominant_loop counts (keys counts) other_err 0)
dominant-max keys v counts et =
    let r = dominant_loop counts (keys counts) other_err 0 in
    let (p, a) = dominant_loop-max counts (keys counts) other_err 0 (omega arith) in
    elim (v counts et) [
      | inl e ↦ omega (arith, e)
      | inr i ↦ In-All (λ e. counts e ≤ counts r) et (keys counts) a i
    ]

module _ (keys : ErrCounts → List ProbeErrType) where
  -- A round succeeds if more of its probes have succeeded than failed; it counts the lost ones; and
  -- the dominant error is one that no other outnumbers, or none if nothing failed. Go may visit the
  -- counts in any order.
  pub aggregate-Aggregated :
      VisitsAll keys
      → (r : ProbeResult) (rs : List ProbeResult) → Aggregated (r ∷ rs) (aggregate keys (r ∷ rs))
  unfolding aggregate
  aggregate-Aggregated v r rs =
      let all = r ∷ rs in
      let t = tally all start in
      let (n, counts) = tally_lem all start in
      let sum = successes-failures all in
      let d = dominant_loop t.err_counts (keys t.err_counts) other_err 0 in
      (
        ground (arith, n, sum),
        ground (arith, n, sum),
        refl,
        subst (λ b. Dominates (failures all == 0) (if b then none_err else d) all)
            (ground (arith, n, sum))
            (Dominates-if (failures all == 0) d all (λ et.
              let most = dominant-max keys v t.err_counts et in
              omega (arith, most, counts et, counts d))),
      )

  -- The average round-trip time is at most any bound of the times of the successful probes.
  pub aggregate-avg_rtt :
      (rs : List ProbeResult) (m : ℕ) → IsWithin m rs → (aggregate keys rs).avg_rtt ≤ m
  unfolding aggregate
  aggregate-avg_rtt [] m w = omega arith
  aggregate-avg_rtt (r ∷ rs) m w =
      let t = tally (r ∷ rs) start in
      average-le m t.total_rtt t.success (tally-total m (r ∷ rs) start w (omega arith))
