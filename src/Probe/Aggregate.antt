-- ===== src/Probe/Aggregate.antt =====
-- daemon/internal/probe/probe.go, `aggregate`: the results of the targets in one. The map of counts is
-- a function, 0 for a key that is missing; in which order Go visits its keys is a parameter.
pub mod Laws
use dark_routev.Base.{
  Bool, List, [], false, if◌then◌else◌, length, ltb, suc, zero, ℕ, ◌*◌, ◌+◌, ◌-◌, ◌/◌, ◌==◌, ◌∷◌,
}
use dark_routev.Probe.{ProbeErrType, ProbeResult, none_err, other_err, same_err}

-- PacketLoss as the fraction lost/sent
pub record AggResult : Type 0 where
  pub success : Bool
  pub avg_rtt : ℕ
  pub lost : ℕ
  pub sent : ℕ
  pub results : List ProbeResult
  pub dominant_err_type : ProbeErrType

abbrev pub ErrCounts : Type 0
ErrCounts = ProbeErrType → ℕ

-- The variables of the first loop
pub record Tally : Type 0 where
  pub success : ℕ
  pub total_rtt : ℕ
  pub err_counts : ErrCounts

-- `errCounts[r.ErrType]++`
abbrev pub count_err : ProbeErrType → ErrCounts → ErrCounts
count_err et counts e = if same_err et e then counts e + 1 else counts e

unfoldable pub tally_one : ProbeResult → Tally → Tally
tally_one r t =
    if r.success
    then record t { success = t.success + 1; total_rtt = t.total_rtt + r.rtt }
    else record t { err_counts = count_err r.err_type t.err_counts }

unfoldable pub tally : List ProbeResult → Tally → Tally
tally [] t = t
tally (r ∷ rs) t = tally rs (tally_one r t)

-- The loop over the counts
unfoldable pub dominant_loop : ErrCounts → List ProbeErrType → ProbeErrType → ℕ → ProbeErrType
dominant_loop counts [] dominant max_count = dominant
dominant_loop counts (et ∷ ets) dominant max_count =
    if ltb max_count (counts et)
    then dominant_loop counts ets et (counts et)
    else dominant_loop counts ets dominant max_count

-- `totalRTT / time.Duration(success)`
unfoldable pub average : ℕ → ℕ → ℕ
average total zero = 0
average total (suc n) = total / suc n

-- `float64(success)/float64(len(results)) > 0.5` is that twice the successes are more than the results.
unfoldable pub aggregate : (ErrCounts → List ProbeErrType) → List ProbeResult → AggResult
aggregate keys [] = record {
  success = false;
  avg_rtt = 0;
  lost = 1;
  sent = 1;
  results = [];
  dominant_err_type = none_err;
}
aggregate keys (r ∷ rs) =
    let n = length (r ∷ rs) in
    let t = tally (r ∷ rs) (record { success = 0; total_rtt = 0; err_counts = λ _. 0 }) in
    record {
      success = ltb n (2 * t.success);
      avg_rtt = average t.total_rtt t.success;
      lost = n - t.success;
      sent = n;
      results = r ∷ rs;
      dominant_err_type =
          (if t.success == n
            then none_err
            else dominant_loop t.err_counts (keys t.err_counts) other_err 0);
    }
