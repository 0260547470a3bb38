-- ===== src/Shell/Laws.antt =====
-- The two ways in which a command can end, for what follows it.
use dark_routev.Base.{Bool, false, none, refl, some, true, ◌≡◌}
use dark_routev.Shell.{Command, Shell, Outcome, status, run, and_then}

module _ {K : Type 0} (P : Outcome K → Type 0) where
  pub status_ind :
      (c : Command) (r : Bool × K)
      → (r.0 ≡ false → P (some c, r.1))
      → (r.0 ≡ true → P (none, r.1))
      → P (status c r)
  status_ind c (true, k) f t = t refl
  status_ind c (false, k) f t = f refl

  and_then_status :
      (c : Command) (r : Bool × K) (rest : K → Outcome K)
      → (r.0 ≡ false → P (some c, r.1))
      → (r.0 ≡ true → P (rest r.1))
      → P (and_then (status c r) rest)
  and_then_status c (true, k) rest f t = t refl
  and_then_status c (false, k) rest f t = f refl

  pub and_then_ind :
      (sh : Shell K) (c : Command) (k : K) (rest : K → Outcome K)
      → ((sh c k).0 ≡ false → P (some c, (sh c k).1))
      → ((sh c k).0 ≡ true → P (rest (sh c k).1))
      → P (and_then (run sh c k) rest)
  and_then_ind sh c k rest f t = and_then_status c (sh c k) rest f t
