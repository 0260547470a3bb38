-- ===== src/Advisor/Attempts.antt =====
-- daemon/internal/aiadvisor/attempt_log.go: a bounded log. Its file mirrors `entries`.
pub mod Laws
use dark_routev.Base.{List, [], drop, if◌then◌else◌, length, ltb, ℕ, ◌++◌, ◌-◌, ◌==◌, ◌||◌, ◌∷◌}
use dark_routev.Advisor.{AttemptEntry}

pub record AttemptLog : Type 0 where
  pub entries : List AttemptEntry
  pub max_size : ℕ

-- `NewAttemptLog`; the argument is what the file holds.
unfoldable pub new_attempt_log : List AttemptEntry → ℕ → AttemptLog
new_attempt_log stored max_size = record {
  entries = stored;
  max_size = if max_size == 0 then 300 else max_size;
}

-- `Add`
unfoldable pub add : AttemptEntry → AttemptLog → AttemptLog
add e l =
    let grown = l.entries ++ (e ∷ []) in
    record l {
      entries =
          if ltb l.max_size (length grown) then drop (length grown - l.max_size) grown else grown;
    }

-- `Recent`
unfoldable pub recent : ℕ → AttemptLog → List AttemptEntry
recent n l =
    let size = length l.entries in
    let m = if n == 0 || ltb size n then size else n in drop (size - m) l.entries
