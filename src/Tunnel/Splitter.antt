-- ===== src/Tunnel/Splitter.antt =====
-- daemon/internal/tunnel/clienthello_splitter.go: a connection whose first write goes out in two parts.
-- The connection under it is a parameter; bytes are numbers.
pub mod Laws
mod Tests
use dark_routev.Base.{
  Bool, List, Option, String, [], drop, false, if◌then◌else◌, is_some, leb, length, ltb, none, some,
  take, true, ℕ, ◌+◌, ◌||◌, ◌∷◌,
}

-- `net.Conn.Write`: the number of bytes written, and an error or `none`
abbrev pub Writer : Type 0 → Type 0
Writer C = List ℕ → C → ℕ × Option String × C

-- ClientHelloSplitterConn; `fired` is the state of the sync.Once.
pub record Splitter (C : Type 0) : Type 0 where
  pub conn : C
  pub fired : Bool
  pub split_at : ℕ

-- `NewClientHelloSplitterConn`; a negative length is like 0.
unfoldable pub new_splitter : {C : Type 0} → C → ℕ → Splitter C
new_splitter conn split_at = record {
  conn = conn;
  fired = false;
  split_at = (if leb split_at 0 then 32 else split_at);
}

module _ {C : Type 0} (send : Writer C) where
  second_part : ℕ → List ℕ → C → ℕ × Option String × C
  second_part n₁ rest conn = let (n₂, err, conn') = send rest conn in (n₁ + n₂, err, conn')

  after_first : List ℕ → ℕ × Option String × C → ℕ × Option String × C
  unfolding second_part
  after_first rest (n₁, some e, conn) = (n₁, some e, conn)
  after_first rest (n₁, none, conn) = second_part n₁ rest conn

  -- The function that runs once
  unfoldable pub first_write : ℕ → List ℕ → C → ℕ × Option String × C
  unfolding after_first
  first_write split_at p conn =
      if leb (length p) split_at
      then send p conn
      else after_first (drop split_at p) (send (take split_at p) conn)

  -- `if n > 0 || err != nil { return n, err }; return c.Conn.Write(p)`
  or_write : List ℕ → ℕ × Option String × C → ℕ × Option String × C
  or_write p (n, err, conn) = if ltb 0 n || is_some err then (n, err, conn) else send p conn

  -- `Write`
  unfoldable pub write : List ℕ → Splitter C → ℕ × Option String × Splitter C
  unfolding or_write
  write p s =
      let (n, err, conn') =
        or_write p (if s.fired then (0, none, s.conn) else first_write s.split_at p s.conn) in
      (n, err, record s { conn = conn'; fired = true })

  -- Several calls of `Write`; their answers are dropped.
  unfoldable pub write_each : List (List ℕ) → Splitter C → Splitter C
  write_each [] s = s
  write_each (p ∷ ps) s = write_each ps (write p s).2
