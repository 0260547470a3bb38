-- ===== src/Config/Uci/Listed.antt =====
-- daemon/internal/config/store.go, loadUCIStringList, on the lines that `uci show` prints: a key, the
-- sign "=" and a value.
use Prim.Native.Char.{Char, code}
use Prim.Native.String.append
use dark_routev.Base.{
  Bool, List, Option, String, [], if◌then◌else◌, none, not, some, str_eq, true, ◌&&◌, ◌<>◌, ◌==◌,
  ◌∷◌, ◌≡◌,
}
use dark_routev.Config.Uci.{trim, is_quote_or_space}

-- A text without the sign "="
abbrev pub lacks_equals : String → Bool
lacks_equals String.[] = true
lacks_equals (String.◌∷◌ x s) = not (code x == 61) && lacks_equals s

abbrev pub NoEquals : String → Type 0
NoEquals s = lacks_equals s ≡ true

abbrev equals_sign : Char
equals_sign = "="

-- The keys and values of the lines
abbrev pub line : String × String → String
line (key, value) = key <> "=" <> value

abbrev pub lines_of : List (String × String) → List String
lines_of [] = []
lines_of (p ∷ ps) = line p ∷ lines_of ps

key_of : Option (String × String) → String
key_of none = ""
key_of (some (key, value)) = key

-- The values that are meant for a key: those of its lines, without the quotes and spaces at their ends,
-- and not empty
abbrev pub meant_for : String → List (String × String) → List String
meant_for prefix [] = []
meant_for prefix ((key, value) ∷ ps) =
    let rest = meant_for prefix ps in
    let v = trim is_quote_or_space value in
    if str_eq key prefix then (if str_eq v "" then rest else v ∷ rest) else rest

abbrev pub KeysOnly : List (String × String) → Type 0
KeysOnly [] = Unit {0}
KeysOnly ((key, value) ∷ ps) = NoEquals key × KeysOnly ps
