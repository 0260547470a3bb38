-- ===== src/Base/Text.antt =====
-- What the source uses of Go's strings, strconv and fmt packages, over native texts.
use Prim.Native.Nat.{ℕ, zero, suc, ◌/◌, ◌%◌, ◌-◌}
use Prim.Native.Char.{code}
use Prim.Native.String.{String, ◌++◌, len, find, slice}
use mathlib.Core.Bool.{Bool, false, ◌&&◌, ◌||◌}
use mathlib.Core.List.{List, [], ◌∷◌}
use text.Mathlib.Text.{starts_with, ◌==◌ as str_eq}
use dark_routev.Base.Tests.{ltb, leb, if◌then◌else◌}

-- `strings.Contains`
abbrev pub contains : String → String → Bool
contains s sub = leb (find s sub) (len s)

-- `strings.HasSuffix`, in the form `len(s) >= len(p) && s[len(s)-len(p):] == p`
abbrev pub ends_with : String → String → Bool
ends_with s p = leb (len p) (len s) && str_eq (slice s (len s - len p) (len s)) p

-- `strings.TrimPrefix`
abbrev pub trim_prefix : String → String → String
trim_prefix s p = if starts_with s p then slice s (len p) (len s) else s

-- The code points over which `for _, c := range s` runs.
abbrev pub codes : String → List ℕ
codes String.[] = []
codes (String.◌∷◌ c s) = code c ∷ codes s

-- A set of texts, `map[string]struct{}`, as the list of its members.
unfoldable pub mem : String → List String → Bool
mem s [] = false
mem s (x ∷ xs) = str_eq x s || mem s xs

digit : ℕ → String
digit n =
    if ltb n 1
    then "0"
    else if ltb n 2
    then "1"
    else if ltb n 3
    then "2"
    else if ltb n 4
    then "3"
    else if ltb n 5
    then "4"
    else if ltb n 6
    then "5"
    else if ltb n 7
    then "6"
    else if ltb n 8
    then "7"
    else if ltb n 9
    then "8"
    else "9"

itoa_fuel : ℕ → ℕ → String
itoa_fuel zero n = digit n
itoa_fuel (suc f) n =
    let high = itoa_fuel f (n / 10) in if ltb n 10 then digit n else high ++ digit (n % 10)

-- `strconv.Itoa` of a number that is not negative. A number has fewer digits than its value.
unfoldable pub itoa : ℕ → String
unfolding itoa_fuel digit
itoa n = itoa_fuel n n
