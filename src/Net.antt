-- ===== src/Net.antt =====
-- What the source uses of the packages net, strconv and strings to read an endpoint `host:port`:
-- splitEndpointHostPort of daemon/internal/dpi/variants.go, which daemon/internal/aiadvisor/netutil.go
-- repeats as splitHostPortCompat.
pub mod Laws
mod Tests
use Prim.Native.Char.{code}
use dark_routev.Base.{
  Bool, Option, String, [], contains, if◌then◌else◌, itoa, leb, ltb, none, not, some, str_eq, ℕ,
  ◌&&◌, ◌*◌, ◌+◌, ◌-◌, ◌<>◌, ◌==◌, ◌||◌, ◌∷◌,
}

-- `strings.LastIndex` for one byte, as the texts before and after it.
unfoldable pub split_last : ℕ → String → Option (String × String)
split_last c String.[] = none
split_last c (String.◌∷◌ x s) = elim (split_last c s) [
  | some (a, b) ↦ some (String.◌∷◌ x a, b)
  | none ↦ if code x == c then some (String.[], s) else none
]

-- `strings.IndexByte`, as the texts before and after it.
unfoldable pub split_first : ℕ → String → Option (String × String)
split_first c String.[] = none
split_first c (String.◌∷◌ x s) =
    let rest = split_first c s in
    if code x == c
    then some (String.[], s)
    else elim rest [ some (a, b) ↦ some (String.◌∷◌ x a, b) | none ↦ none ]

abbrev has_bracket : String → Bool
has_bracket s = contains s "[" || contains s "]"

-- The text behind a closing bracket is ":port".
bracketed_port : String → String → Option (String × String)
bracketed_port host String.[] = none
bracketed_port host (String.◌∷◌ x s) =
    if code x == b':' && not (contains s ":") && not (has_bracket s) && not (contains host "[")
    then some (host, s)
    else none

-- `net.SplitHostPort`; `none` is its error.
unfoldable pub split_host_port : String → Option (String × String)
unfolding bracketed_port split_last split_first
split_host_port String.[] = none
split_host_port (String.◌∷◌ x s) =
    if code x == b'['
    then elim (split_first b']' s) [ none ↦ none | some (host, rest) ↦ bracketed_port host rest ]
    else elim (split_last b':' (String.◌∷◌ x s)) [
      | none ↦ none
      | some (host, port) ↦
          if contains host ":" || has_bracket host || has_bracket port
          then none
          else some (host, port)
    ]

is_space : ℕ → Bool
is_space c =
    (leb 9 c && leb c 13)
    || c == 32
    || c == 0x85
    || c == 0xa0
    || c == 0x1680
    || (leb 0x2000 c && leb c 0x200a)
    || c == 0x2028
    || c == 0x2029
    || c == 0x202f
    || c == 0x205f
    || c == 0x3000

trim_left : String → String
trim_left String.[] = String.[]
trim_left (String.◌∷◌ x s) =
    let rest = trim_left s in if is_space (code x) then rest else String.◌∷◌ x s

-- A text without the spaces at its end.
trim_right : String → String
trim_right String.[] = String.[]
trim_right (String.◌∷◌ x s) = elim (trim_right s) [
  | String.[] ↦ if is_space (code x) then String.[] else String.◌∷◌ x String.[]
  | String.◌∷◌ y t ↦ String.◌∷◌ x (String.◌∷◌ y t)
]

-- `strings.TrimSpace`
unfoldable pub trim_space : String → String
unfolding is_space trim_left trim_right
trim_space s = trim_right (trim_left s)

digits_value : String → ℕ → Option ℕ
digits_value String.[] acc = some acc
digits_value (String.◌∷◌ x s) acc =
    let rest = digits_value s (acc * 10 + (code x - b'0')) in
    if leb b'0' (code x) && leb (code x) b'9' then rest else none

-- `strconv.Atoi` where only positive results are used: an error, also for a minus sign, is `none`.
-- A number that overflows `int` is above every bound that the callers set.
unfoldable pub atoi_positive : String → Option ℕ
unfolding digits_value
atoi_positive String.[] = none
atoi_positive (String.◌∷◌ x s) =
    if code x == b'+' && not (str_eq s "")
    then digits_value s 0
    else digits_value (String.◌∷◌ x s) 0

-- `portNum <= 0 || portNum > 65535`
checked_port : String → Option ℕ → Option (String × ℕ)
checked_port host none = none
checked_port host (some p) = if p == 0 || ltb 65535 p then none else some (host, p)

-- The manual split by the last colon, with text on both sides.
fallback_split : String → Option (String × String)
fallback_split endpoint = elim (split_last b':' endpoint) [
  | none ↦ none
  | some (h, p) ↦ if str_eq h "" || str_eq p "" then none else some (h, p)
]

or_fallback : String → Option (String × String) → Option (String × String)
or_fallback endpoint (some hp) = some hp
or_fallback endpoint none = fallback_split endpoint

read_port : Option (String × String) → Option (String × ℕ)
unfolding checked_port trim_space atoi_positive
read_port none = none
read_port (some (h, p)) = checked_port h (atoi_positive (trim_space p))

-- `splitEndpointHostPort` and `splitHostPortCompat`; `none` is `ok == false`.
unfoldable pub split_endpoint_host_port : String → Option (String × ℕ)
unfolding read_port or_fallback fallback_split split_host_port
split_endpoint_host_port endpoint = read_port (or_fallback endpoint (split_host_port endpoint))

-- `joinEndpointHostPort` and `joinHostPortCompat`: `net.JoinHostPort` puts brackets round a host
-- that has a colon.
unfoldable pub join_endpoint_host_port : String → ℕ → String
unfolding itoa
join_endpoint_host_port host port =
    if contains host ":" then "[" <> host <> "]:" <> itoa port else host <> ":" <> itoa port
