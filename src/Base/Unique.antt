-- ===== src/Base/Unique.antt =====
-- Lists of texts without repetition, as a loop with a set `seen` makes them.
use mathlib.Core.Path.{◌≡◌, refl}
use mathlib.Core.List.{List, [], ◌∷◌, ◌++◌}
use mathlib.Core.Bool.{false, ◌||◌}
use Prim.Native.String.{String}
use text.Mathlib.Text.{◌==◌ as str_eq}
use text.Mathlib.TextEquality.{eq_iff}
use native.Mathlib.Omega.{arith}
use dark_routev.Base.Text.{mem}

-- No text stands in the list twice.
abbrev pub NoRepeat : List String → Type 0
NoRepeat [] = Unit {0}
NoRepeat (x ∷ xs) = (mem x xs ≡ false) × NoRepeat xs

pub mem-snoc : (v x : String) (xs : List String) → mem v (xs ++ (x ∷ [])) ≡ (mem v xs || str_eq x v)
unfolding mem
mem-snoc v x [] = ground arith
mem-snoc v x (y ∷ xs) = ground (arith, mem-snoc v x xs)

pub snoc-NoRepeat :
    (x : String) (xs : List String) → NoRepeat xs → mem x xs ≡ false → NoRepeat (xs ++ (x ∷ []))
unfolding mem
snoc-NoRepeat x [] h e = (refl, tt)
snoc-NoRepeat x (y ∷ xs) h e =
    (ground (arith, mem-snoc y x xs, eq_iff x y, eq_iff y x), snoc-NoRepeat x xs h.1 (ground arith))

pub mem-append : (x : String) (xs ys : List String) → mem x (xs ++ ys) ≡ (mem x xs || mem x ys)
unfolding mem
mem-append x [] ys = ground arith
mem-append x (y ∷ xs) ys = ground (arith, mem-append x xs ys)
