-- ===== src/Base/First.antt =====
-- The first element of a list that passes a test, as a relation beside the loop that looks for it.
use mathlib.Core.Path.{◌≡◌, refl}
use mathlib.Core.Logic.{◌⊎◌, inl, inr}
use mathlib.Core.Bool.{Bool, true, false}
use mathlib.Core.List.{List, [], ◌∷◌}
use mathlib.Core.Option.{Option, none, some}
use native.Mathlib.Omega.{arith}
use dark_routev.Base.Tests.{if◌then◌else◌}
use dark_routev.Base.Lists.{first}

module _ {A : Type 0} (p : A → Bool) where
  -- The element passes the test, and those before it do not.
  abbrev pub IsFirst : A → List A → Type 0
  IsFirst a [] = ⊥
  IsFirst a (x ∷ xs) = ((p x ≡ true) × (x ≡ a)) ⊎ ((p x ≡ false) × IsFirst a xs)

  -- No element passes the test.
  abbrev pub NoneIs : List A → Type 0
  NoneIs [] = Unit {0}
  NoneIs (x ∷ xs) = (p x ≡ false) × NoneIs xs

  found :
      (b : Bool) (x a : A) (o : Option A)
      → (if b then some x else o) ≡ some a
      → ((b ≡ true) × (x ≡ a)) ⊎ ((b ≡ false) × (o ≡ some a))
  found true x a o e = inl (refl, ground (arith, e))
  found false x a o e = inr (refl, e)

  later :
      (x a : A) (xs : List A)
      → (o : Option A) → (o ≡ some a → IsFirst a xs)
      → ((p x ≡ true) × (x ≡ a)) ⊎ ((p x ≡ false) × (o ≡ some a))
      → IsFirst a (x ∷ xs)
  later x a xs o h (inl e) = inl e
  later x a xs o h (inr (n, e)) = inr (n, h e)

  pub first-IsFirst : (a : A) (xs : List A) → first p xs ≡ some a → IsFirst a xs
  first-IsFirst a [] e = ground (arith, e)
  first-IsFirst a (x ∷ xs) e =
      later x a xs (first p xs) (first-IsFirst a xs) (found (p x) x a (first p xs) e)

  pub IsFirst-first : (a : A) (xs : List A) → IsFirst a xs → first p xs ≡ some a
  IsFirst-first a [] e = elim e [ ]
  IsFirst-first a (x ∷ xs) (inl (t, e)) = rw (t, e) refl
  IsFirst-first a (x ∷ xs) (inr (f, h)) = rw f (IsFirst-first a xs h)

  pub NoneIs-first : (xs : List A) → NoneIs xs → first p xs ≡ none
  NoneIs-first [] h = refl
  NoneIs-first (x ∷ xs) (f, h) = rw f (NoneIs-first xs h)

-- Tests that agree find the same element.
pub first-ext :
    {A : Type 0} (p q : A → Bool) → ((x : A) → p x ≡ q x) → (xs : List A) → first p xs ≡ first q xs
first-ext p q h [] = refl
first-ext p q h (x ∷ xs) = rw (h x, first-ext p q h xs) refl
