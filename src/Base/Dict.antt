-- ===== src/Base/Dict.antt =====
-- A Go map with text keys, as an association list. Its order stands for the order in which Go
-- iterates, which the language leaves open.
use mathlib.Core.Path.{◌≡◌, refl}
use mathlib.Core.List.{List, [], ◌∷◌, ◌++◌}
use mathlib.Core.Logic.{inl, inr}
use mathlib.Core.Option.{Option, none, some}
use Prim.Native.String.{String}
use text.Mathlib.Text.{◌==◌ as str_eq}
use text.Mathlib.TextEquality.{eq_iff}
use text.Mathlib.TextPositions.{eq_refl}
use native.Mathlib.Omega.{arith}
use dark_routev.Base.Tests.{if◌then◌else◌, if_ind}
use dark_routev.Base.Lists.{In}

-- The entries of the map, each once
abbrev pub Dict : Type 0 → Type 0
Dict A = List (String × A)

module _ {A : Type 0} where
  unfoldable pub lookup : String → Dict A → Option A
  lookup wanted [] = none
  lookup wanted (e ∷ rest) = if str_eq e.0 wanted then some e.1 else lookup wanted rest

  unfoldable pub insert : String → A → Dict A → Dict A
  insert key a [] = (key, a) ∷ []
  insert key a (e ∷ rest) =
      let deeper = insert key a rest in if str_eq e.0 key then (key, a) ∷ rest else e ∷ deeper

  abbrev pub values : Dict A → List A
  values [] = []
  values (e ∷ rest) = e.1 ∷ values rest

  -- What is read after a binding: the new value under its key, and under another key what was there.
  pub lookup-insert :
      (key wanted : String) (a : A) (d : Dict A)
      → (if str_eq key wanted then some a else lookup wanted d) ≡ lookup wanted (insert key a d)
  unfolding insert lookup
  lookup-insert key wanted a [] = refl
  lookup-insert key wanted a (e ∷ rest) =
      let deeper = lookup-insert key wanted a rest in
      ground (arith, deeper, eq_iff e.0 key, eq_iff e.0 wanted, eq_iff key wanted)

  pub lookup-insert_same :
      (key : String) (a : A) (d : Dict A) → lookup key (insert key a d) ≡ some a
  lookup-insert_same key a d = rw (← lookup-insert key key a d, eq_refl key) refl

  -- Binding a key that is new appends it.
  pub insert_new :
      (key : String) (a : A) (d : Dict A)
      → lookup key d ≡ none
      → insert key a d ≡ d ++ ((key, a) ∷ [])
  unfolding lookup insert
  insert_new key a [] h = refl
  insert_new key a (e ∷ rest) h = ground (arith, insert_new key a rest)

  pub In-values-insert : (key : String) (a : A) (d : Dict A) → In a (values (insert key a d))
  unfolding insert
  In-values-insert key a [] = inl refl
  In-values-insert key a (e ∷ rest) =
      if_ind (λ (n : Dict A). In a (values n)) (str_eq e.0 key) ((key, a) ∷ rest)
        (e ∷ insert key a rest) (λ _. inl refl) (λ _. inr (In-values-insert key a rest))

  -- `delete(m, key)`
  unfoldable pub remove : String → Dict A → Dict A
  remove key [] = []
  remove key (e ∷ rest) =
      let deeper = remove key rest in if str_eq e.0 key then deeper else e ∷ deeper

  -- What is read after a removal: nothing under the key, and under another key what was there.
  pub lookup-remove :
      (key wanted : String) (d : Dict A)
      → (if str_eq key wanted then none else lookup wanted d) ≡ lookup wanted (remove key d)
  unfolding remove lookup
  lookup-remove key wanted [] = ground arith
  lookup-remove key wanted (e ∷ rest) =
      let deeper = lookup-remove key wanted rest in
      ground (arith, deeper, eq_iff e.0 key, eq_iff e.0 wanted, eq_iff key wanted)
