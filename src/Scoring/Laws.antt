-- ===== src/Scoring/Laws.antt =====
-- Ranking is a permutation in descending order of the scores.
use mathlib.Core.List.{Perm}
use mathlib.Core.List.Perm
use dark_routev.Base.{
  All, Bool, List, [], ap, false, if_ind, if◌then◌else◌, map, refl, subst, sym, true, ◌∷◌, ◌≡◌,
}
use dark_routev.Base.Dict.{Dict}
use dark_routev.Config.{TunnelConfig}
use dark_routev.Scoring.{
  Floats, Entry, entry_or_default, composite_score, insert_by_score, sort_by_score, scored, rank,
}

module _ {F : Type 0} (f : Floats F) where
  -- No pair is followed by one with a greater score.
  abbrev Chain : List (F × TunnelConfig) → Type 0
  Chain [] = Unit {0}
  Chain (x ∷ []) = Unit {0}
  Chain (x ∷ y ∷ rest) = (f.less x.0 y.0 ≡ false) × Chain (y ∷ rest)

  abbrev score : Dict (Entry F) → TunnelConfig → F
  score db tc = composite_score f (entry_or_default f db tc.id) tc

  -- No configuration is followed by one with a greater score.
  abbrev pub IsDescending : Dict (Entry F) → List TunnelConfig → Type 0
  IsDescending db [] = Unit {0}
  IsDescending db (x ∷ []) = Unit {0}
  IsDescending db (x ∷ y ∷ rest) =
      (f.less (score db x) (score db y) ≡ false) × IsDescending db (y ∷ rest)

  insert-perm :
      (x : F × TunnelConfig) (xs : List (F × TunnelConfig)) → Perm (insert_by_score f x xs) (x ∷ xs)
  unfolding insert_by_score
  insert-perm x [] = Perm.refl (x ∷ [])
  insert-perm x (y ∷ rest) =
      if_ind (λ out. Perm out (x ∷ y ∷ rest)) (f.less y.0 x.0) (x ∷ y ∷ rest)
        (y ∷ insert_by_score f x rest) (λ _. Perm.refl (x ∷ y ∷ rest))
        (λ _. Perm.trans (Perm.cons y (insert-perm x rest)) (Perm.swap x y rest))

  sort-perm : (xs : List (F × TunnelConfig)) → Perm (sort_by_score f xs) xs
  unfolding sort_by_score
  sort-perm [] = Perm.refl []
  sort-perm (x ∷ rest) =
      Perm.trans (insert-perm x (sort_by_score f rest)) (Perm.cons x (sort-perm rest))

  -- What stands before an insertion that goes past it
  after_head :
      (y z x : F × TunnelConfig) (rest : List (F × TunnelConfig))
      → f.less y.0 x.0 ≡ false
      → f.less y.0 z.0 ≡ false
      → Chain (insert_by_score f x (z ∷ rest))
      → Chain (y ∷ insert_by_score f x (z ∷ rest))
  unfolding insert_by_score
  after_head y z x rest n m = headed (f.less z.0 x.0)
    where
      headed :
          (b : Bool)
          → Chain (if b then x ∷ z ∷ rest else z ∷ insert_by_score f x rest)
          → Chain (y ∷ (if b then x ∷ z ∷ rest else z ∷ insert_by_score f x rest))
      headed true c = (n, c)
      headed false c = (m, c)

  insert-Chain :
      ((a b : F) → f.less a b ≡ true → f.less b a ≡ false)
      → (x : F × TunnelConfig) (xs : List (F × TunnelConfig)) → Chain xs
      → Chain (insert_by_score f x xs)
  unfolding insert_by_score
  insert-Chain asym x [] c = tt
  insert-Chain asym x (y ∷ []) c =
      if_ind Chain (f.less y.0 x.0) (x ∷ y ∷ []) (y ∷ x ∷ []) (λ t. (asym y.0 x.0 t, tt))
        (λ n. (n, tt))
  insert-Chain asym x (y ∷ z ∷ rest) c =
      let deeper = insert-Chain asym x (z ∷ rest) c.1 in
      if_ind Chain (f.less y.0 x.0) (x ∷ y ∷ z ∷ rest) (y ∷ insert_by_score f x (z ∷ rest))
        (λ t. (asym y.0 x.0 t, c)) (λ n. after_head y z x rest n c.0 deeper)

  sort-Chain :
      ((a b : F) → f.less a b ≡ true → f.less b a ≡ false)
      → (xs : List (F × TunnelConfig)) → Chain (sort_by_score f xs)
  unfolding sort_by_score
  sort-Chain asym [] = tt
  sort-Chain asym (x ∷ rest) = insert-Chain asym x (sort_by_score f rest) (sort-Chain asym rest)

  Scored : Dict (Entry F) → List (F × TunnelConfig) → Type 0
  Scored db = All (λ x. x.0 ≡ score db x.1)

  insert-Scored :
      (db : Dict (Entry F)) (x : F × TunnelConfig) (xs : List (F × TunnelConfig))
      → x.0 ≡ score db x.1
      → Scored db xs
      → Scored db (insert_by_score f x xs)
  unfolding insert_by_score Scored
  insert-Scored db x [] e h = (e, tt)
  insert-Scored db x (y ∷ rest) e h =
      if_ind (All (λ x. x.0 ≡ score db x.1)) (f.less y.0 x.0) (x ∷ y ∷ rest)
        (y ∷ insert_by_score f x rest) (λ _. (e, h)) (λ _. (h.0, insert-Scored db x rest e h.1))

  sort-Scored :
      (db : Dict (Entry F)) (tcs : List TunnelConfig)
      → Scored db (sort_by_score f (map (scored f db) tcs))
  unfolding sort_by_score scored Scored
  sort-Scored db [] = tt
  sort-Scored db (tc ∷ tcs) = insert-Scored db (score db tc, tc) _ refl (sort-Scored db tcs)

  descending :
      (db : Dict (Entry F)) (xs : List (F × TunnelConfig))
      → Scored db xs
      → Chain xs
      → IsDescending db (map (λ (x : F × TunnelConfig). x.1) xs)
  unfolding Scored
  descending db [] h c = tt
  descending db (x ∷ []) h c = tt
  descending db (x ∷ y ∷ rest) h c = (
    subst (λ a. f.less a (score db y.1) ≡ false) h.0 (subst (λ a. f.less x.0 a ≡ false) h.1.0 c.0),
    descending db (y ∷ rest) h.1 c.1,
  )

  map-scored :
      (db : Dict (Entry F)) (tcs : List TunnelConfig)
      → map (λ (x : F × TunnelConfig). x.1) (map (scored f db) tcs) ≡ tcs
  unfolding scored
  map-scored db [] = refl
  map-scored db (tc ∷ tcs) = ap (λ ts. tc ∷ ts) (map-scored db tcs)

  -- The ranking gives back the configurations, each as often as it was given, so that none is
  -- followed by one with a greater composite score, if no two floats are each less than the other.
  pub rank-IsDescending :
      (db : Dict (Entry F)) (configs : List TunnelConfig)
      → ((a b : F) → f.less a b ≡ true → f.less b a ≡ false)
      → Perm (rank f db configs) configs × IsDescending db (rank f db configs)
  unfolding rank
  rank-IsDescending db configs asym =
      let pairs : List (F × TunnelConfig) = map (scored f db) configs in
      (
        Perm.trans (Perm.map (λ (x : F × TunnelConfig). x.1) (sort-perm pairs))
            (subst (λ ts. Perm ts configs) (sym (map-scored db configs)) (Perm.refl configs)),
        descending db (sort_by_score f pairs) (sort-Scored db configs) (sort-Chain asym pairs),
      )
