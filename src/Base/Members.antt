-- ===== src/Base/Members.antt =====
-- Members of a list, with the place they stand at, and the members of a product of lists.
use mathlib.Core.Path.{◌≡◌, refl, ap, subst}
use mathlib.Core.Logic.{◌⊎◌, inl, inr}
use mathlib.Core.List.{List, [], ◌∷◌, ◌++◌, map, flat_map}
use aris.Base.Product.{CartesianProduct}

module _ {A : Type 0} where
  abbrev pub In : A → List A → Type 0
  In x [] = ⊥
  In x (y ∷ ys) = (x ≡ y) ⊎ In x ys

  In-left : (x : A) (xs ys : List A) → In x xs → In x (xs ++ ys)
  In-left x [] ys h = elim h [ ]
  In-left x (y ∷ xs) ys (inl e) = inl e
  In-left x (y ∷ xs) ys (inr h) = inr (In-left x xs ys h)

  In-right : (x : A) (xs ys : List A) → In x ys → In x (xs ++ ys)
  In-right x [] ys h = h
  In-right x (y ∷ xs) ys h = inr (In-right x xs ys h)

  In-append : (x : A) (xs ys : List A) → In x (xs ++ ys) → In x xs ⊎ In x ys
  In-append x [] ys h = inr h
  In-append x (y ∷ xs) ys (inl e) = inl (inl e)
  In-append x (y ∷ xs) ys (inr h) = elim (In-append x xs ys h) [
    | inl l ↦ inl (inr l)
    | inr r ↦ inr r
  ]

  -- An element from each list.
  abbrev pub EachIn : List A → List (List A) → Type 0
  EachIn [] [] = Unit
  EachIn [] (ys ∷ yss) = ⊥
  EachIn (x ∷ xs) [] = ⊥
  EachIn (x ∷ xs) (ys ∷ yss) = In x ys × EachIn xs yss

module _ {A B : Type 0} where
  pub map-In : (f : A → B) (x : A) (xs : List A) → In x xs → In (f x) (map f xs)
  map-In f x [] h = h
  map-In f x (y ∷ xs) (inl e) = inl (ap f e)
  map-In f x (y ∷ xs) (inr h) = inr (map-In f x xs h)

  pub In-map : (f : A → B) (y : B) (xs : List A) → In y (map f xs) → (x : A) × In x xs × (y ≡ f x)
  In-map f y [] h = elim h [ ]
  In-map f y (x ∷ xs) (inl e) = (x, inl refl, e)
  In-map f y (x ∷ xs) (inr h) = let (x', i, e) = In-map f y xs h in (x', inr i, e)

  pub flat_map-In :
      (f : A → List B) (x : A) (y : B) (xs : List A) → In x xs → In y (f x) → In y (flat_map f xs)
  unfolding flat_map
  flat_map-In f x y [] h h' = elim h [ ]
  flat_map-In f x y (x' ∷ xs) (inl e) h' =
      In-left y (f x') (flat_map f xs) (subst (λ z. In y (f z)) e h')
  flat_map-In f x y (x' ∷ xs) (inr h) h' =
      In-right y (f x') (flat_map f xs) (flat_map-In f x y xs h h')

  pub In-flat_map :
      (f : A → List B) (y : B) (xs : List A) → In y (flat_map f xs) → (x : A) × In x xs × In y (f x)
  unfolding flat_map
  In-flat_map f y [] h = elim h [ ]
  In-flat_map f y (x ∷ xs) h = elim (In-append y (f x) (flat_map f xs) h) [
    | inl l ↦ (x, inl refl, l)
    | inr r ↦ let (x', i, j) = In-flat_map f y xs r in (x', inr i, j)
  ]

module _ (itertools : CartesianProduct) {A : Type 0} where
  -- A product of one list or more has as its members the choices of an element from each.
  pub product-In :
      (l : List A) (xs : List A) (xss : List (List A))
      → EachIn l (xs ∷ xss)
      → In l (itertools.multi_cartesian_product A (xs ∷ xss))
  product-In [] xs xss h = elim h [ ]
  product-In (x ∷ []) xs [] (h, h') = rw (itertools.one_list A xs) (map-In (λ x. x ∷ []) x xs h)
  product-In (x ∷ y ∷ l) xs [] (h, h') = elim h' [ ]
  product-In (x ∷ l) xs (ys ∷ rest) (h, h') = rw (itertools.more_lists A xs ys rest) (
      flat_map-In _ x (x ∷ l) xs h (
        map-In (x ∷◌) l (itertools.multi_cartesian_product A (ys ∷ rest))
          (product-In l ys rest h')))

  pub In-product :
      (l : List A) (xs : List A) (xss : List (List A))
      → In l (itertools.multi_cartesian_product A (xs ∷ xss))
      → EachIn l (xs ∷ xss)
  In-product l xs [] h =
      let (x, i, e) = In-map (λ x. x ∷ []) l xs (rw (itertools.one_list A xs) at h) in rw e (i, _)
  In-product l xs (ys ∷ rest) h =
      let (x, i, j) = In-flat_map _ l xs (rw (itertools.more_lists A xs ys rest) at h) in
      let (l', k, e) = In-map (x ∷◌) l (itertools.multi_cartesian_product A (ys ∷ rest)) j in
      rw e (i, In-product l' ys rest k)
