-- ===== src/Base/Product.antt =====
-- `itertools::multi_cartesian_product`, which the program uses and does not contain: an interface
-- with the documented order (the last list varies fastest). For no list at all the versions of the
-- crate differ: they yield nothing, or one empty product.
use Prim.Native.Nat.{ℕ, zero, suc}
use mathlib.Core.Path.{◌≡◌, refl}
use mathlib.Core.Logic.{◌⊎◌, inl}
use mathlib.Core.List.{List, [], ◌∷◌, ◌++◌, map, flat_map}
use aris.Base.Lists.{length}

pub record CartesianProduct : Type 1 where
  pub multi_cartesian_product : (A : Type 0) → List (List A) → List (List A)
  pub no_list :
      (A : Type 0) → (multi_cartesian_product A [] ≡ []) ⊎ (multi_cartesian_product A [] ≡ [] ∷ [])
  pub one_list :
      (A : Type 0) (xs : List A) → multi_cartesian_product A (xs ∷ []) ≡ map (λ x. x ∷ []) xs
  pub more_lists :
      (A : Type 0) (xs ys : List A) (rest : List (List A))
      → multi_cartesian_product A (xs ∷ ys ∷ rest)
        ≡ flat_map (λ x. map (x ∷◌) (multi_cartesian_product A (ys ∷ rest))) xs

-- A product that meets the interface.
abbrev pub product : (A : Type 0) → List (List A) → List (List A)
product A [] = []
product A (xs ∷ []) = map (λ x. x ∷ []) xs
product A (xs ∷ ys ∷ rest) = flat_map (λ x. map (x ∷◌) (product A (ys ∷ rest))) xs

abbrev pub itertools : CartesianProduct
itertools = record {
  multi_cartesian_product = product;
  no_list = λ A. inl refl;
  one_list = λ A xs. refl;
  more_lists = λ A xs ys rest. refl;
}

-- `Itertools::permutations` of a whole list, as it is documented: by the places, the first first. What
-- is said is said of at most three elements.
pub record Permutations : Type 1 where
  pub permutations : (A : Type 0) → List A → List (List A)
  pub permutations_none : (A : Type 0) → permutations A [] ≡ [] ∷ []
  pub permutations_one : (A : Type 0) (a : A) → permutations A (a ∷ []) ≡ (a ∷ []) ∷ []
  pub permutations_two :
      (A : Type 0) (a b : A) → permutations A (a ∷ b ∷ []) ≡ (a ∷ b ∷ []) ∷ (b ∷ a ∷ []) ∷ []
  pub permutations_three :
      (A : Type 0) (a b c : A)
      → permutations A (a ∷ b ∷ c ∷ [])
        ≡ (a ∷ b ∷ c ∷ [])
          ∷ (a ∷ c ∷ b ∷ [])
          ∷ (b ∷ a ∷ c ∷ [])
          ∷ (b ∷ c ∷ a ∷ [])
          ∷ (c ∷ a ∷ b ∷ [])
          ∷ (c ∷ b ∷ a ∷ [])
          ∷ []

-- The orders by the position that comes first, with the number of elements as fuel.
abbrev picks : {A : Type 0} → List A → List A → List (A × List A)
picks before [] = []
picks before (e ∷ es) = (e, before ++ es) ∷ picks (before ++ (e ∷ [])) es

abbrev append_all : {A : Type 0} → List (List A) → List A
append_all [] = []
append_all (xs ∷ xss) = xs ++ append_all xss

abbrev orders : {A : Type 0} → ℕ → List A → List (List A)
orders zero es = [] ∷ []
orders (suc n) es =
    append_all (map (λ pick. map (λ rest. pick.0 ∷ rest) (orders n pick.1)) (picks [] es))

-- Orders that meet the interface.
abbrev pub by_position : Permutations
by_position = record {
  permutations = λ A es. orders (length es) es;
  permutations_none = λ A. refl;
  permutations_one = λ A a. refl;
  permutations_two = λ A a b. refl;
  permutations_three = λ A a b c. refl;
}
