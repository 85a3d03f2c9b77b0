-- ===== src/Base/Quantify.antt =====
-- `all` and `any` over a list, as `Iterator::all` and `Iterator::any`.
use mathlib.Core.Path.{◌≡◌, refl, ◌∙◌, sym, ap}
use mathlib.Core.Bool.{Bool, true, false, ◌&&◌, ◌||◌}
use mathlib.Core.List.{List, [], ◌∷◌, ◌++◌, map, flatten, flat_map}
use native.Mathlib.Omega.{arith}

pub and_assoc : (a b c : Bool) → ((a && b) && c) ≡ (a && (b && c))
and_assoc true b c = refl
and_assoc false b c = refl

pub or_assoc : (a b c : Bool) → ((a || b) || c) ≡ (a || (b || c))
or_assoc true b c = refl
or_assoc false b c = refl

pub and-left : (a b : Bool) → (a && b) ≡ true → a ≡ true
and-left true b h = refl
and-left false b h = h

pub and-right : (a b : Bool) → (a && b) ≡ true → b ≡ true
and-right true b h = h
and-right false b h = absurd cc

pub or_false : (a : Bool) → (a || false) ≡ a
or_false true = refl
or_false false = refl

pub or_and_distrib : (a b c : Bool) → ((a || c) && (b || c)) ≡ ((a && b) || c)
or_and_distrib true b c = ground arith
or_and_distrib false b true = ground arith
or_and_distrib false b false = ground arith

pub or_and_distrib_left : (c a b : Bool) → ((c || a) && (c || b)) ≡ (c || (a && b))
or_and_distrib_left true a b = refl
or_and_distrib_left false a b = refl

module _ {ℓ} {A : Type ℓ} where
  abbrev pub all : (A → Bool) → List A → Bool
  all p [] = true
  all p (x ∷ xs) = p x && all p xs

  abbrev pub any : (A → Bool) → List A → Bool
  any p [] = false
  any p (x ∷ xs) = p x || any p xs

  pub all-append : (p : A → Bool) (xs ys : List A) → all p (xs ++ ys) ≡ (all p xs && all p ys)
  all-append p [] ys = refl
  all-append p (x ∷ xs) ys = ap (p x &&◌) (all-append p xs ys) ∙ sym (and_assoc (p x) _ _)

  pub any-append : (p : A → Bool) (xs ys : List A) → any p (xs ++ ys) ≡ (any p xs || any p ys)
  any-append p [] ys = refl
  any-append p (x ∷ xs) ys = ap (p x ||◌) (any-append p xs ys) ∙ sym (or_assoc (p x) _ _)

  pub all-or_left :
      (c : Bool) (p : A → Bool) (xs : List A) → all (λ x. c || p x) xs ≡ (c || all p xs)
  all-or_left true p [] = refl
  all-or_left false p [] = refl
  all-or_left c p (x ∷ xs) =
      ap ((c || p x) &&◌) (all-or_left c p xs) ∙ or_and_distrib_left c (p x) (all p xs)

  pub all-or_right :
      (c : Bool) (p : A → Bool) (xs : List A) → all (λ x. p x || c) xs ≡ (all p xs || c)
  all-or_right c p [] = refl
  all-or_right c p (x ∷ xs) =
      ap ((p x || c) &&◌) (all-or_right c p xs) ∙ or_and_distrib (p x) (all p xs) c

module _ {ℓ κ} {A : Type ℓ} {B : Type κ} where
  pub all-map : (p : B → Bool) (f : A → B) (xs : List A) → all p (map f xs) ≡ all (λ x. p (f x)) xs
  all-map p f [] = refl
  all-map p f (x ∷ xs) = ap (p (f x) &&◌) (all-map p f xs)

  pub any-map : (p : B → Bool) (f : A → B) (xs : List A) → any p (map f xs) ≡ any (λ x. p (f x)) xs
  any-map p f [] = refl
  any-map p f (x ∷ xs) = ap (p (f x) ||◌) (any-map p f xs)

  pub all-flat_map :
      (p : B → Bool) (f : A → List B) (xs : List A)
      → all p (flat_map f xs) ≡ all (λ x. all p (f x)) xs
  unfolding flat_map
  all-flat_map p f [] = refl
  all-flat_map p f (x ∷ xs) =
      all-append p (f x) (flat_map f xs) ∙ ap (all p (f x) &&◌) (all-flat_map p f xs)

module _ {ℓ} {A : Type ℓ} where
  pub any-flatten : (p : A → Bool) (xss : List (List A)) → any p (flatten xss) ≡ any (any p) xss
  unfolding flatten
  any-flatten p [] = refl
  any-flatten p (xs ∷ xss) = any-append p xs (flatten xss) ∙ ap (any p xs ||◌) (any-flatten p xss)

  pub all-flatten : (p : A → Bool) (xss : List (List A)) → all p (flatten xss) ≡ all (all p) xss
  unfolding flatten
  all-flatten p [] = refl
  all-flatten p (xs ∷ xss) = all-append p xs (flatten xss) ∙ ap (all p xs &&◌) (all-flatten p xss)

module _ {ℓ} {A : Type ℓ} where
  abbrev pub is_nil : List A → Bool
  is_nil [] = true
  is_nil (_ ∷ _) = false

  is_nil-append : (xs ys : List A) → is_nil (xs ++ ys) ≡ (is_nil xs && is_nil ys)
  is_nil-append [] ys = refl
  is_nil-append (x ∷ xs) ys = refl

  pub all-const : (c : Bool) (xs : List A) → all (λ _. c) xs ≡ (is_nil xs || c)
  all-const true [] = refl
  all-const false [] = refl
  all-const true (x ∷ xs) = all-const true xs ∙ ground arith
  all-const false (x ∷ xs) = refl

module _ {ℓ κ} {A : Type ℓ} {B : Type κ} where
  pub is_nil-map : (f : A → B) (xs : List A) → is_nil (map f xs) ≡ is_nil xs
  is_nil-map f [] = refl
  is_nil-map f (x ∷ xs) = refl

  pub is_nil-flat_map :
      (f : A → List B) (xs : List A) → is_nil (flat_map f xs) ≡ all (λ x. is_nil (f x)) xs
  unfolding flat_map
  is_nil-flat_map f [] = refl
  is_nil-flat_map f (x ∷ xs) =
      is_nil-append (f x) (flat_map f xs) ∙ ap (is_nil (f x) &&◌) (is_nil-flat_map f xs)
