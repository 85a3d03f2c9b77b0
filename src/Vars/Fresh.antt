-- ===== src/Vars/Fresh.antt =====
-- The name that `gen_var` of aris/src/expr.rs finds for a set of less than 2^64 names.
use text.Mathlib.TextLemmas.{append_cancel_left}
use aris.Base.{
  ℕ, zero, suc, ◌+◌, ◌^◌, ◌<◌, ◌≤◌, ◌≡◌, ◌≢◌, refl, ap, ◌∙◌, sym, String, Bool, true, false, Option,
  none, some, List, [], ◌∷◌, if◌then◌else◌, ◌==◌, string_eq, length, Bool-cases, inl, inr, arith,
  ==_path, ==_false, ◌||◌, Option-cases, some-inj,
}
use aris.Vars.{contains, remove, numbered, gen_from, gen_var}
use aris.Vars.Decimal.{to_decimal, to_decimal_inj}

numbered_inj : (prefix : String) (i j : ℕ) → numbered prefix i ≡ numbered prefix j → i ≡ j
numbered_inj prefix i j h =
    to_decimal_inj i j (append_cancel_left prefix (to_decimal i) (to_decimal j) h)

contains-remove_ne :
    (x y : String) (s : List String) → x ≢ y → contains y (remove x s) ≡ contains y s
unfolding remove
contains-remove_ne x y [] h = refl
contains-remove_ne x y (z ∷ s) h = elim (Bool-cases (z == x)) [
  | inl t ↦ rw (t, ==_false z y (λ e. h (sym (==_path z x t) ∙ e))) (contains-remove_ne x y s h)
  | inr f ↦ rw f (ap ((z == y) ||◌) (contains-remove_ne x y s h))
]

remove-le : (x : String) (s : List String) → length (remove x s) ≤ length s
unfolding remove
remove-le x [] = omega arith
remove-le x (z ∷ s) = elim (Bool-cases (z == x)) [
  | inl t ↦ rw t (omega (arith, remove-le x s))
  | inr f ↦ rw f (omega (arith, remove-le x s))
]

remove-lt : (x : String) (s : List String) → contains x s ≡ true → length (remove x s) < length s
unfolding remove
remove-lt x [] h = cc
remove-lt x (z ∷ s) h = elim (Bool-cases (z == x)) [
  | inl t ↦ rw t (omega (arith, remove-le x s))
  | inr f ↦ rw f (omega (arith, remove-lt x s (rw f at h)))
]

-- A set that holds `k` numbered names in a row has at least `k` members.
pigeonhole :
    (prefix : String) (k i : ℕ) (s : List String)
    → ((j : ℕ) → j < k → contains (numbered prefix (i + j)) s ≡ true)
    → k ≤ length s
pigeonhole prefix zero i s h = omega arith
pigeonhole prefix (suc k) i s h =
    let smaller : length (remove (numbered prefix (i + k)) s) < length s =
      remove-lt (numbered prefix (i + k)) s (h k (omega arith)) in
    let others : k ≤ length (remove (numbered prefix (i + k)) s) =
      pigeonhole prefix k i (remove (numbered prefix (i + k)) s) (λ j l.
        contains-remove_ne (numbered prefix (i + k)) (numbered prefix (i + j)) s
          (λ e. absurd (omega (arith, numbered_inj prefix (i + k) (i + j) e)))
        ∙ h j (omega arith)) in
    omega arith

add-zero : (i : ℕ) → i + 0 ≡ i
add-zero i = omega arith

add-suc : (i j : ℕ) → i + suc j ≡ i + 1 + j
add-suc i j = omega arith

if-none {ℓ} :
    {A : Type ℓ} (b : Bool) (rest : Option A) (x : A)
    → (if b then rest else some x) ≡ none
    → (b ≡ true) × (rest ≡ none)
if-none true rest x h = (refl, h)
if-none false rest x h = cc

-- Where the loop finds nothing, it has met members only.
gen_from-none :
    (fuel i : ℕ) (prefix : String) (avoid : List String)
    → gen_from fuel i prefix avoid ≡ none
    → (j : ℕ) → j < fuel
    → contains (numbered prefix (i + j)) avoid ≡ true
unfolding gen_from
gen_from-none zero i prefix avoid h j l = absurd (omega arith)
gen_from-none (suc fuel) i prefix avoid h zero l =
    rw (add-zero i)
      (if-none (contains (numbered prefix i) avoid) (gen_from fuel (i + 1) prefix avoid)
        (numbered prefix i) h).0
gen_from-none (suc fuel) i prefix avoid h (suc j) l = rw (add-suc i j) (
    gen_from-none fuel (i + 1) prefix avoid
      (if-none (contains (numbered prefix i) avoid) (gen_from fuel (i + 1) prefix avoid)
        (numbered prefix i) h).1
      j (omega arith))

gen_from-fresh :
    (fuel i : ℕ) (prefix : String) (avoid : List String) {x : String}
    → gen_from fuel i prefix avoid ≡ some x
    → contains x avoid ≡ false
unfolding gen_from
gen_from-fresh zero i prefix avoid h = cc
gen_from-fresh (suc fuel) i prefix avoid h =
    elim (Bool-cases (contains (numbered prefix i) avoid)) [
      | inl t ↦ gen_from-fresh fuel (i + 1) prefix avoid (rw t at h)
      | inr f ↦ rw (← some-inj (rw f at h)) f
    ]

-- Fuel beyond the number of members suffices.
gen_from_total :
    (fuel i : ℕ) (prefix : String) (avoid : List String)
    → length avoid < fuel
    → (x : String) × (gen_from fuel i prefix avoid ≡ some x)
gen_from_total fuel i prefix avoid h = elim (Option-cases (gen_from fuel i prefix avoid)) [
  | inl e ↦
      absurd (omega (arith, pigeonhole prefix fuel i avoid (gen_from-none fuel i prefix avoid e)))
  | inr p ↦ p
]

gen_from-first :
    (fuel i : ℕ) (prefix : String) (avoid : List String)
    → 0 < fuel
    → contains (numbered prefix i) avoid ≡ false
    → gen_from fuel i prefix avoid ≡ some (numbered prefix i)
unfolding gen_from
gen_from-first zero i prefix avoid l f = absurd (omega arith)
gen_from-first (suc fuel) i prefix avoid l f = rw f

-- A prefix that must be avoided is numbered, from 0.
pub gen_var-numbered :
    (prefix : String) (avoid : List String)
    → contains prefix avoid ≡ true
    → contains (numbered prefix 0) avoid ≡ false
    → gen_var prefix avoid ≡ some (numbered prefix 0)
unfolding gen_var
gen_var-numbered prefix avoid t f = rw t (gen_from-first (2 ^ 64) 0 prefix avoid (omega arith) f)

-- A prefix that need not be avoided is taken as it is.
pub gen_var-same :
    (prefix : String) (avoid : List String) {x : String}
    → contains prefix avoid ≡ false
    → gen_var prefix avoid ≡ some x
    → x ≡ prefix
unfolding gen_var
gen_var-same prefix avoid f h = sym (some-inj (rw f at h))

-- Whatever `gen_var` gives is not among the names to avoid.
pub gen_var-fresh :
    (prefix : String) (avoid : List String) {x : String}
    → gen_var prefix avoid ≡ some x
    → contains x avoid ≡ false
unfolding gen_var
gen_var-fresh prefix avoid h = elim (Bool-cases (contains prefix avoid)) [
  | inl t ↦ gen_from-fresh (2 ^ 64) 0 prefix avoid (rw t at h)
  | inr f ↦ rw (← some-inj (rw f at h)) f
]

-- For fewer than 2^64 names to avoid, `gen_var` does not panic, and gives a name that is not among
-- them: the prefix itself if that is not.
pub gen_var_lem :
    (prefix : String) (avoid : List String)
    → length avoid < 2 ^ 64
    → (x : String) × (gen_var prefix avoid ≡ some x)
      × (contains x avoid ≡ false)
      × (x ≡ (if contains prefix avoid then x else prefix))
unfolding gen_var
gen_var_lem prefix avoid h = elim (Bool-cases (contains prefix avoid)) [
  | inl t ↦
      let (x, e) = gen_from_total (2 ^ 64) 0 prefix avoid h in
      (x, rw t e, gen_from-fresh (2 ^ 64) 0 prefix avoid e, rw t)
  | inr f ↦ (prefix, rw f refl, f, rw f)
]
