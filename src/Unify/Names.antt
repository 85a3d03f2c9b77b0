-- ===== src/Unify/Names.antt =====
-- The names in the constraints of `unify` in aris/src/expr.rs, and how many of a list of names occur there.
use aris.Base.{
  ℕ, ◌+◌, ◌≤◌, ◌<◌, String, Bool, true, false, ◌||◌, some, List, [], ◌∷◌, any, ◌≡◌, refl,
  if◌then◌else◌, ◌==◌, string_eq, Bool-cases, inl, inr, ◌⊎◌, ==_path, arith,
}
use aris.Expr.{Expr, Exprs, apply, nil, cons}
use aris.Vars.{contains, free_vars, free_vars_all}
use aris.Vars.Occurs.{contains-extend_left, contains-extend_right}
use aris.Unify.{Constraint, equal, extend_constraints, take_out, operand_constraints, zip_equal}
use aris.Unify.Plain.{put-free_vars, either_part, Remains}
use aris.Unify.Sets.{Each, Each-map, extend-Each, take_out-Each, any-elim, any-Each_self}
use aris.Unify.View.{Plain, put_both, put_set, put_set-Each}
use aris.Unify.Operands.{Alike, nots, impls, applies, assocs, operands-Alike}

abbrev pub mentions : String → Constraint → Bool
mentions n (equal a b) = contains n (free_vars a) || contains n (free_vars b)

abbrev pub occurs : String → List Constraint → Bool
occurs n c = any (mentions n) c

-- Only names of the second set occur in the first.
abbrev pub Below : List Constraint → List Constraint → Type 0
Below c' c = (n : String) → occurs n c' ≡ true → occurs n c ≡ true

abbrev How : String → List Constraint → Constraint → Type 0
How n c d = mentions n d ≡ true → occurs n c ≡ true

or_either : (a b : Bool) → (a || b) ≡ true → (a ≡ true) ⊎ (b ≡ true)
or_either true b h = inl refl
or_either false b h = inr h

or_left_true : (a b : Bool) → a ≡ true → (a || b) ≡ true
or_left_true a b h = rw h refl

or_right_true : (a b : Bool) → b ≡ true → (a || b) ≡ true
or_right_true true b h = refl
or_right_true false b h = h

or_mono :
    (a b a' b' : Bool)
    → (a ≡ true → a' ≡ true)
    → (b ≡ true → b' ≡ true)
    → (a || b) ≡ true
    → (a' || b') ≡ true
or_mono a b a' b' f g h = elim (or_either a b h) [
  | inl t ↦ or_left_true a' b' (f t)
  | inr t ↦ or_right_true a' b' (g t)
]

module _ (n : String) where
  -- What the operands mention, the operators do.
  abbrev Under : Exprs → Exprs → Constraint → Type 0
  Under es fs d =
      mentions n d ≡ true → (contains n (free_vars_all es) || contains n (free_vars_all fs)) ≡ true

  zip-mentions : (es fs : Exprs) → Each (Under es fs) (zip_equal es fs)
  unfolding zip_equal free_vars
  zip-mentions nil nil = tt
  zip-mentions nil (cons f fs) = tt
  zip-mentions (cons e es) nil = tt
  zip-mentions (cons e es) (cons f fs) = (
    or_mono _ _ _ _ (contains-extend_left n (free_vars e) (free_vars_all es))
        (contains-extend_left n (free_vars f) (free_vars_all fs)),
    Each-map (Under es fs) (Under (cons e es) (cons f fs))
        (λ d g m.
          or_mono (contains n (free_vars_all es)) (contains n (free_vars_all fs)) _ _
            (contains-extend_right n (free_vars e) (free_vars_all es))
            (contains-extend_right n (free_vars f) (free_vars_all fs)) (g m))
        (zip_equal es fs) (zip-mentions es fs),
  )

  abbrev Within : Expr → Expr → Constraint → Type 0
  Within left right d = mentions n d ≡ true → mentions n (equal left right) ≡ true

  Alike-mentions :
      (left right : Expr) (cs : List Constraint) → Alike left right cs → Each (Within left right) cs
  unfolding free_vars
  Alike-mentions left right cs (nots s t) = (λ h. h, tt)
  Alike-mentions left right cs (impls sl sr tl tr) = (
    or_mono _ _ _ _ (contains-extend_left n (free_vars sl) (free_vars sr))
        (contains-extend_left n (free_vars tl) (free_vars tr)),
    (
      or_mono _ _ _ _ (contains-extend_right n (free_vars sl) (free_vars sr))
          (contains-extend_right n (free_vars tl) (free_vars tr)),
      tt,
    ),
  )
  Alike-mentions left right cs (applies f es g fs l) = (
    or_mono _ _ _ _ (contains-extend_left n (free_vars f) (free_vars_all es))
        (contains-extend_left n (free_vars g) (free_vars_all fs)),
    Each-map (Under es fs) (Within (apply f es) (apply g fs))
        (λ d k m.
          or_mono (contains n (free_vars_all es)) (contains n (free_vars_all fs)) _ _
            (contains-extend_right n (free_vars f) (free_vars_all es))
            (contains-extend_right n (free_vars g) (free_vars_all fs)) (k m))
        (zip_equal es fs) (zip-mentions es fs),
  )
  Alike-mentions left right cs (assocs op es op2 fs e l) = zip-mentions es fs

module _ (i : ℕ) (s : List Constraint) (left right : Expr) (c : List Constraint)
    (taken : take_out i s ≡ some (equal left right, c)) where
  parts : (n : String) → How n s (equal left right) × Each (How n s) c
  parts n =
      (take_out-Each (How n s) i s (equal left right) c taken).0 (any-Each_self (mentions n) s)

  pub rest-Below : Below c s
  rest-Below n h = any-elim (mentions n) (occurs n s ≡ true) c (parts n).1 h

  pub left-occurs : (n : String) → contains n (free_vars left) ≡ true → occurs n s ≡ true
  left-occurs n h = (parts n).0 (or_left_true _ _ h)

  pub right-occurs : (n : String) → contains n (free_vars right) ≡ true → occurs n s ≡ true
  right-occurs n h = (parts n).0 (or_right_true (contains n (free_vars left)) _ h)

  pub operands-Below :
      (cs : List Constraint)
      → operand_constraints left right ≡ some cs
      → Below (extend_constraints c cs) s
  operands-Below cs h n k =
      any-elim (mentions n) (occurs n s ≡ true) (extend_constraints c cs)
        (extend-Each (How n s) c cs (parts n).1 (
          Each-map (Within n left right) (How n s) (λ d g m. (parts n).0 (g m)) cs
            (Alike-mentions n left right cs (operands-Alike left right cs h))))
        k

-- After a replacement: the names of the replacement, and the others.
module _ (n x : String) (r : Expr) where
  put_both-mentions :
      (d : Constraint) → Plain d → mentions n (put_both x r d) ≡ true → Remains n x r (mentions n d)
  put_both-mentions (equal a b) (p, q) =
      either_part n x r (contains n (free_vars b)) (contains n (free_vars a)) _ _
        (put-free_vars n x r b q) (put-free_vars n x r a p)

  Each-occurs :
      (c s : List Constraint)
      → Each Plain s
      → Each (How n c) s
      → Each (λ d. mentions n (put_both x r d) ≡ true → Remains n x r (occurs n c)) s
  Each-occurs c [] k h = tt
  Each-occurs c (d ∷ s) (k, k') (h, h') = (step, Each-occurs c s k' h')
    where
      step : mentions n (put_both x r d) ≡ true → Remains n x r (occurs n c)
      step m = elim (put_both-mentions d k m) [ inl i ↦ inl i | inr (i, j) ↦ inr (h i, j) ]

  pub put_set-occurs :
      (c : List Constraint)
      → Each Plain c
      → occurs n (put_set x r c) ≡ true
      → Remains n x r (occurs n c)
  put_set-occurs c k h =
      any-elim (mentions n) (Remains n x r (occurs n c)) (put_set x r c)
        (put_set-Each (λ d. mentions n d ≡ true → Remains n x r (occurs n c)) x r c
          (Each-occurs c c k (any-Each_self (mentions n) c)))
        h

-- How many names of a list occur.
abbrev pub how_many : List String → List Constraint → ℕ
how_many [] c = 0
how_many (n ∷ names) c = (if occurs n c then 1 else 0) + how_many names c

pub how_many-Below :
    (names : List String) (c' c : List Constraint)
    → Below c' c
    → how_many names c' ≤ how_many names c
how_many-Below [] c' c h = omega arith
how_many-Below (n ∷ names) c' c h =
    let rest = how_many-Below names c' c h in
    elim (Bool-cases (occurs n c')) [
      | inl t ↦ rw (t, h n t) (omega arith)
      | inr f ↦ rw f (ground arith)
    ]

-- A name of the list that occurs only in the second set makes a difference.
pub how_many-Below_strict :
    (names : List String) (c' c : List Constraint) (x : String)
    → Below c' c
    → contains x names ≡ true
    → occurs x c ≡ true
    → occurs x c' ≡ false
    → how_many names c' < how_many names c
how_many-Below_strict [] c' c x h i j k = absurd cc
how_many-Below_strict (n ∷ names) c' c x h i j k = elim (Bool-cases (n == x)) [
  | inl t ↦
      let e = ==_path n x t in let rest = how_many-Below names c' c h in rw (e, j, k) (omega arith)
  | inr f ↦
      let rest = how_many-Below_strict names c' c x h (rw f at i) j k in
      elim (Bool-cases (occurs n c')) [
        | inl t ↦ rw (t, h n t) (omega arith)
        | inr g ↦ rw g (ground arith)
      ]
]
