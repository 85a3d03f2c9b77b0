-- ===== src/Unify/Ends.antt =====
-- The calls of `unify` in aris/src/expr.rs, counted for constraints without quantifiers, and what its result
-- decides.
use aris.Base.{
  ℕ, suc, zero, ◌+◌, ◌≤◌, ◌<◌, String, Bool, true, false, ◌||◌, Option, none, some, List, [], ◌∷◌,
  ◌++◌, ◌≡◌, ◌↔◌, refl, ap, ◌∙◌, sym, ◌==◌, string_eq, Bool-cases, Option-cases, inl, inr, ◌⊎◌,
  ==_refl, arith, map_option, any-append, transport,
}
use aris.Expr.{Expr, Exprs, var, nil, cons}
use aris.Expr.Equal.{expr_eq}
use aris.Expr.Size.{size, size_all}
use aris.Vars.{contains, free_vars}
use aris.Unify.{
  Constraint, equal, Substitution, Unifier, zip_equal, extend_constraints, take_out, unify,
  unify_next, unless_equal,
}
use aris.Unify.Plain.{is_plain, Remains}
use aris.Unify.Sets.{Each, take_out-Each, nodes, nodes-pos, total, total-extend, total-take_out}
use aris.Unify.View.{
  Plain, put_set, also, Arm, same, left_var, right_var, split, clash, unless_equal-Arm,
}
use aris.Unify.Terms.{terms}
use aris.Unify.Operands.{Alike, nots, impls, applies, assocs, operands-Alike, Holds}
use aris.Unify.Correct.{Solves, put_set-Plain, extend-Plain}
use aris.Unify.Names.{
  occurs, mentions, Below, rest-Below, left-occurs, right-occurs, operands-Below, put_set-occurs,
  how_many, how_many-Below, how_many-Below_strict,
}
use aris.Unify.Sound.{Sound, unify-Sound}
use aris.Unify.General.{General, unify-General}

zip-total : (es fs : Exprs) → total (zip_equal es fs) ≤ size_all es + size_all fs
unfolding zip_equal total nodes size
zip-total nil nil = omega arith
zip-total nil (cons f fs) = omega arith
zip-total (cons e es) nil = omega arith
zip-total (cons e es) (cons f fs) = omega (arith, zip-total es fs)

Alike-total :
    (left right : Expr) (cs : List Constraint)
    → Alike left right cs
    → total cs < nodes (equal left right)
unfolding total nodes size
Alike-total left right cs (nots s t) = omega arith
Alike-total left right cs (impls sl sr tl tr) = omega arith
Alike-total left right cs (applies f es g fs l) = omega (arith, zip-total es fs)
Alike-total left right cs (assocs op es op2 fs e l) = omega (arith, zip-total es fs)

module _ (order : List Constraint → ℕ) (names : List String) where
  abbrev Ends : List Constraint → Type 0
  Ends c = (n : ℕ) × (r : Option Substitution) × (unify order n c ≡ some r)

  abbrev Covered : List Constraint → Type 0
  Covered c = (x : String) → occurs x c ≡ true → contains x names ≡ true

  -- One call, where the constraints with fewer names, or with no more names and fewer nodes, end.
  module _ (s : List Constraint) (left right : Expr) (c : List Constraint)
      (taken : take_out (order s) s ≡ some (equal left right, c)) (p : is_plain left ≡ true)
      (q : is_plain right ≡ true) (k : Each Plain c) (covered : Covered s)
      (fewer : (c' : List Constraint)
        → Each Plain c'
        → Covered c'
        → how_many names c' < how_many names s
        → Ends c')
      (smaller : (c' : List Constraint)
        → Each Plain c'
        → Covered c'
        → how_many names c' ≤ how_many names s
        → total c' < total s
        → Ends c') where
    abbrev Returns : (Unifier → Option (Option Substitution)) → Type 0
    Returns f = (n : ℕ) × (r : Option Substitution) × (f (unify order n) ≡ some r)

    without_name :
        (x : String) (e : Expr)
        → is_plain e ≡ true
        → contains x (free_vars e) ≡ false
        → occurs x s ≡ true
        → ((n : String) → contains n (free_vars e) ≡ true → occurs n s ≡ true)
        → Returns (λ unify. also x e (unify (put_set x e c)))
    without_name x e h absent here others =
        let below : Below (put_set x e c) s = λ n o. old n (put_set-occurs n x e c k o) in
        let gone : occurs x (put_set x e c) ≡ false =
          removed (Bool-cases (occurs x (put_set x e c))) in
        let (n, r, u) =
          fewer (put_set x e c) (put_set-Plain x e c h k) (λ n o. covered n (below n o))
            (how_many-Below_strict names (put_set x e c) s x below (covered x here) here gone) in
        (n, map_option (λ sub. sub ++ ((x, e) ∷ [])) r, rw u refl)
      where
        old : (n : String) → Remains n x e (occurs n c) → occurs n s ≡ true
        old n (inl i) = others n i
        old n (inr (i, j)) = rest-Below (order s) s left right c taken n i

        removed :
            ((occurs x (put_set x e c) ≡ true) ⊎ (occurs x (put_set x e c) ≡ false))
            → occurs x (put_set x e c) ≡ false
        removed (inr f) = f
        removed (inl t) = absurd (never (put_set-occurs x x e c k t))
          where
            never : Remains x x e (occurs x c) → ⊥
            never (inl i) = absurd (let i' = sym absent ∙ i in cc)
            never (inr (i, j)) = absurd (let j' = sym (==_refl x) ∙ j in cc)

    var_itself : (e : Expr) (x : String) → e ≡ var x → contains x (free_vars e) ≡ true
    unfolding free_vars
    var_itself e x h = rw (h, ==_refl x) refl

    arm-Returns : (f : Unifier → Option (Option Substitution)) → Arm left right c f → Returns f
    arm-Returns f (same e) =
        let below = rest-Below (order s) s left right c taken in
        smaller c k (λ n o. covered n (below n o)) (how_many-Below names c s below)
          (omega (
            arith,
            total-take_out (order s) s (equal left right) c taken,
            nodes-pos (equal left right),
          ))
    arm-Returns f (left_var x e i) =
        without_name x right q i
          (left-occurs (order s) s left right c taken x (var_itself left x e))
          (right-occurs (order s) s left right c taken)
    arm-Returns f (right_var x e i) =
        without_name x left p i
          (right-occurs (order s) s left right c taken x (var_itself right x e))
          (left-occurs (order s) s left right c taken)
    arm-Returns f (split cs e) =
        let below = operands-Below (order s) s left right c taken cs e in
        smaller (extend_constraints c cs) (extend-Plain left right c cs e p q k)
          (λ n o. covered n (below n o)) (how_many-Below names (extend_constraints c cs) s below)
          (omega (
            arith,
            total-take_out (order s) s (equal left right) c taken,
            total-extend c cs,
            Alike-total left right cs (operands-Alike left right cs e),
          ))
    arm-Returns f (clash e i j h) = (0, none, refl)

  by_nodes :
      (v : ℕ)
      → ((c : List Constraint) → Each Plain c → Covered c → how_many names c < v → Ends c)
      → (m : ℕ) (c : List Constraint) → Each Plain c
      → Covered c
      → how_many names c ≤ v
      → total c < m
      → Ends c
  unfolding unify unify_next
  by_nodes v fewer zero c k covered l m = absurd (omega arith)
  by_nodes v fewer (suc m) c k covered l h = elim (Option-cases (take_out (order c) c)) [
    | inl e ↦ (1, some [], rw e refl)
    | inr ((equal left right, c'), e) ↦
        let ((p, q), k') = (take_out-Each Plain (order c) c (equal left right) c' e).0 k in
        let (n, r, u) =
          arm-Returns c left right c' e p q k' covered
            (λ d plain cov less. fewer d plain cov (omega arith))
            (λ d plain cov less nodes. by_nodes v fewer m d plain cov (omega arith) (omega arith))
            (λ unify. unless_equal unify left right c' (left == right))
            (unless_equal-Arm c' k' left right p) in
        (suc n, r, rw e u)
  ]

  by_names :
      (v : ℕ) (c : List Constraint) → Each Plain c → Covered c → how_many names c < v → Ends c
  by_names zero c k covered h = absurd (omega arith)
  by_names (suc v) c k covered h =
      by_nodes v (λ d plain cov less. by_names v d plain cov less) (suc (total c)) c k covered
        (omega arith) (omega arith)

abbrev names_of : List Constraint → List String
names_of [] = []
names_of (equal a b ∷ c) = (free_vars a ++ free_vars b) ++ names_of c

names_of-Covered :
    (c : List Constraint) (x : String) → occurs x c ≡ true → contains x (names_of c) ≡ true
names_of-Covered [] x h = absurd cc
names_of-Covered (equal a b ∷ c) x h =
    let ih = names_of-Covered c x in
    any-append (λ y. y == x) (free_vars a ++ free_vars b) (names_of c)
    ∙ ap (λ t. t || contains x (names_of c)) (any-append (λ y. y == x) (free_vars a) (free_vars b))
    ∙ both_of (mentions x (equal a b)) (occurs x c) (contains x (names_of c)) h ih
  where
    both_of : (m o o' : Bool) → (m || o) ≡ true → (o ≡ true → o' ≡ true) → (m || o') ≡ true
    both_of true o o' h g = refl
    both_of false o o' h g = g h

-- The result decides the constraints: there is no substitution that makes their sides equal, or those that do are
-- the ones that solve the result's equations.
abbrev pub Decides : List Constraint → Option Substitution → Type 0
Decides c none = (θ : String → Expr) → ¬ Each (Holds terms θ) c
Decides c (some sub) = (θ : String → Expr) → Each (Holds terms θ) c ↔ Solves terms θ sub

unify-Decides :
    (order : List Constraint → ℕ) (n : ℕ) (c : List Constraint) (r : Option Substitution)
    → Each Plain c
    → unify order n c ≡ some r
    → Decides c r
unify-Decides order n c none k h = λ θ. transport (General θ c) h (unify-General θ order n c k)
unify-Decides order n c (some sub) k h = λ θ. (
  transport (General θ c) h (unify-General θ order n c k),
  transport (Sound terms θ c) h (unify-Sound terms θ order n c k),
)

-- For constraints without quantifiers, in whatever order the hash set yields them, `unify` ends. Where its result is
-- `None`, no substitution of terms for the names makes the two sides of each constraint equal; otherwise the
-- substitutions that do are exactly those that give each name of the result the same term as its expression.
pub unify_lem :
    (order : List Constraint → ℕ) (c : List Constraint)
    → Each Plain c
    → (n : ℕ) × (r : Option Substitution) × (unify order n c ≡ some r) × Decides c r
unify_lem order c k =
    let (n, r, e) =
      by_names order (names_of c) (suc (how_many (names_of c) c)) c k (names_of-Covered c)
        (omega arith) in
    (n, r, e, unify-Decides order n c r k e)
