-- ===== src/Unify/Terms.antt =====
-- The algebra of terms of aris/src/expr.rs, where an assignment is a substitution, and the sizes of terms.
use aris.Base.{
  ◌≤◌, String, Bool, true, false, ◌||◌, List, ◌≡◌, ◌≢◌, ap, ◌∙◌, sym, ◌==◌, string_eq, nat_eq,
  Bool-cases, inl, inr, ◌⊎◌, ==_path, arith, and-left, and-right,
}
use aris.Expr.{Expr, Exprs, contra, taut, var, apply, not, impl, assoc, quant, nil, cons, from_list}
use aris.Expr.Denote.{Algebra, denote, denote_all}
use aris.Expr.Size.{size, size_all, size-pos}
use aris.Vars.{contains, free_vars, free_vars_all, extend}
use aris.Vars.Occurs.{contains-extend}
use aris.Unify.Plain.{is_plain, all_plain}

-- A quantifier has no term here; what is said is said of expressions without them.
abbrev pub terms : Algebra
terms = record {
  Value = Expr;
  contradiction = contra;
  tautology = taut;
  call = λ f args. apply f (from_list args);
  negation = not;
  implication = impl;
  operation = λ op args. assoc op (from_list args);
  quantifier = λ kind body. contra;
}

free_in_either :
    (x : String) (s t : List String)
    → contains x (extend s t) ≡ true
    → (contains x s ≡ true) ⊎ (contains x t ≡ true)
free_in_either x s t h =
    let h' : (contains x t || contains x s) ≡ true = sym (contains-extend x s t) ∙ h in
    elim (Bool-cases (contains x t)) [ inl u ↦ inr u | inr u ↦ inl (rw u at h') ]

-- Neither a variable nor a quantifier.
abbrev pub is_compound : Expr → Bool
is_compound (var name) = false
is_compound (quant kind name body) = false
is_compound _ = true

module _ (θ : String → Expr) where
  abbrev pub value : Expr → Expr
  value e = denote terms θ e

  abbrev pub values : Exprs → List Expr
  values es = denote_all terms θ es

  -- A variable's term is no greater than that of an expression that the variable is free in.
  mutual
    unfolding denote free_vars size from_list

    size-value :
        (x : String) (e : Expr)
        → is_plain e ≡ true
        → contains x (free_vars e) ≡ true
        → size (θ x) ≤ size (value e)
    size-value x contra p h = absurd cc
    size-value x taut p h = absurd cc
    size-value x (var name) p h = elim (Bool-cases (name == x)) [
      | inl t ↦ rw (==_path name x t) (omega arith)
      | inr f ↦ absurd (let h' = rw f at h in cc)
    ]
    size-value x (apply func args) p h =
        elim (free_in_either x (free_vars func) (free_vars_all args) h) [
          | inl i ↦ omega (arith, size-value x func (and-left (is_plain func) (all_plain args) p) i)
          | inr i ↦
              omega (arith, size-values x args (and-right (is_plain func) (all_plain args) p) i)
        ]
    size-value x (not operand) p h = omega (arith, size-value x operand p h)
    size-value x (impl left right) p h =
        elim (free_in_either x (free_vars left) (free_vars right) h) [
          | inl i ↦ omega (arith, size-value x left (and-left (is_plain left) (is_plain right) p) i)
          | inr i ↦
              omega (arith, size-value x right (and-right (is_plain left) (is_plain right) p) i)
        ]
    size-value x (assoc op exprs) p h = omega (arith, size-values x exprs p h)
    size-value x (quant kind name body) p h = absurd cc

    size-values :
        (x : String) (es : Exprs)
        → all_plain es ≡ true
        → contains x (free_vars_all es) ≡ true
        → size (θ x) ≤ size_all (from_list (values es))
    size-values x nil p h = absurd cc
    size-values x (cons e es) p h = elim (free_in_either x (free_vars e) (free_vars_all es) h) [
      | inl i ↦ omega (arith, size-value x e (and-left (is_plain e) (all_plain es) p) i)
      | inr i ↦ omega (arith, size-values x es (and-right (is_plain e) (all_plain es) p) i)
    ]

  -- No variable has the term of a compound expression that it is free in.
  pub no_cycle :
      (x : String) (e : Expr)
      → is_compound e ≡ true
      → is_plain e ≡ true
      → contains x (free_vars e) ≡ true
      → θ x ≢ value e
  unfolding denote free_vars size from_list
  no_cycle x contra q p h = absurd cc
  no_cycle x taut q p h = absurd cc
  no_cycle x (var name) q p h = absurd cc
  no_cycle x (apply func args) q p h = λ u.
      elim (free_in_either x (free_vars func) (free_vars_all args) h) [
        | inl i ↦
            omega
              (arith, ap size u, size-value x func (and-left (is_plain func) (all_plain args) p) i)
        | inr i ↦ omega (
          arith,
          ap size u,
          size-values x args (and-right (is_plain func) (all_plain args) p) i,
          size-pos (value func),
        )
      ]
  no_cycle x (not operand) q p h = λ u. omega (arith, ap size u, size-value x operand p h)
  no_cycle x (impl left right) q p h = λ u.
      elim (free_in_either x (free_vars left) (free_vars right) h) [
        | inl i ↦
            omega
              (arith, ap size u, size-value x left (and-left (is_plain left) (is_plain right) p) i)
        | inr i ↦
            omega (
              arith,
              ap size u,
              size-value x right (and-right (is_plain left) (is_plain right) p) i,
            )
      ]
  no_cycle x (assoc op exprs) q p h = λ u. omega (arith, ap size u, size-values x exprs p h)
  no_cycle x (quant kind name body) q p h = absurd cc
