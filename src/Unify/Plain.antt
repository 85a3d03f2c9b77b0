-- ===== src/Unify/Plain.antt =====
-- Expressions of aris/src/expr.rs without quantifiers, and `subst` there.
use text.Mathlib.TextEquality.{eq_iff}
use aris.Base.{
  ℕ, zero, suc, ◌≤◌, String, Bool, true, false, ◌&&◌, ◌||◌, some, List, ◌∷◌, transport, ◌≡◌, refl,
  ap, ap₂, ◌∙◌, sym, if◌then◌else◌, ◌==◌, string_eq, Bool-cases, inl, inr, ◌⊎◌, arith, and-left,
  and-right, ==_path,
}
use aris.Expr.{Expr, Exprs, contra, taut, var, apply, not, impl, assoc, quant, nil, cons}
use aris.Expr.Denote.{Algebra, denote, denote_all}
use aris.Expr.Size.{size, size_all, size-pos}
use aris.Vars.{contains, free_vars, free_vars_all, extend}
use aris.Vars.Occurs.{contains-extend}
use aris.Subst.{traverse, subst}

abbrev mutual
  pub is_plain : Expr → Bool
  is_plain contra = true
  is_plain taut = true
  is_plain (var name) = true
  is_plain (apply func args) = is_plain func && all_plain args
  is_plain (not operand) = is_plain operand
  is_plain (impl left right) = is_plain left && is_plain right
  is_plain (assoc op exprs) = all_plain exprs
  is_plain (quant kind name body) = false

  pub all_plain : Exprs → Bool
  all_plain nil = true
  all_plain (cons e es) = is_plain e && all_plain es

-- The expression with `r` in place of the variable `x`.
unfoldable mutual
  pub put : String → Expr → Expr → Expr
  put x r contra = contra
  put x r taut = taut
  put x r (var name) = if name == x then r else var name
  put x r (apply func args) = apply (put x r func) (put_all x r args)
  put x r (not operand) = not (put x r operand)
  put x r (impl left right) = impl (put x r left) (put x r right)
  put x r (assoc op exprs) = assoc op (put_all x r exprs)
  put x r (quant kind name body) = quant kind name body

  pub put_all : String → Expr → Exprs → Exprs
  put_all x r nil = nil
  put_all x r (cons e es) = cons (put x r e) (put_all x r es)

mutual
  unfolding subst traverse put size

  pub subst-put :
      (n : ℕ) (x : String) (r e : Expr)
      → is_plain e ≡ true
      → size e ≤ n
      → subst n e x r ≡ some (put x r e)
  subst-put zero x r e h l = absurd (omega (arith, size-pos e))
  subst-put (suc n) x r contra h l = refl
  subst-put (suc n) x r taut h l = refl
  subst-put (suc n) x r (var name) h l = refl
  subst-put (suc n) x r (apply func args) h l =
      rw
        (
          subst-put n x r func (and-left (is_plain func) (all_plain args) h) (omega arith),
          traverse-put n x r args (and-right (is_plain func) (all_plain args) h) (omega arith),
        )
        refl
  subst-put (suc n) x r (not operand) h l = rw (subst-put n x r operand h (omega arith)) refl
  subst-put (suc n) x r (impl left right) h l =
      rw
        (
          subst-put n x r left (and-left (is_plain left) (is_plain right) h) (omega arith),
          subst-put n x r right (and-right (is_plain left) (is_plain right) h) (omega arith),
        )
        refl
  subst-put (suc n) x r (assoc op exprs) h l = rw (traverse-put n x r exprs h (omega arith)) refl
  subst-put (suc n) x r (quant kind name body) h l = absurd cc

  traverse-put :
      (n : ℕ) (x : String) (r : Expr) (es : Exprs)
      → all_plain es ≡ true
      → size_all es ≤ n
      → traverse (λ e. subst n e x r) es ≡ some (put_all x r es)
  traverse-put n x r nil h l = refl
  traverse-put n x r (cons e es) h l =
      rw
        (
          subst-put n x r e (and-left (is_plain e) (all_plain es) h) (omega arith),
          traverse-put n x r es (and-right (is_plain e) (all_plain es) h) (omega arith),
        )
        refl

module _ (x : String) (r : Expr) (plain : is_plain r ≡ true) where
  mutual
    unfolding put

    pub put-plain : (e : Expr) → is_plain e ≡ true → is_plain (put x r e) ≡ true
    put-plain contra h = refl
    put-plain taut h = refl
    put-plain (var name) h = elim (Bool-cases (name == x)) [
      | inl t ↦ rw t plain
      | inr f ↦ rw f refl
    ]
    put-plain (apply func args) h =
        rw
          (
            put-plain func (and-left (is_plain func) (all_plain args) h),
            put_all-plain args (and-right (is_plain func) (all_plain args) h),
          )
          refl
    put-plain (not operand) h = put-plain operand h
    put-plain (impl left right) h =
        rw
          (
            put-plain left (and-left (is_plain left) (is_plain right) h),
            put-plain right (and-right (is_plain left) (is_plain right) h),
          )
          refl
    put-plain (assoc op exprs) h = put_all-plain exprs h
    put-plain (quant kind name body) h = absurd cc

    put_all-plain : (es : Exprs) → all_plain es ≡ true → all_plain (put_all x r es) ≡ true
    put_all-plain nil h = refl
    put_all-plain (cons e es) h =
        rw
          (
            put-plain e (and-left (is_plain e) (all_plain es) h),
            put_all-plain es (and-right (is_plain e) (all_plain es) h),
          )
          refl

-- Where the variable has the value of the replacement, the value of the expression stays.
module _ (M : Algebra) (ρ : String → M.Value) (x : String) (r : Expr) (h : ρ x ≡ denote M ρ r) where
  mutual
    unfolding put denote

    pub put-denote : (e : Expr) → denote M ρ (put x r e) ≡ denote M ρ e
    put-denote contra = refl
    put-denote taut = refl
    put-denote (var name) = elim (Bool-cases (name == x)) [
      | inl t ↦ rw t (sym h ∙ ap ρ (sym (==_path name x t)))
      | inr f ↦ rw f refl
    ]
    put-denote (apply func args) = ap₂ M.call (put-denote func) (put_all-denote args)
    put-denote (not operand) = ap M.negation (put-denote operand)
    put-denote (impl left right) = ap₂ M.implication (put-denote left) (put-denote right)
    put-denote (assoc op exprs) = ap (M.operation op) (put_all-denote exprs)
    put-denote (quant kind name body) = refl

    put_all-denote : (es : Exprs) → denote_all M ρ (put_all x r es) ≡ denote_all M ρ es
    put_all-denote nil = refl
    put_all-denote (cons e es) = ap₂ ◌∷◌ (put-denote e) (put_all-denote es)

-- The names that are free after the replacement: those of the replacement, and the others of the expression.
module _ (n x : String) (r : Expr) where
  abbrev pub Remains : Bool → Type 0
  Remains before = (contains n (free_vars r) ≡ true) ⊎ ((before ≡ true) × ((n == x) ≡ false))

  pub either_part :
      (a b a' b' : Bool)
      → (a' ≡ true → Remains a)
      → (b' ≡ true → Remains b)
      → (b' || a') ≡ true
      → Remains (b || a)
  either_part a b a' true f g h = elim (g refl) [
    | inl i ↦ inl i
    | inr (i, j) ↦ inr (ground arith, j)
  ]
  either_part a b a' false f g h = elim (f h) [ inl i ↦ inl i | inr (i, j) ↦ inr (ground arith, j) ]

  both_parts :
      (s t s' t' : List String)
      → (contains n s' ≡ true → Remains (contains n s))
      → (contains n t' ≡ true → Remains (contains n t))
      → contains n (extend s' t') ≡ true
      → Remains (contains n (extend s t))
  both_parts s t s' t' f g h = transport Remains (sym (contains-extend n s t)) (
      either_part (contains n s) (contains n t) (contains n s') (contains n t') f g
        (sym (contains-extend n s' t') ∙ h))

  mutual
    unfolding put free_vars

    pub put-free_vars :
        (e : Expr)
        → is_plain e ≡ true
        → contains n (free_vars (put x r e)) ≡ true
        → Remains (contains n (free_vars e))
    put-free_vars contra p h = absurd cc
    put-free_vars taut p h = absurd cc
    put-free_vars (var name) p h = elim (Bool-cases (name == x)) [
      | inl t ↦ inl (rw t at h)
      | inr f ↦ inr ((rw f at h), other name f (rw f at h))
    ]
      where
        other :
            (name : String) → (name == x) ≡ false → ((name == n) || false) ≡ true → (n == x) ≡ false
        other name f h = ground (arith, eq_iff name x, eq_iff name n, eq_iff n x)
    put-free_vars (apply func args) p h =
        both_parts (free_vars func) (free_vars_all args) (free_vars (put x r func))
          (free_vars_all (put_all x r args))
          (put-free_vars func (and-left (is_plain func) (all_plain args) p))
          (put_all-free_vars args (and-right (is_plain func) (all_plain args) p)) h
    put-free_vars (not operand) p h = put-free_vars operand p h
    put-free_vars (impl left right) p h =
        both_parts (free_vars left) (free_vars right) (free_vars (put x r left))
          (free_vars (put x r right))
          (put-free_vars left (and-left (is_plain left) (is_plain right) p))
          (put-free_vars right (and-right (is_plain left) (is_plain right) p)) h
    put-free_vars (assoc op exprs) p h = put_all-free_vars exprs p h
    put-free_vars (quant kind name body) p h = absurd cc

    put_all-free_vars :
        (es : Exprs)
        → all_plain es ≡ true
        → contains n (free_vars_all (put_all x r es)) ≡ true
        → Remains (contains n (free_vars_all es))
    put_all-free_vars nil p h = absurd cc
    put_all-free_vars (cons e es) p h =
        both_parts (free_vars e) (free_vars_all es) (free_vars (put x r e))
          (free_vars_all (put_all x r es))
          (put-free_vars e (and-left (is_plain e) (all_plain es) p))
          (put_all-free_vars es (and-right (is_plain e) (all_plain es) p)) h
