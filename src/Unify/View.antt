-- ===== src/Unify/View.antt =====
-- One call of `unify` of aris/src/expr.rs on constraints without quantifiers, by the arm of its match.
use aris.Base.{
  String, true, false, Option, none, some, List, [], ◌∷◌, ◌++◌, ◌≡◌, ◌≢◌, refl, ap, sym, ◌==◌,
  string_eq, Bool-cases, Option-cases, inl, inr, ==_path, ==_ne, map_option, transport, fun_ext,
  arith,
}
use aris.Expr.{Expr, contra, taut, var, apply, not, impl, assoc, quant}
use aris.Expr.Equal.{expr_eq}
use aris.Expr.Size.{size}
use aris.Vars.{contains, free_vars}
use aris.Unify.{
  Constraint, equal, Unifier, Substitution, insert_constraint, extend_constraints, subst_set,
  assignable, operand_constraints, assign, with_operands, decompose, try_right, try_left,
  unless_equal,
}
use aris.Unify.Plain.{is_plain, put, subst-put}
use aris.Unify.Sets.{Each, insert-Each, Each-insert}

abbrev pub Plain : Constraint → Type 0
Plain (equal a b) = (is_plain a ≡ true) × (is_plain b ≡ true)

abbrev pub put_both : String → Expr → Constraint → Constraint
put_both x r (equal a b) = equal (put x r a) (put x r b)

abbrev pub put_set : String → Expr → List Constraint → List Constraint
put_set x r [] = []
put_set x r (c ∷ s) = insert_constraint (put_both x r c) (put_set x r s)

subst_set-put :
    (x : String) (r : Expr) (s : List Constraint)
    → Each Plain s
    → subst_set x r s ≡ some (put_set x r s)
unfolding subst_set
subst_set-put x r [] h = refl
subst_set-put x r (equal a b ∷ s) ((h, h'), h'') =
    rw
      (
        subst-put (size a) x r a h (omega arith),
        subst-put (size b) x r b h' (omega arith),
        subst_set-put x r s h'',
      )
      refl

module _ (P : Constraint → Type 0) (x : String) (r : Expr) where
  pub put_set-Each :
      (s : List Constraint) → Each (λ c. P (put_both x r c)) s → Each P (put_set x r s)
  put_set-Each [] h = tt
  put_set-Each (c ∷ s) (h, h') =
      insert-Each P (put_both x r c) (put_set x r s) h (put_set-Each s h')

  pub Each-put_set :
      (s : List Constraint) → Each P (put_set x r s) → Each (λ c. P (put_both x r c)) s
  Each-put_set [] h = tt
  Each-put_set (c ∷ s) h =
      let (i, j) = Each-insert P (put_both x r c) (put_set x r s) h in (i, Each-put_set s j)

abbrev pub also : String → Expr → Option (Option Substitution) → Option (Option Substitution)
also x e o = map_option (map_option (λ sub. sub ++ ((x, e) ∷ []))) o

-- The result of the call, by what stands for the recursive calls.
pub data Arm (left right : Expr) (c : List Constraint)
    : (Unifier → Option (Option Substitution)) → Type 0 where
  same : left ≡ right → Arm left right c (λ unify. unify c)
  left_var :
      (x : String)
      → left ≡ var x
      → contains x (free_vars right) ≡ false
      → Arm left right c (λ unify. also x right (unify (put_set x right c)))
  right_var :
      (x : String)
      → right ≡ var x
      → contains x (free_vars left) ≡ false
      → Arm left right c (λ unify. also x left (unify (put_set x left c)))
  split :
      (cs : List Constraint)
      → operand_constraints left right ≡ some cs
      → Arm left right c (λ unify. unify (extend_constraints c cs))
  clash :
      left ≢ right
      → assignable left right ≡ none
      → assignable right left ≡ none
      → operand_constraints left right ≡ none
      → Arm left right c (λ unify. some none)

assignable-some :
    (e other : Expr) (x : String)
    → assignable e other ≡ some x
    → (e ≡ var x) × (contains x (free_vars other) ≡ false)
unfolding assignable
assignable-some (var name) other x h = elim (Bool-cases (contains name (free_vars other))) [
  | inl t ↦ absurd (let h' = rw t at h in cc)
  | inr f ↦
      let e : name ≡ x = some_name name x (rw f at h) in
      (ap var e, transport (λ y. contains y (free_vars other) ≡ false) e f)
]
  where
    some_name : (a b : String) → some a ≡ some b → a ≡ b
    some_name a b h = cc
assignable-some contra other x h = absurd cc
assignable-some taut other x h = absurd cc
assignable-some (apply func args) other x h = absurd cc
assignable-some (not operand) other x h = absurd cc
assignable-some (impl left right) other x h = absurd cc
assignable-some (assoc op exprs) other x h = absurd cc
assignable-some (quant kind name body) other x h = absurd cc

module _ (c : List Constraint) (plain : Each Plain c) where
  assign-put :
      (unify : Unifier) (x : String) (e : Expr)
      → assign unify x e c ≡ also x e (unify (put_set x e c))
  unfolding assign
  assign-put unify x e = rw (subst_set-put x e c plain) refl

  decompose-operands :
      (unify : Unifier) (left right : Expr)
      → is_plain left ≡ true
      → decompose unify left right c ≡ with_operands unify c (operand_constraints left right)
  unfolding decompose
  decompose-operands unify contra right h = refl
  decompose-operands unify taut right h = refl
  decompose-operands unify (var name) right h = refl
  decompose-operands unify (apply func args) right h = refl
  decompose-operands unify (not operand) right h = refl
  decompose-operands unify (impl left right) right' h = refl
  decompose-operands unify (assoc op exprs) right h = refl
  decompose-operands unify (quant kind name body) right h = absurd cc

  pub unless_equal-Arm :
      (left right : Expr)
      → is_plain left ≡ true
      → Arm left right c (λ unify. unless_equal unify left right c (left == right))
  unfolding unless_equal try_left try_right with_operands
  unless_equal-Arm left right h = elim (Bool-cases (left == right)) [
    | inl t ↦ rw t (same (==_path left right t))
    | inr f ↦ rw f (elim (Option-cases (assignable left right)) [
      | inr (x, s) ↦
          let (e, i) = assignable-some left right x s in
          rw s (
            transport (Arm left right c) (fun_ext (λ unify. sym (assign-put unify x right)))
              (left_var x e i))
      | inl n ↦ rw n (elim (Option-cases (assignable right left)) [
        | inr (x, s) ↦
            let (e, i) = assignable-some right left x s in
            rw s (
              transport (Arm left right c) (fun_ext (λ unify. sym (assign-put unify x left)))
                (right_var x e i))
        | inl n' ↦ rw n' (
            transport (Arm left right c)
              (fun_ext (λ unify. sym (decompose-operands unify left right h)))
              (elim (Option-cases (operand_constraints left right)) [
                | inr (cs, s) ↦ rw s (split cs s)
                | inl n'' ↦ rw n'' (clash (==_ne left right f) n n' n'')
              ]))
      ])
    ])
  ]
