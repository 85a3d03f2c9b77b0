-- ===== src/Unify/Tests.antt =====
-- `unify` of aris/src/expr.rs at the examples of its test, and at others.
use aris.Base.{String, false, Option, none, some, List, [], ◌∷◌, ℕ, ◌≡◌, refl, ==_ne, string_eq}
use aris.Expr.{Expr, Op, QuantKind, var, taut, not, apply, assoc, quant, nil, cons, to_list}
use aris.Expr.Equal.{expr_beq, kind_beq}
use aris.Expr.Size.{size}
use aris.Vars.{free_vars, extend, insert, remove, gen_var}
use aris.Subst.{subst, apply_all}
use aris.Normalize.{op_eq}
use aris.Unify.{
  Constraint, equal, unify, unify_next, unless_equal, try_left, try_right, assign, assignable,
  decompose, with_operands, under_binders, within_binder, escapes, operand_constraints, subst_set,
  take_out, insert_constraint, constraint_beq, Substitution,
}
use aris.Unify.Sets.{Each}
use aris.Unify.View.{Plain}
use aris.Unify.Ends.{Decides, unify_lem}
use aris.Unify.Apply.{chain, chain_solved, unify-apply_all}

abbrev first : List Constraint → ℕ
first c = 0

abbrev unify_two : Expr → Expr → Option (Option Substitution)
unify_two left right = unify first 9 (equal left right ∷ [])

abbrev for_all : String → String → Expr
for_all x y = quant QuantKind.forall x (var y)

-- Equal up to the names of bound variables, with no substitution; but not equal, as ForallIntro asserts.
unify_alpha : unify_two (for_all "x" "x") (for_all "y" "y") ≡ some (some [])
unfolding unify unify_next unless_equal try_left try_right assignable decompose under_binders
    within_binder escapes subst gen_var free_vars extend insert remove size take_out
    insert_constraint constraint_beq expr_beq kind_beq
unify_alpha = refl

alpha_not_equal : expr_beq (for_all "x" "x") (for_all "y" "y") ≡ false
unfolding expr_beq kind_beq
alpha_not_equal = refl

unify_escape : unify_two (for_all "x" "z") (for_all "y" "y") ≡ some none
unfolding unify unify_next unless_equal try_left try_right assign assignable decompose under_binders
    within_binder escapes subst gen_var free_vars extend insert remove size take_out
    insert_constraint constraint_beq expr_beq kind_beq subst_set
unify_escape = refl

unify_operators :
    unify_two
      (assoc Op.and (cons (var "x") (cons (var "y") nil)))
      (assoc Op.or (cons (var "x") (cons (var "y") nil)))
    ≡ some none
unfolding unify unify_next unless_equal try_left try_right assignable decompose with_operands
    operand_constraints op_eq to_list free_vars extend insert take_out expr_beq
unify_operators = refl

-- f(x) and f(~y).
abbrev calls : List Constraint
calls =
    equal (apply (var "f") (cons (var "x") nil)) (apply (var "f") (cons (not (var "y")) nil)) ∷ []

calls-Plain : Each Plain calls
calls-Plain = ((refl, refl), tt)

unify_example :
    (n : ℕ) × (r : Option Substitution) × (unify first n calls ≡ some r) × Decides calls r
unify_example = unify_lem first calls calls-Plain

unify-apply_all_example :
    (unify (λ c. 0) 3 (chain "x" "y") ≡ some (some (chain_solved "x" "y")))
    × (apply_all 2 (chain_solved "x" "y") (var "x") ≡ some (not (var "y")))
    × (apply_all 2 (chain_solved "x" "y") (not (var "y")) ≡ some (not taut))
unify-apply_all_example = unify-apply_all "x" "y" (==_ne "x" "y" refl)
