-- ===== src/Unify/Clash.antt =====
-- The last arm of the match of `unify` in aris/src/expr.rs, for terms.
use aris.Base.{
  suc, String, true, none, length, ◌≡◌, ◌≢◌, refl, ap, ◌∙◌, sym, ◌==◌, string_eq, nat_eq,
  Bool-cases, inl, inr, transport, ◌⊎◌, ==_path, ==_refl,
}
use aris.Expr.{
  Expr, Exprs, Op, contra, taut, var, apply, not, impl, assoc, quant, nil, cons, to_list, from_list,
  to_list-from_list,
}
use aris.Expr.Equal.{op_eq_refl}
use aris.Expr.Denote.{denote}
use aris.Vars.{contains, free_vars}
use aris.Unify.{assignable, operand_constraints, same_len}
use aris.Unify.Plain.{is_plain}
use aris.Unify.Terms.{is_compound, value, values, no_cycle}

args_of : {f g : Expr} {xs ys : Exprs} → apply f xs ≡ apply g ys → xs ≡ ys
args_of h = cc

op_of : {op op2 : Op} {xs ys : Exprs} → assoc op xs ≡ assoc op2 ys → op ≡ op2
op_of h = cc

exprs_of : {op op2 : Op} {xs ys : Exprs} → assoc op xs ≡ assoc op2 ys → xs ≡ ys
exprs_of h = cc

compound_cases :
    (e : Expr) → is_plain e ≡ true → (is_compound e ≡ true) ⊎ ((x : String) × (e ≡ var x))
compound_cases contra p = inl refl
compound_cases taut p = inl refl
compound_cases (var name) p = inr (name, refl)
compound_cases (apply func args) p = inl refl
compound_cases (not operand) p = inl refl
compound_cases (impl left right) p = inl refl
compound_cases (assoc op exprs) p = inl refl
compound_cases (quant kind name body) p = absurd cc

same_name : (x y : String) → contains x (free_vars (var y)) ≡ true → x ≡ y
unfolding free_vars
same_name x y h = elim (Bool-cases (y == x)) [
  | inl t ↦ sym (==_path y x t)
  | inr f ↦ absurd (let h' = rw f at h in cc)
]

unassignable :
    (x : String) (e other : Expr)
    → e ≡ var x
    → assignable e other ≡ none
    → contains x (free_vars other) ≡ true
unfolding assignable
unassignable x e other q n = elim (Bool-cases (contains x (free_vars other))) [
  | inl t ↦ t
  | inr f ↦ absurd (let n' = rw (q, f) at n in cc)
]

module _ (θ : String → Expr) where
  length-values : (es : Exprs) → length (values θ es) ≡ length (to_list es)
  unfolding denote to_list
  length-values nil = refl
  length-values (cons e es) = ap suc (length-values es)

  values-same_len :
      (es fs : Exprs) → from_list (values θ es) ≡ from_list (values θ fs) → same_len es fs ≡ true
  values-same_len es fs u =
      let v : values θ es ≡ values θ fs =
        sym (to_list-from_list (values θ es)) ∙ ap to_list u ∙ to_list-from_list (values θ fs) in
      let w : length (to_list es) ≡ length (to_list fs) =
        sym (length-values es) ∙ ap length v ∙ length-values fs in
      rw w (==_refl (length (to_list fs)))

  -- Two compound expressions with another head, or another number of operands, have different terms.
  operands-value :
      (left right : Expr)
      → is_compound left ≡ true
      → is_compound right ≡ true
      → left ≢ right
      → operand_constraints left right ≡ none
      → value θ left ≢ value θ right
  unfolding denote operand_constraints
  operands-value contra (var y) p q ne n = absurd cc
  operands-value contra (quant k y e) p q ne n = absurd cc
  operands-value contra contra p q ne n = λ u. ne refl
  operands-value contra taut p q ne n = λ u. absurd cc
  operands-value contra (apply g fs) p q ne n = λ u. absurd cc
  operands-value contra (not a2) p q ne n = λ u. absurd cc
  operands-value contra (impl a2 b2) p q ne n = λ u. absurd cc
  operands-value contra (assoc op2 fs) p q ne n = λ u. absurd cc
  operands-value taut (var y) p q ne n = absurd cc
  operands-value taut (quant k y e) p q ne n = absurd cc
  operands-value taut contra p q ne n = λ u. absurd cc
  operands-value taut taut p q ne n = λ u. ne refl
  operands-value taut (apply g fs) p q ne n = λ u. absurd cc
  operands-value taut (not a2) p q ne n = λ u. absurd cc
  operands-value taut (impl a2 b2) p q ne n = λ u. absurd cc
  operands-value taut (assoc op2 fs) p q ne n = λ u. absurd cc
  operands-value (apply f es) (var y) p q ne n = absurd cc
  operands-value (apply f es) (quant k y e) p q ne n = absurd cc
  operands-value (apply f es) contra p q ne n = λ u. absurd cc
  operands-value (apply f es) taut p q ne n = λ u. absurd cc
  operands-value (apply f es) (apply g fs) p q ne n =
      λ u. absurd (let n' = rw (values-same_len es fs (args_of u)) at n in cc)
  operands-value (apply f es) (not a2) p q ne n = λ u. absurd cc
  operands-value (apply f es) (impl a2 b2) p q ne n = λ u. absurd cc
  operands-value (apply f es) (assoc op2 fs) p q ne n = λ u. absurd cc
  operands-value (not a) (var y) p q ne n = absurd cc
  operands-value (not a) (quant k y e) p q ne n = absurd cc
  operands-value (not a) contra p q ne n = λ u. absurd cc
  operands-value (not a) taut p q ne n = λ u. absurd cc
  operands-value (not a) (apply g fs) p q ne n = λ u. absurd cc
  operands-value (not a) (not a2) p q ne n = absurd cc
  operands-value (not a) (impl a2 b2) p q ne n = λ u. absurd cc
  operands-value (not a) (assoc op2 fs) p q ne n = λ u. absurd cc
  operands-value (impl a b) (var y) p q ne n = absurd cc
  operands-value (impl a b) (quant k y e) p q ne n = absurd cc
  operands-value (impl a b) contra p q ne n = λ u. absurd cc
  operands-value (impl a b) taut p q ne n = λ u. absurd cc
  operands-value (impl a b) (apply g fs) p q ne n = λ u. absurd cc
  operands-value (impl a b) (not a2) p q ne n = λ u. absurd cc
  operands-value (impl a b) (impl a2 b2) p q ne n = absurd cc
  operands-value (impl a b) (assoc op2 fs) p q ne n = λ u. absurd cc
  operands-value (assoc op es) (var y) p q ne n = absurd cc
  operands-value (assoc op es) (quant k y e) p q ne n = absurd cc
  operands-value (assoc op es) contra p q ne n = λ u. absurd cc
  operands-value (assoc op es) taut p q ne n = λ u. absurd cc
  operands-value (assoc op es) (apply g fs) p q ne n = λ u. absurd cc
  operands-value (assoc op es) (not a2) p q ne n = λ u. absurd cc
  operands-value (assoc op es) (impl a2 b2) p q ne n = λ u. absurd cc
  operands-value (assoc op es) (assoc op2 fs) p q ne n = λ u.
      absurd (let n' = rw (op_of u, op_eq_refl op2, values-same_len es fs (exprs_of u)) at n in cc)
  operands-value (var x) right p q ne n = absurd cc
  operands-value (quant k y e) right p q ne n = absurd cc

  -- Where no arm of the match applies, the two sides have different terms.
  pub clash-value :
      (left right : Expr)
      → is_plain left ≡ true
      → is_plain right ≡ true
      → left ≢ right
      → assignable left right ≡ none
      → assignable right left ≡ none
      → operand_constraints left right ≡ none
      → value θ left ≢ value θ right
  unfolding denote
  clash-value left right p q ne i j n = elim (compound_cases left p) [
    | inr (x, e) ↦ elim (compound_cases right q) [
      | inl m ↦
          λ u. no_cycle θ x right m q (unassignable x left right e i) (sym (ap (value θ) e) ∙ u)
      | inr (y, e') ↦ absurd (
          ne (
            e
            ∙ ap var (
                same_name x y (
                  transport (λ r. contains x (free_vars r) ≡ true) e'
                    (unassignable x left right e i)))
            ∙ sym e'))
    ]
    | inl k ↦ elim (compound_cases right q) [
      | inr (y, e) ↦
          λ u. no_cycle θ y left k p (unassignable y right left e j) (sym (ap (value θ) e) ∙ sym u)
      | inl m ↦ operands-value left right k m ne n
    ]
  ]
