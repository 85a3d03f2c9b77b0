-- ===== src/Normalize/QuantifierForms.antt =====
-- What the normalizers of quantifiers in aris/src/expr.rs give.
use aris.Base.{Bool, true, false, not as not_bool, some, ◌≡◌, refl, Bool-cases, inl, inr}
use aris.Expr.{Expr, Op, QuantKind, not, impl, assoc, quant, nil, cons}
use aris.Expr.Denote.{Algebra}
use aris.Vars.{contains, free_vars}
use aris.Transform.Weight.{by_one, by_square, weight}
use aris.Transform.Denotes.{Same}
use aris.Transform.Fixpoint.{Everywhere, Honest, Idle}
use aris.Normalize.{
  negate_quantifiers_step, negate_quantifiers, null_quantifiers_step, normalize_null_quantifiers,
  opposite, aristotelean_square_step, aristotelean_square, quantifier_distribution_step,
  quantifier_distribution,
}
use aris.Normalize.Classical.{
  QuantifierNegations, QuantifierDistribution, Quantifiers, Implications,
}
use aris.Normalize.Binders.{
  negate_quantifiers_step-Keeps, null_quantifiers_step-Keeps, aristotelean_square_step-Keeps,
  quantifier_distribution_step-Keeps,
}
use aris.Normalize.Lowers.{
  negate_quantifiers_step-Lowers, null_quantifiers_step-Lowers, aristotelean_square_step-Lowers,
  quantifier_distribution_step-Lowers,
}
use aris.Normalize.Forms.{runs_settled}

-- ¬ Qx. e
abbrev pub is_negated_quantifier : Expr → Bool
is_negated_quantifier (not (quant kind name body)) = true
is_negated_quantifier _ = false

-- A quantifier whose name is not free in its body.
abbrev pub is_null_quantifier : Expr → Bool
is_null_quantifier (quant kind name body) = not_bool (contains name (free_vars body))
is_null_quantifier _ = false

-- ¬ Qx. (a → b) and ¬ Qx. (a ∧ b)
abbrev pub is_square_corner : Expr → Bool
is_square_corner (not (quant kind name (impl l r))) = true
is_square_corner (not (quant kind name (assoc Op.and (cons a (cons b nil))))) = true
is_square_corner _ = false

-- ∀ over a conjunction, ∃ over a disjunction
abbrev pub is_distributable : Expr → Bool
is_distributable (quant QuantKind.forall name (assoc Op.and exprs)) = true
is_distributable (quant QuantKind.exists name (assoc Op.or exprs)) = true
is_distributable _ = false

negate_quantifiers_step-Honest : Honest negate_quantifiers_step
unfolding negate_quantifiers_step
negate_quantifiers_step-Honest (not (quant QuantKind.exists name body)) h = absurd cc
negate_quantifiers_step-Honest (not (quant QuantKind.forall name body)) h = absurd cc
negate_quantifiers_step-Honest _ h = refl

negate_quantifiers_step-redex :
    (e : Expr) → Idle negate_quantifiers_step e → is_negated_quantifier e ≡ false
unfolding negate_quantifiers_step
negate_quantifiers_step-redex (not (quant QuantKind.exists name body)) h = h
negate_quantifiers_step-redex (not (quant QuantKind.forall name body)) h = h
negate_quantifiers_step-redex _ h = refl

-- In every algebra in which negation swaps the quantifiers, `negate_quantifiers` ends, with the
-- expression's weight as rounds and fuel, its result denotes what the expression does, and nowhere in
-- it is a quantifier negated.
pub negate_quantifiers_lem :
    (M : Algebra) (e : Expr)
    → QuantifierNegations M
    → (e' : Expr) × (negate_quantifiers (weight by_square by_one e) (weight by_square by_one e) e
        ≡ some e')
      × Same M e' e
      × Everywhere (λ e. is_negated_quantifier e ≡ false) e'
unfolding negate_quantifiers
negate_quantifiers_lem M e c =
    runs_settled M by_square by_one negate_quantifiers_step is_negated_quantifier e
      (negate_quantifiers_step-Keeps M c) negate_quantifiers_step-Lowers
      negate_quantifiers_step-Honest negate_quantifiers_step-redex

null_quantifiers_step-Honest : Honest null_quantifiers_step
unfolding null_quantifiers_step
null_quantifiers_step-Honest (quant kind name body) h =
    elim (Bool-cases (contains name (free_vars body))) [
      | inl t ↦ rw t
      | inr f ↦ let h' = rw f at h in absurd cc
    ]
null_quantifiers_step-Honest _ h = refl

null_quantifiers_step-redex :
    (e : Expr) → Idle null_quantifiers_step e → is_null_quantifier e ≡ false
unfolding null_quantifiers_step
null_quantifiers_step-redex (quant kind name body) h =
    elim (Bool-cases (contains name (free_vars body))) [
      | inl t ↦ rw t
      | inr f ↦ let h' = rw f at h in absurd cc
    ]
null_quantifiers_step-redex _ h = refl

-- In every algebra in which a quantifier over a constant is that constant,
-- `normalize_null_quantifiers` ends, with the expression's weight as rounds and fuel, its result
-- denotes what the expression does, and each quantifier in it binds a name that is free in its body.
pub normalize_null_quantifiers_lem :
    (M : Algebra) (e : Expr)
    → Quantifiers M
    → (e' : Expr) × (normalize_null_quantifiers (weight by_one by_one e) (weight by_one by_one e) e
        ≡ some e')
      × Same M e' e
      × Everywhere (λ e. is_null_quantifier e ≡ false) e'
unfolding normalize_null_quantifiers
normalize_null_quantifiers_lem M e c =
    runs_settled M by_one by_one null_quantifiers_step is_null_quantifier e
      (null_quantifiers_step-Keeps M c) null_quantifiers_step-Lowers null_quantifiers_step-Honest
      null_quantifiers_step-redex

aristotelean_square_step-Honest : Honest aristotelean_square_step
unfolding aristotelean_square_step opposite
aristotelean_square_step-Honest (not (quant QuantKind.exists name (impl l r))) h = absurd cc
aristotelean_square_step-Honest (not (quant QuantKind.forall name (impl l r))) h = absurd cc
aristotelean_square_step-Honest
      (not (quant QuantKind.exists name (assoc Op.and (cons a (cons b nil))))) h =
    absurd cc
aristotelean_square_step-Honest
      (not (quant QuantKind.forall name (assoc Op.and (cons a (cons b nil))))) h =
    absurd cc
aristotelean_square_step-Honest _ h = refl

aristotelean_square_step-redex :
    (e : Expr) → Idle aristotelean_square_step e → is_square_corner e ≡ false
unfolding aristotelean_square_step opposite
aristotelean_square_step-redex (not (quant QuantKind.exists name (impl l r))) h = h
aristotelean_square_step-redex (not (quant QuantKind.forall name (impl l r))) h = h
aristotelean_square_step-redex
      (not (quant QuantKind.exists name (assoc Op.and (cons a (cons b nil))))) h =
    h
aristotelean_square_step-redex
      (not (quant QuantKind.forall name (assoc Op.and (cons a (cons b nil))))) h =
    h
aristotelean_square_step-redex _ h = refl

-- In every algebra with the laws of quantifiers and implication, `aristotelean_square` ends, with the
-- expression's weight as rounds and fuel, its result denotes what the expression does, and nowhere in
-- it is a quantified implication or binary conjunction negated.
pub aristotelean_square_lem :
    (M : Algebra) (e : Expr)
    → Quantifiers M
    → Implications M
    → (e' : Expr) × (aristotelean_square (weight by_square by_one e) (weight by_square by_one e) e
        ≡ some e')
      × Same M e' e
      × Everywhere (λ e. is_square_corner e ≡ false) e'
unfolding aristotelean_square
aristotelean_square_lem M e c i =
    runs_settled M by_square by_one aristotelean_square_step is_square_corner e
      (aristotelean_square_step-Keeps M c i) aristotelean_square_step-Lowers
      aristotelean_square_step-Honest aristotelean_square_step-redex

quantifier_distribution_step-Honest : Honest quantifier_distribution_step
unfolding quantifier_distribution_step
quantifier_distribution_step-Honest (quant QuantKind.forall name (assoc Op.and exprs)) h = absurd cc
quantifier_distribution_step-Honest (quant QuantKind.exists name (assoc Op.or exprs)) h = absurd cc
quantifier_distribution_step-Honest _ h = refl

quantifier_distribution_step-redex :
    (e : Expr) → Idle quantifier_distribution_step e → is_distributable e ≡ false
unfolding quantifier_distribution_step
quantifier_distribution_step-redex (quant QuantKind.forall name (assoc Op.and exprs)) h = h
quantifier_distribution_step-redex (quant QuantKind.exists name (assoc Op.or exprs)) h = h
quantifier_distribution_step-redex _ h = refl

-- In every algebra in which ∀ distributes over conjunctions and ∃ over disjunctions,
-- `quantifier_distribution` ends, with the expression's weight as rounds and fuel, its result denotes
-- what the expression does, and nowhere in it is a ∀ over a conjunction or an ∃ over a disjunction.
pub quantifier_distribution_lem :
    (M : Algebra) (e : Expr)
    → QuantifierDistribution M
    → (e' : Expr) × (quantifier_distribution
          (weight by_one by_square e)
          (weight by_one by_square e)
          e
        ≡ some e')
      × Same M e' e
      × Everywhere (λ e. is_distributable e ≡ false) e'
unfolding quantifier_distribution
quantifier_distribution_lem M e c =
    runs_settled M by_one by_square quantifier_distribution_step is_distributable e
      (quantifier_distribution_step-Keeps M c) quantifier_distribution_step-Lowers
      quantifier_distribution_step-Honest quantifier_distribution_step-redex
