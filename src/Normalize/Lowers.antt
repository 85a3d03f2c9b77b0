-- ===== src/Normalize/Lowers.antt =====
-- Weights that the steps of the normalizers of aris/src/expr.rs lower: quadratic in the operand for
-- the node that the step moves inwards.
use aris.Base.{ℕ, suc, ◌+◌, ◌*◌, ◌≤◌, String, ◌≡◌, Bool-cases, inl, inr, arith, ◌&&◌}
use aris.Expr.{Expr, Exprs, Op, QuantKind, not, impl, assoc, quant, nil, cons}
use aris.Vars.{contains, free_vars}
use aris.Transform.Weight.{Scale, by_one, by_square, bit, bit-or, weight, weight_all, weight-pos}
use aris.Transform.Ends.{Lowers}
use aris.Normalize.{
  op_eq, map_exprs, append_exprs, flatten_one, flatten, demorgans, demorgans_step, selected,
  combine_one, combine_from, combine_step, negate_quantifiers_step, null_quantifiers_step, opposite,
  aristotelean_square_step, quantifier_distribution_step,
}

-- A step that does nothing and says so.
idle : (m : ℕ) → m + 0 ≤ m
idle m = omega arith

module _ (neg bind : Scale) where
  weight_all-append :
      (es es' : Exprs)
      → weight_all neg bind (append_exprs es es') ≡ weight_all neg bind es + weight_all neg bind es'
  unfolding weight append_exprs
  weight_all-append nil es' = omega arith
  weight_all-append (cons e es) es' = omega (arith, weight_all-append es es')

  flatten_one-weight :
      (op : Op) (e : Expr) → weight_all neg bind (flatten_one op e) ≤ weight neg bind e
  unfolding weight flatten_one
  flatten_one-weight op (assoc inner exprs) = elim (Bool-cases (op_eq inner op)) [
    | inl t ↦ rw t (omega arith)
    | inr f ↦ rw f (omega arith)
  ]
  flatten_one-weight op _ = omega arith

  flatten-weight :
      (op : Op) (es : Exprs) → weight_all neg bind (flatten op es) ≤ weight_all neg bind es
  unfolding weight flatten
  flatten-weight op nil = omega arith
  flatten-weight op (cons e es) = omega (
    arith,
    weight_all-append (flatten_one op e) (flatten op es),
    flatten_one-weight op e,
    flatten-weight op es,
  )

  combine_one-weight :
      (t : String) (op : Op) (e : Expr)
      → weight_all neg bind (combine_one t op e).0 + bit (combine_one t op e).1 ≤ weight neg bind e
  unfolding weight combine_one
  combine_one-weight t op (assoc inner exprs) =
      elim (Bool-cases (op_eq op inner && selected t inner)) [
        | inl t ↦ rw t (omega arith)
        | inr f ↦ rw f (omega arith)
      ]
  combine_one-weight t op _ = omega arith

  combine_from-weight :
      (t : String) (op : Op) (es : Exprs)
      → weight_all neg bind (combine_from t op es).0 + bit (combine_from t op es).1
        ≤ weight_all neg bind es
  unfolding weight combine_from
  combine_from-weight t op nil = omega arith
  combine_from-weight t op (cons e es) = omega (
    arith,
    weight_all-append (combine_one t op e).0 (combine_from t op es).0,
    combine_one-weight t op e,
    combine_from-weight t op es,
    bit-or (combine_one t op e).1 (combine_from t op es).1,
  )

  pub combine_step-Lowers : (t : String) → Lowers neg bind (combine_step t)
  unfolding weight combine_step
  combine_step-Lowers t (assoc op exprs) = elim (Bool-cases (selected t op)) [
    | inl p ↦ rw p (omega (arith, combine_from-weight t op exprs))
    | inr p ↦ rw p (omega arith)
  ]
  combine_step-Lowers t _ = omega arith

square_sum :
    (m n b s : ℕ)
    → 1 ≤ m
    → b ≤ m * m + m + 1
    → s ≤ n * n + 2 * n
    → b + s ≤ (m + n) * (m + n) + 2 * (m + n)
square_sum m n b s h p q = grind arith

-- Scaling each operand weighs less than scaling what holds them all.
map_not-weight :
    (es : Exprs)
    → weight_all by_square by_one (map_exprs not es)
      ≤ weight_all by_square by_one es * weight_all by_square by_one es
        + 2 * weight_all by_square by_one es
unfolding weight map_exprs
map_not-weight nil = omega arith
map_not-weight (cons e es) =
    let m : ℕ = weight by_square by_one e in
    square_sum m (weight_all by_square by_one es) (m * m + m + 1)
      (weight_all by_square by_one (map_exprs not es)) (weight-pos by_square by_one e) (omega arith)
      (map_not-weight es)

map_quant-weight :
    (k : QuantKind) (name : String) (es : Exprs)
    → weight_all by_one by_square (map_exprs (quant k name) es)
      ≤ weight_all by_one by_square es * weight_all by_one by_square es
        + 2 * weight_all by_one by_square es
unfolding weight map_exprs
map_quant-weight k name nil = omega arith
map_quant-weight k name (cons e es) =
    let m : ℕ = weight by_one by_square e in
    square_sum m (weight_all by_one by_square es) (m * m + m + 1)
      (weight_all by_one by_square (map_exprs (quant k name) es)) (weight-pos by_one by_square e)
      (omega arith) (map_quant-weight k name es)

outside : (s n : ℕ) → s ≤ n * n + 2 * n → suc s + 1 ≤ suc n * suc n + suc n + 1
outside s n h = grind arith

pub demorgans_step-Lowers : Lowers by_square by_one demorgans_step
unfolding weight demorgans_step demorgans
demorgans_step-Lowers (not (assoc Op.and exprs)) =
    outside (weight_all by_square by_one (map_exprs not exprs)) (weight_all by_square by_one exprs)
      (map_not-weight exprs)
demorgans_step-Lowers (not (assoc Op.or exprs)) =
    outside (weight_all by_square by_one (map_exprs not exprs)) (weight_all by_square by_one exprs)
      (map_not-weight exprs)
demorgans_step-Lowers (assoc Op.and exprs) =
    omega (arith, flatten-weight by_square by_one Op.and exprs)
demorgans_step-Lowers (assoc Op.or exprs) =
    omega (arith, flatten-weight by_square by_one Op.or exprs)
demorgans_step-Lowers e = idle (weight by_square by_one e)

inside : (n : ℕ) → suc (n * n + n + 1) + 1 ≤ suc n * suc n + suc n + 1
inside n = grind arith

pub negate_quantifiers_step-Lowers : Lowers by_square by_one negate_quantifiers_step
unfolding weight negate_quantifiers_step
negate_quantifiers_step-Lowers (not (quant QuantKind.exists name body)) =
    inside (weight by_square by_one body)
negate_quantifiers_step-Lowers (not (quant QuantKind.forall name body)) =
    inside (weight by_square by_one body)
negate_quantifiers_step-Lowers e = idle (weight by_square by_one e)

pub null_quantifiers_step-Lowers : Lowers by_one by_one null_quantifiers_step
unfolding weight null_quantifiers_step
null_quantifiers_step-Lowers (quant kind name body) =
    elim (Bool-cases (contains name (free_vars body))) [
      | inl t ↦ rw t (omega arith)
      | inr f ↦ rw f (omega arith)
    ]
null_quantifiers_step-Lowers e = idle (weight by_one by_one e)

both :
    (m n : ℕ)
    → m + (n * n + n + 1) + 3 ≤ suc (suc (m + n)) * suc (suc (m + n)) + suc (suc (m + n)) + 1
both m n = grind arith

both_operands :
    (m n : ℕ)
    → suc (suc (m + (n * n + n + 1))) + 1
      ≤ suc (suc (m + (n + 0))) * suc (suc (m + (n + 0))) + suc (suc (m + (n + 0))) + 1
both_operands m n = grind arith

pub aristotelean_square_step-Lowers : Lowers by_square by_one aristotelean_square_step
unfolding weight aristotelean_square_step opposite
aristotelean_square_step-Lowers (not (quant QuantKind.exists name (impl l r))) =
    omega (arith, both (weight by_square by_one l) (weight by_square by_one r))
aristotelean_square_step-Lowers
      (not (quant QuantKind.exists name (assoc Op.and (cons a (cons b nil))))) =
    both_operands (weight by_square by_one a) (weight by_square by_one b)
aristotelean_square_step-Lowers (not (quant QuantKind.forall name (impl l r))) =
    omega (arith, both (weight by_square by_one l) (weight by_square by_one r))
aristotelean_square_step-Lowers
      (not (quant QuantKind.forall name (assoc Op.and (cons a (cons b nil))))) =
    both_operands (weight by_square by_one a) (weight by_square by_one b)
aristotelean_square_step-Lowers e = idle (weight by_square by_one e)

pub quantifier_distribution_step-Lowers : Lowers by_one by_square quantifier_distribution_step
unfolding weight quantifier_distribution_step
quantifier_distribution_step-Lowers (quant QuantKind.forall name (assoc Op.and exprs)) =
    outside (weight_all by_one by_square (map_exprs (quant QuantKind.forall name) exprs))
      (weight_all by_one by_square exprs) (map_quant-weight QuantKind.forall name exprs)
quantifier_distribution_step-Lowers (quant QuantKind.exists name (assoc Op.or exprs)) =
    outside (weight_all by_one by_square (map_exprs (quant QuantKind.exists name) exprs))
      (weight_all by_one by_square exprs) (map_quant-weight QuantKind.exists name exprs)
quantifier_distribution_step-Lowers e = idle (weight by_one by_square e)
