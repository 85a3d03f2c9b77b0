-- ===== src/Transform/Ends.antt =====
-- `transform` of aris/src/expr.rs ends where each change lowers a weight.
use aris.Base.{
  ℕ, zero, suc, ◌+◌, ◌≤◌, Bool, true, false, ◌||◌, Option, some, ◌≡◌, refl, ap, Bool-cases, inl,
  inr, arith,
}
use aris.Expr.{Expr, Exprs, contra, taut, var, apply, not, impl, assoc, quant, nil, cons}
use aris.Transform.{
  Trans, traverse_status, operands, transform_expr_inner, transform_while, transform,
}
use aris.Transform.Weight.{Scale, bit, bit-or, over, weight, weight_all, weight-pos}

while-again :
    (rounds n : ℕ) (trans : Trans) (r r' : Expr × Bool) (e : Expr)
    → r.1 ≡ true
    → transform_expr_inner n trans r.0 ≡ some r'
    → transform_while rounds n trans r' ≡ some e
    → transform_while (suc rounds) n trans r ≡ some e
unfolding transform_while
while-again rounds n trans r r' e t p w = rw (t, p) w

module _ (neg bind : Scale) where
  -- A step never raises the weight, and lowers it when it reports a change.
  abbrev pub Lowers : Trans → Type 0
  Lowers trans = (e : Expr) → weight neg bind (trans e).0 + bit (trans e).1 ≤ weight neg bind e

  -- A result is there, and it is as light as the step rules ask.
  abbrev Lighter : Option (Expr × Bool) → ℕ → Type 0
  Lighter o m = (r : Expr × Bool) × (o ≡ some r) × (weight neg bind r.0 + bit r.1 ≤ m)

  traverse_status-ends :
      (f : Expr → Option (Expr × Bool)) (n : ℕ) (es : Exprs)
      → ((e : Expr) → weight neg bind e ≤ n → Lighter (f e) (weight neg bind e))
      → weight_all neg bind es ≤ n
      → (r : Exprs × Bool) × (traverse_status f es ≡ some r)
        × (weight_all neg bind r.0 + bit r.1 ≤ weight_all neg bind es)
  unfolding traverse_status weight
  traverse_status-ends f n nil k h = ((nil, false), refl, omega arith)
  traverse_status-ends f n (cons e es) k h =
      let (r, p, q) = k e (omega arith) in
      let (rs, p', q') = traverse_status-ends f n es k (omega arith) in
      ((cons r.0 rs.0, r.1 || rs.1), rw (p, p'), omega (arith, bit-or r.1 rs.1))

  operands-ends :
      (f : Expr → Option (Expr × Bool)) (n : ℕ) (e : Expr)
      → ((e : Expr) → weight neg bind e ≤ n → Lighter (f e) (weight neg bind e))
      → weight neg bind e ≤ suc n
      → Lighter (operands f e) (weight neg bind e)
  unfolding operands weight
  operands-ends f n contra k h = ((contra, false), refl, omega arith)
  operands-ends f n taut k h = ((taut, false), refl, omega arith)
  operands-ends f n (var name) k h = ((var name, false), refl, omega arith)
  operands-ends f n (apply func args) k h =
      let (r, p, q) = k func (omega arith) in
      let (rs, p', q') = traverse_status-ends f n args k (omega arith) in
      ((apply r.0 rs.0, r.1 || rs.1), rw (p, p'), omega (arith, bit-or r.1 rs.1))
  operands-ends f n (not operand) k h =
      let (r, p, q) = k operand (omega (arith, over neg (weight neg bind operand))) in
      ((not r.0, r.1), rw p, neg.slope (weight neg bind r.0) (bit r.1) (weight neg bind operand) q)
  operands-ends f n (impl left right) k h =
      let (l, p, q) = k left (omega arith) in
      let (r, p', q') = k right (omega arith) in
      ((impl l.0 r.0, l.1 || r.1), rw (p, p'), omega (arith, bit-or l.1 r.1))
  operands-ends f n (assoc op exprs) k h =
      let (rs, p', q') = traverse_status-ends f n exprs k (omega arith) in
      ((assoc op rs.0, rs.1), rw p', omega arith)
  operands-ends f n (quant kind name body) k h =
      let (r, p, q) = k body (omega (arith, over bind (weight neg bind body))) in
      (
        (quant kind name r.0, r.1),
        rw p,
        bind.slope (weight neg bind r.0) (bit r.1) (weight neg bind body) q,
      )

  inner-ends :
      (n : ℕ) (trans : Trans) (e : Expr)
      → Lowers trans
      → weight neg bind e ≤ n
      → Lighter (transform_expr_inner n trans e) (weight neg bind e)
  unfolding transform_expr_inner
  inner-ends zero trans e k h = absurd (omega (arith, weight-pos neg bind e))
  inner-ends (suc n) trans e k h =
      let d = k e in
      let (r, p, q) =
        operands-ends (λ e. transform_expr_inner n trans e) n (trans e).0
          (λ e' h'. inner-ends n trans e' k h') (omega arith) in
      ((r.0, (trans e).1 || r.1), rw p, omega (arith, bit-or (trans e).1 r.1))

  while-ends :
      (rounds n : ℕ) (trans : Trans) (r : Expr × Bool)
      → Lowers trans
      → weight neg bind r.0 ≤ n
      → weight neg bind r.0 + bit r.1 ≤ suc rounds
      → (e : Expr) × (transform_while rounds n trans r ≡ some e)
  unfolding transform_while
  while-ends zero n trans r k h h' = elim (Bool-cases r.1) [
    | inl t ↦ absurd (omega (arith, weight-pos neg bind r.0, ap bit t))
    | inr f ↦ (r.0, rw f)
  ]
  while-ends (suc rounds) n trans r k h h' = elim (Bool-cases r.1) [
    | inl t ↦
        let (r', p, q) = inner-ends n trans r.0 k h in
        let (e, w) = while-ends rounds n trans r' k (omega arith) (omega (arith, ap bit t)) in
        (e, while-again rounds n trans r r' e t p w)
    | inr f ↦ (r.0, rw f)
  ]

  -- Where no step raises the weight and each reported change lowers it, `transform` ends: fuel and
  -- rounds of the expression's weight are enough.
  pub transform-ends :
      (rounds n : ℕ) (trans : Trans) (e : Expr)
      → Lowers trans
      → weight neg bind e ≤ n
      → weight neg bind e ≤ suc rounds
      → (e' : Expr) × (transform rounds n trans e ≡ some e')
  unfolding transform
  transform-ends rounds n trans e k h h' =
      let (r, p, q) = inner-ends n trans e k h in
      let (e', w) = while-ends rounds n trans r k (omega arith) (omega arith) in (e', rw p w)
