-- ===== src/Transform/Fixpoint.antt =====
-- Where `transform` of aris/src/expr.rs stops, for a step that reports every change.
use aris.Base.{
  ℕ, zero, suc, Bool, true, false, ◌||◌, Option, some, ◌≡◌, refl, ap, ap₂, ◌∙◌, sym, Bool-cases,
  inl, inr, bind-eq-some, both-eq-some, some-inj,
}
use aris.Expr.{Expr, Exprs, contra, taut, var, apply, not, impl, assoc, quant, nil, cons}
use aris.Transform.{
  Trans, traverse_status, operands, transform_expr_inner, transform_while, transform,
}

-- A predicate at an expression and at all expressions inside.
abbrev mutual
  pub Everywhere : (Expr → Type 0) → Expr → Type 0
  Everywhere P contra = P contra
  Everywhere P taut = P taut
  Everywhere P (var name) = P (var name)
  Everywhere P (apply func args) = P (apply func args) × Everywhere P func × EverywhereAll P args
  Everywhere P (not operand) = P (not operand) × Everywhere P operand
  Everywhere P (impl left right) = P (impl left right) × Everywhere P left × Everywhere P right
  Everywhere P (assoc op exprs) = P (assoc op exprs) × EverywhereAll P exprs
  Everywhere P (quant kind name body) = P (quant kind name body) × Everywhere P body

  pub EverywhereAll : (Expr → Type 0) → Exprs → Type 0
  EverywhereAll P nil = Unit
  EverywhereAll P (cons e es) = Everywhere P e × EverywhereAll P es

mutual
  pub Everywhere-map :
      {P Q : Expr → Type 0}
      → ((e : Expr) → P e → Q e)
      → (e : Expr) → Everywhere P e
      → Everywhere Q e
  Everywhere-map f contra h = f contra h
  Everywhere-map f taut h = f taut h
  Everywhere-map f (var name) h = f (var name) h
  Everywhere-map f (apply func args) (h, h', h'') =
      (f (apply func args) h, Everywhere-map f func h', EverywhereAll-map f args h'')
  Everywhere-map f (not operand) (h, h') = (f (not operand) h, Everywhere-map f operand h')
  Everywhere-map f (impl left right) (h, h', h'') =
      (f (impl left right) h, Everywhere-map f left h', Everywhere-map f right h'')
  Everywhere-map f (assoc op exprs) (h, h') = (f (assoc op exprs) h, EverywhereAll-map f exprs h')
  Everywhere-map f (quant kind name body) (h, h') =
      (f (quant kind name body) h, Everywhere-map f body h')

  EverywhereAll-map :
      {P Q : Expr → Type 0}
      → ((e : Expr) → P e → Q e)
      → (es : Exprs) → EverywhereAll P es
      → EverywhereAll Q es
  EverywhereAll-map f nil h = h
  EverywhereAll-map f (cons e es) (h, h') = (Everywhere-map f e h, EverywhereAll-map f es h')

-- A step that returns its argument where it reports no change.
abbrev pub Honest : Trans → Type 0
Honest trans = (e : Expr) → (trans e).1 ≡ false → (trans e).0 ≡ e

-- The step does not apply.
abbrev pub Idle : Trans → Expr → Type 0
Idle trans e = (trans e).1 ≡ false

or-false_left : (a b : Bool) → (a || b) ≡ false → a ≡ false
or-false_left true b h = h
or-false_left false b h = refl

or-false_right : (a b : Bool) → (a || b) ≡ false → b ≡ false
or-false_right true b h = absurd cc
or-false_right false b h = h

module _ (trans : Trans) where
  abbrev Settles : (Expr → Option (Expr × Bool)) → Type 0
  Settles f =
      (e : Expr) (r : Expr × Bool)
      → f e ≡ some r
      → r.1 ≡ false
      → (r.0 ≡ e) × Everywhere (Idle trans) e

  traverse_status-Settles :
      (f : Expr → Option (Expr × Bool)) (es : Exprs) (r : Exprs × Bool)
      → Settles f
      → traverse_status f es ≡ some r
      → r.1 ≡ false
      → (r.0 ≡ es) × EverywhereAll (Idle trans) es
  unfolding traverse_status
  traverse_status-Settles f nil r k h s = (ap (λ p. p.0) (sym (some-inj h)), tt)
  traverse_status-Settles f (cons e es) r k h s =
      let (a, b, p, q, w) =
        both-eq-some (λ a b. (cons a.0 b.0, a.1 || b.1)) (f e) (traverse_status f es) h in
      let s' = ap (λ p. p.1) w ∙ s in
      let (x, y) = k e a p (or-false_left a.1 b.1 s') in
      let (x', y') = traverse_status-Settles f es b k q (or-false_right a.1 b.1 s') in
      (ap (λ p. p.0) (sym w) ∙ ap₂ cons x x', (y, y'))

  operands-Settles :
      (f : Expr → Option (Expr × Bool)) (e : Expr) (r : Expr × Bool)
      → Settles f
      → operands f e ≡ some r
      → r.1 ≡ false
      → Idle trans e
      → (r.0 ≡ e) × Everywhere (Idle trans) e
  unfolding operands
  operands-Settles f contra r k h s i = (ap (λ p. p.0) (sym (some-inj h)), i)
  operands-Settles f taut r k h s i = (ap (λ p. p.0) (sym (some-inj h)), i)
  operands-Settles f (var name) r k h s i = (ap (λ p. p.0) (sym (some-inj h)), i)
  operands-Settles f (apply func args) r k h s i =
      let (a, b, p, q, w) =
        both-eq-some (λ a b. (apply a.0 b.0, a.1 || b.1)) (f func) (traverse_status f args) h in
      let s' = ap (λ p. p.1) w ∙ s in
      let (x, y) = k func a p (or-false_left a.1 b.1 s') in
      let (x', y') = traverse_status-Settles f args b k q (or-false_right a.1 b.1 s') in
      (ap (λ p. p.0) (sym w) ∙ ap₂ apply x x', (i, y, y'))
  operands-Settles f (not operand) r k h s i =
      let (a, p, w) = bind-eq-some (f operand) (λ r. some (not r.0, r.1)) h in
      let (x, y) = k operand a p (ap (λ p. p.1) (some-inj w) ∙ s) in
      (ap (λ p. p.0) (sym (some-inj w)) ∙ ap not x, (i, y))
  operands-Settles f (impl left right) r k h s i =
      let (a, b, p, q, w) = both-eq-some (λ a b. (impl a.0 b.0, a.1 || b.1)) (f left) (f right) h in
      let s' = ap (λ p. p.1) w ∙ s in
      let (x, y) = k left a p (or-false_left a.1 b.1 s') in
      let (x', y') = k right b q (or-false_right a.1 b.1 s') in
      (ap (λ p. p.0) (sym w) ∙ ap₂ impl x x', (i, y, y'))
  operands-Settles f (assoc op exprs) r k h s i =
      let (b, q, w) = bind-eq-some (traverse_status f exprs) (λ rs. some (assoc op rs.0, rs.1)) h in
      let (x, y) = traverse_status-Settles f exprs b k q (ap (λ p. p.1) (some-inj w) ∙ s) in
      (ap (λ p. p.0) (sym (some-inj w)) ∙ ap (assoc op) x, (i, y))
  operands-Settles f (quant kind name body) r k h s i =
      let (a, p, w) = bind-eq-some (f body) (λ r. some (quant kind name r.0, r.1)) h in
      let (x, y) = k body a p (ap (λ p. p.1) (some-inj w) ∙ s) in
      (ap (λ p. p.0) (sym (some-inj w)) ∙ ap (quant kind name) x, (i, y))

  inner-Settles : (n : ℕ) → Honest trans → Settles (λ e. transform_expr_inner n trans e)
  unfolding transform_expr_inner
  inner-Settles zero k e r h s = absurd cc
  inner-Settles (suc n) k e r h s =
      let f : Expr → Option (Expr × Bool) = λ e. transform_expr_inner n trans e in
      let (a, p, w) =
        bind-eq-some (operands f (trans e).0) (λ r. some (r.0, (trans e).1 || r.1)) h in
      let s' = ap (λ p. p.1) (some-inj w) ∙ s in
      let i = or-false_left (trans e).1 a.1 s' in
      let same = k e i in
      let (x, y) =
        operands-Settles f e a (inner-Settles n k) (sym (ap (operands f) same) ∙ p)
          (or-false_right (trans e).1 a.1 s') i in
      (ap (λ p. p.0) (sym (some-inj w)) ∙ x, y)

  stopped :
      (n : ℕ) (e e' : Expr) (r : Expr × Bool)
      → Honest trans
      → transform_expr_inner n trans e ≡ some r
      → r.1 ≡ false
      → r.0 ≡ e'
      → Everywhere (Idle trans) e'
  stopped n e e' r k p f h = let (x, y) = inner-Settles n k e r p f in rw (sym h ∙ x) y

  while-settles :
      (rounds n : ℕ) (e : Expr) (r : Expr × Bool) (e' : Expr)
      → Honest trans
      → transform_expr_inner n trans e ≡ some r
      → transform_while rounds n trans r ≡ some e'
      → Everywhere (Idle trans) e'
  unfolding transform_while
  while-settles zero n e r e' k p h = elim (Bool-cases r.1) [
    | inl t ↦ let h' = rw t at h in absurd cc
    | inr f ↦ stopped n e e' r k p f (some-inj (rw f at h))
  ]
  while-settles (suc rounds) n e r e' k p h = elim (Bool-cases r.1) [
    | inl t ↦
        let (a, q, w) =
          bind-eq-some (transform_expr_inner n trans r.0) (transform_while rounds n trans)
            (rw t at h) in
        while-settles rounds n r.0 a e' k q w
    | inr f ↦ stopped n e e' r k p f (some-inj (rw f at h))
  ]

  -- For an honest step, the result has no expression inside to which the step applies.
  pub transform-settles :
      (rounds n : ℕ) (e e' : Expr)
      → Honest trans
      → transform rounds n trans e ≡ some e'
      → Everywhere (Idle trans) e'
  unfolding transform
  transform-settles rounds n e e' k h =
      let (r, p, w) =
        bind-eq-some (transform_expr_inner n trans e) (transform_while rounds n trans) h in
      while-settles rounds n e r e' k p w
