-- ===== src/Transform/Denotes.antt =====
-- `transform` of aris/src/expr.rs keeps what each of its steps keeps.
use aris.Base.{
  ℕ, zero, suc, Bool, ◌||◌, Option, some, ◌≡◌, ap, ap₂, ◌∙◌, sym, fun_ext, String, bind-eq-some,
  both-eq-some, some-inj, Bool-cases, inl, inr, ◌∷◌,
}
use aris.Expr.{Expr, Exprs, contra, taut, var, apply, not, impl, assoc, quant, nil, cons}
use aris.Expr.Denote.{Algebra, update, denote, denote_all}
use aris.Transform.{
  Trans, traverse_status, operands, transform_expr_inner, transform_while, transform,
}

module _ (M : Algebra) where
  -- Under every assignment both denote the same.
  abbrev pub Same : Expr → Expr → Type 0
  Same e e' = (ρ : String → M.Value) → denote M ρ e ≡ denote M ρ e'

  -- A step that keeps the denotation of every expression.
  abbrev pub Keeps : Trans → Type 0
  Keeps trans = (e : Expr) → Same (trans e).0 e

  abbrev KeepsSome : (Expr → Option (Expr × Bool)) → Type 0
  KeepsSome f = (e : Expr) (r : Expr × Bool) → f e ≡ some r → Same r.0 e

  traverse_status-keeps :
      (f : Expr → Option (Expr × Bool)) (es : Exprs) (r : Exprs × Bool)
      → KeepsSome f
      → traverse_status f es ≡ some r
      → (ρ : String → M.Value) → denote_all M ρ r.0 ≡ denote_all M ρ es
  unfolding traverse_status denote
  traverse_status-keeps f nil r k h ρ = ap (λ p. denote_all M ρ p.0) (sym (some-inj h))
  traverse_status-keeps f (cons e es) r k h ρ =
      let (a, b, p, q, w) =
        both-eq-some (λ a b. (cons a.0 b.0, a.1 || b.1)) (f e) (traverse_status f es) h in
      ap (λ p. denote_all M ρ p.0) (sym w)
      ∙ ap₂ ◌∷◌ (k e a p ρ) (traverse_status-keeps f es b k q ρ)

  operands-keeps :
      (f : Expr → Option (Expr × Bool)) (e : Expr) (r : Expr × Bool)
      → KeepsSome f
      → operands f e ≡ some r
      → Same r.0 e
  unfolding operands denote
  operands-keeps f contra r k h ρ = ap (λ p. denote M ρ p.0) (sym (some-inj h))
  operands-keeps f taut r k h ρ = ap (λ p. denote M ρ p.0) (sym (some-inj h))
  operands-keeps f (var name) r k h ρ = ap (λ p. denote M ρ p.0) (sym (some-inj h))
  operands-keeps f (apply func args) r k h ρ =
      let (a, b, p, q, w) =
        both-eq-some (λ a b. (apply a.0 b.0, a.1 || b.1)) (f func) (traverse_status f args) h in
      ap (λ p. denote M ρ p.0) (sym w)
      ∙ ap₂ M.call (k func a p ρ) (traverse_status-keeps f args b k q ρ)
  operands-keeps f (not operand) r k h ρ =
      let (a, p, w) = bind-eq-some (f operand) (λ r. some (not r.0, r.1)) h in
      ap (λ p. denote M ρ p.0) (sym (some-inj w)) ∙ ap M.negation (k operand a p ρ)
  operands-keeps f (impl left right) r k h ρ =
      let (a, b, p, q, w) = both-eq-some (λ a b. (impl a.0 b.0, a.1 || b.1)) (f left) (f right) h in
      ap (λ p. denote M ρ p.0) (sym w) ∙ ap₂ M.implication (k left a p ρ) (k right b q ρ)
  operands-keeps f (assoc op exprs) r k h ρ =
      let (b, q, w) = bind-eq-some (traverse_status f exprs) (λ rs. some (assoc op rs.0, rs.1)) h in
      ap (λ p. denote M ρ p.0) (sym (some-inj w))
      ∙ ap (M.operation op) (traverse_status-keeps f exprs b k q ρ)
  operands-keeps f (quant kind name body) r k h ρ =
      let (a, p, w) = bind-eq-some (f body) (λ r. some (quant kind name r.0, r.1)) h in
      ap (λ p. denote M ρ p.0) (sym (some-inj w))
      ∙ ap (M.quantifier kind) (fun_ext (λ d. k body a p (update ρ name d)))

  inner-Keeps :
      (n : ℕ) (trans : Trans) → Keeps trans → KeepsSome (λ e. transform_expr_inner n trans e)
  unfolding transform_expr_inner
  inner-Keeps zero trans k e r h ρ = cc
  inner-Keeps (suc n) trans k e r h ρ =
      let f : Expr → Option (Expr × Bool) = λ e. transform_expr_inner n trans e in
      let (a, p, w) =
        bind-eq-some (operands f (trans e).0) (λ r. some (r.0, (trans e).1 || r.1)) h in
      ap (λ p. denote M ρ p.0) (sym (some-inj w))
      ∙ operands-keeps f (trans e).0 a (inner-Keeps n trans k) p ρ
      ∙ k e ρ

  while-Keeps :
      (rounds n : ℕ) (trans : Trans) (r : Expr × Bool) (e : Expr)
      → Keeps trans
      → transform_while rounds n trans r ≡ some e
      → Same e r.0
  unfolding transform_while
  while-Keeps zero n trans r e k h ρ = elim (Bool-cases r.1) [
    | inl t ↦ let h' = rw t at h in cc
    | inr f ↦ ap (denote M ρ) (sym (some-inj (rw f at h)))
  ]
  while-Keeps (suc rounds) n trans r e k h ρ = elim (Bool-cases r.1) [
    | inl t ↦
        let (a, p, w) =
          bind-eq-some (transform_expr_inner n trans r.0) (transform_while rounds n trans)
            (rw t at h) in
        while-Keeps rounds n trans a e k w ρ ∙ inner-Keeps n trans k r.0 a p ρ
    | inr f ↦ ap (denote M ρ) (sym (some-inj (rw f at h)))
  ]

  -- If every step keeps the denotation, so does the whole transformation, however many rounds it takes.
  pub transform-Keeps :
      (rounds n : ℕ) (trans : Trans) (e e' : Expr)
      → Keeps trans
      → transform rounds n trans e ≡ some e'
      → Same e' e
  unfolding transform
  transform-Keeps rounds n trans e e' k h ρ =
      let (a, p, w) =
        bind-eq-some (transform_expr_inner n trans e) (transform_while rounds n trans) h in
      while-Keeps rounds n trans a e' k w ρ ∙ inner-Keeps n trans k e a p ρ
