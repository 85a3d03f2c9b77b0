-- ===== src/Expr/Denote.antt =====
-- What expressions denote: an algebra gives a domain, a value to each constant and an operation to each
-- form of aris/src/expr.rs. A quantifier is an operation on functions of its bound variable.
use aris.Base.{String, List, [], ◌∷◌, if◌then◌else◌, ◌==◌, string_eq}
use aris.Expr.{
  Expr, Exprs, Op, QuantKind, contra, taut, var, apply, not, impl, assoc, quant, nil, cons,
}

pub record Algebra : Type 1 where
  pub Value : Type 0
  pub contradiction : Value
  pub tautology : Value
  pub call : Value → List Value → Value
  pub negation : Value → Value
  pub implication : Value → Value → Value
  pub operation : Op → List Value → Value
  pub quantifier : QuantKind → (Value → Value) → Value

abbrev pub update {ℓ} : {A : Type ℓ} → (String → A) → String → A → String → A
update ρ x d y = if y == x then d else ρ y

module _ (M : Algebra) where
  unfoldable mutual
    pub denote : (String → M.Value) → Expr → M.Value
    denote ρ contra = M.contradiction
    denote ρ taut = M.tautology
    denote ρ (var name) = ρ name
    denote ρ (apply func args) = M.call (denote ρ func) (denote_all ρ args)
    denote ρ (not operand) = M.negation (denote ρ operand)
    denote ρ (impl left right) = M.implication (denote ρ left) (denote ρ right)
    denote ρ (assoc op exprs) = M.operation op (denote_all ρ exprs)
    denote ρ (quant kind name body) = M.quantifier kind (λ d. denote (update ρ name d) body)

    pub denote_all : (String → M.Value) → Exprs → List M.Value
    denote_all ρ nil = []
    denote_all ρ (cons e es) = denote ρ e ∷ denote_all ρ es
