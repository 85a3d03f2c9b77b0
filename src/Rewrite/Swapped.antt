-- ===== src/Rewrite/Swapped.antt =====
-- Expressions of aris/src/expr.rs that differ in the order of the two operands of some operators, and
-- what they denote.
use aris.Base.{String, Bool, true, false, ◌&&◌, [], ◌∷◌, ◌≡◌, refl, ap, ap₂, ◌∙◌, fun_ext}
use aris.Expr.{
  Expr, Exprs, Op, QuantKind, contra, taut, var, apply, not, impl, assoc, quant, nil, cons,
}
use aris.Expr.Denote.{Algebra, update, denote, denote_all}

-- Every operator has one or two operands.
abbrev mutual
  pub has_small_operators : Expr → Bool
  has_small_operators contra = true
  has_small_operators taut = true
  has_small_operators (var name) = true
  has_small_operators (apply func args) = has_small_operators func && all_small args
  has_small_operators (not operand) = has_small_operators operand
  has_small_operators (impl left right) = has_small_operators left && has_small_operators right
  has_small_operators (assoc op nil) = false
  has_small_operators (assoc op (cons a nil)) = has_small_operators a
  has_small_operators (assoc op (cons a (cons b nil))) =
      has_small_operators a && has_small_operators b
  has_small_operators (assoc op (cons a (cons b (cons c es)))) = false
  has_small_operators (quant kind name body) = has_small_operators body

  pub all_small : Exprs → Bool
  all_small nil = true
  all_small (cons e es) = has_small_operators e && all_small es

-- The second expression is the first with the two operands of some operators exchanged.
mutual
  pub data Swapped : Expr → Expr → Type 0 where
    at_contra : Swapped contra contra
    at_taut : Swapped taut taut
    at_var : (name : String) → Swapped (var name) (var name)
    at_apply :
        (func func' : Expr) (args args' : Exprs)
        → Swapped func func'
        → SwappedAll args args'
        → Swapped (apply func args) (apply func' args')
    at_not : (a a' : Expr) → Swapped a a' → Swapped (not a) (not a')
    at_impl : (l l' r r' : Expr) → Swapped l l' → Swapped r r' → Swapped (impl l r) (impl l' r')
    at_one :
        (op : Op) (a a' : Expr)
        → Swapped a a'
        → Swapped (assoc op (cons a nil)) (assoc op (cons a' nil))
    kept :
        (op : Op) (a a' b b' : Expr)
        → Swapped a a'
        → Swapped b b'
        → Swapped (assoc op (cons a (cons b nil))) (assoc op (cons a' (cons b' nil)))
    exchanged :
        (op : Op) (a a' b b' : Expr)
        → Swapped a a'
        → Swapped b b'
        → Swapped (assoc op (cons a (cons b nil))) (assoc op (cons b' (cons a' nil)))
    at_quant :
        (kind : QuantKind) (name : String) (a a' : Expr)
        → Swapped a a'
        → Swapped (quant kind name a) (quant kind name a')

  pub data SwappedAll : Exprs → Exprs → Type 0 where
    at_nil : SwappedAll nil nil
    at_cons :
        (e e' : Expr) (es es' : Exprs)
        → Swapped e e'
        → SwappedAll es es'
        → SwappedAll (cons e es) (cons e' es')

-- A change of the order of two operands keeps the value, where the operators are commutative.
abbrev pub Commutes : Algebra → Type 0
Commutes M = (op : Op) (a b : M.Value) → M.operation op (a ∷ b ∷ []) ≡ M.operation op (b ∷ a ∷ [])

module _ (M : Algebra) (commutes : Commutes M) where
  mutual
    unfolding denote

    pub Swapped-denote :
        (e f : Expr) → Swapped e f → (ρ : String → M.Value) → denote M ρ f ≡ denote M ρ e
    Swapped-denote e f at_contra ρ = refl
    Swapped-denote e f at_taut ρ = refl
    Swapped-denote e f (at_var name) ρ = refl
    Swapped-denote e f (at_apply func func' args args' s t) ρ =
        ap₂ M.call (Swapped-denote func func' s ρ) (SwappedAll-denote args args' t ρ)
    Swapped-denote e f (at_not a a' s) ρ = ap M.negation (Swapped-denote a a' s ρ)
    Swapped-denote e f (at_impl l l' r r' s t) ρ =
        ap₂ M.implication (Swapped-denote l l' s ρ) (Swapped-denote r r' t ρ)
    Swapped-denote e f (at_one op a a' s) ρ =
        ap (λ v. M.operation op (v ∷ [])) (Swapped-denote a a' s ρ)
    Swapped-denote e f (kept op a a' b b' s t) ρ =
        ap₂ (λ v w. M.operation op (v ∷ w ∷ [])) (Swapped-denote a a' s ρ) (Swapped-denote b b' t ρ)
    Swapped-denote e f (exchanged op a a' b b' s t) ρ =
        ap₂ (λ v w. M.operation op (v ∷ w ∷ [])) (Swapped-denote b b' t ρ) (Swapped-denote a a' s ρ)
        ∙ commutes op (denote M ρ b) (denote M ρ a)
    Swapped-denote e f (at_quant kind name a a' s) ρ =
        ap (M.quantifier kind) (fun_ext (λ d. Swapped-denote a a' s (update ρ name d)))

    SwappedAll-denote :
        (es fs : Exprs)
        → SwappedAll es fs
        → (ρ : String → M.Value) → denote_all M ρ fs ≡ denote_all M ρ es
    SwappedAll-denote es fs at_nil ρ = refl
    SwappedAll-denote es fs (at_cons e e' es' fs' s t) ρ =
        ap₂ ◌∷◌ (Swapped-denote e e' s ρ) (SwappedAll-denote es' fs' t ρ)
