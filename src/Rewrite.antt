-- ===== src/Rewrite.antt =====
-- The rewrite rules of aris/src/rewrite_rules.rs: patterns with their replacements, each pattern in all orders of its
-- operands. The crate itertools is a parameter.
pub mod Equivs
pub mod Swapped
pub mod Members
pub mod Permuted
pub mod Rules
pub mod Tables
pub mod Sound
mod Tests
use mathlib.Core.List.{map, flat_map}
use aris.Base.{List, [], ◌∷◌}
use aris.Base.{CartesianProduct, Permutations}
use aris.Expr.{Expr, Exprs, contra, taut, var, apply, not, impl, assoc, quant, nil, cons, from_list}

pub record RewriteRule : Type 0 where
  pub reductions : List (Expr × Expr)

-- `args.remove(0)` and the rest. A product of one list or more has no empty element, on which it would panic.
unfoldable pub applied : List Expr → List Expr
applied [] = []
applied (func ∷ args) = apply func (from_list args) ∷ []

module _ (products : CartesianProduct) (orders : Permutations) where
  -- For an operator, the orders of the operands' own results: this is what the code lists, since
  -- an order of operands is one of their places.
  unfoldable mutual
    unfolding applied flat_map

    pub permute_ops : Expr → List Expr
    permute_ops contra = contra ∷ []
    permute_ops taut = taut ∷ []
    permute_ops (var name) = var name ∷ []
    permute_ops (apply func args) =
        flat_map applied
          (products.multi_cartesian_product Expr (permute_ops func ∷ permute_all args))
    permute_ops (not operand) = map not (permute_ops operand)
    permute_ops (impl left right) =
        let rights = permute_ops right in
        flat_map (λ left. map (impl left) rights) (permute_ops left)
    permute_ops (assoc op exprs) =
        flat_map
          (λ permutations.
            map (λ args. assoc op (from_list args))
              (products.multi_cartesian_product Expr permutations))
          (orders.permutations (List Expr) (permute_all exprs))
    permute_ops (quant kind name body) = map (quant kind name) (permute_ops body)

    pub permute_all : Exprs → List (List Expr)
    permute_all nil = []
    permute_all (cons e exprs) = permute_ops e ∷ permute_all exprs

  unfoldable pub permute_patterns : List (Expr × Expr) → List (Expr × Expr)
  permute_patterns patterns = flat_map (λ p. map (λ find. (find, p.1)) (permute_ops p.0)) patterns

  -- `from_patterns`, of the patterns that the parser gives.
  unfoldable pub from_patterns : List (Expr × Expr) → RewriteRule
  from_patterns patterns = record { reductions = permute_patterns patterns }
