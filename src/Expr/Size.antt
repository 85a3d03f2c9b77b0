-- ===== src/Expr/Size.antt =====
-- The number of nodes of an expression: fuel for the recursions of aris/src/expr.rs that are not
-- structural.
use aris.Base.{ℕ, suc, ◌+◌, ◌≤◌, arith}
use aris.Expr.{Expr, Exprs, contra, taut, var, apply, not, impl, assoc, quant, nil, cons}

unfoldable mutual
  pub size : Expr → ℕ
  size contra = 1
  size taut = 1
  size (var name) = 1
  size (apply func args) = suc (size func + size_all args)
  size (not operand) = suc (size operand)
  size (impl left right) = suc (size left + size right)
  size (assoc op exprs) = suc (size_all exprs)
  size (quant kind name body) = suc (size body)

  pub size_all : Exprs → ℕ
  size_all nil = 0
  size_all (cons e es) = size e + size_all es

pub size-pos : (e : Expr) → 1 ≤ size e
unfolding size
size-pos contra = omega arith
size-pos _ = omega arith
