-- ===== src/Expr/Build.antt =====
-- The helpers of aris/src/expr.rs that construct expressions, and the views of an expression as a list
-- of disjuncts or conjuncts.
use aris.Base.{String}
use aris.Expr.{Expr, Exprs, Op, QuantKind, contra, taut, var, not, impl, assoc, quant, nil, cons}

unfoldable pub bitor : Expr → Expr → Expr
bitor self rhs = assoc Op.or (cons self (cons rhs nil))

unfoldable pub not_place_holder : Expr
not_place_holder = not (var "_")

unfoldable pub expr_implies : Expr → Expr → Expr
expr_implies left right = impl left right

unfoldable pub impl_place_holder : Expr
unfolding expr_implies
impl_place_holder = expr_implies (var "_") (var "_")

unfoldable pub assoc_place_holder : Op → Expr
assoc_place_holder op = assoc op (cons (var "_") (cons (var "_") (cons (var "...") nil)))

unfoldable pub quant_place_holder : QuantKind → Expr
quant_place_holder kind = quant kind "_" (var "_")

unfoldable pub expr_forall : String → Expr → Expr
expr_forall name body = quant QuantKind.forall name body

unfoldable pub expr_exists : String → Expr → Expr
expr_exists name body = quant QuantKind.exists name body

unfoldable pub disjuncts : Expr → Exprs
disjuncts contra = nil
disjuncts (assoc Op.or exprs) = exprs
disjuncts e = cons e nil

unfoldable pub from_disjuncts : Exprs → Expr
from_disjuncts nil = contra
from_disjuncts (cons e nil) = e
from_disjuncts exprs = assoc Op.or exprs

unfoldable pub conjuncts : Expr → Exprs
conjuncts taut = nil
conjuncts (assoc Op.and exprs) = exprs
conjuncts e = cons e nil

unfoldable pub from_conjuncts : Exprs → Expr
from_conjuncts nil = taut
from_conjuncts (cons e nil) = e
from_conjuncts exprs = assoc Op.and exprs
