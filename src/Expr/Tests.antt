-- ===== src/Expr/Tests.antt =====
-- Runs of the helpers of aris/src/expr.rs that view and build expressions.
use aris.Base.{[], ◌∷◌, some, string_eq, ◌≡◌, refl}
use aris.Expr.{Op, QuantKind, var, apply, assoc, quant, nil, cons}
use aris.Expr.Arities.{infer_arities, raise, raise_all, count_args, larger}
use aris.Pool.{lookup, store}

-- p(x) and a quantified q(x, y): the bound name is left out.
arities_run :
    infer_arities
      (assoc Op.and (
        cons (apply (var "p") (cons (var "x") nil)) (
          cons
            (quant QuantKind.forall "x" (apply (var "q") (cons (var "x") (cons (var "y") nil))))
            nil)))
      []
    ≡ some (("p", 1) ∷ ("x", 0) ∷ ("q", 2) ∷ ("y", 0) ∷ [])
unfolding infer_arities raise raise_all count_args larger lookup store
arities_run = refl
