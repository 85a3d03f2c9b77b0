-- ===== src/Nnf/Tests.antt =====
-- Runs of the conversion to negation normal form of aris/src/expr.rs.
use aris.Base.{true, false, some, [], ◌∷◌, ◌≡◌, refl}
use aris.Expr.{Expr, Exprs, Op}
use aris.Expr.Eval.{Env, eval}
use aris.Nnf
use aris.Nnf.{NnfExpr, NnfExprs, Valuation, holds, implies, bicon, reduce_bicon, values}
use aris.Nnf.Convert.{into_nnf, Agrees, eval-into_nnf}
use aris.Nnf.Total.{is_some, is_propositional, is_some-into_nnf}

-- P → (Q ↔ ¬P)
abbrev pub sample : Expr
sample = Expr.impl (Expr.var "P") (
    Expr.assoc Op.bicon
      (Exprs.cons (Expr.var "Q") (Exprs.cons (Expr.not (Expr.var "P")) Exprs.nil)))

abbrev pub all_true : Env
all_true name = some (true ∷ [])

abbrev pub truth : Valuation
truth name = true

pub all_true-Agrees : Agrees all_true truth
all_true-Agrees name = refl

abbrev pub sample_nnf : NnfExpr
sample_nnf = implies (Nnf.var "P") (bicon (Nnf.var "Q") (Nnf.not (Nnf.var "P")))

pub into_nnf-sample : into_nnf sample ≡ some sample_nnf
unfolding into_nnf reduce_bicon
into_nnf-sample = refl

eval-sample : eval all_true sample ≡ some false
unfolding eval
eval-sample = refl

eval-into_nnf_example : eval all_true sample ≡ some (holds truth sample_nnf)
eval-into_nnf_example =
    eval-into_nnf all_true truth sample sample_nnf all_true-Agrees into_nnf-sample

is_some-into_nnf_example : is_some (into_nnf sample) ≡ is_propositional sample
is_some-into_nnf_example = is_some-into_nnf sample
