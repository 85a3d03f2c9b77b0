-- ===== src/Cnf/Tests.antt =====
-- Runs of the conversion to conjunctive normal form of aris/src/expr.rs.
use aris.Base.{true, false, some, ◌≡◌, refl, itertools, flat_map}
use aris.Expr.Eval.{eval}
use aris.Nnf
use aris.Nnf.{NnfExpr, NnfExprs, Valuation, holds}
use aris.Nnf.Tests.{sample, sample_nnf, all_true, truth, all_true-Agrees, into_nnf-sample}
use aris.Cnf
use aris.Cnf.{CnfExpr, cnf, into_cnf, expr_into_cnf, cnf_holds}
use aris.Cnf.Convert.{
  is_guarded, is_trivial, any_trivial, cnf_holds-into_cnf_trivial, eval-expr_into_cnf,
}

sample-is_guarded : is_guarded sample_nnf ≡ true
unfolding is_guarded is_trivial Nnf.implies Nnf.bicon Nnf.not Nnf.var
sample-is_guarded = refl

-- A ∨ ⊤ becomes the false formula.
or_taut :
    into_cnf itertools (Nnf.or (Nnf.cons (Nnf.var "A") (Nnf.cons Nnf.taut Nnf.nil))) ≡ Cnf.contra
unfolding into_cnf Cnf.or Cnf.and Cnf.contra Cnf.literal Nnf.taut Nnf.var flat_map
or_taut = refl

abbrev a_or_taut : NnfExprs
a_or_taut = Nnf.cons (Nnf.var "A") (Nnf.cons Nnf.taut Nnf.nil)

cnf_holds-into_cnf_trivial_example :
    (holds truth (Nnf.or a_or_taut) ≡ true)
    × (cnf_holds truth (into_cnf itertools (Nnf.or a_or_taut)) ≡ false)
unfolding any_trivial is_trivial Nnf.taut Nnf.var
cnf_holds-into_cnf_trivial_example = cnf_holds-into_cnf_trivial itertools truth a_or_taut refl

eval-expr_into_cnf_example :
    (c : CnfExpr) × (expr_into_cnf itertools sample ≡ some c)
    × (eval all_true sample ≡ some (cnf_holds truth c))
eval-expr_into_cnf_example =
    eval-expr_into_cnf itertools all_true truth sample sample_nnf all_true-Agrees into_nnf-sample
      sample-is_guarded
