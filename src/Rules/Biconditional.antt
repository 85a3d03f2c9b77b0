-- ===== src/Rules/Biconditional.antt =====
-- The checks of `BiconditionalInference` in aris/src/rules.rs.
pub mod Sound
use aris.Base.{Bool, true, false, ◌||◌, ◌&&◌, List, if◌then◌else◌, ◌==◌}
use aris.Expr.{Expr, Exprs, Op, var, not, assoc, nil, cons}
use aris.Expr.Equal.{expr_eq}
use aris.Expr.Build.{not_place_holder, assoc_place_holder}
use aris.Pool.{PjRef, PooledProof}
use aris.Pool.Scope.{ProofCheckError, does_not_occur, dep_does_not_exist}
use aris.Rules.Order.{Permutations, Checked, AnyOrderResult, either_order}
use aris.Rules.Check.{premise}

-- `Expr::assoc(Op::Bicon, &[left, right])`
abbrev pub bicon_of : Expr → Expr → Expr
bicon_of left right = assoc Op.bicon (cons left (cons right nil))

unfoldable pub ok_or_err : Bool → ProofCheckError → AnyOrderResult
ok_or_err test e = if test then AnyOrderResult.ok else AnyOrderResult.err e

unfoldable pub bicon_intro_order : Expr → Expr → Expr → AnyOrderResult
unfolding ok_or_err
bicon_intro_order conclusion (var left) (var right) =
    ok_or_err (conclusion == bicon_of (var left) (var right))
      (does_not_occur conclusion (assoc_place_holder Op.bicon))
bicon_intro_order conclusion (not left) (not right) =
    ok_or_err (conclusion == bicon_of left right || conclusion == bicon_of (not left) (not right))
      (does_not_occur conclusion (assoc_place_holder Op.bicon))
bicon_intro_order conclusion i j =
    AnyOrderResult.err (does_not_occur conclusion (assoc_place_holder Op.bicon))

unfoldable pub bicon_intro_negation_order : Expr → Expr → Expr → AnyOrderResult
unfolding ok_or_err
bicon_intro_negation_order conclusion (not left) (var right) =
    ok_or_err (conclusion == not (bicon_of left (var right)))
      (does_not_occur conclusion not_place_holder)
bicon_intro_negation_order conclusion (var left) (not right) =
    ok_or_err (conclusion == not (bicon_of (var left) right))
      (does_not_occur conclusion not_place_holder)
bicon_intro_negation_order conclusion i j =
    AnyOrderResult.err (does_not_occur conclusion not_place_holder)

unfoldable pub bicon_inference_elim_order : Expr → Expr → Expr → AnyOrderResult
unfolding ok_or_err
bicon_inference_elim_order conclusion (assoc Op.bicon (cons left (cons right nil))) (not operand) =
    ok_or_err
      ((operand == left && conclusion == not right) || (operand == right && conclusion == not left))
      (does_not_occur (not operand) conclusion)
bicon_inference_elim_order conclusion i j = AnyOrderResult.wrong_order

unfoldable pub bicon_elim_negation_order : Expr → Expr → Expr → AnyOrderResult
unfolding ok_or_err
bicon_elim_negation_order conclusion (not (assoc Op.bicon (cons left (cons right nil)))) j =
    if left == j
    then ok_or_err (conclusion == not right) (does_not_occur conclusion right)
    else if right == j
    then ok_or_err (conclusion == not left) (does_not_occur conclusion left)
    else AnyOrderResult.wrong_order
bicon_elim_negation_order conclusion i j = AnyOrderResult.wrong_order

module _ {R : Type 0} (itertools : Permutations) (p : PooledProof Expr R) (deps : List PjRef) where
  -- The two dependencies in either order.
  unfoldable pub of_two : (Expr → Expr → AnyOrderResult) → ProofCheckError → Checked
  unfolding premise
  of_two check_func fallthrough_error = premise p deps 0 λ prem1.
      premise p deps 1 λ prem2. either_order itertools prem1 prem2 check_func fallthrough_error

  unfoldable pub bicon_intro : Expr → Checked
  unfolding of_two bicon_intro_order
  bicon_intro conclusion =
      of_two (bicon_intro_order conclusion) (dep_does_not_exist (assoc_place_holder Op.bicon) true)

  unfoldable pub bicon_intro_negation : Expr → Checked
  unfolding of_two bicon_intro_negation_order
  bicon_intro_negation conclusion =
      of_two (bicon_intro_negation_order conclusion) (dep_does_not_exist not_place_holder true)

  unfoldable pub bicon_elim : Expr → Checked
  unfolding of_two bicon_inference_elim_order
  bicon_elim conclusion =
      of_two (bicon_inference_elim_order conclusion)
        (dep_does_not_exist (assoc_place_holder Op.bicon) true)

  unfoldable pub bicon_elim_negation : Expr → Checked
  unfolding of_two bicon_elim_negation_order
  bicon_elim_negation conclusion =
      of_two (bicon_elim_negation_order conclusion) (dep_does_not_exist not_place_holder true)
