-- ===== src/Rules/Propositional.antt =====
-- The checks of `PropositionalInference` in aris/src/rules.rs, but for the two introductions that search a
-- graph. A helper of a check is named after the check, and takes the value that the code matches on.
pub mod Subproofs
pub mod Sound
pub mod Eliminations
pub mod Derived
pub mod Discharge
pub mod Graph
pub mod Parity
pub mod Biconditional
use aris.Base.{
  String, Bool, true, false, not as not_bool, Option, none, some, List, [], ◌∷◌, length, any,
  if◌then◌else◌, ◌==◌, nat_eq, ℕ,
}
use aris.Expr.{Expr, Exprs, Op, contra, var, not, impl, assoc, nil, cons}
use aris.Expr.Equal.{expr_eq}
use aris.Expr.Build.{impl_place_holder, assoc_place_holder}
use aris.Pool.{PjRef, PooledProof}
use aris.Pool.Lines.{lookup_expr, lookup_expr_or_die}
use aris.Pool.Scope.{
  dep_of_wrong_form, conclusion_of_wrong_form, does_not_occur, dep_does_not_exist,
}
use aris.Rules.Order.{Permutations, Checked, AnyOrderResult, either_order}
use aris.Rules.Check.{try, exprs_contain, premise, do_expressions_contradict}

-- A lookup that found the expression.
unfoldable pub found : Expr → Option Expr → Bool
found e none = false
found e (some de) = de == e

-- The operands that a set does not hold.
unfoldable pub operands_outside : Exprs → Exprs → Exprs
operands_outside s nil = nil
operands_outside s (cons x exprs) =
    let rest = operands_outside s exprs in if exprs_contain x s then rest else cons x rest

-- The first operand of a set that is not among others.
unfoldable pub first_missing : Exprs → Exprs → Option Expr
first_missing exprs nil = none
first_missing exprs (cons prem s) =
    let rest = first_missing exprs s in if exprs_contain prem exprs then rest else some prem

-- What is left of a conjunction: one operand stands for itself.
unfoldable pub one_or_all : Op → Exprs → Expr
one_or_all op (cons e nil) = e
one_or_all op terms = assoc op terms

module _ {R : Type 0} (p : PooledProof Expr R) (deps : List PjRef) where
  -- A single dependency that is the conclusion is enough.
  unfoldable pub single_dep : Expr → Checked → Checked
  unfolding premise
  single_dep conclusion next =
      if length deps == 1
      then premise p deps 0 (λ e. if e == conclusion then Checked.ok else next)
      else next

  unfoldable pub deps_occur : Exprs → Expr → List PjRef → Checked → Checked
  deps_occur exprs conclusion [] next = next
  deps_occur exprs conclusion (d ∷ ds) next =
      let rest = deps_occur exprs conclusion ds next in
      try (lookup_expr_or_die p d)
        (λ e. if exprs_contain e exprs then rest else Checked.err (does_not_occur e conclusion))

  unfoldable pub exprs_have_deps : Exprs → Checked
  exprs_have_deps nil = Checked.ok
  exprs_have_deps (cons e exprs) =
      let rest = exprs_have_deps exprs in
      if any (λ d. found e (lookup_expr p d)) deps
      then rest
      else Checked.err (dep_does_not_exist e false)

  unfoldable pub and_intro_of : Expr → Checked
  unfolding deps_occur exprs_have_deps
  and_intro_of (assoc Op.and exprs) =
      deps_occur exprs (assoc Op.and exprs) deps (exprs_have_deps exprs)
  and_intro_of conclusion = Checked.err (conclusion_of_wrong_form (assoc_place_holder Op.and))

  unfoldable pub and_intro : Expr → Checked
  unfolding single_dep and_intro_of
  and_intro conclusion = single_dep conclusion (and_intro_of conclusion)

  unfoldable pub all_in : Exprs → Expr → Expr → Exprs → Checked
  all_in exprs conclusion prem nil = Checked.ok
  all_in exprs conclusion prem (cons ce ces) =
      let rest = all_in exprs conclusion prem ces in
      if exprs_contain ce exprs then rest else Checked.err (does_not_occur conclusion prem)

  unfoldable pub and_elim_of : Expr → Expr → Checked
  unfolding all_in
  and_elim_of (assoc Op.and exprs) (assoc Op.and ces) =
      all_in exprs (assoc Op.and ces) (assoc Op.and exprs) ces
  and_elim_of (assoc Op.and exprs) conclusion =
      if exprs_contain conclusion exprs
      then Checked.ok
      else Checked.err (does_not_occur conclusion (assoc Op.and exprs))
  and_elim_of prem conclusion = Checked.err (dep_does_not_exist (assoc_place_holder Op.and) true)

  unfoldable pub and_elim : Expr → Checked
  unfolding single_dep premise and_elim_of
  and_elim conclusion =
      single_dep conclusion (premise p deps 0 (λ prem. and_elim_of prem conclusion))

  unfoldable pub or_intro_of : Expr → Expr → Checked
  or_intro_of prem (assoc Op.or exprs) =
      if exprs_contain prem exprs
      then Checked.ok
      else Checked.err (does_not_occur prem (assoc Op.or exprs))
  or_intro_of prem conclusion = Checked.err (conclusion_of_wrong_form (assoc_place_holder Op.or))

  unfoldable pub or_intro : Expr → Checked
  unfolding single_dep premise or_intro_of
  or_intro conclusion =
      single_dep conclusion (premise p deps 0 (λ prem. or_intro_of prem conclusion))

  unfoldable pub not_elim_of : Expr → Expr → Checked
  not_elim_of (not (not operand)) conclusion =
      if operand == conclusion
      then Checked.ok
      else Checked.err (conclusion_of_wrong_form (not (not (var "_"))))
  not_elim_of prem conclusion = Checked.err (dep_does_not_exist (not (not (var "_"))) true)

  unfoldable pub not_elim : Expr → Checked
  unfolding premise not_elim_of
  not_elim conclusion = premise p deps 0 (λ prem. not_elim_of prem conclusion)

  unfoldable pub contradiction_elim_of : Expr → Checked
  contradiction_elim_of contra = Checked.ok
  contradiction_elim_of prem = Checked.err (dep_of_wrong_form prem contra)

  unfoldable pub contradiction_elim : Expr → Checked
  unfolding premise contradiction_elim_of
  contradiction_elim conclusion = premise p deps 0 contradiction_elim_of

-- `P → Q` and `P` give `Q`.
unfoldable pub imp_elim_order : Expr → Expr → Expr → AnyOrderResult
imp_elim_order conclusion (impl left right) j =
    if not_bool (left == j)
    then AnyOrderResult.err (does_not_occur (impl left right) j)
    else if not_bool (right == conclusion)
    then AnyOrderResult.err (does_not_occur conclusion right)
    else AnyOrderResult.ok
imp_elim_order conclusion i j = AnyOrderResult.wrong_order

-- The operands of a biconditional as a set, or the one expression.
unfoldable pub bicon_operands : Expr → Exprs
bicon_operands (assoc Op.bicon exprs) = exprs
bicon_operands j = cons j nil

unfoldable pub bicon_elim_rest : Expr → Exprs → Exprs → Option Expr → AnyOrderResult
bicon_elim_rest conclusion exprs s (some prem) =
    AnyOrderResult.err (does_not_occur prem (assoc Op.bicon exprs))
bicon_elim_rest conclusion exprs s none =
    let expected = one_or_all Op.bicon (operands_outside s exprs) in
    if conclusion == expected
    then AnyOrderResult.ok
    else AnyOrderResult.err (does_not_occur conclusion expected)

unfoldable pub bicon_elim_order : Expr → Expr → Expr → AnyOrderResult
unfolding bicon_operands first_missing bicon_elim_rest operands_outside one_or_all
bicon_elim_order conclusion (assoc Op.bicon exprs) j =
    bicon_elim_rest conclusion exprs (bicon_operands j) (first_missing exprs (bicon_operands j))
bicon_elim_order conclusion i j = AnyOrderResult.wrong_order

unfoldable pub equiv_elim_order : Expr → Expr → Expr → AnyOrderResult
equiv_elim_order conclusion (assoc Op.equiv exprs) j =
    if not_bool (exprs_contain j exprs)
    then AnyOrderResult.err (does_not_occur j (assoc Op.equiv exprs))
    else if not_bool (exprs_contain conclusion exprs)
    then AnyOrderResult.err (does_not_occur conclusion (assoc Op.equiv exprs))
    else AnyOrderResult.ok
equiv_elim_order conclusion i j = AnyOrderResult.wrong_order

module _ {R : Type 0} (itertools : Permutations) (p : PooledProof Expr R) (deps : List PjRef) where
  unfoldable pub imp_elim : Expr → Checked
  unfolding premise imp_elim_order
  imp_elim conclusion = premise p deps 0 λ prem1. premise p deps 1 λ prem2.
      either_order itertools prem1 prem2 (imp_elim_order conclusion)
        (dep_does_not_exist impl_place_holder true)

  unfoldable pub contradiction_intro : Expr → Checked
  unfolding premise
  contradiction_intro contra =
      premise p deps 0
        λ prem1. premise p deps 1 λ prem2. do_expressions_contradict itertools prem1 prem2
  contradiction_intro conclusion = Checked.err (conclusion_of_wrong_form contra)

  unfoldable pub biconditional_elim : Expr → Checked
  unfolding premise bicon_elim_order
  biconditional_elim conclusion = premise p deps 0 λ prem1. premise p deps 1 λ prem2.
      either_order itertools prem1 prem2 (bicon_elim_order conclusion)
        (dep_does_not_exist (assoc_place_holder Op.bicon) true)

  unfoldable pub equivalence_elim : Expr → Checked
  unfolding premise equiv_elim_order
  equivalence_elim conclusion = premise p deps 0 λ prem1. premise p deps 1 λ prem2.
      either_order itertools prem1 prem2 (equiv_elim_order conclusion)
        (dep_does_not_exist (assoc_place_holder Op.equiv) true)
