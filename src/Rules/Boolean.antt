-- ===== src/Rules/Boolean.antt =====
-- The checks of `BooleanInference` in aris/src/rules.rs.
pub mod Sound
pub mod HalfDeMorgan
use aris.Base.{Bool, true, false, ◌||◌, ◌&&◌, List, [], ◌∷◌, any, if◌then◌else◌, ◌==◌}
use aris.Expr.{Expr, Op, var, not, assoc, nil, cons}
use aris.Expr.Equal.{expr_eq}
use aris.Expr.Build.{bitor}
use aris.Pool.{PjRef, PooledProof}
use aris.Pool.Scope.{conclusion_of_wrong_form, does_not_occur, other}
use aris.Normalize.HalfDeMorgan.{normalize_halfdemorgans}
use aris.Rules.Order.{Checked}
use aris.Rules.Check.{is_negation_of, premise}

-- The arms of the match, each with its guard.
unfoldable pub is_disjunctive_case : Expr → Expr → Expr → Bool
is_disjunctive_case (assoc Op.or (cons p (cons q nil))) negation conclusion =
    (is_negation_of negation p && q == conclusion)
    || ((is_negation_of negation q && p == conclusion)
        || ((is_negation_of p negation && q == conclusion)
            || (is_negation_of q negation && p == conclusion)))
is_disjunctive_case _ negation conclusion = false

unfoldable pub is_exclusion_case : Expr → Expr → Expr → Bool
is_exclusion_case (not (assoc Op.and (cons p (cons q nil)))) prem conclusion =
    (p == prem && is_negation_of conclusion q)
    || ((q == prem && is_negation_of conclusion p)
        || ((p == prem && is_negation_of q conclusion)
            || (q == prem && is_negation_of p conclusion)))
is_exclusion_case _ prem conclusion = false

unfoldable pub follows : Bool → Checked
follows true = Checked.ok
follows false = Checked.err (other "Conclusion does not logically follow from premises")

unfoldable pub excluded_middle : Expr → Checked
unfolding bitor
excluded_middle (assoc Op.or (cons a (cons not_a nil))) =
    if not_a == not a then Checked.ok else Checked.err (does_not_occur not_a (not a))
excluded_middle conclusion =
    Checked.err (conclusion_of_wrong_form (bitor (var "_") (not (var "_"))))

-- The loops over the possibilities of the premise and of the conclusion.
unfoldable pub share : List Expr → List Expr → Bool
share premise_possibilities conclusion_possibilities =
    any
      (λ premise_expr.
        any (λ conclusion_expr. premise_expr == conclusion_expr) conclusion_possibilities)
      premise_possibilities

module _ {R : Type 0} (p : PooledProof Expr R) (deps : List PjRef) where
  unfoldable pub disjunctive_syllogism : Expr → Checked
  unfolding premise follows
  disjunctive_syllogism conclusion = premise p deps 0 λ dep_0. premise p deps 1 λ dep_1.
      follows
        (is_disjunctive_case dep_0 dep_1 conclusion || is_disjunctive_case dep_1 dep_0 conclusion)

  unfoldable pub exclusion : Expr → Checked
  unfolding premise follows
  exclusion conclusion = premise p deps 0 λ dep_0. premise p deps 1 λ dep_1.
      follows (is_exclusion_case dep_0 dep_1 conclusion || is_exclusion_case dep_1 dep_0 conclusion)

  unfoldable pub check_by_normalize_multiple_possibilities : (Expr → List Expr) → Expr → Checked
  unfolding premise share
  check_by_normalize_multiple_possibilities normalize_fn conclusion = premise p deps 0 λ prem.
      if share (normalize_fn prem) (normalize_fn conclusion)
      then Checked.ok
      else Checked.err (other "None of the possible normalized premises match the conclusion.")

  unfoldable pub half_de_morgan : Expr → Checked
  unfolding check_by_normalize_multiple_possibilities
  half_de_morgan conclusion =
      check_by_normalize_multiple_possibilities normalize_halfdemorgans conclusion
