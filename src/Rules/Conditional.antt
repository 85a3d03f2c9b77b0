-- ===== src/Rules/Conditional.antt =====
-- The checks of `ConditionalInference` in aris/src/rules.rs.
pub mod Sound
pub mod Dilemmas
use aris.Base.{
  String, Bool, true, false, not as not_bool, ◌||◌, ◌&&◌, Option, none, some, List, [], ◌∷◌,
  if◌then◌else◌, ◌==◌,
}
use aris.Expr.{Expr, Exprs, Op, not, impl, assoc, nil, cons}
use aris.Expr.Equal.{expr_eq}
use aris.Expr.Build.{bitor, impl_place_holder, assoc_place_holder}
use aris.Pool.{PjRef, PooledProof}
use aris.Pool.Lines.{lookup_expr_or_die}
use aris.Pool.Scope.{does_not_occur, dep_does_not_exist, one_of, other, no_more, also}
use aris.Normalize.{is_not}
use aris.Rules.Order.{Permutations, Checked, AnyOrderResult, any_order, either_order}
use aris.Rules.Check.{try, exprs_contain, is_negation_of, premise}
use aris.Rules.Boolean.{follows}
use aris.Rules.Propositional.Subproofs.{collect}

-- The arms of the match, each with its guard.
unfoldable pub is_modus_tollens_case : Expr → Expr → Expr → Bool
is_modus_tollens_case (impl left right) negation conclusion =
    (is_negation_of negation right && is_negation_of conclusion left)
    || ((is_negation_of right negation && is_negation_of conclusion left)
        || ((is_negation_of negation right && is_negation_of left conclusion)
            || (is_negation_of right negation && is_negation_of left conclusion)))
is_modus_tollens_case _ negation conclusion = false

-- An equation that has to hold, or else an error that shows the two sides.
unfoldable pub expect : Expr → Expr → AnyOrderResult → AnyOrderResult
expect a b next = if not_bool (a == b) then AnyOrderResult.err (does_not_occur a b) else next

unfoldable pub syllogism_order : Expr → Expr → Expr → AnyOrderResult
unfolding expect
syllogism_order (impl p_1 r_1) (impl p_0 q_0) (impl q_1 r_0) =
    expect p_0 p_1 (expect q_0 q_1 (expect r_0 r_1 AnyOrderResult.ok))
syllogism_order conclusion dep_0 dep_1 = AnyOrderResult.wrong_order

-- `collect_tuple` of two operands, of the third dependency and then of the conclusion.
unfoldable pub constructive_pairs : Expr → Expr → Expr → Expr → Exprs → Exprs → AnyOrderResult
unfolding expect bitor
constructive_pairs p_0 q_0 r_0 s_0 (cons p_1 (cons r_1 nil)) (cons q_1 (cons s_1 nil)) =
    expect p_0 p_1 (expect q_0 q_1 (expect r_0 r_1 (expect s_0 s_1 AnyOrderResult.ok)))
constructive_pairs p_0 q_0 r_0 s_0 (cons p_1 (cons r_1 nil)) q_s =
    AnyOrderResult.err (does_not_occur (bitor q_0 s_0) (assoc Op.or q_s))
constructive_pairs p_0 q_0 r_0 s_0 p_r q_s =
    AnyOrderResult.err (does_not_occur (bitor p_0 r_0) (assoc Op.or p_r))

unfoldable pub constructive_order : Expr → Expr → Expr → Expr → AnyOrderResult
unfolding constructive_pairs
constructive_order (assoc Op.or q_s) (impl p_0 q_0) (impl r_0 s_0) (assoc Op.or p_r) =
    constructive_pairs p_0 q_0 r_0 s_0 p_r q_s
constructive_order conclusion dep_0 dep_1 dep_2 = AnyOrderResult.wrong_order

-- `neg_r` has to be the negation of `r_0`.
unfoldable pub expect_negation : Expr → Expr → AnyOrderResult → AnyOrderResult
unfolding expect
expect_negation (not r_1) r_0 next = expect r_0 r_1 next
expect_negation neg_r r_0 next = AnyOrderResult.wrong_order

unfoldable pub destructive_pairs : Expr → Expr → Expr → Expr → Exprs → Exprs → AnyOrderResult
unfolding expect_negation
destructive_pairs p_0 r_0 q_0 s_0 (cons neg_r (cons neg_s nil)) neg_pq = expect_negation neg_r r_0 (
    expect_negation neg_s s_0 (
      if not_bool (exprs_contain (not p_0) neg_pq) || not_bool (exprs_contain (not q_0) neg_pq)
      then AnyOrderResult.err (does_not_occur (assoc_place_holder Op.or) (assoc Op.or neg_pq))
      else AnyOrderResult.ok))
destructive_pairs p_0 r_0 q_0 s_0 neg_rs neg_pq =
    AnyOrderResult.err (does_not_occur (assoc_place_holder Op.or) (assoc Op.or neg_rs))

unfoldable pub destructive_order : Expr → Expr → Expr → Expr → AnyOrderResult
unfolding destructive_pairs
destructive_order (assoc Op.or neg_pq) (assoc Op.or neg_rs) (impl p_0 r_0) (impl q_0 s_0) =
    destructive_pairs p_0 r_0 q_0 s_0 neg_rs neg_pq
destructive_order conclusion dep_0 dep_1 dep_2 = AnyOrderResult.wrong_order

-- A check function of three arguments, on a list.
unfoldable pub on_three : (Expr → Expr → Expr → AnyOrderResult) → List Expr → Option AnyOrderResult
on_three check_func (a ∷ b ∷ c ∷ []) = some (check_func a b c)
on_three check_func _ = none

unfoldable pub conj_has : Expr → Expr → Bool
conj_has (assoc Op.and exprs) e = exprs_contain e exprs
conj_has _ e = false

unfoldable pub disj_has : Expr → Expr → Bool
disj_has (assoc Op.or exprs) e = exprs_contain e exprs
disj_has _ e = false

unfoldable pub is_strengthened : Expr → Expr → Bool
is_strengthened (impl left right) (impl conclusion_left conclusion_right) =
    (right == conclusion_right && conj_has conclusion_left left)
    || (right == conclusion_right && disj_has left conclusion_left)
is_strengthened dep_0 conclusion = false

unfoldable pub is_weakened : Expr → Expr → Bool
is_weakened (impl left right) (impl conclusion_left conclusion_right) =
    (left == conclusion_left && conj_has right conclusion_right)
    || (left == conclusion_left && disj_has conclusion_right right)
is_weakened dep_0 conclusion = false

unfoldable pub is_introduced : Expr → Expr → Bool
unfolding is_not
is_introduced prem (impl left right) =
    (is_negation_of prem left && not_bool (is_not right))
    || (prem == right && not_bool (is_not left))
is_introduced prem conclusion = false

unfoldable pub is_eliminated : Expr → Expr → Bool
is_eliminated (not (impl left right)) conclusion = conclusion == left || conclusion == not right
is_eliminated prem conclusion = false

-- A test that has to hold, or else an error with a text.
unfoldable pub or_other : Bool → String → Checked
or_other test message = if test then Checked.ok else Checked.err (other message)

module _ {R : Type 0} (p : PooledProof Expr R) (deps : List PjRef) where
  unfoldable pub modus_tollens : Expr → Checked
  unfolding premise follows
  modus_tollens conclusion = premise p deps 0 λ dep_0. premise p deps 1 λ dep_1.
      follows (
        is_modus_tollens_case dep_0 dep_1 conclusion
        || is_modus_tollens_case dep_1 dep_0 conclusion)

  unfoldable pub strengthen_antecedent : Expr → Checked
  unfolding premise or_other
  strengthen_antecedent conclusion = premise p deps 0 λ dep_0.
      or_other (is_strengthened dep_0 conclusion)
        "Conclusion does not follow from the Strengthening the Antecedent rule."

  unfoldable pub weaken_consequent : Expr → Checked
  unfolding premise or_other
  weaken_consequent conclusion = premise p deps 0 λ dep_0.
      or_other (is_weakened dep_0 conclusion)
        "Conclusion does not follow from the Weaken the Consequent rule."

  unfoldable pub con_intro_negation : Expr → Checked
  unfolding premise or_other
  con_intro_negation conclusion = premise p deps 0 λ prem.
      or_other (is_introduced prem conclusion)
        "Conclusion does not follow from the Conditional Introduction Negation rule."

  unfoldable pub con_elim_negation : Expr → Checked
  unfolding premise or_other
  con_elim_negation conclusion = premise p deps 0 λ prem.
      or_other (is_eliminated prem conclusion)
        "Conclusion does not follow from the Conditional Elimination Negation rule."

  module _ (itertools : Permutations) where
    unfoldable pub hypothetical_syllogism : Expr → Checked
    unfolding premise syllogism_order
    hypothetical_syllogism conclusion = premise p deps 0 λ dep_0. premise p deps 1 λ dep_1.
        either_order itertools dep_0 dep_1 (syllogism_order conclusion)
          (dep_does_not_exist impl_place_holder true)

    unfoldable pub constructive_dilemma : Expr → Checked
    unfolding collect constructive_order on_three
    constructive_dilemma conclusion = try (collect (lookup_expr_or_die p) deps) λ deps.
        any_order itertools deps (on_three (constructive_order conclusion)) (
          one_of (
            also (dep_does_not_exist impl_place_holder true)
              (also (dep_does_not_exist (assoc_place_holder Op.or) true) no_more)))

    unfoldable pub destructive_dilemma : Expr → Checked
    unfolding collect destructive_order on_three
    destructive_dilemma conclusion = try (collect (lookup_expr_or_die p) deps) λ deps.
        any_order itertools deps (on_three (destructive_order conclusion)) (
          one_of (
            also (dep_does_not_exist impl_place_holder true)
              (also (dep_does_not_exist (assoc_place_holder Op.or) true) no_more)))
