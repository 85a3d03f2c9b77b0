-- ===== src/Rules/Groups.antt =====
-- `check` of four groups of rules in aris/src/rules.rs, and each behind the checks that all rules share.
use aris.Base.{ℕ, List, length, if◌then◌else◌, ◌==◌, nat_eq}
use aris.Expr.{Expr}
use aris.Pool.{PjRef, PooledProof}
use aris.Rules.{
  PropositionalInference, BooleanInference, ConditionalInference, BiconditionalInference,
}
use aris.Rules.Order.{Permutations, Checked}
use aris.Rules.Check.{shared_checks}
use aris.Rules.Counts.{
  propositional_inference_num_deps, propositional_inference_num_subdeps, boolean_inference_num_deps,
  boolean_inference_num_subdeps, conditional_inference_num_deps, conditional_inference_num_subdeps,
  biconditional_inference_num_deps, biconditional_inference_num_subdeps,
}
use aris.Rules.Propositional.{
  and_intro, and_elim, or_intro, not_elim, contradiction_elim, imp_elim, contradiction_intro,
  biconditional_elim, equivalence_elim,
}
use aris.Rules.Propositional.Subproofs.{or_elim, imp_intro, not_intro}
use aris.Rules.Propositional.Graph.{Petgraph}
use aris.Rules.Propositional.Graph.Check.{biconditional_intro, equivalence_intro}
use aris.Rules.Boolean.{disjunctive_syllogism, exclusion, excluded_middle, half_de_morgan}
use aris.Rules.Conditional.{
  modus_tollens, hypothetical_syllogism, constructive_dilemma, destructive_dilemma,
  strengthen_antecedent, weaken_consequent, con_intro_negation, con_elim_negation,
}
use aris.Rules.Biconditional.{bicon_intro, bicon_intro_negation, bicon_elim, bicon_elim_negation}

-- `assert!(sdeps.is_empty())`
unfoldable pub assert_no_sdeps : List ℕ → Checked → Checked
assert_no_sdeps sdeps next = if length sdeps == 0 then next else Checked.panic

module _ {R : Type 0} (itertools : Permutations) (p : PooledProof Expr R) where
  unfoldable pub propositional_check :
      Petgraph → PropositionalInference → Expr → List PjRef → List ℕ → Checked
  propositional_check g PropositionalInference.and_intro c deps sdeps = and_intro p deps c
  propositional_check g PropositionalInference.and_elim c deps sdeps = and_elim p deps c
  propositional_check g PropositionalInference.or_intro c deps sdeps = or_intro p deps c
  propositional_check g PropositionalInference.or_elim c deps sdeps = or_elim p deps c sdeps
  propositional_check g PropositionalInference.imp_intro c deps sdeps = imp_intro p c sdeps
  propositional_check g PropositionalInference.imp_elim c deps sdeps = imp_elim itertools p deps c
  propositional_check g PropositionalInference.not_intro c deps sdeps = not_intro p c sdeps
  propositional_check g PropositionalInference.not_elim c deps sdeps = not_elim p deps c
  propositional_check g PropositionalInference.contradiction_intro c deps sdeps =
      contradiction_intro itertools p deps c
  propositional_check g PropositionalInference.contradiction_elim c deps sdeps =
      contradiction_elim p deps c
  propositional_check g PropositionalInference.biconditional_intro c deps sdeps =
      biconditional_intro g p c deps sdeps
  propositional_check g PropositionalInference.biconditional_elim c deps sdeps =
      biconditional_elim itertools p deps c
  propositional_check g PropositionalInference.equivalence_intro c deps sdeps =
      equivalence_intro g p c deps sdeps
  propositional_check g PropositionalInference.equivalence_elim c deps sdeps =
      equivalence_elim itertools p deps c

  unfoldable pub boolean_rule : BooleanInference → Expr → List PjRef → Checked
  boolean_rule BooleanInference.disjunctive_syllogism c deps = disjunctive_syllogism p deps c
  boolean_rule BooleanInference.exclusion c deps = exclusion p deps c
  boolean_rule BooleanInference.excluded_middle c deps = excluded_middle c
  boolean_rule BooleanInference.half_de_morgan c deps = half_de_morgan p deps c

  unfoldable pub boolean_check : BooleanInference → Expr → List PjRef → List ℕ → Checked
  unfolding boolean_rule
  boolean_check rule c deps sdeps = assert_no_sdeps sdeps (boolean_rule rule c deps)

  unfoldable pub conditional_rule : ConditionalInference → Expr → List PjRef → Checked
  conditional_rule ConditionalInference.modus_tollens c deps = modus_tollens p deps c
  conditional_rule ConditionalInference.hypothetical_syllogism c deps =
      hypothetical_syllogism p deps itertools c
  conditional_rule ConditionalInference.constructive_dilemma c deps =
      constructive_dilemma p deps itertools c
  conditional_rule ConditionalInference.destructive_dilemma c deps =
      destructive_dilemma p deps itertools c
  conditional_rule ConditionalInference.strengthen_antecedent c deps =
      strengthen_antecedent p deps c
  conditional_rule ConditionalInference.weaken_consequent c deps = weaken_consequent p deps c
  conditional_rule ConditionalInference.con_intro_negation c deps = con_intro_negation p deps c
  conditional_rule ConditionalInference.con_elim_negation c deps = con_elim_negation p deps c

  unfoldable pub conditional_check : ConditionalInference → Expr → List PjRef → List ℕ → Checked
  unfolding conditional_rule
  conditional_check rule c deps sdeps = assert_no_sdeps sdeps (conditional_rule rule c deps)

  unfoldable pub biconditional_rule : BiconditionalInference → Expr → List PjRef → Checked
  biconditional_rule BiconditionalInference.bicon_intro c deps = bicon_intro itertools p deps c
  biconditional_rule BiconditionalInference.bicon_intro_negation c deps =
      bicon_intro_negation itertools p deps c
  biconditional_rule BiconditionalInference.bicon_elim c deps = bicon_elim itertools p deps c
  biconditional_rule BiconditionalInference.bicon_elim_negation c deps =
      bicon_elim_negation itertools p deps c

  unfoldable pub biconditional_check : BiconditionalInference → Expr → List PjRef → List ℕ → Checked
  unfolding biconditional_rule
  biconditional_check rule c deps sdeps = assert_no_sdeps sdeps (biconditional_rule rule c deps)

  -- The same behind the shared checks.
  unfoldable pub check_propositional :
      Petgraph → PropositionalInference → Expr → List PjRef → List ℕ → Checked
  check_propositional g rule c deps sdeps =
      shared_checks (propositional_inference_num_deps rule)
        (propositional_inference_num_subdeps rule) deps sdeps
        (propositional_check g rule c deps sdeps)

  unfoldable pub check_boolean : BooleanInference → Expr → List PjRef → List ℕ → Checked
  check_boolean rule c deps sdeps =
      shared_checks (boolean_inference_num_deps rule) (boolean_inference_num_subdeps rule) deps
        sdeps (boolean_check rule c deps sdeps)

  unfoldable pub check_conditional : ConditionalInference → Expr → List PjRef → List ℕ → Checked
  check_conditional rule c deps sdeps =
      shared_checks (conditional_inference_num_deps rule) (conditional_inference_num_subdeps rule)
        deps sdeps (conditional_check rule c deps sdeps)

  unfoldable pub check_biconditional : BiconditionalInference → Expr → List PjRef → List ℕ → Checked
  check_biconditional rule c deps sdeps =
      shared_checks (biconditional_inference_num_deps rule)
        (biconditional_inference_num_subdeps rule) deps sdeps
        (biconditional_check rule c deps sdeps)
