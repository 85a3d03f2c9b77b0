-- ===== src/Rules/Counts.antt =====
-- How many lines and how many subproofs a rule of aris/src/rules.rs depends on; `none` is any number.
use aris.Base.{ℕ, Option, none, some}
use aris.Rules.{
  PropositionalInference, PredicateInference, BooleanInference, ConditionalInference,
  BiconditionalInference, QuantifierInference, BooleanEquivalence, ConditionalEquivalence,
  BiconditionalEquivalence, QuantifierEquivalence, Special, Induction, Reduction, Rule,
}

unfoldable pub propositional_inference_num_deps : PropositionalInference → Option ℕ
propositional_inference_num_deps PropositionalInference.and_intro = none
propositional_inference_num_deps PropositionalInference.and_elim = some 1
propositional_inference_num_deps PropositionalInference.or_intro = some 1
propositional_inference_num_deps PropositionalInference.or_elim = some 1
propositional_inference_num_deps PropositionalInference.imp_intro = some 0
propositional_inference_num_deps PropositionalInference.imp_elim = some 2
propositional_inference_num_deps PropositionalInference.not_intro = some 0
propositional_inference_num_deps PropositionalInference.not_elim = some 1
propositional_inference_num_deps PropositionalInference.contradiction_intro = some 2
propositional_inference_num_deps PropositionalInference.contradiction_elim = some 1
propositional_inference_num_deps PropositionalInference.biconditional_intro = none
propositional_inference_num_deps PropositionalInference.biconditional_elim = some 2
propositional_inference_num_deps PropositionalInference.equivalence_intro = none
propositional_inference_num_deps PropositionalInference.equivalence_elim = some 2

unfoldable pub propositional_inference_num_subdeps : PropositionalInference → Option ℕ
propositional_inference_num_subdeps PropositionalInference.and_intro = some 0
propositional_inference_num_subdeps PropositionalInference.and_elim = some 0
propositional_inference_num_subdeps PropositionalInference.or_intro = some 0
propositional_inference_num_subdeps PropositionalInference.or_elim = none
propositional_inference_num_subdeps PropositionalInference.imp_intro = some 1
propositional_inference_num_subdeps PropositionalInference.imp_elim = some 0
propositional_inference_num_subdeps PropositionalInference.not_intro = some 1
propositional_inference_num_subdeps PropositionalInference.not_elim = some 0
propositional_inference_num_subdeps PropositionalInference.contradiction_intro = some 0
propositional_inference_num_subdeps PropositionalInference.contradiction_elim = some 0
propositional_inference_num_subdeps PropositionalInference.biconditional_intro = none
propositional_inference_num_subdeps PropositionalInference.biconditional_elim = some 0
propositional_inference_num_subdeps PropositionalInference.equivalence_intro = none
propositional_inference_num_subdeps PropositionalInference.equivalence_elim = some 0

unfoldable pub predicate_inference_num_deps : PredicateInference → Option ℕ
predicate_inference_num_deps PredicateInference.forall_intro = some 0
predicate_inference_num_deps PredicateInference.forall_elim = some 1
predicate_inference_num_deps PredicateInference.exists_intro = some 1
predicate_inference_num_deps PredicateInference.exists_elim = some 1

unfoldable pub predicate_inference_num_subdeps : PredicateInference → Option ℕ
predicate_inference_num_subdeps PredicateInference.forall_intro = some 1
predicate_inference_num_subdeps PredicateInference.forall_elim = some 0
predicate_inference_num_subdeps PredicateInference.exists_intro = some 0
predicate_inference_num_subdeps PredicateInference.exists_elim = some 1

unfoldable pub boolean_inference_num_deps : BooleanInference → Option ℕ
boolean_inference_num_deps BooleanInference.disjunctive_syllogism = some 2
boolean_inference_num_deps BooleanInference.exclusion = some 2
boolean_inference_num_deps BooleanInference.excluded_middle = some 0
boolean_inference_num_deps BooleanInference.half_de_morgan = some 1

unfoldable pub boolean_inference_num_subdeps : BooleanInference → Option ℕ
boolean_inference_num_subdeps _ = some 0

unfoldable pub conditional_inference_num_deps : ConditionalInference → Option ℕ
conditional_inference_num_deps ConditionalInference.modus_tollens = some 2
conditional_inference_num_deps ConditionalInference.hypothetical_syllogism = some 2
conditional_inference_num_deps ConditionalInference.constructive_dilemma = some 3
conditional_inference_num_deps ConditionalInference.destructive_dilemma = some 3
conditional_inference_num_deps ConditionalInference.strengthen_antecedent = some 1
conditional_inference_num_deps ConditionalInference.weaken_consequent = some 1
conditional_inference_num_deps ConditionalInference.con_intro_negation = some 1
conditional_inference_num_deps ConditionalInference.con_elim_negation = some 1

unfoldable pub conditional_inference_num_subdeps : ConditionalInference → Option ℕ
conditional_inference_num_subdeps _ = some 0

unfoldable pub biconditional_inference_num_deps : BiconditionalInference → Option ℕ
biconditional_inference_num_deps BiconditionalInference.bicon_intro = some 2
biconditional_inference_num_deps BiconditionalInference.bicon_intro_negation = some 2
biconditional_inference_num_deps BiconditionalInference.bicon_elim = some 2
biconditional_inference_num_deps BiconditionalInference.bicon_elim_negation = some 2

unfoldable pub biconditional_inference_num_subdeps : BiconditionalInference → Option ℕ
biconditional_inference_num_subdeps _ = some 0

unfoldable pub quantifier_inference_num_deps : QuantifierInference → Option ℕ
quantifier_inference_num_deps QuantifierInference.quant_inference = some 1

unfoldable pub quantifier_inference_num_subdeps : QuantifierInference → Option ℕ
quantifier_inference_num_subdeps _ = some 0

unfoldable pub boolean_equivalence_num_deps : BooleanEquivalence → Option ℕ
boolean_equivalence_num_deps _ = some 1

unfoldable pub boolean_equivalence_num_subdeps : BooleanEquivalence → Option ℕ
boolean_equivalence_num_subdeps _ = some 0

unfoldable pub conditional_equivalence_num_deps : ConditionalEquivalence → Option ℕ
conditional_equivalence_num_deps _ = some 1

unfoldable pub conditional_equivalence_num_subdeps : ConditionalEquivalence → Option ℕ
conditional_equivalence_num_subdeps _ = some 0

unfoldable pub biconditional_equivalence_num_deps : BiconditionalEquivalence → Option ℕ
biconditional_equivalence_num_deps _ = some 1

unfoldable pub biconditional_equivalence_num_subdeps : BiconditionalEquivalence → Option ℕ
biconditional_equivalence_num_subdeps _ = some 0

unfoldable pub quantifier_equivalence_num_deps : QuantifierEquivalence → Option ℕ
quantifier_equivalence_num_deps _ = some 1

unfoldable pub quantifier_equivalence_num_subdeps : QuantifierEquivalence → Option ℕ
quantifier_equivalence_num_subdeps _ = some 0

unfoldable pub special_num_deps : Special → Option ℕ
special_num_deps Special.reiteration = some 1
special_num_deps Special.resolution = some 2
special_num_deps Special.truth_functional_consequence = none

unfoldable pub special_num_subdeps : Special → Option ℕ
special_num_subdeps Special.reiteration = some 0
special_num_subdeps Special.resolution = some 0
special_num_subdeps Special.truth_functional_consequence = some 0

unfoldable pub induction_num_deps : Induction → Option ℕ
induction_num_deps Induction.weak = some 2
induction_num_deps Induction.strong = some 1

unfoldable pub induction_num_subdeps : Induction → Option ℕ
induction_num_subdeps _ = some 0

unfoldable pub reduction_num_deps : Reduction → Option ℕ
reduction_num_deps _ = some 1

unfoldable pub reduction_num_subdeps : Reduction → Option ℕ
reduction_num_subdeps _ = some 0

unfoldable pub num_deps : Rule → Option ℕ
unfolding propositional_inference_num_deps predicate_inference_num_deps boolean_inference_num_deps
    conditional_inference_num_deps biconditional_inference_num_deps quantifier_inference_num_deps
    boolean_equivalence_num_deps conditional_equivalence_num_deps biconditional_equivalence_num_deps
    quantifier_equivalence_num_deps special_num_deps induction_num_deps reduction_num_deps
num_deps (Rule.propositional_inference r) = propositional_inference_num_deps r
num_deps (Rule.predicate_inference r) = predicate_inference_num_deps r
num_deps (Rule.boolean_inference r) = boolean_inference_num_deps r
num_deps (Rule.conditional_inference r) = conditional_inference_num_deps r
num_deps (Rule.biconditional_inference r) = biconditional_inference_num_deps r
num_deps (Rule.quantifier_inference r) = quantifier_inference_num_deps r
num_deps (Rule.boolean_equivalence r) = boolean_equivalence_num_deps r
num_deps (Rule.conditional_equivalence r) = conditional_equivalence_num_deps r
num_deps (Rule.biconditional_equivalence r) = biconditional_equivalence_num_deps r
num_deps (Rule.quantifier_equivalence r) = quantifier_equivalence_num_deps r
num_deps (Rule.special r) = special_num_deps r
num_deps (Rule.induction r) = induction_num_deps r
num_deps (Rule.reduction r) = reduction_num_deps r
num_deps Rule.empty_rule = none

unfoldable pub num_subdeps : Rule → Option ℕ
unfolding propositional_inference_num_subdeps predicate_inference_num_subdeps
    boolean_inference_num_subdeps conditional_inference_num_subdeps
    biconditional_inference_num_subdeps quantifier_inference_num_subdeps
    boolean_equivalence_num_subdeps conditional_equivalence_num_subdeps
    biconditional_equivalence_num_subdeps quantifier_equivalence_num_subdeps special_num_subdeps
    induction_num_subdeps reduction_num_subdeps
num_subdeps (Rule.propositional_inference r) = propositional_inference_num_subdeps r
num_subdeps (Rule.predicate_inference r) = predicate_inference_num_subdeps r
num_subdeps (Rule.boolean_inference r) = boolean_inference_num_subdeps r
num_subdeps (Rule.conditional_inference r) = conditional_inference_num_subdeps r
num_subdeps (Rule.biconditional_inference r) = biconditional_inference_num_subdeps r
num_subdeps (Rule.quantifier_inference r) = quantifier_inference_num_subdeps r
num_subdeps (Rule.boolean_equivalence r) = boolean_equivalence_num_subdeps r
num_subdeps (Rule.conditional_equivalence r) = conditional_equivalence_num_subdeps r
num_subdeps (Rule.biconditional_equivalence r) = biconditional_equivalence_num_subdeps r
num_subdeps (Rule.quantifier_equivalence r) = quantifier_equivalence_num_subdeps r
num_subdeps (Rule.special r) = special_num_subdeps r
num_subdeps (Rule.induction r) = induction_num_subdeps r
num_subdeps (Rule.reduction r) = reduction_num_subdeps r
num_subdeps Rule.empty_rule = none
