-- ===== src/Rules/Names.antt =====
-- The table of aris/src/rules.rs that names each rule as the Java client does, `declare_rules!`, and the two
-- conversions that the macro makes of it.
use aris.Base.{String, Option, none, some, List, [], ◌∷◌, map, if◌then◌else◌, ◌==◌, string_eq}
use aris.Rules.{
  PropositionalInference, PredicateInference, BooleanInference, ConditionalInference,
  BiconditionalInference, QuantifierInference, BooleanEquivalence, ConditionalEquivalence,
  BiconditionalEquivalence, QuantifierEquivalence, Special, Induction, Reduction, Rule,
}

-- The names with their rules, in the order of the declaration.
abbrev pub declared : List (String × Rule)
declared =
    ("CONJUNCTION", Rule.propositional_inference PropositionalInference.and_intro)
    ∷ ("SIMPLIFICATION", Rule.propositional_inference PropositionalInference.and_elim)
    ∷ ("ADDITION", Rule.propositional_inference PropositionalInference.or_intro)
    ∷ ("DISJUNCTIVE_ELIMINATION", Rule.propositional_inference PropositionalInference.or_elim)
    ∷ ("CONDITIONAL_PROOF", Rule.propositional_inference PropositionalInference.imp_intro)
    ∷ ("MODUS_PONENS", Rule.propositional_inference PropositionalInference.imp_elim)
    ∷ ("PROOF_BY_CONTRADICTION", Rule.propositional_inference PropositionalInference.not_intro)
    ∷ ("DOUBLENEGATION", Rule.propositional_inference PropositionalInference.not_elim)
    ∷ ("CONTRADICTION", Rule.propositional_inference PropositionalInference.contradiction_intro)
    ∷ (
      "PRINCIPLE_OF_EXPLOSION",
      Rule.propositional_inference PropositionalInference.contradiction_elim,
    )
    ∷ (
      "BICONDITIONAL_INTRO",
      Rule.propositional_inference PropositionalInference.biconditional_intro,
    )
    ∷ ("BICONDITIONAL_ELIM", Rule.propositional_inference PropositionalInference.biconditional_elim)
    ∷ ("EQUIVALENCE_INTRO", Rule.propositional_inference PropositionalInference.equivalence_intro)
    ∷ ("EQUIVALENCE_ELIM", Rule.propositional_inference PropositionalInference.equivalence_elim)
    ∷ ("UNIVERSAL_GENERALIZATION", Rule.predicate_inference PredicateInference.forall_intro)
    ∷ ("UNIVERSAL_INSTANTIATION", Rule.predicate_inference PredicateInference.forall_elim)
    ∷ ("EXISTENTIAL_GENERALIZATION", Rule.predicate_inference PredicateInference.exists_intro)
    ∷ ("EXISTENTIAL_INSTANTIATION", Rule.predicate_inference PredicateInference.exists_elim)
    ∷ ("DISJUNCTIVE_SYLLOGISM", Rule.boolean_inference BooleanInference.disjunctive_syllogism)
    ∷ ("EXCLUSION", Rule.boolean_inference BooleanInference.exclusion)
    ∷ ("EXCLUDED_MIDDLE", Rule.boolean_inference BooleanInference.excluded_middle)
    ∷ ("HALF_DE_MORGAN", Rule.boolean_inference BooleanInference.half_de_morgan)
    ∷ ("MODUS_TOLLENS", Rule.conditional_inference ConditionalInference.modus_tollens)
    ∷ (
      "HYPOTHETICAL_SYLLOGISM",
      Rule.conditional_inference ConditionalInference.hypothetical_syllogism,
    )
    ∷ ("CONSTRUCTIVE_DILEMMA", Rule.conditional_inference ConditionalInference.constructive_dilemma)
    ∷ ("DESTRUCTIVE_DILEMMA", Rule.conditional_inference ConditionalInference.destructive_dilemma)
    ∷ (
      "STRENGTHEN_ANTECEDENT",
      Rule.conditional_inference ConditionalInference.strengthen_antecedent,
    )
    ∷ ("WEAKEN_CONSEQUENT", Rule.conditional_inference ConditionalInference.weaken_consequent)
    ∷ ("CON_INTRO_NEGATION", Rule.conditional_inference ConditionalInference.con_intro_negation)
    ∷ ("CON_ELIM_NEGATION", Rule.conditional_inference ConditionalInference.con_elim_negation)
    ∷ ("BICON_INTRO", Rule.biconditional_inference BiconditionalInference.bicon_intro)
    ∷ (
      "BICON_INTRO_NEGATION",
      Rule.biconditional_inference BiconditionalInference.bicon_intro_negation,
    )
    ∷ ("BICON_ELIM", Rule.biconditional_inference BiconditionalInference.bicon_elim)
    ∷ (
      "BICON_ELIM_NEGATION",
      Rule.biconditional_inference BiconditionalInference.bicon_elim_negation,
    )
    ∷ ("QUANTIFIER_INFERENCE", Rule.quantifier_inference QuantifierInference.quant_inference)
    ∷ ("ASSOCIATION", Rule.boolean_equivalence BooleanEquivalence.association)
    ∷ ("COMMUTATION", Rule.boolean_equivalence BooleanEquivalence.commutation)
    ∷ ("IDEMPOTENCE", Rule.boolean_equivalence BooleanEquivalence.idempotence)
    ∷ ("DE_MORGAN", Rule.boolean_equivalence BooleanEquivalence.de_morgan)
    ∷ ("DISTRIBUTION", Rule.boolean_equivalence BooleanEquivalence.distribution)
    ∷ ("DOUBLENEGATION_EQUIV", Rule.boolean_equivalence BooleanEquivalence.double_negation)
    ∷ ("COMPLEMENT", Rule.boolean_equivalence BooleanEquivalence.complement)
    ∷ ("IDENTITY", Rule.boolean_equivalence BooleanEquivalence.identity)
    ∷ ("ANNIHILATION", Rule.boolean_equivalence BooleanEquivalence.annihilation)
    ∷ ("INVERSE", Rule.boolean_equivalence BooleanEquivalence.inverse)
    ∷ ("ABSORPTION", Rule.boolean_equivalence BooleanEquivalence.absorption)
    ∷ ("REDUCTION", Rule.boolean_equivalence BooleanEquivalence.reduction)
    ∷ ("ADJACENCY", Rule.boolean_equivalence BooleanEquivalence.adjacency)
    ∷ ("IMPLICATION", Rule.conditional_equivalence ConditionalEquivalence.implication)
    ∷ ("CONTRAPOSITION", Rule.conditional_equivalence ConditionalEquivalence.contraposition)
    ∷ ("Exportation", Rule.conditional_equivalence ConditionalEquivalence.exportation)
    ∷ (
      "CONDITIONAL_DISTRIBUTION",
      Rule.conditional_equivalence ConditionalEquivalence.conditional_distribution,
    )
    ∷ (
      "CONDITIONAL_ABSORPTION",
      Rule.conditional_equivalence ConditionalEquivalence.conditional_absorption,
    )
    ∷ (
      "CONDITIONAL_REDUCTION",
      Rule.conditional_equivalence ConditionalEquivalence.conditional_reduction,
    )
    ∷ (
      "CONDITIONAL_IDEMPOTENCE",
      Rule.conditional_equivalence ConditionalEquivalence.conditional_idempotence,
    )
    ∷ (
      "CONDITIONAL_COMPLEMENT",
      Rule.conditional_equivalence ConditionalEquivalence.conditional_complement,
    )
    ∷ (
      "CONDITIONAL_IDENTITY",
      Rule.conditional_equivalence ConditionalEquivalence.conditional_identity,
    )
    ∷ (
      "CONDITIONAL_ANNIHILATION",
      Rule.conditional_equivalence ConditionalEquivalence.conditional_annihilation,
    )
    ∷ (
      "BICONDITIONAL_EQUIVALENCE",
      Rule.biconditional_equivalence BiconditionalEquivalence.bi_equivalence,
    )
    ∷ (
      "BICONDITIONAL_CONTRAPOSITION",
      Rule.biconditional_equivalence BiconditionalEquivalence.biconditional_contraposition,
    )
    ∷ (
      "BICONDITIONAL_COMMUTATION",
      Rule.biconditional_equivalence BiconditionalEquivalence.biconditional_commutation,
    )
    ∷ (
      "BICONDITIONAL_ASSOCIATION",
      Rule.biconditional_equivalence BiconditionalEquivalence.biconditional_association,
    )
    ∷ (
      "BICONDITIONAL_REDUCTION",
      Rule.biconditional_equivalence BiconditionalEquivalence.biconditional_reduction,
    )
    ∷ (
      "BICONDITIONAL_COMPLEMENT",
      Rule.biconditional_equivalence BiconditionalEquivalence.biconditional_complement,
    )
    ∷ (
      "BICONDITIONAL_IDENTITY",
      Rule.biconditional_equivalence BiconditionalEquivalence.biconditional_identity,
    )
    ∷ (
      "BICONDITIONAL_NEGATION",
      Rule.biconditional_equivalence BiconditionalEquivalence.biconditional_negation,
    )
    ∷ (
      "BICONDITIONAL_SUBSTITUTION",
      Rule.biconditional_equivalence BiconditionalEquivalence.biconditional_substitution,
    )
    ∷ (
      "KNIGHTS_AND_KNAVES",
      Rule.biconditional_equivalence BiconditionalEquivalence.knights_and_knaves,
    )
    ∷ ("QUANTIFIER_NEGATION", Rule.quantifier_equivalence QuantifierEquivalence.quantifier_negation)
    ∷ ("NULL_QUANTIFICATION", Rule.quantifier_equivalence QuantifierEquivalence.null_quantification)
    ∷ (
      "REPLACING_BOUND_VARS",
      Rule.quantifier_equivalence QuantifierEquivalence.replacing_bound_vars,
    )
    ∷ (
      "SWAPPING_QUANTIFIERS",
      Rule.quantifier_equivalence QuantifierEquivalence.swapping_quantifiers,
    )
    ∷ ("ARISTOTELEAN_SQUARE", Rule.quantifier_equivalence QuantifierEquivalence.aristotelean_square)
    ∷ (
      "QUANTIFIER_DISTRIBUTION",
      Rule.quantifier_equivalence QuantifierEquivalence.quantifier_distribution,
    )
    ∷ ("PRENEX_LAWS", Rule.quantifier_equivalence QuantifierEquivalence.prenex_laws)
    ∷ ("REITERATION", Rule.special Special.reiteration)
    ∷ ("RESOLUTION", Rule.special Special.resolution)
    ∷ ("TRUTHFUNCTIONAL_CONSEQUENCE", Rule.special Special.truth_functional_consequence)
    ∷ ("WEAK_INDUCTION", Rule.induction Induction.weak)
    ∷ ("STRONG_INDUCTION", Rule.induction Induction.strong)
    ∷ ("CONJUNCTION", Rule.reduction Reduction.conjunction)
    ∷ ("DISJUNCTION", Rule.reduction Reduction.disjunction)
    ∷ ("NEGATION", Rule.reduction Reduction.negation)
    ∷ ("BICOND_REDUCTION", Rule.reduction Reduction.bicond_reduction)
    ∷ ("COND_REDUCTION", Rule.reduction Reduction.cond_reduction)
    ∷ ("EMPTY_RULE", Rule.empty_rule)
    ∷ []

-- `ALL_SERIALIZED_NAMES` and `ALL_RULES`
abbrev pub all_serialized_names : List String
all_serialized_names = map (λ d. d.0) declared

abbrev pub all_rules : List Rule
all_rules = map (λ d. d.1) declared

unfoldable pub to_serialized_name : Rule → String
to_serialized_name (Rule.propositional_inference PropositionalInference.and_intro) = "CONJUNCTION"
to_serialized_name (Rule.propositional_inference PropositionalInference.and_elim) = "SIMPLIFICATION"
to_serialized_name (Rule.propositional_inference PropositionalInference.or_intro) = "ADDITION"
to_serialized_name (Rule.propositional_inference PropositionalInference.or_elim) =
    "DISJUNCTIVE_ELIMINATION"
to_serialized_name (Rule.propositional_inference PropositionalInference.imp_intro) =
    "CONDITIONAL_PROOF"
to_serialized_name (Rule.propositional_inference PropositionalInference.imp_elim) = "MODUS_PONENS"
to_serialized_name (Rule.propositional_inference PropositionalInference.not_intro) =
    "PROOF_BY_CONTRADICTION"
to_serialized_name (Rule.propositional_inference PropositionalInference.not_elim) = "DOUBLENEGATION"
to_serialized_name (Rule.propositional_inference PropositionalInference.contradiction_intro) =
    "CONTRADICTION"
to_serialized_name (Rule.propositional_inference PropositionalInference.contradiction_elim) =
    "PRINCIPLE_OF_EXPLOSION"
to_serialized_name (Rule.propositional_inference PropositionalInference.biconditional_intro) =
    "BICONDITIONAL_INTRO"
to_serialized_name (Rule.propositional_inference PropositionalInference.biconditional_elim) =
    "BICONDITIONAL_ELIM"
to_serialized_name (Rule.propositional_inference PropositionalInference.equivalence_intro) =
    "EQUIVALENCE_INTRO"
to_serialized_name (Rule.propositional_inference PropositionalInference.equivalence_elim) =
    "EQUIVALENCE_ELIM"
to_serialized_name (Rule.predicate_inference PredicateInference.forall_intro) =
    "UNIVERSAL_GENERALIZATION"
to_serialized_name (Rule.predicate_inference PredicateInference.forall_elim) =
    "UNIVERSAL_INSTANTIATION"
to_serialized_name (Rule.predicate_inference PredicateInference.exists_intro) =
    "EXISTENTIAL_GENERALIZATION"
to_serialized_name (Rule.predicate_inference PredicateInference.exists_elim) =
    "EXISTENTIAL_INSTANTIATION"
to_serialized_name (Rule.boolean_inference BooleanInference.disjunctive_syllogism) =
    "DISJUNCTIVE_SYLLOGISM"
to_serialized_name (Rule.boolean_inference BooleanInference.exclusion) = "EXCLUSION"
to_serialized_name (Rule.boolean_inference BooleanInference.excluded_middle) = "EXCLUDED_MIDDLE"
to_serialized_name (Rule.boolean_inference BooleanInference.half_de_morgan) = "HALF_DE_MORGAN"
to_serialized_name (Rule.conditional_inference ConditionalInference.modus_tollens) = "MODUS_TOLLENS"
to_serialized_name (Rule.conditional_inference ConditionalInference.hypothetical_syllogism) =
    "HYPOTHETICAL_SYLLOGISM"
to_serialized_name (Rule.conditional_inference ConditionalInference.constructive_dilemma) =
    "CONSTRUCTIVE_DILEMMA"
to_serialized_name (Rule.conditional_inference ConditionalInference.destructive_dilemma) =
    "DESTRUCTIVE_DILEMMA"
to_serialized_name (Rule.conditional_inference ConditionalInference.strengthen_antecedent) =
    "STRENGTHEN_ANTECEDENT"
to_serialized_name (Rule.conditional_inference ConditionalInference.weaken_consequent) =
    "WEAKEN_CONSEQUENT"
to_serialized_name (Rule.conditional_inference ConditionalInference.con_intro_negation) =
    "CON_INTRO_NEGATION"
to_serialized_name (Rule.conditional_inference ConditionalInference.con_elim_negation) =
    "CON_ELIM_NEGATION"
to_serialized_name (Rule.biconditional_inference BiconditionalInference.bicon_intro) = "BICON_INTRO"
to_serialized_name (Rule.biconditional_inference BiconditionalInference.bicon_intro_negation) =
    "BICON_INTRO_NEGATION"
to_serialized_name (Rule.biconditional_inference BiconditionalInference.bicon_elim) = "BICON_ELIM"
to_serialized_name (Rule.biconditional_inference BiconditionalInference.bicon_elim_negation) =
    "BICON_ELIM_NEGATION"
to_serialized_name (Rule.quantifier_inference QuantifierInference.quant_inference) =
    "QUANTIFIER_INFERENCE"
to_serialized_name (Rule.boolean_equivalence BooleanEquivalence.association) = "ASSOCIATION"
to_serialized_name (Rule.boolean_equivalence BooleanEquivalence.commutation) = "COMMUTATION"
to_serialized_name (Rule.boolean_equivalence BooleanEquivalence.idempotence) = "IDEMPOTENCE"
to_serialized_name (Rule.boolean_equivalence BooleanEquivalence.de_morgan) = "DE_MORGAN"
to_serialized_name (Rule.boolean_equivalence BooleanEquivalence.distribution) = "DISTRIBUTION"
to_serialized_name (Rule.boolean_equivalence BooleanEquivalence.double_negation) =
    "DOUBLENEGATION_EQUIV"
to_serialized_name (Rule.boolean_equivalence BooleanEquivalence.complement) = "COMPLEMENT"
to_serialized_name (Rule.boolean_equivalence BooleanEquivalence.identity) = "IDENTITY"
to_serialized_name (Rule.boolean_equivalence BooleanEquivalence.annihilation) = "ANNIHILATION"
to_serialized_name (Rule.boolean_equivalence BooleanEquivalence.inverse) = "INVERSE"
to_serialized_name (Rule.boolean_equivalence BooleanEquivalence.absorption) = "ABSORPTION"
to_serialized_name (Rule.boolean_equivalence BooleanEquivalence.reduction) = "REDUCTION"
to_serialized_name (Rule.boolean_equivalence BooleanEquivalence.adjacency) = "ADJACENCY"
to_serialized_name (Rule.conditional_equivalence ConditionalEquivalence.implication) = "IMPLICATION"
to_serialized_name (Rule.conditional_equivalence ConditionalEquivalence.contraposition) =
    "CONTRAPOSITION"
to_serialized_name (Rule.conditional_equivalence ConditionalEquivalence.exportation) = "Exportation"
to_serialized_name (Rule.conditional_equivalence ConditionalEquivalence.conditional_distribution) =
    "CONDITIONAL_DISTRIBUTION"
to_serialized_name (Rule.conditional_equivalence ConditionalEquivalence.conditional_absorption) =
    "CONDITIONAL_ABSORPTION"
to_serialized_name (Rule.conditional_equivalence ConditionalEquivalence.conditional_reduction) =
    "CONDITIONAL_REDUCTION"
to_serialized_name (Rule.conditional_equivalence ConditionalEquivalence.conditional_idempotence) =
    "CONDITIONAL_IDEMPOTENCE"
to_serialized_name (Rule.conditional_equivalence ConditionalEquivalence.conditional_complement) =
    "CONDITIONAL_COMPLEMENT"
to_serialized_name (Rule.conditional_equivalence ConditionalEquivalence.conditional_identity) =
    "CONDITIONAL_IDENTITY"
to_serialized_name (Rule.conditional_equivalence ConditionalEquivalence.conditional_annihilation) =
    "CONDITIONAL_ANNIHILATION"
to_serialized_name (Rule.biconditional_equivalence BiconditionalEquivalence.bi_equivalence) =
    "BICONDITIONAL_EQUIVALENCE"
to_serialized_name
      (Rule.biconditional_equivalence BiconditionalEquivalence.biconditional_contraposition) =
    "BICONDITIONAL_CONTRAPOSITION"
to_serialized_name
      (Rule.biconditional_equivalence BiconditionalEquivalence.biconditional_commutation) =
    "BICONDITIONAL_COMMUTATION"
to_serialized_name
      (Rule.biconditional_equivalence BiconditionalEquivalence.biconditional_association) =
    "BICONDITIONAL_ASSOCIATION"
to_serialized_name
      (Rule.biconditional_equivalence BiconditionalEquivalence.biconditional_reduction) =
    "BICONDITIONAL_REDUCTION"
to_serialized_name
      (Rule.biconditional_equivalence BiconditionalEquivalence.biconditional_complement) =
    "BICONDITIONAL_COMPLEMENT"
to_serialized_name
      (Rule.biconditional_equivalence BiconditionalEquivalence.biconditional_identity) =
    "BICONDITIONAL_IDENTITY"
to_serialized_name
      (Rule.biconditional_equivalence BiconditionalEquivalence.biconditional_negation) =
    "BICONDITIONAL_NEGATION"
to_serialized_name
      (Rule.biconditional_equivalence BiconditionalEquivalence.biconditional_substitution) =
    "BICONDITIONAL_SUBSTITUTION"
to_serialized_name (Rule.biconditional_equivalence BiconditionalEquivalence.knights_and_knaves) =
    "KNIGHTS_AND_KNAVES"
to_serialized_name (Rule.quantifier_equivalence QuantifierEquivalence.quantifier_negation) =
    "QUANTIFIER_NEGATION"
to_serialized_name (Rule.quantifier_equivalence QuantifierEquivalence.null_quantification) =
    "NULL_QUANTIFICATION"
to_serialized_name (Rule.quantifier_equivalence QuantifierEquivalence.replacing_bound_vars) =
    "REPLACING_BOUND_VARS"
to_serialized_name (Rule.quantifier_equivalence QuantifierEquivalence.swapping_quantifiers) =
    "SWAPPING_QUANTIFIERS"
to_serialized_name (Rule.quantifier_equivalence QuantifierEquivalence.aristotelean_square) =
    "ARISTOTELEAN_SQUARE"
to_serialized_name (Rule.quantifier_equivalence QuantifierEquivalence.quantifier_distribution) =
    "QUANTIFIER_DISTRIBUTION"
to_serialized_name (Rule.quantifier_equivalence QuantifierEquivalence.prenex_laws) = "PRENEX_LAWS"
to_serialized_name (Rule.special Special.reiteration) = "REITERATION"
to_serialized_name (Rule.special Special.resolution) = "RESOLUTION"
to_serialized_name (Rule.special Special.truth_functional_consequence) =
    "TRUTHFUNCTIONAL_CONSEQUENCE"
to_serialized_name (Rule.induction Induction.weak) = "WEAK_INDUCTION"
to_serialized_name (Rule.induction Induction.strong) = "STRONG_INDUCTION"
to_serialized_name (Rule.reduction Reduction.conjunction) = "CONJUNCTION"
to_serialized_name (Rule.reduction Reduction.disjunction) = "DISJUNCTION"
to_serialized_name (Rule.reduction Reduction.negation) = "NEGATION"
to_serialized_name (Rule.reduction Reduction.bicond_reduction) = "BICOND_REDUCTION"
to_serialized_name (Rule.reduction Reduction.cond_reduction) = "COND_REDUCTION"
to_serialized_name Rule.empty_rule = "EMPTY_RULE"

-- The first pattern that matches, from some row on.
unfoldable pub from_rows : String → List (String × Rule) → Option Rule
from_rows name [] = none
from_rows name (d ∷ ds) = let rest = from_rows name ds in if name == d.0 then some d.1 else rest

unfoldable pub from_serialized_name : String → Option Rule
from_serialized_name name = from_rows name declared
