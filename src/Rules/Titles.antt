-- ===== src/Rules/Titles.antt =====
-- The name of each rule of aris/src/rules.rs that is displayed, and its classifications, a set of at most
-- one.
use aris.Base.{String, Bool, true, false, List, [], ◌∷◌, any}
use aris.Rules.{
  PropositionalInference, PredicateInference, BooleanInference, ConditionalInference,
  BiconditionalInference, QuantifierInference, BooleanEquivalence, ConditionalEquivalence,
  BiconditionalEquivalence, QuantifierEquivalence, Special, Induction, Reduction,
  RuleClassification, Rule,
}
use aris.Rules.Names.{all_rules}
use aris.Pool.Remove.{filter}

unfoldable pub propositional_inference_name : PropositionalInference → String
propositional_inference_name PropositionalInference.and_intro = "∧ Introduction"
propositional_inference_name PropositionalInference.and_elim = "∧ Elimination"
propositional_inference_name PropositionalInference.or_intro = "∨ Introduction"
propositional_inference_name PropositionalInference.or_elim = "∨ Elimination"
propositional_inference_name PropositionalInference.imp_intro = "→ Introduction"
propositional_inference_name PropositionalInference.imp_elim = "→ Elimination"
propositional_inference_name PropositionalInference.not_intro = "¬ Introduction"
propositional_inference_name PropositionalInference.not_elim = "¬ Elimination"
propositional_inference_name PropositionalInference.contradiction_intro = "⊥ Introduction"
propositional_inference_name PropositionalInference.contradiction_elim = "⊥ Elimination"
propositional_inference_name PropositionalInference.biconditional_intro = "↔ Introduction"
propositional_inference_name PropositionalInference.biconditional_elim = "↔ Elimination"
propositional_inference_name PropositionalInference.equivalence_intro = "≡ Introduction"
propositional_inference_name PropositionalInference.equivalence_elim = "≡ Elimination"

unfoldable pub predicate_inference_name : PredicateInference → String
predicate_inference_name PredicateInference.forall_intro = "∀ Introduction"
predicate_inference_name PredicateInference.forall_elim = "∀ Elimination"
predicate_inference_name PredicateInference.exists_intro = "∃ Introduction"
predicate_inference_name PredicateInference.exists_elim = "∃ Elimination"

unfoldable pub boolean_inference_name : BooleanInference → String
boolean_inference_name BooleanInference.disjunctive_syllogism = "Disjunctive Syllogism"
boolean_inference_name BooleanInference.exclusion = "Exclusion"
boolean_inference_name BooleanInference.excluded_middle = "Excluded Middle"
boolean_inference_name BooleanInference.half_de_morgan = "Half DeMorgan"

unfoldable pub conditional_inference_name : ConditionalInference → String
conditional_inference_name ConditionalInference.modus_tollens = "Modus Tollens"
conditional_inference_name ConditionalInference.hypothetical_syllogism = "Hypothetical Syllogism"
conditional_inference_name ConditionalInference.constructive_dilemma = "Constructive Dilemma"
conditional_inference_name ConditionalInference.destructive_dilemma = "Destructive Dilemma"
conditional_inference_name ConditionalInference.strengthen_antecedent =
    "Strengthening the Antecedent"
conditional_inference_name ConditionalInference.weaken_consequent = "Weakening the Consequent"
conditional_inference_name ConditionalInference.con_intro_negation =
    "Conditional Introduction Negation"
conditional_inference_name ConditionalInference.con_elim_negation =
    "Conditional Elimination Negation"

unfoldable pub biconditional_inference_name : BiconditionalInference → String
biconditional_inference_name BiconditionalInference.bicon_intro = "Biconditional Introduction"
biconditional_inference_name BiconditionalInference.bicon_intro_negation =
    "Biconditional Introduction Negation"
biconditional_inference_name BiconditionalInference.bicon_elim = "Biconditional Elimination"
biconditional_inference_name BiconditionalInference.bicon_elim_negation =
    "Biconditional Elimination Negation"

unfoldable pub quantifier_inference_name : QuantifierInference → String
quantifier_inference_name QuantifierInference.quant_inference = "Quantifier Inference"

unfoldable pub boolean_equivalence_name : BooleanEquivalence → String
boolean_equivalence_name BooleanEquivalence.de_morgan = "DeMorgan"
boolean_equivalence_name BooleanEquivalence.association = "Association"
boolean_equivalence_name BooleanEquivalence.commutation = "Commutation"
boolean_equivalence_name BooleanEquivalence.idempotence = "Idempotence"
boolean_equivalence_name BooleanEquivalence.distribution = "Distribution"
boolean_equivalence_name BooleanEquivalence.double_negation = "Double Negation"
boolean_equivalence_name BooleanEquivalence.complement = "Complement"
boolean_equivalence_name BooleanEquivalence.identity = "Identity"
boolean_equivalence_name BooleanEquivalence.annihilation = "Annihilation"
boolean_equivalence_name BooleanEquivalence.inverse = "Inverse"
boolean_equivalence_name BooleanEquivalence.absorption = "Absorption"
boolean_equivalence_name BooleanEquivalence.reduction = "Reduction"
boolean_equivalence_name BooleanEquivalence.adjacency = "Adjacency"

unfoldable pub conditional_equivalence_name : ConditionalEquivalence → String
conditional_equivalence_name ConditionalEquivalence.implication = "Implication"
conditional_equivalence_name ConditionalEquivalence.contraposition = "Contraposition"
conditional_equivalence_name ConditionalEquivalence.exportation = "Exportation"
conditional_equivalence_name ConditionalEquivalence.conditional_distribution =
    "Conditional Distribution"
conditional_equivalence_name ConditionalEquivalence.conditional_absorption =
    "Conditional Absorption"
conditional_equivalence_name ConditionalEquivalence.conditional_reduction = "Conditional Reduction"
conditional_equivalence_name ConditionalEquivalence.conditional_idempotence =
    "Conditional Idempotence"
conditional_equivalence_name ConditionalEquivalence.conditional_complement =
    "Conditional Complement"
conditional_equivalence_name ConditionalEquivalence.conditional_identity = "Conditional Identity"
conditional_equivalence_name ConditionalEquivalence.conditional_annihilation =
    "Conditional Annihilation"

unfoldable pub biconditional_equivalence_name : BiconditionalEquivalence → String
biconditional_equivalence_name BiconditionalEquivalence.bi_equivalence = "Equivalence"
biconditional_equivalence_name BiconditionalEquivalence.biconditional_contraposition =
    "Biconditional Contraposition"
biconditional_equivalence_name BiconditionalEquivalence.biconditional_commutation =
    "Biconditional Commutation"
biconditional_equivalence_name BiconditionalEquivalence.biconditional_association =
    "Biconditional Association"
biconditional_equivalence_name BiconditionalEquivalence.biconditional_reduction =
    "Biconditional Reduction"
biconditional_equivalence_name BiconditionalEquivalence.biconditional_complement =
    "Biconditional Complement"
biconditional_equivalence_name BiconditionalEquivalence.biconditional_identity =
    "Biconditional Identity"
biconditional_equivalence_name BiconditionalEquivalence.biconditional_negation =
    "Biconditional Negation"
biconditional_equivalence_name BiconditionalEquivalence.biconditional_substitution =
    "Biconditional Substitution"
biconditional_equivalence_name BiconditionalEquivalence.knights_and_knaves = "Knights & Knaves"

unfoldable pub quantifier_equivalence_name : QuantifierEquivalence → String
quantifier_equivalence_name QuantifierEquivalence.quantifier_negation = "Quantifier Negation"
quantifier_equivalence_name QuantifierEquivalence.null_quantification = "Null Quantification"
quantifier_equivalence_name QuantifierEquivalence.replacing_bound_vars = "Replacing Bound Variables"
quantifier_equivalence_name QuantifierEquivalence.swapping_quantifiers =
    "Swapping Quantifiers of Same Type"
quantifier_equivalence_name QuantifierEquivalence.aristotelean_square =
    "Aristotelean Square of Opposition"
quantifier_equivalence_name QuantifierEquivalence.quantifier_distribution =
    "Quantifier Distribution"
quantifier_equivalence_name QuantifierEquivalence.prenex_laws = "Prenex Laws"

unfoldable pub special_name : Special → String
special_name Special.reiteration = "Reiteration"
special_name Special.resolution = "Resolution"
special_name Special.truth_functional_consequence = "Truth-Functional Consequence"

unfoldable pub induction_name : Induction → String
induction_name Induction.weak = "Weak Induction"
induction_name Induction.strong = "Strong Induction"

unfoldable pub reduction_name : Reduction → String
reduction_name Reduction.conjunction = "Conjunction"
reduction_name Reduction.disjunction = "Disjunction"
reduction_name Reduction.negation = "Negation"
reduction_name Reduction.bicond_reduction = "Bicond Reduction"
reduction_name Reduction.cond_reduction = "Cond Reduction"

unfoldable pub propositional_inference_classifications :
    PropositionalInference → List RuleClassification
propositional_inference_classifications PropositionalInference.and_intro =
    RuleClassification.introduction ∷ []
propositional_inference_classifications PropositionalInference.and_elim =
    RuleClassification.elimination ∷ []
propositional_inference_classifications PropositionalInference.or_intro =
    RuleClassification.introduction ∷ []
propositional_inference_classifications PropositionalInference.or_elim =
    RuleClassification.elimination ∷ []
propositional_inference_classifications PropositionalInference.imp_intro =
    RuleClassification.introduction ∷ []
propositional_inference_classifications PropositionalInference.imp_elim =
    RuleClassification.elimination ∷ []
propositional_inference_classifications PropositionalInference.not_intro =
    RuleClassification.introduction ∷ []
propositional_inference_classifications PropositionalInference.not_elim =
    RuleClassification.elimination ∷ []
propositional_inference_classifications PropositionalInference.contradiction_intro =
    RuleClassification.introduction ∷ []
propositional_inference_classifications PropositionalInference.contradiction_elim =
    RuleClassification.elimination ∷ []
propositional_inference_classifications PropositionalInference.biconditional_intro =
    RuleClassification.introduction ∷ []
propositional_inference_classifications PropositionalInference.biconditional_elim =
    RuleClassification.elimination ∷ []
propositional_inference_classifications PropositionalInference.equivalence_intro =
    RuleClassification.introduction ∷ []
propositional_inference_classifications PropositionalInference.equivalence_elim =
    RuleClassification.elimination ∷ []

unfoldable pub predicate_inference_classifications : PredicateInference → List RuleClassification
predicate_inference_classifications PredicateInference.forall_intro =
    RuleClassification.introduction ∷ []
predicate_inference_classifications PredicateInference.forall_elim =
    RuleClassification.elimination ∷ []
predicate_inference_classifications PredicateInference.exists_intro =
    RuleClassification.introduction ∷ []
predicate_inference_classifications PredicateInference.exists_elim =
    RuleClassification.elimination ∷ []

unfoldable pub get_classifications : Rule → List RuleClassification
get_classifications (Rule.propositional_inference r) = propositional_inference_classifications r
get_classifications (Rule.predicate_inference r) = predicate_inference_classifications r
get_classifications (Rule.boolean_inference _) = RuleClassification.boolean_inference ∷ []
get_classifications (Rule.conditional_inference _) = RuleClassification.conditional_inference ∷ []
get_classifications (Rule.biconditional_inference _) =
    RuleClassification.biconditional_inference ∷ []
get_classifications (Rule.quantifier_inference _) = RuleClassification.quantifier_inference ∷ []
get_classifications (Rule.boolean_equivalence _) = RuleClassification.boolean_equivalence ∷ []
get_classifications (Rule.conditional_equivalence _) =
    RuleClassification.conditional_equivalence ∷ []
get_classifications (Rule.biconditional_equivalence _) =
    RuleClassification.biconditional_equivalence ∷ []
get_classifications (Rule.quantifier_equivalence _) = RuleClassification.quantifier_equivalence ∷ []
get_classifications (Rule.special _) = RuleClassification.special ∷ []
get_classifications (Rule.induction _) = RuleClassification.induction ∷ []
get_classifications (Rule.reduction _) = RuleClassification.reduction ∷ []
get_classifications Rule.empty_rule = []

unfoldable pub get_name : Rule → String
unfolding propositional_inference_name predicate_inference_name boolean_inference_name
    conditional_inference_name biconditional_inference_name quantifier_inference_name
    boolean_equivalence_name conditional_equivalence_name biconditional_equivalence_name
    quantifier_equivalence_name special_name induction_name reduction_name
get_name (Rule.propositional_inference r) = propositional_inference_name r
get_name (Rule.predicate_inference r) = predicate_inference_name r
get_name (Rule.boolean_inference r) = boolean_inference_name r
get_name (Rule.conditional_inference r) = conditional_inference_name r
get_name (Rule.biconditional_inference r) = biconditional_inference_name r
get_name (Rule.quantifier_inference r) = quantifier_inference_name r
get_name (Rule.boolean_equivalence r) = boolean_equivalence_name r
get_name (Rule.conditional_equivalence r) = conditional_equivalence_name r
get_name (Rule.biconditional_equivalence r) = biconditional_equivalence_name r
get_name (Rule.quantifier_equivalence r) = quantifier_equivalence_name r
get_name (Rule.special r) = special_name r
get_name (Rule.induction r) = induction_name r
get_name (Rule.reduction r) = reduction_name r
get_name Rule.empty_rule = "Rule"

-- The derived equality of `RuleClassification`.
unfoldable pub classification_beq : RuleClassification → RuleClassification → Bool
classification_beq RuleClassification.introduction RuleClassification.introduction = true
classification_beq RuleClassification.elimination RuleClassification.elimination = true
classification_beq RuleClassification.boolean_inference RuleClassification.boolean_inference = true
classification_beq RuleClassification.conditional_inference
      RuleClassification.conditional_inference =
    true
classification_beq RuleClassification.biconditional_inference
      RuleClassification.biconditional_inference =
    true
classification_beq RuleClassification.quantifier_inference RuleClassification.quantifier_inference =
    true
classification_beq RuleClassification.boolean_equivalence RuleClassification.boolean_equivalence =
    true
classification_beq RuleClassification.conditional_equivalence
      RuleClassification.conditional_equivalence =
    true
classification_beq RuleClassification.biconditional_equivalence
      RuleClassification.biconditional_equivalence =
    true
classification_beq RuleClassification.quantifier_equivalence
      RuleClassification.quantifier_equivalence =
    true
classification_beq RuleClassification.special RuleClassification.special = true
classification_beq RuleClassification.induction RuleClassification.induction = true
classification_beq RuleClassification.reduction RuleClassification.reduction = true
classification_beq _ _ = false

-- `RuleClassification::rules`
unfoldable pub rules : RuleClassification → List Rule
rules c = filter (λ rule. any (classification_beq c) (get_classifications rule)) all_rules
