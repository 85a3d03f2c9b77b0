-- ===== src/Rules.antt =====
-- aris/src/rules.rs: the rules of inference. Each group of rules is an enumeration, and a rule is one of
-- a group: the coproduct of the groups has a constructor for each, and `SharedChecks`, which
-- wraps it, is the function `Rules.Check.shared_checks`.
pub mod Names
pub mod RoundTrip
pub mod Counts
pub mod Titles
pub mod Order
pub mod Orders
pub mod Check
pub mod Models
pub mod Premises
pub mod Values
pub mod Propositional
pub mod Boolean
pub mod Conditional
pub mod Biconditional
pub mod Groups
pub mod Soundness
pub mod Verified
pub mod Tests

pub data PropositionalInference : Type 0 where
  and_intro and_elim or_intro or_elim imp_intro imp_elim not_intro : PropositionalInference
  not_elim contradiction_intro contradiction_elim biconditional_intro : PropositionalInference
  biconditional_elim equivalence_intro equivalence_elim : PropositionalInference

pub data PredicateInference : Type 0 where
  forall_intro forall_elim exists_intro exists_elim : PredicateInference

pub data BooleanInference : Type 0 where
  disjunctive_syllogism exclusion excluded_middle half_de_morgan : BooleanInference

pub data ConditionalInference : Type 0 where
  modus_tollens hypothetical_syllogism constructive_dilemma : ConditionalInference
  destructive_dilemma strengthen_antecedent weaken_consequent : ConditionalInference
  con_intro_negation con_elim_negation : ConditionalInference

pub data BiconditionalInference : Type 0 where
  bicon_intro bicon_intro_negation bicon_elim bicon_elim_negation : BiconditionalInference

pub data QuantifierInference : Type 0 where
  quant_inference : QuantifierInference

pub data BooleanEquivalence : Type 0 where
  de_morgan association commutation idempotence distribution : BooleanEquivalence
  double_negation complement identity annihilation inverse absorption : BooleanEquivalence
  reduction adjacency : BooleanEquivalence

pub data ConditionalEquivalence : Type 0 where
  implication contraposition exportation conditional_distribution : ConditionalEquivalence
  conditional_absorption conditional_reduction conditional_idempotence : ConditionalEquivalence
  conditional_complement conditional_identity conditional_annihilation : ConditionalEquivalence

pub data BiconditionalEquivalence : Type 0 where
  bi_equivalence biconditional_contraposition biconditional_commutation : BiconditionalEquivalence
  biconditional_association biconditional_reduction : BiconditionalEquivalence
  biconditional_complement biconditional_identity : BiconditionalEquivalence
  biconditional_negation biconditional_substitution knights_and_knaves : BiconditionalEquivalence

pub data QuantifierEquivalence : Type 0 where
  quantifier_negation null_quantification replacing_bound_vars : QuantifierEquivalence
  swapping_quantifiers aristotelean_square quantifier_distribution : QuantifierEquivalence
  prenex_laws : QuantifierEquivalence

pub data Special : Type 0 where
  reiteration resolution truth_functional_consequence : Special

pub data Induction : Type 0 where
  weak strong : Induction

pub data Reduction : Type 0 where
  conjunction disjunction negation bicond_reduction cond_reduction : Reduction

pub data RuleClassification : Type 0 where
  introduction elimination boolean_inference conditional_inference : RuleClassification
  biconditional_inference quantifier_inference boolean_equivalence : RuleClassification
  conditional_equivalence biconditional_equivalence : RuleClassification
  quantifier_equivalence special induction reduction : RuleClassification

pub data Rule : Type 0 where
  propositional_inference : PropositionalInference → Rule
  predicate_inference : PredicateInference → Rule
  boolean_inference : BooleanInference → Rule
  conditional_inference : ConditionalInference → Rule
  biconditional_inference : BiconditionalInference → Rule
  quantifier_inference : QuantifierInference → Rule
  boolean_equivalence : BooleanEquivalence → Rule
  conditional_equivalence : ConditionalEquivalence → Rule
  biconditional_equivalence : BiconditionalEquivalence → Rule
  quantifier_equivalence : QuantifierEquivalence → Rule
  special : Special → Rule
  induction : Induction → Rule
  reduction : Reduction → Rule
  empty_rule : Rule
