-- ===== src/Rules/RoundTrip.antt =====
-- The serialized names of the rules of aris/src/rules.rs, and the rules read from them.
use aris.Base.{
  String, Bool, true, some, List, [], ◌∷◌, ◌≡◌, ◌≢◌, ◌↔◌, refl, Bool-cases, inl, inr, ==_path,
  some-inj, sym, ◌∙◌, ap, string_eq, ◌==◌, all, and-left, and-right,
}
use aris.Rules.{
  PropositionalInference, PredicateInference, BooleanInference, ConditionalInference,
  BiconditionalInference, QuantifierInference, BooleanEquivalence, ConditionalEquivalence,
  BiconditionalEquivalence, QuantifierEquivalence, Special, Induction, Reduction, Rule,
}
use aris.Rules.Names.{declared, to_serialized_name, from_rows, from_serialized_name}

read_back :
    (r : Rule)
    → r ≢ Rule.reduction Reduction.conjunction
    → from_serialized_name (to_serialized_name r) ≡ some r
unfolding to_serialized_name from_serialized_name from_rows
read_back (Rule.propositional_inference PropositionalInference.and_intro) h = refl
read_back (Rule.propositional_inference PropositionalInference.and_elim) h = refl
read_back (Rule.propositional_inference PropositionalInference.or_intro) h = refl
read_back (Rule.propositional_inference PropositionalInference.or_elim) h = refl
read_back (Rule.propositional_inference PropositionalInference.imp_intro) h = refl
read_back (Rule.propositional_inference PropositionalInference.imp_elim) h = refl
read_back (Rule.propositional_inference PropositionalInference.not_intro) h = refl
read_back (Rule.propositional_inference PropositionalInference.not_elim) h = refl
read_back (Rule.propositional_inference PropositionalInference.contradiction_intro) h = refl
read_back (Rule.propositional_inference PropositionalInference.contradiction_elim) h = refl
read_back (Rule.propositional_inference PropositionalInference.biconditional_intro) h = refl
read_back (Rule.propositional_inference PropositionalInference.biconditional_elim) h = refl
read_back (Rule.propositional_inference PropositionalInference.equivalence_intro) h = refl
read_back (Rule.propositional_inference PropositionalInference.equivalence_elim) h = refl
read_back (Rule.predicate_inference PredicateInference.forall_intro) h = refl
read_back (Rule.predicate_inference PredicateInference.forall_elim) h = refl
read_back (Rule.predicate_inference PredicateInference.exists_intro) h = refl
read_back (Rule.predicate_inference PredicateInference.exists_elim) h = refl
read_back (Rule.boolean_inference BooleanInference.disjunctive_syllogism) h = refl
read_back (Rule.boolean_inference BooleanInference.exclusion) h = refl
read_back (Rule.boolean_inference BooleanInference.excluded_middle) h = refl
read_back (Rule.boolean_inference BooleanInference.half_de_morgan) h = refl
read_back (Rule.conditional_inference ConditionalInference.modus_tollens) h = refl
read_back (Rule.conditional_inference ConditionalInference.hypothetical_syllogism) h = refl
read_back (Rule.conditional_inference ConditionalInference.constructive_dilemma) h = refl
read_back (Rule.conditional_inference ConditionalInference.destructive_dilemma) h = refl
read_back (Rule.conditional_inference ConditionalInference.strengthen_antecedent) h = refl
read_back (Rule.conditional_inference ConditionalInference.weaken_consequent) h = refl
read_back (Rule.conditional_inference ConditionalInference.con_intro_negation) h = refl
read_back (Rule.conditional_inference ConditionalInference.con_elim_negation) h = refl
read_back (Rule.biconditional_inference BiconditionalInference.bicon_intro) h = refl
read_back (Rule.biconditional_inference BiconditionalInference.bicon_intro_negation) h = refl
read_back (Rule.biconditional_inference BiconditionalInference.bicon_elim) h = refl
read_back (Rule.biconditional_inference BiconditionalInference.bicon_elim_negation) h = refl
read_back (Rule.quantifier_inference QuantifierInference.quant_inference) h = refl
read_back (Rule.boolean_equivalence BooleanEquivalence.association) h = refl
read_back (Rule.boolean_equivalence BooleanEquivalence.commutation) h = refl
read_back (Rule.boolean_equivalence BooleanEquivalence.idempotence) h = refl
read_back (Rule.boolean_equivalence BooleanEquivalence.de_morgan) h = refl
read_back (Rule.boolean_equivalence BooleanEquivalence.distribution) h = refl
read_back (Rule.boolean_equivalence BooleanEquivalence.double_negation) h = refl
read_back (Rule.boolean_equivalence BooleanEquivalence.complement) h = refl
read_back (Rule.boolean_equivalence BooleanEquivalence.identity) h = refl
read_back (Rule.boolean_equivalence BooleanEquivalence.annihilation) h = refl
read_back (Rule.boolean_equivalence BooleanEquivalence.inverse) h = refl
read_back (Rule.boolean_equivalence BooleanEquivalence.absorption) h = refl
read_back (Rule.boolean_equivalence BooleanEquivalence.reduction) h = refl
read_back (Rule.boolean_equivalence BooleanEquivalence.adjacency) h = refl
read_back (Rule.conditional_equivalence ConditionalEquivalence.implication) h = refl
read_back (Rule.conditional_equivalence ConditionalEquivalence.contraposition) h = refl
read_back (Rule.conditional_equivalence ConditionalEquivalence.exportation) h = refl
read_back (Rule.conditional_equivalence ConditionalEquivalence.conditional_distribution) h = refl
read_back (Rule.conditional_equivalence ConditionalEquivalence.conditional_absorption) h = refl
read_back (Rule.conditional_equivalence ConditionalEquivalence.conditional_reduction) h = refl
read_back (Rule.conditional_equivalence ConditionalEquivalence.conditional_idempotence) h = refl
read_back (Rule.conditional_equivalence ConditionalEquivalence.conditional_complement) h = refl
read_back (Rule.conditional_equivalence ConditionalEquivalence.conditional_identity) h = refl
read_back (Rule.conditional_equivalence ConditionalEquivalence.conditional_annihilation) h = refl
read_back (Rule.biconditional_equivalence BiconditionalEquivalence.bi_equivalence) h = refl
read_back (Rule.biconditional_equivalence BiconditionalEquivalence.biconditional_contraposition) h =
    refl
read_back (Rule.biconditional_equivalence BiconditionalEquivalence.biconditional_commutation) h =
    refl
read_back (Rule.biconditional_equivalence BiconditionalEquivalence.biconditional_association) h =
    refl
read_back (Rule.biconditional_equivalence BiconditionalEquivalence.biconditional_reduction) h = refl
read_back (Rule.biconditional_equivalence BiconditionalEquivalence.biconditional_complement) h =
    refl
read_back (Rule.biconditional_equivalence BiconditionalEquivalence.biconditional_identity) h = refl
read_back (Rule.biconditional_equivalence BiconditionalEquivalence.biconditional_negation) h = refl
read_back (Rule.biconditional_equivalence BiconditionalEquivalence.biconditional_substitution) h =
    refl
read_back (Rule.biconditional_equivalence BiconditionalEquivalence.knights_and_knaves) h = refl
read_back (Rule.quantifier_equivalence QuantifierEquivalence.quantifier_negation) h = refl
read_back (Rule.quantifier_equivalence QuantifierEquivalence.null_quantification) h = refl
read_back (Rule.quantifier_equivalence QuantifierEquivalence.replacing_bound_vars) h = refl
read_back (Rule.quantifier_equivalence QuantifierEquivalence.swapping_quantifiers) h = refl
read_back (Rule.quantifier_equivalence QuantifierEquivalence.aristotelean_square) h = refl
read_back (Rule.quantifier_equivalence QuantifierEquivalence.quantifier_distribution) h = refl
read_back (Rule.quantifier_equivalence QuantifierEquivalence.prenex_laws) h = refl
read_back (Rule.special Special.reiteration) h = refl
read_back (Rule.special Special.resolution) h = refl
read_back (Rule.special Special.truth_functional_consequence) h = refl
read_back (Rule.induction Induction.weak) h = refl
read_back (Rule.induction Induction.strong) h = refl
read_back (Rule.reduction Reduction.conjunction) h = absurd (h refl)
read_back (Rule.reduction Reduction.disjunction) h = refl
read_back (Rule.reduction Reduction.negation) h = refl
read_back (Rule.reduction Reduction.bicond_reduction) h = refl
read_back (Rule.reduction Reduction.cond_reduction) h = refl
read_back Rule.empty_rule h = refl

-- Every row holds the name that its rule is written by.
is_written_so : String × Rule → Bool
is_written_so d = to_serialized_name d.1 == d.0

is_written_so-declared : all is_written_so declared ≡ true
unfolding is_written_so to_serialized_name
is_written_so-declared = refl

name-from_rows :
    (name : String) (r : Rule) (ds : List (String × Rule))
    → all is_written_so ds ≡ true
    → from_rows name ds ≡ some r
    → to_serialized_name r ≡ name
unfolding from_rows is_written_so
name-from_rows name r [] w h = absurd cc
name-from_rows name r (d ∷ ds) w h = elim (Bool-cases (name == d.0)) [
  | inl t ↦
      ap to_serialized_name (sym (some-inj (rw t at h)))
      ∙ ==_path (to_serialized_name d.1) d.0 (and-left (is_written_so d) (all is_written_so ds) w)
      ∙ sym (==_path name d.0 t)
  | inr f ↦
      name-from_rows name r ds (and-right (is_written_so d) (all is_written_so ds) w) (rw f at h)
]

-- `Conjunction` is read as the introduction of conjunctions.
ne-conjunction :
    (name : String) (r : Rule)
    → from_serialized_name name ≡ some r
    → to_serialized_name r ≡ name
    → r ≢ Rule.reduction Reduction.conjunction
unfolding to_serialized_name from_serialized_name from_rows
ne-conjunction name r h n q = absurd (differ (rw (← n, q) at h))
  where
    differ :
        some (Rule.propositional_inference PropositionalInference.and_intro)
        ≢ some (Rule.reduction Reduction.conjunction)
    differ h = cc

-- A name is read as a rule exactly if it is the name that the rule is written by, and the rule is not the
-- reduction `Conjunction`: that shares its name with the introduction of conjunctions, as which it is
-- read.
pub serialized_names_lem :
    (name : String) (r : Rule)
    → (from_serialized_name name ≡ some r)
      ↔ ((to_serialized_name r ≡ name) × (r ≢ Rule.reduction Reduction.conjunction))
unfolding from_serialized_name
serialized_names_lem name r = (
  λ h.
      let n = name-from_rows name r declared is_written_so-declared h in
      (n, ne-conjunction name r h n),
  λ (n, c). rw (← n) (read_back r c),
)
