-- ===== src/Rewrite/Rules.antt =====
-- The rules of aris/src/equivs.rs, by their patterns.
use aris.Base.{List, [], ◌∷◌}
use aris.Expr.{Expr}
use aris.Rewrite.Equivs.{
  double_negation_patterns, distribution_patterns, absorption_patterns, identity_patterns,
  annihilation_patterns, inverse_patterns, conditional_absorption_patterns,
  conditional_complement_patterns, conditional_identity_patterns, conditional_annihilation_patterns,
  conditional_implication_patterns, conditional_contraposition_patterns,
  conditional_exportation_patterns, conditional_distribution_patterns,
  conditional_reduction_patterns, knights_and_knaves_patterns, conditional_idempotence_patterns,
  biconditional_equivalence_patterns, biconditional_commutation_patterns,
  biconditional_association_patterns, biconditional_reduction_patterns,
  biconditional_complement_patterns, biconditional_identity_patterns,
  biconditional_negation_patterns, biconditional_substitution_patterns, conjunction_patterns,
  disjunction_patterns, negation_patterns, bicond_reduction_patterns, cond_reduction_patterns,
  complement_patterns,
}

-- The rules whose patterns have no call.
abbrev pub plain_rules : List (List (Expr × Expr))
plain_rules =
    double_negation_patterns ∷ distribution_patterns ∷ absorption_patterns ∷ identity_patterns
    ∷ annihilation_patterns ∷ inverse_patterns ∷ conditional_absorption_patterns
    ∷ conditional_complement_patterns ∷ conditional_identity_patterns
    ∷ conditional_annihilation_patterns ∷ conditional_implication_patterns
    ∷ conditional_contraposition_patterns ∷ conditional_exportation_patterns
    ∷ conditional_distribution_patterns ∷ conditional_reduction_patterns
    ∷ knights_and_knaves_patterns ∷ conditional_idempotence_patterns
    ∷ biconditional_equivalence_patterns ∷ biconditional_commutation_patterns
    ∷ biconditional_association_patterns ∷ biconditional_reduction_patterns
    ∷ biconditional_complement_patterns ∷ biconditional_identity_patterns
    ∷ biconditional_negation_patterns ∷ conjunction_patterns ∷ disjunction_patterns
    ∷ negation_patterns ∷ bicond_reduction_patterns ∷ cond_reduction_patterns ∷ complement_patterns
    ∷ []

abbrev pub all_equivalences : List (List (Expr × Expr))
all_equivalences = biconditional_substitution_patterns ∷ plain_rules
