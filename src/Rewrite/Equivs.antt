-- ===== src/Rewrite/Equivs.antt =====
-- The patterns of aris/src/equivs.rs, as `parse_unwrap` reads their strings.
use aris.Base.{List, [], ◌∷◌}
use aris.Expr.{Expr, Op, contra, taut, var, apply, not, impl, assoc, nil, cons}

abbrev pub both : Expr → Expr → Expr
both l r = assoc Op.and (cons l (cons r nil))

abbrev pub either : Expr → Expr → Expr
either l r = assoc Op.or (cons l (cons r nil))

abbrev pub iff : Expr → Expr → Expr
iff l r = assoc Op.bicon (cons l (cons r nil))

abbrev pub double_negation_patterns : List (Expr × Expr)
double_negation_patterns = (not (not (var "P")), var "P") ∷ []

abbrev pub distribution_patterns : List (Expr × Expr)
distribution_patterns =
    (
      either (both (var "P") (var "Q")) (both (var "P") (var "R")),
      both (var "P") (either (var "Q") (var "R")),
    )
    ∷ (
      both (either (var "P") (var "Q")) (either (var "P") (var "R")),
      either (var "P") (both (var "Q") (var "R")),
    )
    ∷ (
      both (var "P") (either (var "Q") (var "R")),
      either (both (var "P") (var "Q")) (both (var "P") (var "R")),
    )
    ∷ (
      either (var "P") (both (var "Q") (var "R")),
      both (either (var "P") (var "Q")) (either (var "P") (var "R")),
    )
    ∷ []

abbrev pub absorption_patterns : List (Expr × Expr)
absorption_patterns =
    (both (var "phi") (either (var "phi") (var "psi")), var "phi")
    ∷ (either (var "phi") (both (var "phi") (var "psi")), var "phi")
    ∷ []

abbrev pub identity_patterns : List (Expr × Expr)
identity_patterns = (both (var "phi") taut, var "phi") ∷ (either (var "phi") contra, var "phi") ∷ []

abbrev pub annihilation_patterns : List (Expr × Expr)
annihilation_patterns = (both (var "phi") contra, contra) ∷ (either (var "phi") taut, taut) ∷ []

abbrev pub inverse_patterns : List (Expr × Expr)
inverse_patterns = (not taut, contra) ∷ (not contra, taut) ∷ []

abbrev pub conditional_absorption_patterns : List (Expr × Expr)
conditional_absorption_patterns =
    (both (var "phi") (impl (not (var "phi")) (var "psi")), var "phi")
    ∷ (both (var "psi") (impl (var "phi") (var "psi")), var "psi")
    ∷ []

abbrev pub conditional_complement_patterns : List (Expr × Expr)
conditional_complement_patterns = (impl (var "phi") (var "phi"), taut) ∷ []

abbrev pub conditional_identity_patterns : List (Expr × Expr)
conditional_identity_patterns =
    (impl (var "phi") contra, not (var "phi")) ∷ (impl taut (var "phi"), var "phi") ∷ []

abbrev pub conditional_annihilation_patterns : List (Expr × Expr)
conditional_annihilation_patterns =
    (impl (var "phi") taut, taut) ∷ (impl contra (var "phi"), taut) ∷ []

abbrev pub conditional_implication_patterns : List (Expr × Expr)
conditional_implication_patterns =
    (impl (var "phi") (var "psi"), either (not (var "phi")) (var "psi"))
    ∷ (not (impl (var "phi") (var "psi")), both (var "phi") (not (var "psi")))
    ∷ (not (impl (var "phi") (var "psi")), not (either (not (var "phi")) (var "psi")))
    ∷ (not (either (not (var "phi")) (var "psi")), both (var "phi") (not (var "psi")))
    ∷ []

abbrev pub conditional_contraposition_patterns : List (Expr × Expr)
conditional_contraposition_patterns =
    (impl (not (var "phi")) (not (var "psi")), impl (var "psi") (var "phi")) ∷ []

abbrev pub conditional_exportation_patterns : List (Expr × Expr)
conditional_exportation_patterns =
    (
      impl (var "phi") (impl (var "psi") (var "lambda")),
      impl (both (var "phi") (var "psi")) (var "lambda"),
    )
    ∷ []

abbrev pub conditional_distribution_patterns : List (Expr × Expr)
conditional_distribution_patterns =
    (
      impl (var "phi") (both (var "psi") (var "lambda")),
      both (impl (var "phi") (var "psi")) (impl (var "phi") (var "lambda")),
    )
    ∷ (
      impl (either (var "phi") (var "psi")) (var "lambda"),
      both (impl (var "phi") (var "lambda")) (impl (var "psi") (var "lambda")),
    )
    ∷ (
      impl (var "phi") (either (var "psi") (var "lambda")),
      either (impl (var "phi") (var "psi")) (impl (var "phi") (var "lambda")),
    )
    ∷ (
      impl (both (var "phi") (var "psi")) (var "lambda"),
      either (impl (var "phi") (var "lambda")) (impl (var "psi") (var "lambda")),
    )
    ∷ []

abbrev pub conditional_reduction_patterns : List (Expr × Expr)
conditional_reduction_patterns =
    (both (var "phi") (impl (var "phi") (var "psi")), both (var "phi") (var "psi"))
    ∷ (
      both (not (var "psi")) (impl (var "phi") (var "psi")),
      both (not (var "psi")) (not (var "phi")),
    )
    ∷ []

abbrev pub knights_and_knaves_patterns : List (Expr × Expr)
knights_and_knaves_patterns =
    (iff (var "phi") (both (var "phi") (var "psi")), impl (var "phi") (var "psi"))
    ∷ (iff (var "phi") (either (var "phi") (var "psi")), impl (var "psi") (var "phi"))
    ∷ []

abbrev pub conditional_idempotence_patterns : List (Expr × Expr)
conditional_idempotence_patterns =
    (impl (var "phi") (not (var "phi")), not (var "phi"))
    ∷ (impl (not (var "phi")) (var "phi"), var "phi")
    ∷ []

abbrev pub biconditional_equivalence_patterns : List (Expr × Expr)
biconditional_equivalence_patterns =
    (
      both (impl (var "phi") (var "psi")) (impl (var "psi") (var "phi")),
      iff (var "phi") (var "psi"),
    )
    ∷ (
      either (both (var "phi") (var "psi")) (both (not (var "phi")) (not (var "psi"))),
      iff (var "phi") (var "psi"),
    )
    ∷ []

abbrev pub biconditional_commutation_patterns : List (Expr × Expr)
biconditional_commutation_patterns = (iff (var "phi") (var "psi"), iff (var "psi") (var "phi")) ∷ []

abbrev pub biconditional_association_patterns : List (Expr × Expr)
biconditional_association_patterns =
    (
      iff (var "phi") (iff (var "psi") (var "lambda")),
      iff (iff (var "phi") (var "psi")) (var "lambda"),
    )
    ∷ []

abbrev pub biconditional_reduction_patterns : List (Expr × Expr)
biconditional_reduction_patterns =
    (both (var "phi") (iff (var "phi") (var "psi")), both (var "phi") (var "psi"))
    ∷ (
      both (not (var "phi")) (iff (var "phi") (var "psi")),
      both (not (var "phi")) (not (var "psi")),
    )
    ∷ []

abbrev pub biconditional_complement_patterns : List (Expr × Expr)
biconditional_complement_patterns =
    (iff (var "phi") (var "phi"), taut) ∷ (iff (var "phi") (not (var "phi")), contra) ∷ []

abbrev pub biconditional_identity_patterns : List (Expr × Expr)
biconditional_identity_patterns =
    (iff (var "phi") contra, not (var "phi")) ∷ (iff (var "phi") taut, var "phi") ∷ []

abbrev pub biconditional_negation_patterns : List (Expr × Expr)
biconditional_negation_patterns =
    (iff (not (var "phi")) (var "psi"), not (iff (var "phi") (var "psi")))
    ∷ (iff (var "phi") (not (var "psi")), not (iff (var "phi") (var "psi")))
    ∷ []

abbrev pub biconditional_substitution_patterns : List (Expr × Expr)
biconditional_substitution_patterns =
    (
      both (iff (var "phi") (var "psi")) (apply (var "S") (cons (var "phi") nil)),
      both (iff (var "phi") (var "psi")) (apply (var "S") (cons (var "psi") nil)),
    )
    ∷ []

abbrev pub conjunction_patterns : List (Expr × Expr)
conjunction_patterns = (both (var "phi") taut, var "phi") ∷ (both (var "phi") contra, contra) ∷ []

abbrev pub disjunction_patterns : List (Expr × Expr)
disjunction_patterns = (either (var "phi") contra, var "phi") ∷ (either (var "phi") taut, taut) ∷ []

abbrev pub negation_patterns : List (Expr × Expr)
negation_patterns = (not taut, contra) ∷ (not contra, taut) ∷ []

abbrev pub bicond_reduction_patterns : List (Expr × Expr)
bicond_reduction_patterns =
    (iff (var "phi") contra, not (var "phi")) ∷ (iff (var "phi") taut, var "phi") ∷ []

abbrev pub cond_reduction_patterns : List (Expr × Expr)
cond_reduction_patterns =
    (impl (var "phi") taut, taut)
    ∷ (impl contra (var "phi"), taut)
    ∷ (impl (var "phi") contra, not (var "phi"))
    ∷ (impl taut (var "phi"), var "phi")
    ∷ []

abbrev pub complement_patterns : List (Expr × Expr)
complement_patterns =
    (both (var "phi") (not (var "phi")), contra)
    ∷ (both (not (var "phi")) (var "phi"), contra)
    ∷ (either (var "phi") (not (var "phi")), taut)
    ∷ (either (not (var "phi")) (var "phi"), taut)
    ∷ []
