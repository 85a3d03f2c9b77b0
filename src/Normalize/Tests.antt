-- ===== src/Normalize/Tests.antt =====
-- Runs of the normalizers of aris/src/expr.rs, over the truth values.
use aris.Base.{◌==◌, String, Bool, true, false, ==_ne, string_eq, [], ◌∷◌, ◌≡◌, refl, some}
use aris.Expr.{Expr, Op, QuantKind, var, not, impl, assoc, quant, nil, cons}
use aris.Expr.Denote.{denote}
use aris.Normalize.Prenex.{normalize_prenex_laws}
use aris.Normalize.PrenexOrder.{some_all, all_some, normalize_prenex_laws-swaps}
use aris.Normalize.HalfDeMorgan.{normalize_halfdemorgans, combine_possibilities}
use aris.Normalize.BoundVars.{replacing_bound_vars, restore, number_vars}
use aris.Vars.{free_vars, remove, extend, insert, gen_var}
use aris.Subst.{subst}
use aris.Vars.Decimal.{to_decimal}
use aris.Expr.TwoValued.{two_valued}
use aris.Normalize.Binary.{normalize_assoc_to_binary, fold_binary, normalize_assoc_to_binary_left}
use aris.Normalize.Narrow.{Narrow}
use aris.Normalize.BinaryForms.{
  three_equivalent, normalize_assoc_to_binary_lem, normalize_assoc_to_binary-equivalence,
}
use aris.Transform.{transform_expr_inner, transform}
use aris.Transform.Weight.{by_one, by_square, weight}
use aris.Transform.Denotes.{Same}
use aris.Transform.Fixpoint.{Everywhere}
use aris.Normalize.{
  append_exprs, op_eq, normalize_demorgans, combine_associative_ops, negate_quantifiers,
  aristotelean_square, quantifier_distribution, demorgans_step, combine_step,
}
use aris.Normalize.Classical.{
  two_valued-DeMorgan, two_valued-QuantifierNegations, two_valued-QuantifierDistribution,
  two_valued-Quantifiers, two_valued-Implications,
}
use aris.Normalize.Forms.{normalize_demorgans_lem}
use aris.Normalize.QuantifierForms.{
  is_negated_quantifier, is_square_corner, is_distributable, negate_quantifiers_lem,
  aristotelean_square_lem, quantifier_distribution_lem,
}

abbrev pair : Op → Expr → Expr → Expr
pair op a b = assoc op (cons a (cons b nil))

-- ¬ (a ∧ ¬ (b ∨ c))
abbrev negations : Expr
negations = not (pair Op.and (var "a") (not (pair Op.or (var "b") (var "c"))))

-- One pass gives ¬a ∨ ¬(¬b ∧ ¬c), the next ¬a ∨ (¬¬b ∨ ¬¬c), and the last flattens it.
demorgans_run :
    normalize_demorgans 3 9 negations
    ≡ some (
        assoc Op.or
          (cons (not (var "a")) (cons (not (not (var "b"))) (cons (not (not (var "c"))) nil))))
unfolding normalize_demorgans demorgans_step transform transform_expr_inner append_exprs op_eq
demorgans_run = refl

-- a ↔ (b ↔ c)
abbrev bicons : Expr
bicons = pair Op.bicon (var "a") (pair Op.bicon (var "b") (var "c"))

bicons_run :
    combine_associative_ops 3 9 "bicon" bicons
    ≡ some (assoc Op.bicon (cons (var "a") (cons (var "b") (cons (var "c") nil))))
unfolding combine_associative_ops combine_step transform transform_expr_inner append_exprs
bicons_run = refl

-- ¬ ∀x. ∃y. x ∧ y
abbrev prefixed : Expr
prefixed =
    not (quant QuantKind.forall "x" (quant QuantKind.exists "y" (pair Op.and (var "x") (var "y"))))

-- ∀x. (x ∧ y)
abbrev conjunction : Expr
conjunction = quant QuantKind.forall "x" (pair Op.and (var "x") (var "y"))

normalize_demorgans_example :
    (e' : Expr) × (normalize_demorgans
        (weight by_square by_one negations)
        (weight by_square by_one negations)
        negations
      ≡ some e')
    × Same two_valued e' negations
normalize_demorgans_example = normalize_demorgans_lem two_valued negations two_valued-DeMorgan

negate_quantifiers_example :
    (e' : Expr) × (negate_quantifiers
        (weight by_square by_one prefixed)
        (weight by_square by_one prefixed)
        prefixed
      ≡ some e')
    × Same two_valued e' prefixed
    × Everywhere (λ e. is_negated_quantifier e ≡ false) e'
negate_quantifiers_example =
    negate_quantifiers_lem two_valued prefixed two_valued-QuantifierNegations

aristotelean_square_example :
    (e' : Expr) × (aristotelean_square
        (weight by_square by_one (not conjunction))
        (weight by_square by_one (not conjunction))
        (not conjunction)
      ≡ some e')
    × Same two_valued e' (not conjunction)
    × Everywhere (λ e. is_square_corner e ≡ false) e'
aristotelean_square_example =
    aristotelean_square_lem two_valued (not conjunction) two_valued-Quantifiers
      two_valued-Implications

quantifier_distribution_example :
    (e' : Expr) × (quantifier_distribution
        (weight by_one by_square conjunction)
        (weight by_one by_square conjunction)
        conjunction
      ≡ some e')
    × Same two_valued e' conjunction
    × Everywhere (λ e. is_distributable e ≡ false) e'
quantifier_distribution_example =
    quantifier_distribution_lem two_valued conjunction two_valued-QuantifierDistribution

-- a ∧ b ∧ c
abbrev three : Expr
three = assoc Op.and (cons (var "a") (cons (var "b") (cons (var "c") nil)))

-- The first form nests to the right, the second to the left.
to_binary_run :
    normalize_assoc_to_binary three ≡ pair Op.and (var "a") (pair Op.and (var "b") (var "c"))
unfolding normalize_assoc_to_binary
to_binary_run = refl

to_binary_left_run :
    normalize_assoc_to_binary_left three ≡ pair Op.and (pair Op.and (var "a") (var "b")) (var "c")
unfolding normalize_assoc_to_binary_left fold_binary
to_binary_left_run = refl

normalize_assoc_to_binary_example :
    Same two_valued (normalize_assoc_to_binary three) three
    × Same two_valued (normalize_assoc_to_binary_left three) three
    × Narrow (normalize_assoc_to_binary three)
    × Narrow (normalize_assoc_to_binary_left three)
normalize_assoc_to_binary_example =
    normalize_assoc_to_binary_lem two_valued three
      (two_valued-DeMorgan.and_associative, (tt, (tt, (tt, tt))))

abbrev only_a : String → Bool
only_a name = name == "a"

normalize_assoc_to_binary-equivalence_example :
    (denote two_valued only_a (three_equivalent "a" "b" "c") ≡ false)
    × (denote two_valued only_a (normalize_assoc_to_binary (three_equivalent "a" "b" "c")) ≡ true)
    × (denote two_valued only_a (normalize_assoc_to_binary_left (three_equivalent "a" "b" "c"))
        ≡ true)
normalize_assoc_to_binary-equivalence_example =
    normalize_assoc_to_binary-equivalence "a" "b" "c" only_a refl refl refl

abbrev all_false : String → Bool
all_false name = false

normalize_prenex_laws-swaps_example :
    (normalize_prenex_laws 0 4 (some_all "x" "y") ≡ some (all_some "x" "y"))
    × (denote two_valued all_false (some_all "x" "y") ≡ false)
    × (denote two_valued all_false (all_some "x" "y") ≡ true)
normalize_prenex_laws-swaps_example =
    normalize_prenex_laws-swaps "x" "y" all_false (==_ne "x" "y" refl)

-- ¬(a ∨ b) has the possibilities ¬a and ¬b.
halfdemorgans_run :
    normalize_halfdemorgans (not (pair Op.or (var "a") (var "b")))
    ≡ not (var "a") ∷ not (var "b") ∷ []
unfolding normalize_halfdemorgans combine_possibilities
halfdemorgans_run = refl

-- ∀x. x → y becomes ∀1. 1 → y.
bound_vars_run :
    replacing_bound_vars 9 (quant QuantKind.forall "x" (impl (var "x") (var "y")))
    ≡ some (quant QuantKind.forall "1" (impl (var "1") (var "y")))
unfolding replacing_bound_vars restore number_vars free_vars remove extend insert subst to_decimal
    gen_var
bound_vars_run = refl
