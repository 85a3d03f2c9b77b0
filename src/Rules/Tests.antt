-- ===== src/Rules/Tests.antt =====
-- The checks of aris/src/rules.rs on a small proof, with orders and components that compute.
use aris.Base.{
  by_position, ℕ, Bool, true, false, ◌&&◌, Option, some, List, [], ◌∷◌, any, ◌≡◌, ◌≢◌, ◌↔◌, refl,
  if◌then◌else◌, ◌==◌, nat_eq, string_eq, Bool-cases, inl, inr, ==_path, some-inj, and-left,
  and-right, sym, ◌∙◌,
}
use aris.Expr.{Expr, Op, var, impl, assoc, not, nil, cons}
use aris.ZipperVec.{zipper}
use aris.Pool.{PjRef, PooledProof, lookup, lookup_premise}
use aris.Pool.Scope.{other}
use aris.Pool.Lines.{lookup_expr}
use aris.Rules.{
  PropositionalInference, BooleanInference, ConditionalInference, BiconditionalInference, Reduction,
  Rule,
}
use aris.Rules.Names.{to_serialized_name, from_serialized_name}
use aris.Rules.RoundTrip.{serialized_names_lem}
use aris.Rules.Order.{
  AnyOrderResult, Checked, any_order, any_ok, any_after, on_two, conclude, report, remaining_errors,
}
use aris.Rules.Orders.{any_order-err}
use aris.Rules.Models.{truth, truth-Respects}
use aris.Rules.Propositional.Biconditional.{three, biconditional_elim-repeats}
use aris.Rules.Propositional.{biconditional_elim}
use aris.Rules.Propositional.Graph.{Petgraph, components, Reach, here, next, has, EachOf, Connected}
use aris.Rules.Boolean.{half_de_morgan}
use aris.Rules.Boolean.HalfDeMorgan.{neither, half_de_morgan-accepts}
use aris.Rules.Groups.{check_propositional, check_boolean, check_conditional, check_biconditional}
use aris.Rules.Soundness.{
  check_propositional-Sound, check_boolean-Sound, check_conditional-Sound,
  check_biconditional-Sound,
}
use aris.Expr.Denote.{denote}
use aris.Expr.Equal.{expr_beq}
use aris.Pool.Lines.{lookup_expr_or_die, ok_or_else}
use aris.Rules.Biconditional.{bicon_elim, bicon_inference_elim_order, of_two}
use aris.Rules.Boolean.{disjunctive_syllogism, is_disjunctive_case, follows}
use aris.Rules.Check.{
  shared_checks, premise, is_negation_of, exprs_len, count_deps, count_sdeps, exprs_contain,
}
use aris.Rules.Conditional.{is_modus_tollens_case, expect, modus_tollens}
use aris.Rules.Counts.{
  boolean_inference_num_subdeps, conditional_inference_num_deps, biconditional_inference_num_deps,
  propositional_inference_num_subdeps, boolean_inference_num_deps,
  biconditional_inference_num_subdeps, conditional_inference_num_subdeps,
  propositional_inference_num_deps,
}
use aris.Rules.Groups.{
  boolean_rule, biconditional_check, assert_no_sdeps, boolean_check, propositional_check,
  conditional_check, biconditional_rule, conditional_rule,
}
use aris.Rules.Order.{either_order}
use aris.Rules.Propositional.Graph.{
  or_insert, entry, add_edge, find, named_by, all_premise_edges, component, premise_edges,
}
use aris.Rules.Propositional.Graph.Check.{
  by_graph, from_graph, all_subproof_edges, biconditional_intro, all_contained, mutually_implied,
}
use aris.Rules.Propositional.Graph.Introductions.{TwoOperands}
use aris.Rules.Propositional.Subproofs.{collect}

-- The pairs of nodes with an edge each way.
abbrev edge : ℕ → ℕ → List (ℕ × ℕ) → Bool
edge a b g = any (λ e. e.0 == a && e.1 == b) g

abbrev mutual_pairs : List (ℕ × ℕ) → List (ℕ × ℕ) → List (List ℕ)
mutual_pairs g [] = []
mutual_pairs g (e ∷ es) =
    let rest = mutual_pairs g es in
    if edge e.0 e.1 g && edge e.1 e.0 g then (e.0 ∷ e.1 ∷ []) ∷ rest else rest

edge-Reach : (g : List (ℕ × ℕ)) (a b : ℕ) → edge a b g ≡ true → Reach g a b
edge-Reach g a b h = next h here

pair-Connected :
    (g : List (ℕ × ℕ)) (a b : ℕ) → edge a b g ≡ true → edge b a g ≡ true → Connected g (a ∷ b ∷ [])
pair-Connected g a b h h' x y s t = elim (Bool-cases (a == x)) [
  | inl ax ↦ elim (Bool-cases (a == y)) [
    | inl ay ↦ rw (← ==_path a x ax, ← ==_path a y ay) here
    | inr ay ↦ rw (← ==_path a x ax, ← second y ay t) (edge-Reach g a b h)
  ]
  | inr ax ↦ elim (Bool-cases (a == y)) [
    | inl ay ↦ rw (← second x ax s, ← ==_path a y ay) (edge-Reach g b a h')
    | inr ay ↦ rw (← second x ax s, ← second y ay t) here
  ]
]
  where
    second : (n : ℕ) → (a == n) ≡ false → has n (a ∷ b ∷ []) ≡ true → b ≡ n
    second n q u = elim (Bool-cases (b == n)) [
      | inl bn ↦ ==_path b n bn
      | inr bn ↦ absurd (differ (rw (q, bn) at u))
    ]
      where
        differ : false ≢ true
        differ e = cc

pub mutual_pairs-Connected : (g es : List (ℕ × ℕ)) → EachOf (Connected g) (mutual_pairs g es)
mutual_pairs-Connected g [] = tt
mutual_pairs-Connected g (e ∷ es) = elim (Bool-cases (edge e.0 e.1 g && edge e.1 e.0 g)) [
  | inl t ↦
      rw t
        (pair-Connected g e.0 e.1 (and-left _ _ t) (and-right _ _ t), mutual_pairs-Connected g es)
  | inr f ↦ rw f (mutual_pairs-Connected g es)
]

abbrev pub petgraph : Petgraph
petgraph = record {
  tarjan_scc = λ g. mutual_pairs g g;
  connected = λ g. mutual_pairs-Connected g g;
}

abbrev a_or_b : Expr
a_or_b = assoc Op.or (cons (var "A") (cons (var "B") nil))

abbrev a_iff_b : Expr
a_iff_b = assoc Op.bicon (cons (var "A") (cons (var "B") nil))

-- A proof with premises only.
abbrev premises : PooledProof Expr ℕ
premises = record {
  pools = record {
    prem_map =
        (0, impl (var "A") (var "B"))
        ∷ (1, impl (var "B") (var "A"))
        ∷ (2, a_or_b)
        ∷ (3, not (var "A"))
        ∷ (4, three "A" "B" "C")
        ∷ (5, three "A" "A" "B")
        ∷ (6, neither "A" "B")
        ∷ (7, not (var "B"))
        ∷ (8, a_iff_b)
        ∷ [];
    just_map = [];
    sub_map = [];
    containing_subproof = [];
  };
  proof = record { premise_list = zipper [] []; line_list = zipper [] [] };
}

-- What is found at a line has each property of what stands there.
found_there :
    (P : Expr → Type 0) (r : PjRef) (e : Expr)
    → lookup_expr premises r ≡ some e
    → P e
    → (x : Expr) → lookup_expr premises r ≡ some x
    → P x
found_there P r e h w x h' = rw (← some-inj (sym h ∙ h')) w

is_impl-TwoOperands : (l r : Expr) → TwoOperands (impl l r)
is_impl-TwoOperands l r exprs h = absurd cc

check_propositional-Sound_example : truth (λ n. false) a_iff_b ≡ true
unfolding lookup_expr lookup_premise lookup denote check_propositional shared_checks count_deps
    count_sdeps propositional_check biconditional_intro exprs_len propositional_inference_num_deps
    propositional_inference_num_subdeps by_graph collect all_premise_edges all_subproof_edges
    from_graph premise_edges add_edge entry find or_insert expr_beq lookup_expr_or_die ok_or_else
    mutually_implied components component named_by all_contained exprs_contain
check_propositional-Sound_example =
    check_propositional-Sound by_position premises petgraph
      PropositionalInference.biconditional_intro (truth (λ n. false))
      (PjRef.prem 0 ∷ PjRef.prem 1 ∷ []) [] (truth-Respects (λ n. false))
      (
        found_there _ (PjRef.prem 0) (impl (var "A") (var "B")) refl refl,
        (found_there _ (PjRef.prem 1) (impl (var "B") (var "A")) refl refl, tt),
      )
      tt
      (
        found_there _ (PjRef.prem 0) _ refl (is_impl-TwoOperands (var "A") (var "B")),
        (found_there _ (PjRef.prem 1) _ refl (is_impl-TwoOperands (var "B") (var "A")), tt),
      )
      a_iff_b refl

check_boolean-Sound_example : truth (λ n. n == "B") (var "B") ≡ true
unfolding lookup_expr lookup_premise lookup denote check_boolean shared_checks count_deps
    count_sdeps boolean_check boolean_rule boolean_inference_num_deps boolean_inference_num_subdeps
    assert_no_sdeps disjunctive_syllogism premise follows is_disjunctive_case is_negation_of
    expr_beq lookup_expr_or_die ok_or_else
check_boolean-Sound_example =
    check_boolean-Sound by_position premises BooleanInference.disjunctive_syllogism
      (truth (λ n. n == "B")) (PjRef.prem 2 ∷ PjRef.prem 3 ∷ []) [] (truth-Respects (λ n. n == "B"))
      (
        found_there _ (PjRef.prem 2) a_or_b refl refl,
        (found_there _ (PjRef.prem 3) (not (var "A")) refl refl, tt),
      )
      distinct (var "B") refl
  where
    distinct : BooleanInference.disjunctive_syllogism ≢ BooleanInference.half_de_morgan
    distinct h = cc

check_conditional-Sound_example : truth (λ n. false) (not (var "A")) ≡ true
unfolding lookup_expr lookup_premise lookup denote check_conditional shared_checks count_deps
    count_sdeps conditional_check conditional_rule conditional_inference_num_deps
    conditional_inference_num_subdeps assert_no_sdeps modus_tollens premise follows
    is_modus_tollens_case is_negation_of expr_beq lookup_expr_or_die ok_or_else expect
check_conditional-Sound_example =
    check_conditional-Sound by_position premises ConditionalInference.modus_tollens
      (truth (λ n. false)) (PjRef.prem 0 ∷ PjRef.prem 7 ∷ []) [] (truth-Respects (λ n. false))
      (
        found_there _ (PjRef.prem 0) (impl (var "A") (var "B")) refl refl,
        (found_there _ (PjRef.prem 7) (not (var "B")) refl refl, tt),
      )
      (not (var "A")) refl

check_biconditional-Sound_example : truth (λ n. false) (not (var "B")) ≡ true
unfolding lookup_expr lookup_premise lookup denote check_biconditional shared_checks count_deps
    count_sdeps biconditional_check biconditional_rule biconditional_inference_num_deps
    biconditional_inference_num_subdeps assert_no_sdeps bicon_elim premise follows is_negation_of
    expr_beq lookup_expr_or_die ok_or_else expect either_order any_order any_ok any_after on_two
    conclude of_two bicon_inference_elim_order
check_biconditional-Sound_example =
    check_biconditional-Sound by_position premises BiconditionalInference.bicon_elim
      (truth (λ n. false)) (PjRef.prem 8 ∷ PjRef.prem 3 ∷ []) [] (truth-Respects (λ n. false))
      (
        found_there _ (PjRef.prem 8) a_iff_b refl refl,
        (found_there _ (PjRef.prem 3) (not (var "A")) refl refl, tt),
      )
      (not (var "B")) refl

biconditional_elim-repeats_example :
    (biconditional_elim by_position premises (PjRef.prem 4 ∷ PjRef.prem 5 ∷ []) (var "C")
      ≡ Checked.ok)
    × (truth (λ n. n == "B") (three "A" "B" "C") ≡ true)
    × (truth (λ n. n == "B") (three "A" "A" "B") ≡ true)
    × (truth (λ n. n == "B") (var "C") ≡ false)
unfolding lookup_expr lookup_premise lookup
biconditional_elim-repeats_example =
    biconditional_elim-repeats by_position premises (PjRef.prem 4) (PjRef.prem 5) "A" "B" "C" refl
      refl refl refl refl

half_de_morgan-accepts_example :
    (half_de_morgan premises (PjRef.prem 6 ∷ []) (neither "A" "C") ≡ Checked.ok)
    × (truth (λ n. n == "C") (neither "A" "B") ≡ true)
    × (truth (λ n. n == "C") (neither "A" "C") ≡ false)
unfolding lookup_expr lookup_premise lookup
half_de_morgan-accepts_example =
    half_de_morgan-accepts premises (PjRef.prem 6) "A" "B" "C" refl refl refl

-- A check that gives an error for either order; the error reported is the other one.
abbrev complain : List Expr → Option AnyOrderResult
complain deps = some (AnyOrderResult.err (other "complaint"))

any_order-err_example : other "fallthrough" ≡ other "fallthrough"
unfolding any_order any_ok any_after conclude remaining_errors report
any_order-err_example =
    any_order-err by_position (var "A" ∷ var "B" ∷ []) complain (other "fallthrough")
      (other "fallthrough") refl

serialized_names_example :
    (from_serialized_name "CONJUNCTION" ≡ some (Rule.reduction Reduction.conjunction)) ↔ (
      (to_serialized_name (Rule.reduction Reduction.conjunction) ≡ "CONJUNCTION")
      × (Rule.reduction Reduction.conjunction ≢ Rule.reduction Reduction.conjunction))
serialized_names_example = serialized_names_lem "CONJUNCTION" (Rule.reduction Reduction.conjunction)
