-- ===== src/Rules/Soundness.antt =====
-- The four groups of rules of aris/src/rules.rs behind the shared checks: what a rule accepts, by
-- truth values, and the restrictions on the rules.
use aris.Base.{
  ℕ, Bool, true, false, Option, none, some, List, [], ◌∷◌, length, ◌≡◌, ◌≢◌, refl, if◌then◌else◌,
  ◌==◌, nat_eq, ==_path, arith,
}
use aris.Expr.{Expr}
use aris.Pool.{PjRef, PooledProof}
use aris.Pool.Scope.{incorrect_dep_count, incorrect_sub_dep_count}
use aris.Rules.{
  PropositionalInference, BooleanInference, ConditionalInference, BiconditionalInference,
}
use aris.Rules.Order.{Permutations, Checked}
use aris.Rules.Check.{count_deps, count_sdeps, shared_checks}
use aris.Rules.Counts.{
  propositional_inference_num_deps, propositional_inference_num_subdeps,
  conditional_inference_num_deps,
}
use aris.Rules.Groups.{
  assert_no_sdeps, propositional_check, boolean_rule, boolean_check, conditional_rule,
  conditional_check, biconditional_rule, biconditional_check, check_propositional, check_boolean,
  check_conditional, check_biconditional,
}
use aris.Rules.Models.{Respects}
use aris.Rules.Premises.{Satisfy, AllHold, AllDerive}
use aris.Rules.Propositional.Sound.{
  passed-ok, and_intro-Sound, and_elim-Sound, or_intro-Sound, not_elim-Sound,
  contradiction_elim-Sound,
}
use aris.Rules.Propositional.Eliminations.{
  imp_elim-Sound, contradiction_intro-Sound, equivalence_elim-Sound,
}
use aris.Rules.Propositional.Discharge.{or_elim-Sound, imp_intro-Sound, not_intro-Sound}
use aris.Rules.Propositional.Biconditional.{NoRepeat, biconditional_elim-Sound}
use aris.Rules.Propositional.Graph.{Petgraph}
use aris.Rules.Propositional.Graph.Introductions.{
  TwoOperands, equivalence_intro-Sound, biconditional_intro-Sound,
}
use aris.Rules.Boolean.Sound.{disjunctive_syllogism-Sound, exclusion-Sound, excluded_middle-Sound}
use aris.Rules.Conditional.Sound.{
  modus_tollens-Sound, hypothetical_syllogism-Sound, strengthen_antecedent-Sound,
  weaken_consequent-Sound, con_intro_negation-Sound, con_elim_negation-Sound,
}
use aris.Rules.Conditional.Dilemmas.{constructive_dilemma-Sound, destructive_dilemma-Sound}
use aris.Rules.Biconditional.Sound.{
  bicon_intro-Sound, bicon_intro_negation-Sound, bicon_elim-Sound, bicon_elim_negation-Sound,
}

-- A rule that asks for a number of dependencies was given it.
abbrev pub Counted : Option ℕ → List PjRef → Type 0
Counted none deps = Unit
Counted (some n) deps = length deps ≡ n

count_sdeps-ok :
    (m : Option ℕ) (sdeps : List ℕ) (next : Checked)
    → count_sdeps m sdeps next ≡ Checked.ok
    → next ≡ Checked.ok
unfolding count_sdeps
count_sdeps-ok none sdeps next h = h
count_sdeps-ok (some m) sdeps next h =
    (passed-ok (length sdeps == m) next (incorrect_sub_dep_count sdeps m) h).1

pub shared_checks-ok :
    (n m : Option ℕ) (deps : List PjRef) (sdeps : List ℕ) (next : Checked)
    → shared_checks n m deps sdeps next ≡ Checked.ok
    → Counted n deps × (next ≡ Checked.ok)
unfolding shared_checks count_deps
shared_checks-ok none m deps sdeps next h = (tt, count_sdeps-ok m sdeps next h)
shared_checks-ok (some n) m deps sdeps next h =
    let (t, h') =
      passed-ok (length deps == n) (count_sdeps m sdeps next) (incorrect_dep_count deps n) h in
    (==_path (length deps) n t, count_sdeps-ok m sdeps next h')

unless_panic :
    (b : Bool) (next : Checked)
    → (if b then next else Checked.panic) ≡ Checked.ok
    → next ≡ Checked.ok
unless_panic true next h = h
unless_panic false next h = absurd cc

pub assert_no_sdeps-ok :
    (sdeps : List ℕ) (next : Checked) → assert_no_sdeps sdeps next ≡ Checked.ok → next ≡ Checked.ok
unfolding assert_no_sdeps
assert_no_sdeps-ok sdeps next h = unless_panic (length sdeps == 0) next h

three_of : {A : Type 0} (xs : List A) → length xs ≡ 3 → (a b c : A) × (xs ≡ a ∷ b ∷ c ∷ [])
three_of [] h = absurd (omega arith)
three_of (a ∷ []) h = absurd (omega arith)
three_of (a ∷ b ∷ []) h = absurd (omega arith)
three_of (a ∷ b ∷ c ∷ []) h = (a, b, c, refl)
three_of (a ∷ b ∷ c ∷ d ∷ ds) h = absurd (omega arith)

-- What two rules need of their dependencies.
abbrev pub Restricted :
    {R : Type 0} → PooledProof Expr R → PropositionalInference → List PjRef → Type 0
Restricted p PropositionalInference.biconditional_intro deps = Satisfy p TwoOperands deps
Restricted p PropositionalInference.biconditional_elim deps = Satisfy p NoRepeat deps
Restricted p _ deps = Unit

-- The rules of the Boolean group but the half of De Morgan's law.
abbrev pub IsSound : BooleanInference → Type 0
IsSound rule = rule ≢ BooleanInference.half_de_morgan

module _ {R : Type 0} (itertools : Permutations) (p : PooledProof Expr R) where
  propositional_check-true :
      (petgraph : Petgraph) (v : Expr → Bool) (deps : List PjRef) (sdeps : List ℕ)
      → Respects v
      → AllHold p v deps
      → AllDerive p v sdeps
      → (c : Expr) (rule : PropositionalInference) → Restricted p rule deps
      → propositional_check itertools p petgraph rule c deps sdeps ≡ Checked.ok
      → v c ≡ true
  unfolding propositional_check
  propositional_check-true g v deps sdeps r w d c PropositionalInference.and_intro x =
      and_intro-Sound p v r deps w c
  propositional_check-true g v deps sdeps r w d c PropositionalInference.and_elim x =
      and_elim-Sound p v r deps w c
  propositional_check-true g v deps sdeps r w d c PropositionalInference.or_intro x =
      or_intro-Sound p v r deps w c
  propositional_check-true g v deps sdeps r w d c PropositionalInference.or_elim x =
      or_elim-Sound p v r deps sdeps w d c
  propositional_check-true g v deps sdeps r w d c PropositionalInference.imp_intro x =
      imp_intro-Sound p v r sdeps d c
  propositional_check-true g v deps sdeps r w d c PropositionalInference.imp_elim x =
      imp_elim-Sound itertools p v r deps w c
  propositional_check-true g v deps sdeps r w d c PropositionalInference.not_intro x =
      not_intro-Sound p v r sdeps d c
  propositional_check-true g v deps sdeps r w d c PropositionalInference.not_elim x =
      not_elim-Sound p v r deps w c
  propositional_check-true g v deps sdeps r w d c PropositionalInference.contradiction_intro x =
      contradiction_intro-Sound itertools p v r deps w c
  propositional_check-true g v deps sdeps r w d c PropositionalInference.contradiction_elim x =
      contradiction_elim-Sound p v r deps w c
  propositional_check-true g v deps sdeps r w d c PropositionalInference.biconditional_intro x =
      biconditional_intro-Sound g p v r deps sdeps w d x c
  propositional_check-true g v deps sdeps r w d c PropositionalInference.biconditional_elim x =
      biconditional_elim-Sound itertools p v deps r w x c
  propositional_check-true g v deps sdeps r w d c PropositionalInference.equivalence_intro x =
      equivalence_intro-Sound g p v r deps sdeps w d c
  propositional_check-true g v deps sdeps r w d c PropositionalInference.equivalence_elim x =
      equivalence_elim-Sound itertools p v r deps w c

  -- A conclusion that a propositional rule accepts is true under every assignment of truth values that
  -- respects the connectives and under which the dependencies are true and each subproof, which has
  -- one premise, derives its steps from it; provided that for `BiconditionalIntro` each biconditional
  -- among the dependencies has two operands, and for `BiconditionalElim` none repeats an operand.
  pub check_propositional-Sound :
      (petgraph : Petgraph) (rule : PropositionalInference) (v : Expr → Bool) (deps : List PjRef)
      (sdeps : List ℕ)
      → Respects v
      → AllHold p v deps
      → AllDerive p v sdeps
      → Restricted p rule deps
      → (c : Expr) → check_propositional itertools p petgraph rule c deps sdeps ≡ Checked.ok
      → v c ≡ true
  unfolding check_propositional
  check_propositional-Sound petgraph rule v deps sdeps r w d x c h =
      propositional_check-true petgraph v deps sdeps r w d c rule x
        (shared_checks-ok (propositional_inference_num_deps rule)
          (propositional_inference_num_subdeps rule) deps sdeps
          (propositional_check itertools p petgraph rule c deps sdeps) h).1

  boolean_rule-true :
      (v : Expr → Bool) (deps : List PjRef)
      → Respects v
      → AllHold p v deps
      → (c : Expr) (rule : BooleanInference) → IsSound rule
      → boolean_rule itertools p rule c deps ≡ Checked.ok
      → v c ≡ true
  unfolding boolean_rule
  boolean_rule-true v deps r w c BooleanInference.disjunctive_syllogism x h =
      disjunctive_syllogism-Sound p v r deps w c h
  boolean_rule-true v deps r w c BooleanInference.exclusion x h = exclusion-Sound p v r deps w c h
  boolean_rule-true v deps r w c BooleanInference.excluded_middle x h =
      excluded_middle-Sound v r c h
  boolean_rule-true v deps r w c BooleanInference.half_de_morgan x h = absurd (x refl)

  conditional_rule-true :
      (v : Expr → Bool) (deps : List PjRef)
      → Respects v
      → AllHold p v deps
      → (c : Expr) (rule : ConditionalInference)
      → Counted (conditional_inference_num_deps rule) deps
      → conditional_rule itertools p rule c deps ≡ Checked.ok
      → v c ≡ true
  unfolding conditional_rule conditional_inference_num_deps
  conditional_rule-true v deps r w c ConditionalInference.modus_tollens n h =
      modus_tollens-Sound p v r deps w c h
  conditional_rule-true v deps r w c ConditionalInference.hypothetical_syllogism n h =
      hypothetical_syllogism-Sound p v r deps w itertools c h
  conditional_rule-true v deps r w c ConditionalInference.constructive_dilemma n h =
      let (a, b, d, q) = three_of deps n in
      constructive_dilemma-Sound p v r itertools a b d (rw q at w) c (rw q at h)
  conditional_rule-true v deps r w c ConditionalInference.destructive_dilemma n h =
      let (a, b, d, q) = three_of deps n in
      destructive_dilemma-Sound p v r itertools a b d (rw q at w) c (rw q at h)
  conditional_rule-true v deps r w c ConditionalInference.strengthen_antecedent n h =
      strengthen_antecedent-Sound p v r deps w c h
  conditional_rule-true v deps r w c ConditionalInference.weaken_consequent n h =
      weaken_consequent-Sound p v r deps w c h
  conditional_rule-true v deps r w c ConditionalInference.con_intro_negation n h =
      con_intro_negation-Sound p v r deps w c h
  conditional_rule-true v deps r w c ConditionalInference.con_elim_negation n h =
      con_elim_negation-Sound p v r deps w c h

  biconditional_rule-true :
      (v : Expr → Bool) (deps : List PjRef)
      → Respects v
      → AllHold p v deps
      → (c : Expr) (rule : BiconditionalInference)
      → biconditional_rule itertools p rule c deps ≡ Checked.ok
      → v c ≡ true
  unfolding biconditional_rule
  biconditional_rule-true v deps r w c BiconditionalInference.bicon_intro =
      bicon_intro-Sound itertools p v r deps w c
  biconditional_rule-true v deps r w c BiconditionalInference.bicon_intro_negation =
      bicon_intro_negation-Sound itertools p v r deps w c
  biconditional_rule-true v deps r w c BiconditionalInference.bicon_elim =
      bicon_elim-Sound itertools p v r deps w c
  biconditional_rule-true v deps r w c BiconditionalInference.bicon_elim_negation =
      bicon_elim_negation-Sound itertools p v r deps w c

  -- A conclusion that a rule of the Boolean group other than `HalfDeMorgan` accepts is true under every
  -- assignment of truth values that respects the connectives and under which the dependencies are true.
  pub check_boolean-Sound :
      (rule : BooleanInference) (v : Expr → Bool) (deps : List PjRef) (sdeps : List ℕ)
      → Respects v
      → AllHold p v deps
      → IsSound rule
      → (c : Expr) → check_boolean itertools p rule c deps sdeps ≡ Checked.ok
      → v c ≡ true
  unfolding check_boolean boolean_check
  check_boolean-Sound rule v deps sdeps r w x c h =
      boolean_rule-true v deps r w c rule x
        (assert_no_sdeps-ok sdeps _ (shared_checks-ok _ _ deps sdeps _ h).1)

  -- A conclusion that a rule of the conditional group accepts is true under every assignment of truth
  -- values that respects the connectives and under which the dependencies are true.
  pub check_conditional-Sound :
      (rule : ConditionalInference) (v : Expr → Bool) (deps : List PjRef) (sdeps : List ℕ)
      → Respects v
      → AllHold p v deps
      → (c : Expr) → check_conditional itertools p rule c deps sdeps ≡ Checked.ok
      → v c ≡ true
  unfolding check_conditional conditional_check
  check_conditional-Sound rule v deps sdeps r w c h =
      let (n, h') = shared_checks-ok (conditional_inference_num_deps rule) _ deps sdeps _ h in
      conditional_rule-true v deps r w c rule n (assert_no_sdeps-ok sdeps _ h')

  -- A conclusion that a rule of the biconditional group accepts is true under every assignment of truth
  -- values that respects the connectives and under which the dependencies are true.
  pub check_biconditional-Sound :
      (rule : BiconditionalInference) (v : Expr → Bool) (deps : List PjRef) (sdeps : List ℕ)
      → Respects v
      → AllHold p v deps
      → (c : Expr) → check_biconditional itertools p rule c deps sdeps ≡ Checked.ok
      → v c ≡ true
  unfolding check_biconditional biconditional_check
  check_biconditional-Sound rule v deps sdeps r w c h =
      biconditional_rule-true v deps r w c rule
        (assert_no_sdeps-ok sdeps _ (shared_checks-ok _ _ deps sdeps _ h).1)
