-- ===== src/Rules/Conditional/Sound.antt =====
-- What the checks of `ConditionalInference` in aris/src/rules.rs but for the dilemmas accept, by
-- truth values.
use aris.Base.{Bool, true, false, List, ◌≡◌, refl, ap, ◌∙◌, sym, ◌==◌, ==_path, arith, String}
use aris.Expr.{Expr, not, impl}
use aris.Expr.Equal.{expr_eq}
use aris.Expr.Build.{impl_place_holder}
use aris.Pool.{PjRef, PooledProof}
use aris.Pool.Scope.{does_not_occur, dep_does_not_exist}
use aris.Rules.Order.{Permutations, Checked, AnyOrderResult, either_order}
use aris.Rules.Check.{premise}
use aris.Rules.Models.{Respects}
use aris.Rules.Premises.{AllHold, premise-ok, premises-ok}
use aris.Rules.Values.{negation-value, same-value, conj_has-value, disj_has-value}
use aris.Rules.Propositional.Sound.{Sound, refused-ok, either_order-true}
use aris.Rules.Boolean.Sound.{both_orders-true}
use aris.Rules.Conditional.{
  is_modus_tollens_case, expect, syllogism_order, is_strengthened, is_weakened, is_introduced,
  is_eliminated, or_other, modus_tollens, strengthen_antecedent, weaken_consequent,
  con_intro_negation, con_elim_negation, hypothetical_syllogism,
}

pub expect-ok :
    (a b : Expr) (next : AnyOrderResult)
    → expect a b next ≡ AnyOrderResult.ok
    → (a ≡ b) × (next ≡ AnyOrderResult.ok)
unfolding expect
expect-ok a b next h =
    let (t, h') = refused-ok (a == b) next (does_not_occur a b) h in (==_path a b t, h')

module _ (v : Expr → Bool) (r : Respects v) where
  is_modus_tollens_case-true :
      (i n c : Expr) → v i ≡ true → v n ≡ true → is_modus_tollens_case i n c ≡ true → v c ≡ true
  unfolding is_modus_tollens_case
  is_modus_tollens_case-true (impl a b) n c s t h =
      let e = sym (r.at_impl a b) ∙ s in
      ground (
        arith,
        negation-value v r n b,
        negation-value v r b n,
        negation-value v r c a,
        negation-value v r a c,
      )
  is_modus_tollens_case-true _ n c s t h = absurd cc

  is_strengthened-true : (d c : Expr) → v d ≡ true → is_strengthened d c ≡ true → v c ≡ true
  unfolding is_strengthened
  is_strengthened-true (impl a b) (impl a' b') s h =
      r.at_impl a' b'
      ∙ let e = sym (r.at_impl a b) ∙ s in
        ground (arith, same-value v r b b', conj_has-value v r a' a, disj_has-value v r a a')
  is_strengthened-true _ _ s h = absurd cc

  is_weakened-true : (d c : Expr) → v d ≡ true → is_weakened d c ≡ true → v c ≡ true
  unfolding is_weakened
  is_weakened-true (impl a b) (impl a' b') s h =
      r.at_impl a' b'
      ∙ let e = sym (r.at_impl a b) ∙ s in
        ground (arith, same-value v r a a', conj_has-value v r b b', disj_has-value v r b' b)
  is_weakened-true _ _ s h = absurd cc

  is_introduced-true : (d c : Expr) → v d ≡ true → is_introduced d c ≡ true → v c ≡ true
  unfolding is_introduced
  is_introduced-true d (impl a b) s h =
      r.at_impl a b ∙ ground (arith, negation-value v r d a, same-value v r d b)
  is_introduced-true d _ s h = absurd cc

  is_eliminated-true : (d c : Expr) → v d ≡ true → is_eliminated d c ≡ true → v c ≡ true
  unfolding is_eliminated
  is_eliminated-true (not (impl a b)) c s h =
      let e = sym (r.at_not (impl a b)) ∙ s in
      let e' = r.at_impl a b in
      let e'' = r.at_not b in ground (arith, same-value v r c a, same-value v r c (not b))
  is_eliminated-true _ c s h = absurd cc

  syllogism_order-true :
      (c a b : Expr)
      → v a ≡ true
      → v b ≡ true
      → syllogism_order c a b ≡ AnyOrderResult.ok
      → v c ≡ true
  unfolding syllogism_order
  syllogism_order-true (impl p_1 r_1) (impl p_0 q_0) (impl q_1 r_0) s t h =
      let (x, h') = expect-ok p_0 p_1 (expect q_0 q_1 (expect r_0 r_1 AnyOrderResult.ok)) h in
      let (y, h'') = expect-ok q_0 q_1 (expect r_0 r_1 AnyOrderResult.ok) h' in
      let (z, _) = expect-ok r_0 r_1 AnyOrderResult.ok h'' in
      r.at_impl p_1 r_1
      ∙ let e = sym (r.at_impl p_0 q_0) ∙ s in
        let e' = sym (r.at_impl q_1 r_0) ∙ t in
        let x' = ap v x in let y' = ap v y in let z' = ap v z in ground arith
  syllogism_order-true _ _ _ s t h = absurd cc

or_other-ok : (b : Bool) (message : String) → or_other b message ≡ Checked.ok → b ≡ true
unfolding or_other
or_other-ok true message h = refl
or_other-ok false message h = absurd cc

module _ {R : Type 0} (p : PooledProof Expr R) (v : Expr → Bool) (r : Respects v)
    (deps : List PjRef) (w : AllHold p v deps) where
  pub modus_tollens-Sound : Sound v (modus_tollens p deps)
  unfolding modus_tollens
  modus_tollens-Sound c =
      both_orders-true p v r deps w (λ a b. is_modus_tollens_case a b c) c
        (λ a b. is_modus_tollens_case-true v r a b c)

  one_test-true :
      (test : Expr → Bool) (message : String) (c : Expr)
      → ((e : Expr) → v e ≡ true → test e ≡ true → v c ≡ true)
      → premise p deps 0 (λ e. or_other (test e) message) ≡ Checked.ok
      → v c ≡ true
  one_test-true test message c k h =
      let (e, t, h') = premise-ok p (λ e. v e ≡ true) deps 0 (λ e. or_other (test e) message) w h in
      k e t (or_other-ok (test e) message h')

  pub strengthen_antecedent-Sound : Sound v (strengthen_antecedent p deps)
  unfolding strengthen_antecedent
  strengthen_antecedent-Sound c =
      one_test-true (λ e. is_strengthened e c)
        "Conclusion does not follow from the Strengthening the Antecedent rule." c
        (λ e. is_strengthened-true v r e c)

  pub weaken_consequent-Sound : Sound v (weaken_consequent p deps)
  unfolding weaken_consequent
  weaken_consequent-Sound c =
      one_test-true (λ e. is_weakened e c)
        "Conclusion does not follow from the Weaken the Consequent rule." c
        (λ e. is_weakened-true v r e c)

  pub con_intro_negation-Sound : Sound v (con_intro_negation p deps)
  unfolding con_intro_negation
  con_intro_negation-Sound c =
      one_test-true (λ e. is_introduced e c)
        "Conclusion does not follow from the Conditional Introduction Negation rule." c
        (λ e. is_introduced-true v r e c)

  pub con_elim_negation-Sound : Sound v (con_elim_negation p deps)
  unfolding con_elim_negation
  con_elim_negation-Sound c =
      one_test-true (λ e. is_eliminated e c)
        "Conclusion does not follow from the Conditional Elimination Negation rule." c
        (λ e. is_eliminated-true v r e c)

  pub hypothetical_syllogism-Sound :
      (itertools : Permutations) → Sound v (hypothetical_syllogism p deps itertools)
  unfolding hypothetical_syllogism
  hypothetical_syllogism-Sound itertools c h =
      let x = dep_does_not_exist impl_place_holder true in
      let (a, b, s, t, h') =
        premises-ok p (λ e. v e ≡ true) deps
          (λ a b. either_order itertools a b (syllogism_order c) x) w h in
      either_order-true itertools a b (syllogism_order c) x (v c)
        (syllogism_order-true v r c a b s t) (syllogism_order-true v r c b a t s) h'
