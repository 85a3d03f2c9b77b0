-- ===== src/Rules/Boolean/Sound.antt =====
-- What the checks of `BooleanInference` in aris/src/rules.rs accept, by truth values, but for the
-- half of De Morgan's law.
use aris.Base.{Bool, true, false, ◌||◌, List, ◌≡◌, refl, ◌∙◌, sym, inl, inr, ◌==◌, arith}
use aris.Expr.{Expr, Op, not, assoc, nil, cons}
use aris.Expr.Equal.{expr_eq}
use aris.Pool.{PjRef, PooledProof}
use aris.Pool.Scope.{does_not_occur}
use aris.Rules.Order.{Checked}
use aris.Rules.Check.{premise}
use aris.Rules.Models.{Respects}
use aris.Rules.Premises.{AllHold, premises-ok}
use aris.Rules.Values.{or-cases, negation-value, same-value}
use aris.Rules.Propositional.Sound.{Sound, passed-ok}
use aris.Rules.Boolean.{
  is_disjunctive_case, is_exclusion_case, follows, excluded_middle, disjunctive_syllogism,
  exclusion,
}

pub follows-ok : (b : Bool) → follows b ≡ Checked.ok → b ≡ true
unfolding follows
follows-ok true h = refl
follows-ok false h = absurd cc

module _ (v : Expr → Bool) (r : Respects v) where
  is_disjunctive_case-true :
      (d n c : Expr) → v d ≡ true → v n ≡ true → is_disjunctive_case d n c ≡ true → v c ≡ true
  unfolding is_disjunctive_case
  is_disjunctive_case-true (assoc Op.or (cons p (cons q nil))) n c s t h =
      let e = sym (r.at_or (cons p (cons q nil))) ∙ s in
      ground (
        arith,
        negation-value v r n p,
        negation-value v r n q,
        negation-value v r p n,
        negation-value v r q n,
        same-value v r q c,
        same-value v r p c,
      )
  is_disjunctive_case-true _ n c s t h = absurd cc

  is_exclusion_case-true :
      (d n c : Expr) → v d ≡ true → v n ≡ true → is_exclusion_case d n c ≡ true → v c ≡ true
  unfolding is_exclusion_case
  is_exclusion_case-true (not (assoc Op.and (cons p (cons q nil)))) n c s t h =
      let e = sym (r.at_not (assoc Op.and (cons p (cons q nil)))) ∙ s in
      let e' = r.at_and (cons p (cons q nil)) in
      ground (
        arith,
        negation-value v r c p,
        negation-value v r c q,
        negation-value v r p c,
        negation-value v r q c,
        same-value v r q n,
        same-value v r p n,
      )
  is_exclusion_case-true _ n c s t h = absurd cc

  pub excluded_middle-Sound : Sound v excluded_middle
  unfolding excluded_middle
  excluded_middle-Sound (assoc Op.or (cons a (cons not_a nil))) h =
      let (e, _) = passed-ok (not_a == not a) Checked.ok (does_not_occur not_a (not a)) h in
      r.at_or (cons a (cons not_a nil))
      ∙ let q = same-value v r not_a (not a) e in let q' = r.at_not a in ground arith
  excluded_middle-Sound _ h = absurd cc

module _ {R : Type 0} (p : PooledProof Expr R) (v : Expr → Bool) (r : Respects v)
    (deps : List PjRef) (w : AllHold p v deps) where
  -- A test of two dependencies that is tried in both orders.
  pub both_orders-true :
      (test : Expr → Expr → Bool) (c : Expr)
      → ((a b : Expr) → v a ≡ true → v b ≡ true → test a b ≡ true → v c ≡ true)
      → premise p deps 0 (λ a. premise p deps 1 (λ b. follows (test a b || test b a))) ≡ Checked.ok
      → v c ≡ true
  both_orders-true test c k h =
      let (a, b, s, t, h') =
        premises-ok p (λ e. v e ≡ true) deps (λ a b. follows (test a b || test b a)) w h in
      elim (or-cases (test a b) (test b a) (follows-ok (test a b || test b a) h')) [
        | inl x ↦ k a b s t x
        | inr x ↦ k b a t s x
      ]

  pub disjunctive_syllogism-Sound : Sound v (disjunctive_syllogism p deps)
  unfolding disjunctive_syllogism
  disjunctive_syllogism-Sound c =
      both_orders-true (λ a b. is_disjunctive_case a b c) c
        (λ a b. is_disjunctive_case-true v r a b c)

  pub exclusion-Sound : Sound v (exclusion p deps)
  unfolding exclusion
  exclusion-Sound c =
      both_orders-true (λ a b. is_exclusion_case a b c) c (λ a b. is_exclusion_case-true v r a b c)
