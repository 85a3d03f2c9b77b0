-- ===== src/Rules/Values.antt =====
-- What the tests in the checks of aris/src/rules.rs say of the truth of the expressions that they compare.
use aris.Base.{
  Bool, true, false, not as not_bool, ◌||◌, ◌&&◌, ◌≡◌, refl, ap, ◌∙◌, sym, inl, inr, ◌⊎◌, ◌==◌,
  ==_path, and-left, and-right,
}
use aris.Expr.{Expr, Op, not, assoc}
use aris.Expr.Equal.{expr_eq}
use aris.Rules.Check.{is_negation_of}
use aris.Rules.Models.{Respects, all_of-contain, any_of-contain}
use aris.Rules.Conditional.{conj_has, disj_has}

pub or-cases : (a b : Bool) → (a || b) ≡ true → (a ≡ true) ⊎ (b ≡ true)
or-cases true b h = inl refl
or-cases false b h = inr h

-- One arm with its guard, or the arms after it.
pub arm-cases : (a b c : Bool) → ((a && b) || c) ≡ true → ((a ≡ true) × (b ≡ true)) ⊎ (c ≡ true)
arm-cases true true c h = inl (refl, refl)
arm-cases true false c h = inr h
arm-cases false b c h = inr h

pub and-both : (a b : Bool) → (a && b) ≡ true → (a ≡ true) × (b ≡ true)
and-both a b h = (and-left a b h, and-right a b h)

module _ (v : Expr → Bool) (r : Respects v) where
  pub negation-value : (n e : Expr) → is_negation_of n e ≡ true → v n ≡ not_bool (v e)
  unfolding is_negation_of
  negation-value (not operand) e h =
      r.at_not operand ∙ ap (λ x. not_bool (v x)) (==_path operand e h)
  negation-value _ e h = absurd cc

  pub same-value : (a b : Expr) → (a == b) ≡ true → v a ≡ v b
  same-value a b h = ap v (==_path a b h)

  pub conj_has-value : (c e : Expr) → conj_has c e ≡ true → v c ≡ true → v e ≡ true
  unfolding conj_has
  conj_has-value (assoc Op.and exprs) e h t = all_of-contain v e exprs h (sym (r.at_and exprs) ∙ t)
  conj_has-value _ e h t = absurd cc

  pub disj_has-value : (d e : Expr) → disj_has d e ≡ true → v e ≡ true → v d ≡ true
  unfolding disj_has
  disj_has-value (assoc Op.or exprs) e h t = r.at_or exprs ∙ any_of-contain v e exprs h t
  disj_has-value _ e h t = absurd cc
