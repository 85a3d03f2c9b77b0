-- ===== src/Rules/Models.antt =====
-- What the rules of aris/src/rules.rs are judged by: the assignments of truth values to expressions that
-- respect the connectives. Names, calls and quantified expressions may have any value.
use mathlib.Core.List.{foldl}
use aris.Base.{
  String, Bool, true, false, not as not_bool, ◌||◌, ◌&&◌, ◌≡◌, refl, ap, ap₂, all, any, Bool-cases,
  inl, inr, ◌==◌, string_eq, ==_path, and-left, and-right,
}
use aris.Expr.{Expr, Exprs, Op, contra, taut, not, impl, assoc, nil, cons}
use aris.Expr.Eval.{bool_eq}
use aris.Expr.Equal.{expr_eq}
use aris.Expr.Denote.{denote, denote_all}
use aris.Expr.TwoValued.{two_valued}
use aris.Rules.Check.{exprs_contain}

abbrev pub all_of : (Expr → Bool) → Exprs → Bool
all_of v nil = true
all_of v (cons e es) = v e && all_of v es

abbrev pub any_of : (Expr → Bool) → Exprs → Bool
any_of v nil = false
any_of v (cons e es) = v e || any_of v es

-- The loop of `eval` for the biconditional.
abbrev pub agree : (Expr → Bool) → Bool → Exprs → Bool
agree v b nil = b
agree v b (cons e es) = agree v (bool_eq b (v e)) es

pub record Respects (v : Expr → Bool) : Type 0 where
  pub at_contra : v contra ≡ false
  pub at_taut : v taut ≡ true
  pub at_not : (e : Expr) → v (not e) ≡ not_bool (v e)
  pub at_impl : (l r : Expr) → v (impl l r) ≡ (not_bool (v l) || v r)
  pub at_and : (es : Exprs) → v (assoc Op.and es) ≡ all_of v es
  pub at_or : (es : Exprs) → v (assoc Op.or es) ≡ any_of v es
  pub at_bicon : (es : Exprs) → v (assoc Op.bicon es) ≡ agree v true es
  pub at_equiv :
      (es : Exprs) → v (assoc Op.equiv es) ≡ (all_of v es || all_of (λ e. not_bool (v e)) es)

module _ (ρ : String → Bool) where
  abbrev pub truth : Expr → Bool
  truth e = denote two_valued ρ e

  all-denote : (es : Exprs) → all (λ b. b) (denote_all two_valued ρ es) ≡ all_of truth es
  unfolding denote
  all-denote nil = refl
  all-denote (cons e es) = ap (truth e &&◌) (all-denote es)

  any-denote : (es : Exprs) → any (λ b. b) (denote_all two_valued ρ es) ≡ any_of truth es
  unfolding denote
  any-denote nil = refl
  any-denote (cons e es) = ap (truth e ||◌) (any-denote es)

  none-denote :
      (es : Exprs) → all not_bool (denote_all two_valued ρ es) ≡ all_of (λ e. not_bool (truth e)) es
  unfolding denote
  none-denote nil = refl
  none-denote (cons e es) = ap (not_bool (truth e) &&◌) (none-denote es)

  foldl-denote :
      (b : Bool) (es : Exprs) → foldl bool_eq b (denote_all two_valued ρ es) ≡ agree truth b es
  unfolding denote
  foldl-denote b nil = refl
  foldl-denote b (cons e es) = foldl-denote (bool_eq b (truth e)) es

  -- The two-valued meaning is such an assignment.
  pub truth-Respects : Respects truth
  unfolding denote
  truth-Respects = record {
    at_contra = refl;
    at_taut = refl;
    at_not = λ e. refl;
    at_impl = λ l r. refl;
    at_and = all-denote;
    at_or = any-denote;
    at_bicon = foldl-denote true;
    at_equiv = λ es. ap₂ ◌||◌ (all-denote es) (none-denote es);
  }

module _ (v : Expr → Bool) where
  pub all_of-contain :
      (e : Expr) (es : Exprs) → exprs_contain e es ≡ true → all_of v es ≡ true → v e ≡ true
  unfolding exprs_contain
  all_of-contain e nil h a = absurd cc
  all_of-contain e (cons x es) h a = elim (Bool-cases (x == e)) [
    | inl t ↦ rw (← ==_path x e t) (and-left (v x) (all_of v es) a)
    | inr f ↦ all_of-contain e es (rw f at h) (and-right (v x) (all_of v es) a)
  ]

  pub any_of-contain :
      (e : Expr) (es : Exprs) → exprs_contain e es ≡ true → v e ≡ true → any_of v es ≡ true
  unfolding exprs_contain
  any_of-contain e nil h a = absurd cc
  any_of-contain e (cons x es) h a = elim (Bool-cases (x == e)) [
    | inl t ↦ rw (==_path x e t, a)
    | inr f ↦ rw (any_of-contain e es (rw f at h) a) (or_true (v x))
  ]
    where
      or_true : (b : Bool) → (b || true) ≡ true
      or_true true = refl
      or_true false = refl
