-- ===== src/Rules/Propositional/Sound.antt =====
-- What the checks of `PropositionalInference` in aris/src/rules.rs that use no subproof accept, by
-- truth values.
use aris.Base.{
  Bool, true, false, not as not_bool, ◌||◌, Option, none, some, List, [], ◌∷◌, length, any, ◌≡◌,
  refl, ap, ◌∙◌, sym, Bool-cases, ◌⊎◌, inl, inr, if◌then◌else◌, ◌==◌, nat_eq, ==_path, arith,
}
use aris.Expr.{Expr, Exprs, Op, contra, var, not, assoc, nil, cons}
use aris.Expr.Equal.{expr_eq}
use aris.Pool.{PjRef, PooledProof}
use aris.Pool.Lines.{lookup_expr}
use aris.Pool.Scope.{ProofCheckError, conclusion_of_wrong_form, does_not_occur, dep_does_not_exist}
use aris.Rules.Order.{Permutations, Checked, AnyOrderResult, either_order}
use aris.Rules.Orders.{accepted, accepted-ok, either_order_lem}
use aris.Rules.Check.{exprs_contain, premise}
use aris.Rules.Models.{Respects, all_of, all_of-contain, any_of-contain}
use aris.Rules.Premises.{AllHold, try-ok, premise-ok}
use aris.Rules.Propositional.{
  found, single_dep, deps_occur, exprs_have_deps, and_intro_of, and_intro, all_in, and_elim_of,
  and_elim, or_intro_of, or_intro, not_elim_of, not_elim, contradiction_elim_of, contradiction_elim,
}

-- The conclusions that a check accepts are true.
abbrev pub Sound : (Expr → Bool) → (Expr → Checked) → Type 0
Sound v check = (c : Expr) → check c ≡ Checked.ok → v c ≡ true

pub found-some : (e : Expr) (o : Option Expr) → found e o ≡ true → o ≡ some e
unfolding found
found-some e none h = absurd cc
found-some e (some de) h = ap some (==_path de e h)

-- A test that was passed, where failing it is an error.
pub passed-ok :
    (b : Bool) (next : Checked) (x : ProofCheckError)
    → (if b then next else Checked.err x) ≡ Checked.ok
    → (b ≡ true) × (next ≡ Checked.ok)
passed-ok true next x h = (refl, h)
passed-ok false next x h = absurd cc

pub refused-ok :
    (b : Bool) (x : AnyOrderResult) (next : ProofCheckError)
    → (if not_bool b then AnyOrderResult.err next else x) ≡ AnyOrderResult.ok
    → (b ≡ true) × (x ≡ AnyOrderResult.ok)
refused-ok true x next h = (refl, h)
refused-ok false x next h = absurd cc

pub refused_check-ok :
    (b : Bool) (next : Checked) (x : ProofCheckError)
    → (if not_bool b then Checked.err x else next) ≡ Checked.ok
    → (b ≡ true) × (next ≡ Checked.ok)
refused_check-ok true next x h = (refl, h)
refused_check-ok false next x h = absurd cc

or-cases : (a b : Bool) → (a || b) ≡ true → (a ≡ true) ⊎ (b ≡ true)
or-cases true b h = inl refl
or-cases false b h = inr h

-- A conclusion that `either_order` accepts is true, if the check's is in both orders.
pub either_order-true :
    (itertools : Permutations) (a b : Expr) (check_func : Expr → Expr → AnyOrderResult)
    (x : ProofCheckError) (t : Bool)
    → (check_func a b ≡ AnyOrderResult.ok → t ≡ true)
    → (check_func b a ≡ AnyOrderResult.ok → t ≡ true)
    → either_order itertools a b check_func x ≡ Checked.ok
    → t ≡ true
either_order-true itertools a b check_func x t k k' h =
    elim (or-cases (accepted (check_func a b)) (accepted (check_func b a))
      (passed-ok (accepted (check_func a b) || accepted (check_func b a)) Checked.ok x
        (sym (either_order_lem itertools a b check_func x) ∙ h)).0) [
          | inl y ↦ k (accepted-ok (check_func a b) y)
          | inr y ↦ k' (accepted-ok (check_func b a) y)
        ]

module _ {R : Type 0} (p : PooledProof Expr R) (v : Expr → Bool) (r : Respects v)
    (deps : List PjRef) (w : AllHold p v deps) where
  pub single_dep-true :
      (c : Expr) (next : Checked)
      → (next ≡ Checked.ok → v c ≡ true)
      → single_dep p deps c next ≡ Checked.ok
      → v c ≡ true
  unfolding single_dep
  single_dep-true c next k h = elim (Bool-cases (length deps == 1)) [
    | inl one ↦
        let (e, t, h') =
          premise-ok p (λ e. v e ≡ true) deps 0 (λ e. if e == c then Checked.ok else next) w
            (rw one at h) in
        elim (Bool-cases (e == c)) [
          | inl same ↦ rw (← ==_path e c same) t
          | inr other ↦ k (rw other at h')
        ]
    | inr more ↦ k (rw more at h)
  ]

  deps_occur-ok :
      (exprs : Exprs) (c : Expr) (ds : List PjRef) (next : Checked)
      → deps_occur p deps exprs c ds next ≡ Checked.ok
      → next ≡ Checked.ok
  unfolding deps_occur
  deps_occur-ok exprs c [] next h = h
  deps_occur-ok exprs c (d ∷ ds) next h =
      let rest : Checked = deps_occur p deps exprs c ds next in
      let (e, _, h') =
        try-ok p d (λ e. if exprs_contain e exprs then rest else Checked.err (does_not_occur e c))
          h in
      deps_occur-ok exprs c ds next
        (passed-ok (exprs_contain e exprs) rest (does_not_occur e c) h').1

  any-found-true :
      (e : Expr) (ds : List PjRef)
      → AllHold p v ds
      → any (λ d. found e (lookup_expr p d)) ds ≡ true
      → v e ≡ true
  any-found-true e [] a h = absurd cc
  any-found-true e (d ∷ ds) a h = elim (Bool-cases (found e (lookup_expr p d))) [
    | inl t ↦ a.0 e (found-some e (lookup_expr p d) t)
    | inr f ↦ any-found-true e ds a.1 (rw f at h)
  ]

  exprs_have_deps-true :
      (exprs : Exprs) → exprs_have_deps p deps exprs ≡ Checked.ok → all_of v exprs ≡ true
  unfolding exprs_have_deps
  exprs_have_deps-true nil h = refl
  exprs_have_deps-true (cons e exprs) h =
      let (t, h') =
        passed-ok (any (λ d. found e (lookup_expr p d)) deps) (exprs_have_deps p deps exprs)
          (dep_does_not_exist e false) h in
      rw (any-found-true e deps w t) (exprs_have_deps-true exprs h')

  and_intro_of-true : (c : Expr) → and_intro_of p deps c ≡ Checked.ok → v c ≡ true
  unfolding and_intro_of
  and_intro_of-true (assoc Op.and exprs) h =
      r.at_and exprs
      ∙ exprs_have_deps-true exprs
          (deps_occur-ok exprs (assoc Op.and exprs) deps (exprs_have_deps p deps exprs) h)
  and_intro_of-true _ h = absurd cc

  pub and_intro-Sound : Sound v (and_intro p deps)
  unfolding and_intro
  and_intro-Sound c h = single_dep-true c (and_intro_of p deps c) (and_intro_of-true c) h

  all_in-true :
      (exprs : Exprs) (c prem : Expr) (ces : Exprs)
      → all_of v exprs ≡ true
      → all_in p deps exprs c prem ces ≡ Checked.ok
      → all_of v ces ≡ true
  unfolding all_in
  all_in-true exprs c prem nil a h = refl
  all_in-true exprs c prem (cons ce ces) a h =
      let (t, h') =
        passed-ok (exprs_contain ce exprs) (all_in p deps exprs c prem ces) (does_not_occur c prem)
          h in
      rw (all_of-contain v ce exprs t a) (all_in-true exprs c prem ces a h')

  and_elim_of-true :
      (prem c : Expr) → v prem ≡ true → and_elim_of p deps prem c ≡ Checked.ok → v c ≡ true
  unfolding and_elim_of
  and_elim_of-true (assoc Op.and exprs) (assoc Op.and ces) t h =
      r.at_and ces
      ∙ all_in-true exprs (assoc Op.and ces) (assoc Op.and exprs) ces (sym (r.at_and exprs) ∙ t) h
  and_elim_of-true (assoc Op.and exprs) c t h =
      all_of-contain v c exprs
        (passed-ok (exprs_contain c exprs) Checked.ok (does_not_occur c (assoc Op.and exprs)) h).0
        (sym (r.at_and exprs) ∙ t)
  and_elim_of-true _ c t h = absurd cc

  pub and_elim-Sound : Sound v (and_elim p deps)
  unfolding and_elim
  and_elim-Sound c h =
      single_dep-true c (premise p deps 0 (λ prem. and_elim_of p deps prem c))
        (λ g.
          let (prem, t, h') =
            premise-ok p (λ e. v e ≡ true) deps 0 (λ prem. and_elim_of p deps prem c) w g in
          and_elim_of-true prem c t h')
        h

  or_intro_of-true :
      (prem c : Expr) → v prem ≡ true → or_intro_of p deps prem c ≡ Checked.ok → v c ≡ true
  unfolding or_intro_of
  or_intro_of-true prem (assoc Op.or exprs) t h =
      r.at_or exprs
      ∙ any_of-contain v prem exprs
          (passed-ok (exprs_contain prem exprs) Checked.ok (does_not_occur prem (assoc Op.or exprs))
            h).0
          t
  or_intro_of-true prem _ t h = absurd cc

  pub or_intro-Sound : Sound v (or_intro p deps)
  unfolding or_intro
  or_intro-Sound c h =
      single_dep-true c (premise p deps 0 (λ prem. or_intro_of p deps prem c))
        (λ g.
          let (prem, t, h') =
            premise-ok p (λ e. v e ≡ true) deps 0 (λ prem. or_intro_of p deps prem c) w g in
          or_intro_of-true prem c t h')
        h

  not_elim_of-true :
      (prem c : Expr) → v prem ≡ true → not_elim_of p deps prem c ≡ Checked.ok → v c ≡ true
  unfolding not_elim_of
  not_elim_of-true (not (not operand)) c t h =
      rw
        (← ==_path operand c
          (passed-ok (operand == c) Checked.ok (conclusion_of_wrong_form (not (not (var "_"))))
            h).0)
        (let e = r.at_not operand in let e' = r.at_not (not operand) in ground arith)
  not_elim_of-true _ c t h = absurd cc

  pub not_elim-Sound : Sound v (not_elim p deps)
  unfolding not_elim
  not_elim-Sound c h =
      let (prem, t, h') =
        premise-ok p (λ e. v e ≡ true) deps 0 (λ prem. not_elim_of p deps prem c) w h in
      not_elim_of-true prem c t h'

  contra-false : (c : Expr) → v contra ≡ true → v c ≡ true
  contra-false c t = absurd (let e = r.at_contra in cc)

  contradiction_elim_of-true :
      (prem c : Expr) → v prem ≡ true → contradiction_elim_of p deps prem ≡ Checked.ok → v c ≡ true
  unfolding contradiction_elim_of
  contradiction_elim_of-true contra c t h = contra-false c t
  contradiction_elim_of-true _ c t h = absurd cc

  pub contradiction_elim-Sound : Sound v (contradiction_elim p deps)
  unfolding contradiction_elim
  contradiction_elim-Sound c h =
      let (prem, t, h') =
        premise-ok p (λ e. v e ≡ true) deps 0 (contradiction_elim_of p deps) w h in
      contradiction_elim_of-true prem c t h'
