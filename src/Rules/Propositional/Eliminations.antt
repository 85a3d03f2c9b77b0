-- ===== src/Rules/Propositional/Eliminations.antt =====
-- What the checks of `PropositionalInference` in aris/src/rules.rs that take two dependencies in
-- either order accept, by truth values. That of the biconditional is in its own module.
use aris.Base.{
  Bool, true, false, not as not_bool, ◌||◌, List, ◌≡◌, ap, ◌∙◌, sym, Bool-cases, inl, inr,
  if◌then◌else◌, ◌==◌, ==_path, arith,
}
use aris.Expr.{Expr, Exprs, Op, contra, not, impl, assoc}
use aris.Expr.Equal.{expr_eq}
use aris.Expr.Build.{impl_place_holder, assoc_place_holder}
use aris.Pool.{PjRef, PooledProof}
use aris.Pool.Scope.{does_not_occur, dep_does_not_exist, other}
use aris.Rules.Order.{Permutations, AnyOrderResult, either_order}
use aris.Rules.Check.{exprs_contain, contradict, do_expressions_contradict, not_opposite}
use aris.Rules.Models.{Respects, all_of, all_of-contain}
use aris.Rules.Premises.{AllHold, premises-ok}
use aris.Rules.Propositional.{
  imp_elim_order, equiv_elim_order, imp_elim, contradiction_intro, equivalence_elim,
}
use aris.Rules.Propositional.Sound.{Sound, refused-ok, either_order-true}

module _ (v : Expr → Bool) (r : Respects v) where
  imp_elim_order-true :
      (c i j : Expr)
      → v i ≡ true
      → v j ≡ true
      → imp_elim_order c i j ≡ AnyOrderResult.ok
      → v c ≡ true
  unfolding imp_elim_order
  imp_elim_order-true c (impl left right) j s t h =
      let (p, h') =
        refused-ok (left == j)
          (if not_bool (right == c)
            then AnyOrderResult.err (does_not_occur c right)
            else AnyOrderResult.ok)
          (does_not_occur (impl left right) j) h in
      let (q, _) = refused-ok (right == c) AnyOrderResult.ok (does_not_occur c right) h' in
      rw (← ==_path right c q)
        (let e = r.at_impl left right in let e' = ap v (==_path left j p) in ground arith)
  imp_elim_order-true c _ j s t h = absurd cc

  contradict-false :
      (i j : Expr) (b : Bool)
      → v i ≡ true
      → v j ≡ true
      → contradict i j ≡ AnyOrderResult.ok
      → b ≡ true
  unfolding contradict
  contradict-false (not operand) j b s t h = elim (Bool-cases (operand == j)) [
    | inl same ↦
        absurd (let e = r.at_not operand in let e' = ap v (==_path operand j same) in ground arith)
    | inr differs ↦ absurd (let g = rw differs at h in cc)
  ]
  contradict-false _ j b s t h = absurd cc

  none-contain :
      (e : Expr) (es : Exprs)
      → exprs_contain e es ≡ true
      → all_of (λ x. not_bool (v x)) es ≡ true
      → v e ≡ false
  none-contain e es h a = let n = all_of-contain (λ x. not_bool (v x)) e es h a in ground arith

  equiv_elim_order-true :
      (c i j : Expr)
      → v i ≡ true
      → v j ≡ true
      → equiv_elim_order c i j ≡ AnyOrderResult.ok
      → v c ≡ true
  unfolding equiv_elim_order
  equiv_elim_order-true c (assoc Op.equiv es) j s t h =
      let (p, h') =
        refused-ok (exprs_contain j es)
          (if not_bool (exprs_contain c es)
            then AnyOrderResult.err (does_not_occur c (assoc Op.equiv es))
            else AnyOrderResult.ok)
          (does_not_occur j (assoc Op.equiv es)) h in
      let (q, _) =
        refused-ok (exprs_contain c es) AnyOrderResult.ok (does_not_occur c (assoc Op.equiv es))
          h' in
      let both : (all_of v es || all_of (λ x. not_bool (v x)) es) ≡ true =
        sym (r.at_equiv es) ∙ s in
      elim (Bool-cases (all_of v es)) [
        | inl every ↦ all_of-contain v c es q every
        | inr some' ↦ absurd (let f = none-contain j es p (rw some' at both) in cc)
      ]
  equiv_elim_order-true c _ j s t h = absurd cc

module _ {R : Type 0} (itertools : Permutations) (p : PooledProof Expr R) (v : Expr → Bool)
    (r : Respects v) (deps : List PjRef) (w : AllHold p v deps) where
  pub imp_elim-Sound : Sound v (imp_elim itertools p deps)
  unfolding imp_elim
  imp_elim-Sound c h =
      let (a, b, s, t, h') =
        premises-ok p (λ e. v e ≡ true) deps
          (λ a b.
            either_order itertools a b (imp_elim_order c)
              (dep_does_not_exist impl_place_holder true))
          w h in
      either_order-true itertools a b (imp_elim_order c) (dep_does_not_exist impl_place_holder true)
        (v c) (imp_elim_order-true v r c a b s t) (imp_elim_order-true v r c b a t s) h'

  pub contradiction_intro-Sound : Sound v (contradiction_intro itertools p deps)
  unfolding contradiction_intro do_expressions_contradict
  contradiction_intro-Sound contra h =
      let (a, b, s, t, h') =
        premises-ok p (λ e. v e ≡ true) deps (do_expressions_contradict itertools) w h in
      either_order-true itertools a b contradict (other (not_opposite a b)) (v contra)
        (contradict-false v r a b (v contra) s t) (contradict-false v r b a (v contra) t s) h'
  contradiction_intro-Sound _ h = absurd cc

  pub equivalence_elim-Sound : Sound v (equivalence_elim itertools p deps)
  unfolding equivalence_elim
  equivalence_elim-Sound c h =
      let x = dep_does_not_exist (assoc_place_holder Op.equiv) true in
      let (a, b, s, t, h') =
        premises-ok p (λ e. v e ≡ true) deps
          (λ a b. either_order itertools a b (equiv_elim_order c) x) w h in
      either_order-true itertools a b (equiv_elim_order c) x (v c)
        (equiv_elim_order-true v r c a b s t) (equiv_elim_order-true v r c b a t s) h'
