-- ===== src/Rules/Biconditional/Sound.antt =====
-- What the checks of `BiconditionalInference` in aris/src/rules.rs accept, by truth values.
use aris.Base.{Bool, true, false, List, ◌≡◌, refl, arith}
use aris.Expr.{Expr, Op, var, not, assoc, nil, cons}
use aris.Expr.Eval.{bool_eq}
use aris.Expr.Equal.{expr_eq}
use aris.Expr.Build.{not_place_holder, assoc_place_holder}
use aris.Pool.{PjRef, PooledProof}
use aris.Pool.Scope.{ProofCheckError, dep_does_not_exist}
use aris.Rules.Order.{Permutations, Checked, AnyOrderResult, either_order}
use aris.Rules.Models.{Respects}
use aris.Rules.Premises.{AllHold, premises-ok}
use aris.Rules.Values.{same-value}
use aris.Rules.Propositional.Sound.{Sound, either_order-true}
use aris.Rules.Biconditional.{
  bicon_of, ok_or_err, bicon_intro_order, bicon_intro_negation_order, bicon_inference_elim_order,
  bicon_elim_negation_order, of_two, bicon_intro, bicon_intro_negation, bicon_elim,
  bicon_elim_negation,
}

ok_or_err-ok : (b : Bool) (e : ProofCheckError) → ok_or_err b e ≡ AnyOrderResult.ok → b ≡ true
unfolding ok_or_err
ok_or_err-ok true e h = refl
ok_or_err-ok false e h = absurd cc

module _ (v : Expr → Bool) (r : Respects v) where
  bicon-value : (a b : Expr) → v (bicon_of a b) ≡ bool_eq (v a) (v b)
  bicon-value a b = r.at_bicon (cons a (cons b nil))

  bicon_intro_order-true :
      (c i j : Expr)
      → v i ≡ true
      → v j ≡ true
      → bicon_intro_order c i j ≡ AnyOrderResult.ok
      → v c ≡ true
  unfolding bicon_intro_order
  bicon_intro_order-true c (var a) (var b) s t h =
      let g = ok_or_err-ok _ _ h in
      let e = bicon-value (var a) (var b) in
      ground (arith, same-value v r c (bicon_of (var a) (var b)))
  bicon_intro_order-true c (not a) (not b) s t h =
      let g = ok_or_err-ok _ _ h in
      let e = bicon-value a b in
      let e' = bicon-value (not a) (not b) in
      let n = r.at_not a in
      let n' = r.at_not b in
      ground (arith, same-value v r c (bicon_of a b), same-value v r c (bicon_of (not a) (not b)))
  bicon_intro_order-true c _ _ s t h = absurd cc

  bicon_intro_negation_order-true :
      (c i j : Expr)
      → v i ≡ true
      → v j ≡ true
      → bicon_intro_negation_order c i j ≡ AnyOrderResult.ok
      → v c ≡ true
  unfolding bicon_intro_negation_order
  bicon_intro_negation_order-true c (not a) (var b) s t h =
      let g = ok_or_err-ok _ _ h in
      let e = bicon-value a (var b) in
      let n = r.at_not a in
      let n' = r.at_not (bicon_of a (var b)) in
      ground (arith, same-value v r c (not (bicon_of a (var b))))
  bicon_intro_negation_order-true c (var a) (not b) s t h =
      let g = ok_or_err-ok _ _ h in
      let e = bicon-value (var a) b in
      let n = r.at_not b in
      let n' = r.at_not (bicon_of (var a) b) in
      ground (arith, same-value v r c (not (bicon_of (var a) b)))
  bicon_intro_negation_order-true c _ _ s t h = absurd cc

  bicon_inference_elim_order-true :
      (c i j : Expr)
      → v i ≡ true
      → v j ≡ true
      → bicon_inference_elim_order c i j ≡ AnyOrderResult.ok
      → v c ≡ true
  unfolding bicon_inference_elim_order
  bicon_inference_elim_order-true c (assoc Op.bicon (cons a (cons b nil))) (not o) s t h =
      let g = ok_or_err-ok _ _ h in
      let e = bicon-value a b in
      let n = r.at_not a in
      let n' = r.at_not b in
      let n'' = r.at_not o in
      ground (
        arith,
        same-value v r o a,
        same-value v r o b,
        same-value v r c (not a),
        same-value v r c (not b),
      )
  bicon_inference_elim_order-true c _ _ s t h = absurd cc

  bicon_elim_negation_order-true :
      (c i j : Expr)
      → v i ≡ true
      → v j ≡ true
      → bicon_elim_negation_order c i j ≡ AnyOrderResult.ok
      → v c ≡ true
  unfolding bicon_elim_negation_order ok_or_err
  bicon_elim_negation_order-true c (not (assoc Op.bicon (cons a (cons b nil)))) j s t h =
      let e = bicon-value a b in
      let n = r.at_not a in
      let n' = r.at_not b in
      let n'' = r.at_not (bicon_of a b) in
      ground (
        arith,
        same-value v r a j,
        same-value v r b j,
        same-value v r c (not a),
        same-value v r c (not b),
      )
  bicon_elim_negation_order-true c _ _ s t h = absurd cc

module _ {R : Type 0} (itertools : Permutations) (p : PooledProof Expr R) (v : Expr → Bool)
    (r : Respects v) (deps : List PjRef) (w : AllHold p v deps) where
  of_two-true :
      (f : Expr → Expr → AnyOrderResult) (x : ProofCheckError) (t : Bool)
      → ((a b : Expr) → v a ≡ true → v b ≡ true → f a b ≡ AnyOrderResult.ok → t ≡ true)
      → of_two itertools p deps f x ≡ Checked.ok
      → t ≡ true
  unfolding of_two
  of_two-true f x t k h =
      let (a, b, s, u, h') =
        premises-ok p (λ e. v e ≡ true) deps (λ a b. either_order itertools a b f x) w h in
      either_order-true itertools a b f x t (k a b s u) (k b a u s) h'

  pub bicon_intro-Sound : Sound v (bicon_intro itertools p deps)
  unfolding bicon_intro
  bicon_intro-Sound c =
      of_two-true (bicon_intro_order c) (dep_does_not_exist (assoc_place_holder Op.bicon) true)
        (v c) (bicon_intro_order-true v r c)

  pub bicon_intro_negation-Sound : Sound v (bicon_intro_negation itertools p deps)
  unfolding bicon_intro_negation
  bicon_intro_negation-Sound c =
      of_two-true (bicon_intro_negation_order c) (dep_does_not_exist not_place_holder true) (v c)
        (bicon_intro_negation_order-true v r c)

  pub bicon_elim-Sound : Sound v (bicon_elim itertools p deps)
  unfolding bicon_elim
  bicon_elim-Sound c =
      of_two-true (bicon_inference_elim_order c)
        (dep_does_not_exist (assoc_place_holder Op.bicon) true) (v c)
        (bicon_inference_elim_order-true v r c)

  pub bicon_elim_negation-Sound : Sound v (bicon_elim_negation itertools p deps)
  unfolding bicon_elim_negation
  bicon_elim_negation-Sound c =
      of_two-true (bicon_elim_negation_order c) (dep_does_not_exist not_place_holder true) (v c)
        (bicon_elim_negation_order-true v r c)
