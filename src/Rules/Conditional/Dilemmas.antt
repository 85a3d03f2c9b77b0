-- ===== src/Rules/Conditional/Dilemmas.antt =====
-- What the two dilemmas of aris/src/rules.rs accept, by truth values.
use aris.Base.{
  Bool, true, false, not as not_bool, ◌||◌, some, List, [], ◌∷◌, ◌≡◌, refl, ap, ◌∙◌, sym, inr,
  arith, if◌then◌else◌, some-inj,
}
use aris.Expr.{Expr, Exprs, Op, not, impl, assoc, nil, cons}
use aris.Expr.Equal.{expr_eq}
use aris.Expr.Build.{impl_place_holder, assoc_place_holder}
use aris.Pool.{PjRef, PooledProof}
use aris.Pool.Lines.{lookup_expr, lookup_expr_or_die}
use aris.Pool.Scope.{
  ProofCheckError, line_does_not_exist, does_not_occur, dep_does_not_exist, one_of, no_more, also,
}
use aris.Rules.Order.{Permutations, Checked, AnyOrderResult, any_order}
use aris.Rules.Orders.{ForEach, any_order-ok}
use aris.Rules.Check.{exprs_contain, try}
use aris.Rules.Models.{Respects, any_of-contain}
use aris.Rules.Premises.{AllHold}
use aris.Rules.Propositional.Sound.{Sound}
use aris.Rules.Propositional.Subproofs.{collect}
use aris.Rules.Propositional.Derived.{try-inr, inr-inj, append_result-inr, found_or_die}
use aris.Rules.Conditional.{
  expect, constructive_pairs, constructive_order, expect_negation, destructive_pairs,
  destructive_order, on_three, constructive_dilemma, destructive_dilemma,
}
use aris.Rules.Conditional.Sound.{expect-ok}

abbrev AllTrue : (Expr → Bool) → List Expr → Type 0
AllTrue v [] = Unit
AllTrue v (e ∷ es) = (v e ≡ true) × AllTrue v es

on_three-ok :
    (f : Expr → Expr → Expr → AnyOrderResult) (ds : List Expr)
    → on_three f ds ≡ some AnyOrderResult.ok
    → (a b c : Expr) × (ds ≡ a ∷ b ∷ c ∷ []) × (f a b c ≡ AnyOrderResult.ok)
unfolding on_three
on_three-ok f [] h = absurd cc
on_three-ok f (a ∷ []) h = absurd cc
on_three-ok f (a ∷ b ∷ []) h = absurd cc
on_three-ok f (a ∷ b ∷ c ∷ []) h = (a, b, c, refl, some-inj h)
on_three-ok f (a ∷ b ∷ c ∷ d ∷ ds) h = absurd cc

expect_negation-ok :
    (n e : Expr) (next : AnyOrderResult)
    → expect_negation n e next ≡ AnyOrderResult.ok
    → (n ≡ not e) × (next ≡ AnyOrderResult.ok)
unfolding expect_negation
expect_negation-ok (not x) e next h = let (q, h') = expect-ok e x next h in (ap not (sym q), h')
expect_negation-ok _ e next h = absurd cc

both_contained-ok :
    (a b : Bool) (x : ProofCheckError)
    → (if not_bool a || not_bool b then AnyOrderResult.err x else AnyOrderResult.ok)
      ≡ AnyOrderResult.ok
    → (a ≡ true) × (b ≡ true)
both_contained-ok true true x h = (refl, refl)
both_contained-ok true false x h = absurd cc
both_contained-ok false b x h = absurd cc

module _ (v : Expr → Bool) (r : Respects v) where
  constructive_pairs-true :
      (p q s t : Expr) (p_r q_s : Exprs)
      → v (impl p q) ≡ true
      → v (impl s t) ≡ true
      → v (assoc Op.or p_r) ≡ true
      → constructive_pairs p q s t p_r q_s ≡ AnyOrderResult.ok
      → v (assoc Op.or q_s) ≡ true
  unfolding constructive_pairs
  constructive_pairs-true p q s t (cons p' (cons s' nil)) (cons q' (cons t' nil)) a b c h =
      let last = expect t t' AnyOrderResult.ok in
      let (x, h1) = expect-ok p p' (expect q q' (expect s s' last)) h in
      let (y, h2) = expect-ok q q' (expect s s' last) h1 in
      let (z, h3) = expect-ok s s' last h2 in
      let (w, _) = expect-ok t t' AnyOrderResult.ok h3 in
      r.at_or (cons q' (cons t' nil))
      ∙ let e = sym (r.at_impl p q) ∙ a in
        let e' = sym (r.at_impl s t) ∙ b in
        let e'' = sym (r.at_or (cons p' (cons s' nil))) ∙ c in
        let x' = ap v x in let y' = ap v y in let z' = ap v z in let w' = ap v w in ground arith
  constructive_pairs-true p q s t (cons p' (cons s' nil)) nil a b c h = absurd cc
  constructive_pairs-true p q s t (cons p' (cons s' nil)) (cons q' nil) a b c h = absurd cc
  constructive_pairs-true p q s t (cons p' (cons s' nil)) (cons q' (cons t' (cons u us))) a b c h =
      absurd cc
  constructive_pairs-true p q s t nil q_s a b c h = absurd cc
  constructive_pairs-true p q s t (cons p' nil) q_s a b c h = absurd cc
  constructive_pairs-true p q s t (cons p' (cons s' (cons u us))) q_s a b c h = absurd cc

  constructive_order-true :
      (c d0 d1 d2 : Expr)
      → v d0 ≡ true
      → v d1 ≡ true
      → v d2 ≡ true
      → constructive_order c d0 d1 d2 ≡ AnyOrderResult.ok
      → v c ≡ true
  unfolding constructive_order
  constructive_order-true (assoc Op.or q_s) (impl p q) (impl s t) (assoc Op.or p_r) x y z h =
      constructive_pairs-true p q s t p_r q_s x y z h
  constructive_order-true _ _ _ _ x y z h = absurd cc

  destructive_pairs-true :
      (p s q t : Expr) (neg_rs neg_pq : Exprs)
      → v (impl p s) ≡ true
      → v (impl q t) ≡ true
      → v (assoc Op.or neg_rs) ≡ true
      → destructive_pairs p s q t neg_rs neg_pq ≡ AnyOrderResult.ok
      → v (assoc Op.or neg_pq) ≡ true
  unfolding destructive_pairs
  destructive_pairs-true p s q t (cons a (cons b nil)) neg_pq x y z h =
      let (e, h1) = expect_negation-ok a s _ h in
      let (e', h2) = expect_negation-ok b t _ h1 in
      let (m, m') =
        both_contained-ok (exprs_contain (not p) neg_pq) (exprs_contain (not q) neg_pq)
          (does_not_occur (assoc_place_holder Op.or) (assoc Op.or neg_pq)) h2 in
      r.at_or neg_pq
      ∙ let i = sym (r.at_impl p s) ∙ x in
        let i' = sym (r.at_impl q t) ∙ y in
        let d = sym (r.at_or (cons a (cons b nil))) ∙ z in
        let n = ap v e ∙ r.at_not s in
        let n' = ap v e' ∙ r.at_not t in
        let k = r.at_not p in
        let k' = r.at_not q in
        ground (arith, any_of-contain v (not p) neg_pq m, any_of-contain v (not q) neg_pq m')
  destructive_pairs-true p s q t nil neg_pq x y z h = absurd cc
  destructive_pairs-true p s q t (cons a nil) neg_pq x y z h = absurd cc
  destructive_pairs-true p s q t (cons a (cons b (cons c cs))) neg_pq x y z h = absurd cc

  destructive_order-true :
      (c d0 d1 d2 : Expr)
      → v d0 ≡ true
      → v d1 ≡ true
      → v d2 ≡ true
      → destructive_order c d0 d1 d2 ≡ AnyOrderResult.ok
      → v c ≡ true
  unfolding destructive_order
  destructive_order-true (assoc Op.or neg_pq) (assoc Op.or neg_rs) (impl p s) (impl q t) x y z h =
      destructive_pairs-true p s q t neg_rs neg_pq y z x h
  destructive_order-true _ _ _ _ x y z h = absurd cc

  all_three : (a b c : Expr) → v a ≡ true → v b ≡ true → v c ≡ true → AllTrue v (a ∷ b ∷ c ∷ [])
  all_three a b c p q s = (p, (q, (s, tt)))

  -- A conclusion that is accepted in some order of three true expressions is true.
  three_in_order :
      (itertools : Permutations) (f : Expr → Expr → Expr → AnyOrderResult) (x : ProofCheckError)
      (a b c : Expr) (t : Bool)
      → AllTrue v (a ∷ b ∷ c ∷ [])
      → ((a b c : Expr)
          → v a ≡ true
          → v b ≡ true
          → v c ≡ true
          → f a b c ≡ AnyOrderResult.ok
          → t ≡ true)
      → any_order itertools (a ∷ b ∷ c ∷ []) (on_three f) x ≡ Checked.ok
      → t ≡ true
  three_in_order itertools f x a b c t (p, (q, (s, _))) k h =
      let orders : ForEach (AllTrue v) (itertools.permutations Expr (a ∷ b ∷ c ∷ [])) =
        rw (itertools.permutations_three Expr a b c) (
          all_three a b c p q s,
          (
            all_three a c b p s q,
            (
              all_three b a c q p s,
              (all_three b c a q s p, (all_three c a b s p q, (all_three c b a s q p, tt))),
            ),
          ),
        ) in
      let (ds, w, o) =
        any_order-ok itertools (AllTrue v) (a ∷ b ∷ c ∷ []) (on_three f) x h orders in
      let (d0, d1, d2, e, o') = on_three-ok f ds o in
      let w' : AllTrue v (d0 ∷ d1 ∷ d2 ∷ []) = rw e at w in k d0 d1 d2 w'.0 w'.1.0 w'.1.1.0 o'

module _ {R : Type 0} (p : PooledProof Expr R) (v : Expr → Bool) (r : Respects v) where
  collected_three :
      (d0 d1 d2 : PjRef) (es : List Expr)
      → AllHold p v (d0 ∷ d1 ∷ d2 ∷ [])
      → collect (lookup_expr_or_die p) (d0 ∷ d1 ∷ d2 ∷ []) ≡ inr es
      → (a b c : Expr) × (es ≡ a ∷ b ∷ c ∷ []) × AllTrue v (a ∷ b ∷ c ∷ [])
  unfolding collect lookup_expr_or_die
  collected_three d0 d1 d2 es (w0, (w1, (w2, _))) h =
      let look = lookup_expr_or_die p in
      let there = λ (d : PjRef) (e : Expr) (q : look d ≡ inr e).
        found_or_die (line_does_not_exist d) (lookup_expr p d) e q in
      let (a, as', q0, h1, l0) = append_result-inr (look d0) (collect look (d1 ∷ d2 ∷ [])) es h in
      let (b, bs, q1, h2, l1) = append_result-inr (look d1) (collect look (d2 ∷ [])) as' h1 in
      let (c, cs, q2, h3, l2) = append_result-inr (look d2) (inr []) bs h2 in
      (
        a,
        b,
        c,
        l0 ∙ ap (a ∷◌) (l1 ∙ ap (b ∷◌) (l2 ∙ ap (c ∷◌) (sym (inr-inj h3)))),
        (w0 a (there d0 a q0), (w1 b (there d1 b q1), (w2 c (there d2 c q2), tt))),
      )

  dilemma-true :
      (itertools : Permutations) (f : Expr → Expr → Expr → AnyOrderResult) (x : ProofCheckError)
      (d0 d1 d2 : PjRef) (t : Bool)
      → AllHold p v (d0 ∷ d1 ∷ d2 ∷ [])
      → ((a b c : Expr)
          → v a ≡ true
          → v b ≡ true
          → v c ≡ true
          → f a b c ≡ AnyOrderResult.ok
          → t ≡ true)
      → try
          (collect (lookup_expr_or_die p) (d0 ∷ d1 ∷ d2 ∷ []))
          (λ deps. any_order itertools deps (on_three f) x)
        ≡ Checked.ok
      → t ≡ true
  dilemma-true itertools f x d0 d1 d2 t w k h =
      let (es, q, h') =
        try-inr (collect (lookup_expr_or_die p) (d0 ∷ d1 ∷ d2 ∷ []))
          (λ deps. any_order itertools deps (on_three f) x) h in
      let (a, b, c, e, u) = collected_three d0 d1 d2 es w q in
      three_in_order v r itertools f x a b c t u k (rw e at h')

  pub constructive_dilemma-Sound :
      (itertools : Permutations) (d0 d1 d2 : PjRef)
      → AllHold p v (d0 ∷ d1 ∷ d2 ∷ [])
      → Sound v (constructive_dilemma p (d0 ∷ d1 ∷ d2 ∷ []) itertools)
  unfolding constructive_dilemma
  constructive_dilemma-Sound itertools d0 d1 d2 w c h =
      dilemma-true itertools (constructive_order c)
        (one_of (
          also (dep_does_not_exist impl_place_holder true)
            (also (dep_does_not_exist (assoc_place_holder Op.or) true) no_more)))
        d0 d1 d2 (v c) w (constructive_order-true v r c) h

  pub destructive_dilemma-Sound :
      (itertools : Permutations) (d0 d1 d2 : PjRef)
      → AllHold p v (d0 ∷ d1 ∷ d2 ∷ [])
      → Sound v (destructive_dilemma p (d0 ∷ d1 ∷ d2 ∷ []) itertools)
  unfolding destructive_dilemma
  destructive_dilemma-Sound itertools d0 d1 d2 w c h =
      dilemma-true itertools (destructive_order c)
        (one_of (
          also (dep_does_not_exist impl_place_holder true)
            (also (dep_does_not_exist (assoc_place_holder Op.or) true) no_more)))
        d0 d1 d2 (v c) w (destructive_order-true v r c) h
