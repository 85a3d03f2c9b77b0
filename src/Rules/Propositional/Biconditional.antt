-- ===== src/Rules/Propositional/Biconditional.antt =====
-- What `BiconditionalElim` of aris/src/rules.rs accepts, by truth values: where no biconditional
-- among its dependencies repeats an operand, and where one does.
use aris.Base.{
  String, Bool, true, false, ◌||◌, Option, none, some, List, [], ◌∷◌, ◌≡◌, refl, ap, ◌∙◌, sym,
  Bool-cases, inl, inr, if◌then◌else◌, ◌==◌, string_eq, ==_path, ==_refl, arith,
}
use aris.Expr.{Expr, Exprs, Op, var, assoc, nil, cons}
use aris.Expr.Eval.{bool_eq}
use aris.Expr.Equal.{expr_eq, expr_beq}
use aris.Expr.Build.{assoc_place_holder}
use aris.Expr.Denote.{denote}
use aris.Pool.{PjRef, PooledProof}
use aris.Pool.Lines.{lookup_expr, lookup_expr_or_die, ok_or_else}
use aris.Pool.Scope.{dep_does_not_exist}
use aris.Rules.Order.{Permutations, Checked, AnyOrderResult, either_order}
use aris.Rules.Orders.{accepted, either_order_lem}
use aris.Rules.Check.{exprs_contain, premise}
use aris.Rules.Models.{Respects, agree, truth}
use aris.Rules.Premises.{Satisfy, Satisfy-both, AllHold, premises-ok}
use aris.Rules.Propositional.{
  operands_outside, first_missing, one_or_all, bicon_operands, bicon_elim_rest, bicon_elim_order,
  biconditional_elim,
}
use aris.Rules.Propositional.Sound.{Sound, either_order-true}
use aris.Rules.Propositional.Parity.{Distinct, first_missing-none, agree-operands_outside}

module _ (v : Expr → Bool) (r : Respects v) where
  operands-agree : (j : Expr) → v j ≡ true → agree v true (bicon_operands j) ≡ true
  unfolding bicon_operands
  operands-agree (assoc Op.bicon es) t = sym (r.at_bicon es) ∙ t
  operands-agree _ t = t

  one_or_all-true : (es : Exprs) → agree v true es ≡ true → v (one_or_all Op.bicon es) ≡ true
  unfolding one_or_all
  one_or_all-true nil t = r.at_bicon nil ∙ t
  one_or_all-true (cons e nil) t = t
  one_or_all-true (cons e (cons e' es)) t = r.at_bicon (cons e (cons e' es)) ∙ t

  bicon_elim_rest-true :
      (c : Expr) (es s : Exprs) (o : Option Expr)
      → first_missing es s ≡ o
      → Distinct es
      → Distinct s
      → agree v true es ≡ true
      → agree v true s ≡ true
      → bicon_elim_rest c es s o ≡ AnyOrderResult.ok
      → v c ≡ true
  unfolding bicon_elim_rest
  bicon_elim_rest-true c es s (some prem) q d d' t t' h = absurd cc
  bicon_elim_rest-true c es s none q d d' t t' h =
      elim (Bool-cases (c == one_or_all Op.bicon (operands_outside s es))) [
        | inl same ↦ rw (==_path c (one_or_all Op.bicon (operands_outside s es)) same) (
            one_or_all-true (operands_outside s es) (
              rest (agree v true es) (agree v true s) (agree v true (operands_outside s es))
                (agree-operands_outside v s es d d' (first_missing-none es s q)) t t'))
        | inr differs ↦ absurd (let g = rw differs at h in cc)
      ]
    where
      rest : (a b c : Bool) → a ≡ bool_eq b c → a ≡ true → b ≡ true → c ≡ true
      rest a true c h t u = sym h ∙ t
      rest a false c h t u = absurd cc

  bicon_elim_order-true :
      (c i j : Expr)
      → Distinct (bicon_operands i)
      → Distinct (bicon_operands j)
      → v i ≡ true
      → v j ≡ true
      → bicon_elim_order c i j ≡ AnyOrderResult.ok
      → v c ≡ true
  unfolding bicon_elim_order
  bicon_elim_order-true c (assoc Op.bicon es) j d d' s t h =
      bicon_elim_rest-true c es (bicon_operands j) (first_missing es (bicon_operands j)) refl
        (unfold bicon_operands in d) d' (sym (r.at_bicon es) ∙ s) (operands-agree j t) h
  bicon_elim_order-true c _ j d d' s t h = absurd cc

-- An expression that, if it is a biconditional, repeats no operand.
abbrev pub NoRepeat : Expr → Type 0
NoRepeat e = Distinct (bicon_operands e)

module _ {R : Type 0} (itertools : Permutations) (p : PooledProof Expr R) where
  pub biconditional_elim-Sound :
      (v : Expr → Bool) (deps : List PjRef)
      → Respects v
      → AllHold p v deps
      → Satisfy p NoRepeat deps
      → Sound v (biconditional_elim itertools p deps)
  unfolding biconditional_elim
  biconditional_elim-Sound v deps r w d c h =
      let x = dep_does_not_exist (assoc_place_holder Op.bicon) true in
      let (a, b, (s, n), (t, m), h') =
        premises-ok p (λ e. (v e ≡ true) × NoRepeat e) deps
          (λ a b. either_order itertools a b (bicon_elim_order c) x)
          (Satisfy-both p (λ e. v e ≡ true) NoRepeat deps w d) h in
      either_order-true itertools a b (bicon_elim_order c) x (v c)
        (bicon_elim_order-true v r c a b n m s t) (bicon_elim_order-true v r c b a m n t s) h'

  biconditional_elim-two :
      (d1 d2 : PjRef) (a b c : Expr)
      → lookup_expr p d1 ≡ some a
      → lookup_expr p d2 ≡ some b
      → bicon_elim_order c a b ≡ AnyOrderResult.ok
      → biconditional_elim itertools p (d1 ∷ d2 ∷ []) c ≡ Checked.ok
  unfolding biconditional_elim premise lookup_expr_or_die ok_or_else
  biconditional_elim-two d1 d2 a b c h h' o =
      rw (h, h')
        (either_order_lem itertools a b (bicon_elim_order c)
            (dep_does_not_exist (assoc_place_holder Op.bicon) true)
          ∙ ap
              (λ t.
                if accepted t || accepted (bicon_elim_order c b a)
                then Checked.ok
                else Checked.err (dep_does_not_exist (assoc_place_holder Op.bicon) true))
              o)

-- `x ↔ y ↔ z`, and `x ↔ x ↔ y`, which repeats an operand.
abbrev pub three : String → String → String → Expr
three x y z = assoc Op.bicon (cons (var x) (cons (var y) (cons (var z) nil)))

repeats-accepted :
    (x y z : String)
    → (x == y) ≡ false
    → (x == z) ≡ false
    → (y == z) ≡ false
    → bicon_elim_order (var z) (three x y z) (three x x y) ≡ AnyOrderResult.ok
unfolding bicon_elim_order bicon_operands first_missing bicon_elim_rest operands_outside one_or_all
    exprs_contain expr_beq
repeats-accepted x y z a b c = ground (arith, ==_refl x, ==_refl y, ==_refl z)

-- For three different names, `BiconditionalElim` accepts `z` from `x ↔ y ↔ z` and `x ↔ x ↔ y`, and the
-- two are true, and `z` is not, where of the three names `y` is true alone.
pub biconditional_elim-repeats :
    {R : Type 0} (itertools : Permutations) (p : PooledProof Expr R) (d1 d2 : PjRef)
    (x y z : String)
    → (x == y) ≡ false
    → (x == z) ≡ false
    → (y == z) ≡ false
    → lookup_expr p d1 ≡ some (three x y z)
    → lookup_expr p d2 ≡ some (three x x y)
    → (biconditional_elim itertools p (d1 ∷ d2 ∷ []) (var z) ≡ Checked.ok)
      × (truth (λ n. n == y) (three x y z) ≡ true)
      × (truth (λ n. n == y) (three x x y) ≡ true)
      × (truth (λ n. n == y) (var z) ≡ false)
unfolding denote
biconditional_elim-repeats itertools p d1 d2 x y z a b c h h' = (
  biconditional_elim-two itertools p d1 d2 (three x y z) (three x x y) (var z) h h'
      (repeats-accepted x y z a b c),
  rw (a, ==_refl y, other_way),
  rw (a, ==_refl y),
  other_way,
)
  where
    other_way : (z == y) ≡ false
    other_way = elim (Bool-cases (z == y)) [
      | inl t ↦ absurd (let e = rw (==_path z y t) at c in let e' = ==_refl y in cc)
      | inr f ↦ f
    ]
