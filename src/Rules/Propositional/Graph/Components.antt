-- ===== src/Rules/Propositional/Graph/Components.antt =====
-- The operands that a component of the graph of aris/src/rules.rs holds, by truth values.
use aris.Base.{
  ℕ, Bool, true, false, not as not_bool, ◌||◌, ◌&&◌, Option, none, some, List, [], ◌∷◌, any, ◌==◌,
  nat_eq, ◌≡◌, refl, ap, ◌∙◌, sym, Bool-cases, inl, inr, ==_refl, some-inj, and-left, and-right,
  both-eq-some,
}
use aris.Expr.{Expr, Exprs, nil, cons}
use aris.Pool.Scope.{other}
use aris.Rules.Order.{Checked}
use aris.Rules.Check.{or_panic, exprs_contain}
use aris.Rules.Models.{all_of, all_of-contain}
use aris.Rules.Propositional.Sound.{passed-ok}
use aris.Rules.Propositional.Graph.{
  SlabMap, Graph, Petgraph, Reach, Connected, EachOf, has, named_by, component, components,
}
use aris.Rules.Propositional.Graph.Check.{all_contained, errstring, mutually_implied, from_graph}
use aris.Rules.Propositional.Graph.Slab.{Edges, Good, Reach-true}
use aris.Rules.Propositional.Graph.Sound.{Uniform}

has-head : (n : ℕ) (s : List ℕ) → has n (n ∷ s) ≡ true
has-head n s = rw (==_refl n)

has-tail : (n m : ℕ) (s : List ℕ) → has n s ≡ true → has n (m ∷ s) ≡ true
has-tail n m s h = rw h (or_true (m == n))
  where
    or_true : (b : Bool) → (b || true) ≡ true
    or_true true = refl
    or_true false = refl

or_panic-ok :
    {A : Type 0} (o : Option A) (k : A → Checked)
    → or_panic o k ≡ Checked.ok
    → (a : A) × (o ≡ some a) × (k a ≡ Checked.ok)
or_panic-ok none k h = absurd cc
or_panic-ok (some a) k h = (a, refl, h)

contained-all :
    (v : Expr → Bool) (exprs es : Exprs)
    → all_contained exprs es ≡ true
    → all_of v es ≡ true
    → all_of v exprs ≡ true
unfolding all_contained
contained-all v nil es h t = refl
contained-all v (cons e exprs) es h t =
    rw (all_of-contain v e es (and-left (exprs_contain e es) (all_contained exprs es) h) t)
      (contained-all v exprs es (and-right (exprs_contain e es) (all_contained exprs es) h) t)

contained-Uniform :
    (v : Expr → Bool) (exprs es : Exprs)
    → all_contained exprs es ≡ true
    → Uniform v es
    → Uniform v exprs
contained-Uniform v exprs es h (inl t) = inl (contained-all v exprs es h t)
contained-Uniform v exprs es h (inr f) = inr (contained-all (λ e. not_bool (v e)) exprs es h f)

module _ (v : Expr → Bool) (slab : SlabMap) (g : List (ℕ × ℕ)) (w : Edges v slab g) where
  reached-true :
      (n : ℕ) (x : Expr) (s : List ℕ) (es : Exprs)
      → named_by n slab ≡ some x
      → v x ≡ true
      → ((m : ℕ) → has m s ≡ true → Reach g n m)
      → component slab s ≡ some es
      → all_of v es ≡ true
  unfolding component
  reached-true n x [] es p t k h = rw (← some-inj h)
  reached-true n x (m ∷ s) es p t k h =
      let (e, rest, q, q', l) = both-eq-some cons (named_by m slab) (component slab s) h in
      rw (← l, Reach-true v slab g x e w (k m (has-head m s)) p q t)
        (reached-true n x s rest p t (λ a i. k a (has-tail a m s i)) q')

  reached-false :
      (n : ℕ) (x : Expr) (s : List ℕ) (es : Exprs)
      → named_by n slab ≡ some x
      → v x ≡ false
      → ((m : ℕ) → has m s ≡ true → Reach g m n)
      → component slab s ≡ some es
      → all_of (λ e. not_bool (v e)) es ≡ true
  unfolding component
  reached-false n x [] es p f k h = rw (← some-inj h)
  reached-false n x (m ∷ s) es p f k h =
      let (e, rest, q, q', l) = both-eq-some cons (named_by m slab) (component slab s) h in
      rw (← l) (
        both (v e) (λ t. let t' = Reach-true v slab g e x w (k m (has-head m s)) q p t in cc)
          (reached-false n x s rest p f (λ a i. k a (has-tail a m s i)) q'))
    where
      both : (b : Bool) {c : Bool} → (b ≡ true → true ≡ false) → c ≡ true → (not_bool b && c) ≡ true
      both true i j = absurd (let e = i refl in cc)
      both false i j = j

  component-Uniform :
      (s : List ℕ) (es : Exprs) → Connected g s → component slab s ≡ some es → Uniform v es
  unfolding component
  component-Uniform [] es c h = inl (rw (← some-inj h))
  component-Uniform (n ∷ s) es c h =
      let (e, rest, q, q', l) = both-eq-some cons (named_by n slab) (component slab s) h in
      elim (Bool-cases (v e)) [
        | inl t ↦ inl (reached-true n e (n ∷ s) es q t (λ m i. c n m (has-head n s) i) h)
        | inr f ↦ inr (reached-false n e (n ∷ s) es q f (λ m i. c m n i (has-head n s)) h)
      ]

  some_component-Uniform :
      (exprs : Exprs) (ss : List (List ℕ)) (cs : List Exprs)
      → EachOf (Connected g) ss
      → components slab ss ≡ some cs
      → any (all_contained exprs) cs ≡ true
      → Uniform v exprs
  unfolding components
  some_component-Uniform exprs [] cs c h t = absurd (let e = rw (← some-inj h) at t in cc)
  some_component-Uniform exprs (s ∷ ss) cs c h t =
      let (es, rest, q, q', l) = both-eq-some (◌∷◌) (component slab s) (components slab ss) h in
      elim (Bool-cases (all_contained exprs es)) [
        | inl y ↦ contained-Uniform v exprs es y (component-Uniform s es c.0 q)
        | inr y ↦ some_component-Uniform exprs ss rest c.1 q' (
            ap (λ b. b || any (all_contained exprs) rest) (sym y)
            ∙ ap (any (all_contained exprs)) l
            ∙ t)
      ]

-- If the graph shows that the operands imply each other, then they are all true or all false.
pub from_graph-Uniform :
    (petgraph : Petgraph) (v : Expr → Bool) (exprs : Exprs) (g : Graph)
    → Good v g
    → from_graph petgraph exprs g ≡ Checked.ok
    → Uniform v exprs
unfolding from_graph mutually_implied
from_graph-Uniform petgraph v exprs g (_, w) h =
    let (cs, q, h') =
      or_panic-ok (components g.0 (petgraph.tarjan_scc g.1)) (mutually_implied exprs) h in
    some_component-Uniform v g.0 g.1 w exprs (petgraph.tarjan_scc g.1) cs (petgraph.connected g.1) q
      (passed-ok (any (all_contained exprs) cs) Checked.ok (other (errstring cs exprs)) h').0
