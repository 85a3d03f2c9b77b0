-- ===== src/Rules/Propositional/Graph/Sound.antt =====
-- The graph that aris/src/rules.rs builds from its dependencies, where these are true.
use aris.Base.{
  Bool, true, false, not as not_bool, List, [], ◌∷◌, all, nat_eq, ◌≡◌, refl, ap, ◌∙◌, sym,
  Bool-cases, ◌⊎◌, inl, inr, arith, and-left, and-right,
}
use aris.Expr.{Expr, Exprs, Op, impl, assoc, nil, cons}
use aris.Expr.Equal.{expr_eq}
use aris.Normalize.{op_eq}
use aris.Normalize.Connectives.{op_eq-path}
use aris.Pool.Scope.{ProofCheckError}
use aris.Rules.Models.{Respects, all_of}
use aris.Rules.Propositional.Derived.{inr-inj}
use aris.Rules.Propositional.Graph.{
  Graph, add_edge, edges_from, edges_between, edges_to, premise_edges, and_then, all_premise_edges,
}
use aris.Rules.Propositional.Graph.Slab.{Good, add_edge-Good}

-- All are true, or none.
abbrev pub Uniform : (Expr → Bool) → Exprs → Type 0
Uniform v exprs = (all_of v exprs ≡ true) ⊎ (all_of (λ e. not_bool (v e)) exprs ≡ true)

not-true : (b : Bool) → not_bool b ≡ true → b ≡ false
not-true true h = absurd cc
not-true false h = refl

and_then-inr :
    (m : ProofCheckError ⊎ Graph) (k : Graph → ProofCheckError ⊎ Graph) (g' : Graph)
    → and_then m k ≡ inr g'
    → (g : Graph) × (m ≡ inr g) × (k g ≡ inr g')
and_then-inr (inl e) k g' h = absurd cc
and_then-inr (inr g) k g' h = (g, refl, h)

module _ (v : Expr → Bool) where
  edges_from-Good :
      (e : Expr) (exprs : Exprs) (g : Graph)
      → (v e ≡ true → all_of v exprs ≡ true)
      → Good v g
      → Good v (edges_from e exprs g)
  unfolding edges_from
  edges_from-Good e nil g k w = w
  edges_from-Good e (cons x exprs) g k w =
      edges_from-Good e exprs (add_edge e x g) (λ t. and-right (v x) (all_of v exprs) (k t))
        (add_edge-Good v e x g (λ t. and-left (v x) (all_of v exprs) (k t)) w)

  edges_between-Good :
      (es exprs : Exprs) (g : Graph)
      → (all_of v exprs ≡ true) ⊎ (all_of (λ e. not_bool (v e)) es ≡ true)
      → Good v g
      → Good v (edges_between es exprs g)
  unfolding edges_between
  edges_between-Good nil exprs g u w = w
  edges_between-Good (cons e es) exprs g (inl t) w =
      edges_between-Good es exprs (edges_from e exprs g) (inl t)
        (edges_from-Good e exprs g (λ _. t) w)
  edges_between-Good (cons e es) exprs g (inr f) w =
      edges_between-Good es exprs (edges_from e exprs g)
        (inr (and-right (not_bool (v e)) (all_of (λ e. not_bool (v e)) es) f))
        (edges_from-Good e exprs g
          (λ t. absurd (
            let n =
              not-true (v e) (and-left (not_bool (v e)) (all_of (λ e. not_bool (v e)) es) f) in
            cc))
          w)

  pub edges_to-Good :
      (prem : Expr) (es : List Expr) (g : Graph)
      → (v prem ≡ true → all v es ≡ true)
      → Good v g
      → Good v (edges_to prem es g)
  unfolding edges_to
  edges_to-Good prem [] g k w = w
  edges_to-Good prem (e ∷ es) g k w =
      edges_to-Good prem es (add_edge prem e g) (λ t. and-right (v e) (all v es) (k t))
        (add_edge-Good v prem e g (λ t. and-left (v e) (all v es) (k t)) w)

  -- A dependency is true, and if it is an equivalence of the operator, its operands are all true or none.
  abbrev pub Usable : Op → Expr → Type 0
  Usable oper prem = (v prem ≡ true) × ((exprs : Exprs) → prem ≡ assoc oper exprs → Uniform v exprs)

  abbrev pub AllUsable : Op → List Expr → Type 0
  AllUsable oper [] = Unit
  AllUsable oper (e ∷ es) = Usable oper e × AllUsable oper es

  module _ (r : Respects v) where
    premise_edges-Good :
        (oper : Op) (prem : Expr) (g g' : Graph)
        → Usable oper prem
        → premise_edges oper prem g ≡ inr g'
        → Good v g
        → Good v g'
    unfolding premise_edges
    premise_edges-Good oper (assoc op exprs) g g' u h w = elim (Bool-cases (op_eq oper op)) [
      | inl t ↦ rw (← inr-inj (rw t at h)) (
          edges_between-Good exprs exprs g
            (u.1 exprs (ap (λ o. assoc o exprs) (sym (op_eq-path oper op t)))) w)
      | inr f ↦ absurd (let e = rw f at h in cc)
    ]
    premise_edges-Good oper (impl left right) g g' u h w = rw (← inr-inj h) (
        add_edge-Good v left right g (λ t. let e = sym (r.at_impl left right) ∙ u.0 in ground arith)
          w)
    premise_edges-Good oper _ g g' u h w = absurd cc

    pub all_premise_edges-Good :
        (oper : Op) (prems : List Expr) (g g' : Graph)
        → AllUsable oper prems
        → all_premise_edges oper prems g ≡ inr g'
        → Good v g
        → Good v g'
    unfolding all_premise_edges
    all_premise_edges-Good oper [] g g' u h w = rw (← inr-inj h) w
    all_premise_edges-Good oper (prem ∷ prems) g g' u h w =
        let (g1, q, h') = and_then-inr (premise_edges oper prem g) _ g' h in
        all_premise_edges-Good oper prems g1 g' u.1 h' (premise_edges-Good oper prem g g1 u.0 q w)
