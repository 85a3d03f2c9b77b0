-- ===== src/Rules/Propositional/Graph.antt =====
-- `BiconditionalIntro` and `EquivalenceIntro` of aris/src/rules.rs: expressions are numbered in a slab, the
-- dependencies are edges of a graph on the numbers, and the operands of the conclusion have to lie in one of
-- its strongly connected components. `petgraph::algo::tarjan_scc` is a parameter.
pub mod Check
pub mod Slab
pub mod Sound
pub mod Components
pub mod Introductions
use Prim.Native.String.{◌++◌}
use aris.Base.{
  String, ℕ, suc, Bool, true, false, not as not_bool, ◌||◌, ◌&&◌, Option, none, some, ◌>>=◌,
  map_option, List, [], ◌∷◌, length, get_elem?, any, all, ◌⊎◌, inl, inr, if◌then◌else◌, ◌==◌,
  nat_eq, ◌≡◌,
}
use aris.Expr.{Expr, Exprs, Op, var, impl, assoc, nil, cons}
use aris.Expr.Equal.{expr_eq}
use aris.Expr.Show.{to_string}
use aris.Expr.Build.{impl_place_holder, assoc_place_holder}
use aris.Normalize.{op_eq}
use aris.Pool.{PjRef, PooledProof, PooledSubproof}
use aris.Pool.Lines.{
  lookup_expr_or_die, lookup_premise_or_die, lookup_subproof_or_die, exprs as proof_exprs,
}
use aris.Pool.Scope.{
  ProofCheckError, dep_of_wrong_form, conclusion_of_wrong_form, one_of, other, no_more, also,
}
use aris.Rules.Order.{Checked}
use aris.Rules.Check.{try, or_panic, index, exprs_len}
use aris.Rules.Propositional.Subproofs.{collect, premise_keys}

-- A way along the edges.
pub data Reach (g : List (ℕ × ℕ)) : ℕ → ℕ → Type 0 where
  here : {a : ℕ} → Reach g a a
  next : {a b c : ℕ} → any (λ e. e.0 == a && e.1 == b) g ≡ true → Reach g b c → Reach g a c

abbrev pub has : ℕ → List ℕ → Bool
has a = any (λ b. b == a)

abbrev pub EachOf : (List ℕ → Type 0) → List (List ℕ) → Type 0
EachOf P [] = Unit
EachOf P (s ∷ ss) = P s × EachOf P ss

-- In each component, every two nodes reach each other.
abbrev pub Connected : List (ℕ × ℕ) → List ℕ → Type 0
Connected g s = (a b : ℕ) → has a s ≡ true → has b s ≡ true → Reach g a b

pub record Petgraph : Type 0 where
  pub tarjan_scc : List (ℕ × ℕ) → List (List ℕ)
  pub connected : (g : List (ℕ × ℕ)) → EachOf (Connected g) (tarjan_scc g)

-- The slab, with the latest entry first; `next` counts the entries from 1 on.
abbrev pub SlabMap : Type 0
SlabMap = List (Expr × ℕ)

unfoldable pub find : Expr → SlabMap → Option ℕ
find e [] = none
find e (x ∷ slab) = let rest = find e slab in if x.0 == e then some x.1 else rest

unfoldable pub or_insert : Expr → SlabMap → Option ℕ → ℕ × SlabMap
or_insert e slab none = (suc (length slab), (e, suc (length slab)) ∷ slab)
or_insert e slab (some n) = (n, slab)

-- `*slab.entry(e).or_insert_with(|| next())`
unfoldable pub entry : Expr → SlabMap → ℕ × SlabMap
unfolding find or_insert
entry e slab = or_insert e slab (find e slab)

-- The slab and the edges, the latest first.
abbrev pub Graph : Type 0
Graph = SlabMap × List (ℕ × ℕ)

unfoldable pub add_edge : Expr → Expr → Graph → Graph
unfolding entry
add_edge e1 e2 g = let n1 = entry e1 g.0 in let n2 = entry e2 n1.1 in (n2.1, (n1.0, n2.0) ∷ g.1)

-- The inner and the outer loop over the operands of an equivalence.
unfoldable pub edges_from : Expr → Exprs → Graph → Graph
unfolding add_edge
edges_from e1 nil g = g
edges_from e1 (cons e2 exprs) g = edges_from e1 exprs (add_edge e1 e2 g)

unfoldable pub edges_between : Exprs → Exprs → Graph → Graph
unfolding edges_from
edges_between nil exprs g = g
edges_between (cons e1 es) exprs g = edges_between es exprs (edges_from e1 exprs g)

unfoldable pub wrong_premise : Op → Expr → ProofCheckError
wrong_premise oper prem = one_of (
    also (dep_of_wrong_form prem impl_place_holder)
      (also (dep_of_wrong_form prem (assoc_place_holder oper)) no_more))

unfoldable pub premise_edges : Op → Expr → Graph → ProofCheckError ⊎ Graph
unfolding edges_between add_edge wrong_premise
premise_edges oper (assoc op exprs) g =
    if op_eq oper op
    then inr (edges_between exprs exprs g)
    else inl (wrong_premise oper (assoc op exprs))
premise_edges oper (impl left right) g = inr (add_edge left right g)
premise_edges oper prem g = inl (wrong_premise oper prem)

-- `?` inside a loop that changes the graph
abbrev pub and_then :
    ProofCheckError ⊎ Graph → (Graph → ProofCheckError ⊎ Graph) → ProofCheckError ⊎ Graph
and_then (inl e) k = inl e
and_then (inr g) k = k g

unfoldable pub all_premise_edges : Op → List Expr → Graph → ProofCheckError ⊎ Graph
unfolding premise_edges
all_premise_edges oper [] g = inr g
all_premise_edges oper (prem ∷ prems) g =
    and_then (premise_edges oper prem g) (λ g. all_premise_edges oper prems g)

-- An edge from the premise of a subproof to each of its expressions.
unfoldable pub edges_to : Expr → List Expr → Graph → Graph
unfolding add_edge
edges_to prem [] g = g
edges_to prem (e ∷ es) g = edges_to prem es (add_edge prem e g)

-- `rslab[i]`
unfoldable pub named_by : ℕ → SlabMap → Option Expr
named_by n [] = none
named_by n (x ∷ slab) = let rest = named_by n slab in if x.1 == n then some x.0 else rest

unfoldable pub component : SlabMap → List ℕ → Option Exprs
unfolding named_by
component slab [] = some nil
component slab (n ∷ s) = named_by n slab >>= λ e. component slab s >>= λ es. some (cons e es)

unfoldable pub components : SlabMap → List (List ℕ) → Option (List Exprs)
unfolding component
components slab [] = some []
components slab (s ∷ ss) = component slab s >>= λ c. components slab ss >>= λ cs. some (c ∷ cs)
