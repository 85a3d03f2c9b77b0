-- ===== src/Rules/Propositional/Graph/Check.antt =====
-- The check of `BiconditionalIntro` and `EquivalenceIntro` of aris/src/rules.rs, on the graph of the dependencies.
use Prim.Native.String.{◌++◌}
use aris.Base.{
  String, ℕ, Bool, true, false, not as not_bool, ◌||◌, ◌&&◌, Option, none, some, List, [], ◌∷◌,
  length, any, if◌then◌else◌, ◌==◌, nat_eq,
}
use aris.Expr.{Expr, Exprs, Op, var, assoc, nil, cons}
use aris.Expr.Show.{to_string}
use aris.Expr.Build.{assoc_place_holder}
use aris.Pool.{PjRef, PooledProof, PooledSubproof}
use aris.Pool.Lines.{
  lookup_expr_or_die, lookup_premise_or_die, lookup_subproof_or_die, exprs as proof_exprs,
}
use aris.Pool.Scope.{conclusion_of_wrong_form, other}
use aris.Rules.Order.{Checked}
use aris.Rules.Check.{try, or_panic, index, exprs_contain, exprs_len}
use aris.Rules.Propositional.Subproofs.{collect, premise_keys}
use aris.Rules.Propositional.Graph.{Petgraph, Graph, entry, edges_to, all_premise_edges, components}

-- Whether all operands are in one component.
unfoldable pub all_contained : Exprs → Exprs → Bool
all_contained nil s = true
all_contained (cons e exprs) s = exprs_contain e s && all_contained exprs s

unfoldable pub in_some : List Exprs → Expr → Bool
in_some sccs e = any (exprs_contain e) sccs

-- `exprs.iter().find(|e| !sccs.iter().any(|s| s.contains(e)))`
unfoldable pub outside_all : List Exprs → Exprs → Option Expr
unfolding in_some
outside_all sccs nil = none
outside_all sccs (cons e exprs) =
    let rest = outside_all sccs exprs in if in_some sccs e then rest else some e

-- Some component holds `e2`, and neither it nor a later one holds `e1`.
unfoldable pub unreachable : Expr → Expr → List Exprs → Bool
unfolding in_some
unreachable e1 e2 [] = false
unreachable e1 e2 (s ∷ sccs) =
    (exprs_contain e2 s && not_bool (in_some (s ∷ sccs) e1)) || unreachable e1 e2 sccs

-- The first pair of operands that the test holds for.
unfoldable pub find_second : (Expr → Bool) → Exprs → Option Expr
find_second test nil = none
find_second test (cons e exprs) =
    let rest = find_second test exprs in if test e then some e else rest

unfoldable pub pair_or : Expr → Option Expr → Option (Expr × Expr) → Option (Expr × Expr)
pair_or e1 none rest = rest
pair_or e1 (some e2) rest = some (e1, e2)

unfoldable pub find_pair : (Expr → Expr → Bool) → Exprs → Exprs → Option (Expr × Expr)
unfolding find_second pair_or
find_pair test nil exprs = none
find_pair test (cons e1 es) exprs =
    pair_or e1 (find_second (test e1) exprs) (find_pair test es exprs)

unfoldable pub pair_text : Option (Expr × Expr) → String
pair_text none = ""
pair_text (some (e1, e2)) =
    "\nThe expression "
    ++ (to_string e2 ++ (" is unreachable from " ++ (to_string e1 ++ " by the premises.")))

unfoldable pub reason : List Exprs → Exprs → Option Expr → String
unfolding pair_text find_pair unreachable
reason sccs exprs none = pair_text (find_pair (λ e1 e2. unreachable e1 e2 sccs) exprs exprs)
reason sccs exprs (some e) =
    "\nThe expression "
    ++ (to_string e ++ " occurs in the conclusion, but not in any of the premises.")

unfoldable pub errstring : List Exprs → Exprs → String
unfolding reason outside_all
errstring sccs exprs =
    "Not all elements of the conclusion are mutually implied by the premises."
    ++ reason sccs exprs (outside_all sccs exprs)

unfoldable pub mutually_implied : Exprs → List Exprs → Checked
unfolding all_contained errstring
mutually_implied exprs sccs =
    if any (all_contained exprs) sccs
    then Checked.ok
    else Checked.err (other (errstring sccs exprs))

unfoldable pub from_graph : Petgraph → Exprs → Graph → Checked
unfolding components mutually_implied
from_graph petgraph exprs g =
    or_panic (components g.0 (petgraph.tarjan_scc g.1)) (mutually_implied exprs)

module _ {R : Type 0} (p : PooledProof Expr R) where
  -- One round of the loop over the subproofs, and what follows it.
  unfoldable pub edges_of : PooledSubproof → Graph → (Graph → Checked) → Checked
  unfolding entry edges_to collect
  edges_of sproof g k = index (premise_keys sproof) 0 λ r. try (lookup_premise_or_die p r) λ prem.
      try (collect (lookup_expr_or_die p) (proof_exprs sproof))
        λ es. k (edges_to prem es ((entry prem g.0).1, g.1))

  unfoldable pub subproof_edges : PooledSubproof → Graph → (Graph → Checked) → Checked
  unfolding edges_of
  subproof_edges sproof g k =
      if length (premise_keys sproof) == 1 then edges_of sproof g k else Checked.panic

  unfoldable pub all_subproof_edges : List PooledSubproof → Graph → (Graph → Checked) → Checked
  unfolding subproof_edges
  all_subproof_edges [] g k = k g
  all_subproof_edges (sproof ∷ sproofs) g k =
      subproof_edges sproof g (λ g. all_subproof_edges sproofs g k)

module _ (petgraph : Petgraph) {R : Type 0} (p : PooledProof Expr R) where
  unfoldable pub by_graph : Op → Exprs → List PjRef → List ℕ → Checked
  unfolding collect all_premise_edges all_subproof_edges from_graph
  by_graph oper exprs deps sdeps = try (collect (lookup_expr_or_die p) deps) λ prems.
      try (collect (lookup_subproof_or_die p) sdeps) λ sproofs.
        try (all_premise_edges oper prems ([], []))
          λ g. all_subproof_edges p sproofs g (from_graph petgraph exprs)

  unfoldable pub biconditional_intro : Expr → List PjRef → List ℕ → Checked
  unfolding by_graph exprs_len
  biconditional_intro (assoc Op.bicon exprs) deps sdeps =
      if exprs_len exprs == 2
      then by_graph Op.bicon exprs deps sdeps
      else Checked.err
          (conclusion_of_wrong_form (assoc Op.bicon (cons (var "_") (cons (var "_") nil))))
  biconditional_intro conclusion deps sdeps =
      Checked.err (conclusion_of_wrong_form (assoc_place_holder Op.bicon))

  unfoldable pub equivalence_intro : Expr → List PjRef → List ℕ → Checked
  unfolding by_graph
  equivalence_intro (assoc Op.equiv exprs) deps sdeps = by_graph Op.equiv exprs deps sdeps
  equivalence_intro conclusion deps sdeps =
      Checked.err (conclusion_of_wrong_form (assoc_place_holder Op.equiv))
