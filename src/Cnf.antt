-- ===== src/Cnf.antt =====
-- aris/src/expr.rs: conjunctive normal form. The clauses of a disjunction are products of the
-- operands' clauses, by the crate `itertools`.
pub mod Meaning
pub mod Convert
mod Tests
use aris.Base.{
  String, Bool, true, false, List, [], ◌∷◌, map, flatten, flat_map, all, any, CartesianProduct,
  Option, map_option,
}
use aris.Expr.{Expr}
use aris.Nnf.{NnfExpr, NnfExprs, lit, Valuation, polar}
use aris.Nnf
use aris.Nnf.Convert.{into_nnf}

abbrev pub Literal : Type 0
Literal = Bool × String

abbrev pub Clause : Type 0
Clause = List Literal

-- The outer list is a conjunction of clauses, the inner ones are disjunctions of literals.
pub record CnfExpr : Type 0 where
  pub clauses : List Clause

abbrev pub cnf : List Clause → CnfExpr
cnf cs = record { clauses = cs }

unfoldable pub taut : CnfExpr
taut = cnf []

unfoldable pub contra : CnfExpr
contra = cnf ([] ∷ [])

unfoldable pub literal : Bool → String → CnfExpr
literal polarity name = cnf (((polarity, name) ∷ []) ∷ [])

unfoldable pub var : String → CnfExpr
unfolding literal
var name = literal true name

unfoldable pub and : List CnfExpr → CnfExpr
and exprs = cnf (flat_map (λ e. e.clauses) exprs)

-- `if clauses.is_empty()`
or_clauses : List Clause → CnfExpr
or_clauses [] = contra
or_clauses (c ∷ cs) = cnf (c ∷ cs)

module _ (crate : CartesianProduct) where
  unfoldable pub or : List CnfExpr → CnfExpr
  unfolding or_clauses
  or exprs =
      or_clauses (map flatten (crate.multi_cartesian_product Clause (map (λ e. e.clauses) exprs)))

unfoldable mutual
  pub into_cnf : CartesianProduct → NnfExpr → CnfExpr
  into_cnf crate (lit polarity name) = literal polarity name
  into_cnf crate (Nnf.and exprs) = and (map_cnf crate exprs)
  into_cnf crate (Nnf.or exprs) = or crate (map_cnf crate exprs)

  pub map_cnf : CartesianProduct → NnfExprs → List CnfExpr
  map_cnf crate Nnf.nil = []
  map_cnf crate (Nnf.cons e es) = into_cnf crate e ∷ map_cnf crate es

-- `Expr::into_cnf`
unfoldable pub expr_into_cnf : CartesianProduct → Expr → Option CnfExpr
expr_into_cnf crate e = map_option (into_cnf crate) (into_nnf e)

-- The meaning.
abbrev pub lit_holds : Valuation → Literal → Bool
lit_holds v l = polar l.0 (v l.1)

abbrev pub clause_holds : Valuation → Clause → Bool
clause_holds v = any (lit_holds v)

abbrev pub clauses_hold : Valuation → List Clause → Bool
clauses_hold v = all (clause_holds v)

unfoldable pub cnf_holds : Valuation → CnfExpr → Bool
cnf_holds v e = clauses_hold v e.clauses
