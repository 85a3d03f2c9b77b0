-- ===== src/Nnf.antt =====
-- aris/src/expr.rs: negation normal form, and what a formula in it means.
pub mod Meaning
pub mod Convert
pub mod Total
pub mod Tests
use mathlib.Core.List.{foldl}
use aris.Base.{
  String, Bool, true, false, not as not_bool, ◌||◌, ◌&&◌, List, [], ◌∷◌, Option, none, some,
}

-- `and` and `or` hold a `Vec<NnfExpr>`.
mutual
  pub data NnfExpr : Type 0 where
    lit : Bool → String → NnfExpr
    or : NnfExprs → NnfExpr
    and : NnfExprs → NnfExpr

  pub data NnfExprs : Type 0 where
    nil : NnfExprs
    cons : NnfExpr → NnfExprs → NnfExprs

unfoldable pub taut : NnfExpr
taut = and nil

unfoldable pub contra : NnfExpr
contra = or nil

unfoldable pub var : String → NnfExpr
var name = lit true name

unfoldable mutual
  pub not : NnfExpr → NnfExpr
  not (lit polarity name) = lit (not_bool polarity) name
  not (and exprs) = or (map_not exprs)
  not (or exprs) = and (map_not exprs)

  pub map_not : NnfExprs → NnfExprs
  map_not nil = nil
  map_not (cons e es) = cons (not e) (map_not es)

unfoldable pub implies : NnfExpr → NnfExpr → NnfExpr
implies left right = or (cons (not left) (cons right nil))

unfoldable pub bicon : NnfExpr → NnfExpr → NnfExpr
unfolding implies
bicon left right = and (cons (implies left right) (cons (implies right left) nil))

-- `into_iter().reduce(NnfExpr::bicon)`
reduce_from : NnfExpr → NnfExprs → NnfExpr
reduce_from acc nil = acc
reduce_from acc (cons e es) = reduce_from (bicon acc e) es

unfoldable pub reduce_bicon : NnfExprs → Option NnfExpr
unfolding reduce_from
reduce_bicon nil = none
reduce_bicon (cons e es) = some (reduce_from e es)

abbrev pub Valuation : Type 0
Valuation = String → Bool

abbrev pub polar : Bool → Bool → Bool
polar true b = b
polar false b = not_bool b

-- The meaning: an empty `and` is true and an empty `or` is false.
unfoldable mutual
  pub holds : Valuation → NnfExpr → Bool
  holds v (lit polarity name) = polar polarity (v name)
  holds v (or es) = any_holds v es
  holds v (and es) = all_hold v es

  pub any_holds : Valuation → NnfExprs → Bool
  any_holds v nil = false
  any_holds v (cons e es) = holds v e || any_holds v es

  pub all_hold : Valuation → NnfExprs → Bool
  all_hold v nil = true
  all_hold v (cons e es) = holds v e && all_hold v es

unfoldable pub values : Valuation → NnfExprs → List Bool
values v nil = []
values v (cons e es) = holds v e ∷ values v es
