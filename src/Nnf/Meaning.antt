-- ===== src/Nnf/Meaning.antt =====
-- What the operations of `NnfExpr` in aris/src/expr.rs mean.
use mathlib.Core.List.{foldl}
use aris.Base.{Bool, true, false, not as not_bool, ◌||◌, ◌&&◌, some, ◌≡◌, refl, ap, ◌∙◌, arith}
use aris.Expr.Eval.{bool_eq}
use aris.Nnf.{
  NnfExpr, NnfExprs, lit, or, and, nil, cons, not, map_not, implies, bicon, reduce_from,
  reduce_bicon, Valuation, polar, holds, any_holds, all_hold, values,
}

polar-not : (p b : Bool) → polar (not_bool p) b ≡ not_bool (polar p b)
polar-not true b = refl
polar-not false true = refl
polar-not false false = refl

de_morgan_or : (a b : Bool) → not_bool (a && b) ≡ not_bool a || not_bool b
de_morgan_or true b = refl
de_morgan_or false b = refl

de_morgan_and : (a b : Bool) → not_bool (a || b) ≡ not_bool a && not_bool b
de_morgan_and true b = refl
de_morgan_and false b = refl

mutual
  unfolding holds not

  holds-not_aux : (v : Valuation) (n : NnfExpr) → holds v (not n) ≡ not_bool (holds v n)
  holds-not_aux v (lit p name) = polar-not p (v name)
  holds-not_aux v (or es) = all_hold-map_not v es
  holds-not_aux v (and es) = any_holds-map_not v es

  all_hold-map_not :
      (v : Valuation) (es : NnfExprs) → all_hold v (map_not es) ≡ not_bool (any_holds v es)
  all_hold-map_not v nil = refl
  all_hold-map_not v (cons e es) =
      cc (holds-not_aux v e, all_hold-map_not v es, de_morgan_and (holds v e) (any_holds v es))

  any_holds-map_not :
      (v : Valuation) (es : NnfExprs) → any_holds v (map_not es) ≡ not_bool (all_hold v es)
  any_holds-map_not v nil = refl
  any_holds-map_not v (cons e es) =
      cc (holds-not_aux v e, any_holds-map_not v es, de_morgan_or (holds v e) (all_hold v es))

-- Negation pushed inwards negates the meaning.
pub holds-not : (v : Valuation) (n : NnfExpr) → holds v (not n) ≡ not_bool (holds v n)
holds-not v n = holds-not_aux v n

pub holds-implies :
    (v : Valuation) (l r : NnfExpr) → holds v (implies l r) ≡ not_bool (holds v l) || holds v r
unfolding holds implies
holds-implies v l r = rw (holds-not v l) (ground arith)

pub holds-bicon :
    (v : Valuation) (l r : NnfExpr) → holds v (bicon l r) ≡ bool_eq (holds v l) (holds v r)
unfolding holds bicon
holds-bicon v l r = rw (holds-not v l, holds-not v r) (ground arith)

holds-reduce_from :
    (v : Valuation) (acc : NnfExpr) (es : NnfExprs)
    → holds v (reduce_from acc es) ≡ foldl bool_eq (holds v acc) (values v es)
unfolding reduce_from values
holds-reduce_from v acc nil = refl
holds-reduce_from v acc (cons e es) =
    holds-reduce_from v (bicon acc e) es
    ∙ ap (λ b. foldl bool_eq b (values v es)) (holds-bicon v acc e)

-- The reduction of a biconditional means what the loop of `eval` computes from `true`.
pub holds-reduce_bicon :
    (v : Valuation) (es : NnfExprs) {n : NnfExpr}
    → reduce_bicon es ≡ some n
    → holds v n ≡ foldl bool_eq true (values v es)
unfolding reduce_bicon values
holds-reduce_bicon v nil h = cc
holds-reduce_bicon v (cons e es) h = cc (holds-reduce_from v e es)

-- The loops of `eval` for the other two connectives, from any start.
pub foldl-and :
    (v : Valuation) (es : NnfExprs) (b : Bool)
    → foldl (λ x y. x && y) b (values v es) ≡ b && all_hold v es
unfolding values holds
foldl-and v nil true = refl
foldl-and v nil false = refl
foldl-and v (cons e es) b = foldl-and v es (b && holds v e) ∙ ground arith

pub foldl-or :
    (v : Valuation) (es : NnfExprs) (b : Bool)
    → foldl (λ x y. x || y) b (values v es) ≡ b || any_holds v es
unfolding values holds
foldl-or v nil true = refl
foldl-or v nil false = refl
foldl-or v (cons e es) b = foldl-or v es (b || holds v e) ∙ ground arith
