-- ===== src/Normalize/HalfDeMorgan.antt =====
-- `normalize_halfdemorgans` of aris/src/expr.rs.
use mathlib.Core.List.{map}
use aris.Base.{List, [], ◌∷◌, ◌++◌}
use aris.Expr.{Expr, Exprs, Op, not, assoc, nil, cons, to_list, from_list}

-- The inner loop: `e` before each of the elements after it.
unfoldable pub pairs_with : Expr → List Expr → List Expr
pairs_with e [] = []
pairs_with e (f ∷ fs) = e ∷ f ∷ pairs_with e fs

unfoldable pub combine_possibilities : List Expr → List Expr
unfolding pairs_with
combine_possibilities [] = []
combine_possibilities (e ∷ es) = pairs_with e es ++ combine_possibilities es

unfoldable pub combine_associations : List (List Expr) → List Expr → List (List Expr)
combine_associations [] new_exprs = []
combine_associations (comb ∷ existing) new_exprs =
    map (λ e. comb ++ e ∷ []) new_exprs ++ combine_associations existing new_exprs

unfoldable mutual
  unfolding combine_possibilities combine_associations to_list from_list

  pub normalize_halfdemorgans : Expr → List Expr
  normalize_halfdemorgans (not (assoc Op.or exprs)) =
      combine_possibilities (map not (to_list exprs))
  normalize_halfdemorgans (not operand) = not operand ∷ []
  normalize_halfdemorgans (assoc op exprs) =
      map (λ es. assoc op (from_list es)) (combine_all ([] ∷ []) exprs)
  normalize_halfdemorgans e = e ∷ []

  -- The loop over the operands, from what is combined so far.
  pub combine_all : List (List Expr) → Exprs → List (List Expr)
  combine_all combined nil = combined
  combine_all combined (cons e es) =
      combine_all (combine_associations combined (normalize_halfdemorgans e)) es
