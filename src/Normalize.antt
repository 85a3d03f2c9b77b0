-- ===== src/Normalize.antt =====
-- aris/src/expr.rs: the normalizers that run one step through `transform`. Each `…_step` is the closure
-- of the method of that name, and the method runs it with the given rounds and fuel.
pub mod Classical
pub mod Connectives
pub mod Binders
pub mod Lowers
pub mod Forms
pub mod QuantifierForms
pub mod Binary
pub mod Narrow
pub mod BinaryForms
pub mod Prenex
pub mod PrenexOrder
pub mod HalfDeMorgan
pub mod BoundVars
pub mod Tests
use aris.Base.{
  ℕ, String, Bool, true, false, not as not_bool, ◌&&◌, ◌||◌, Option, if◌then◌else◌, ◌==◌, string_eq,
}
use aris.Expr.{Expr, Exprs, Op, QuantKind, not, impl, assoc, quant, nil, cons}
use aris.Vars.{contains, free_vars}
use aris.Transform.{Trans, transform}

-- The derived equality of `Op`.
unfoldable pub op_eq : Op → Op → Bool
op_eq Op.and Op.and = true
op_eq Op.or Op.or = true
op_eq Op.bicon Op.bicon = true
op_eq Op.equiv Op.equiv = true
op_eq Op.add Op.add = true
op_eq Op.mult Op.mult = true
op_eq _ _ = false

unfoldable pub map_exprs : (Expr → Expr) → Exprs → Exprs
map_exprs f nil = nil
map_exprs f (cons e es) = cons (f e) (map_exprs f es)

-- `Vec::extend`, and `flat_map` one vector after the other
unfoldable pub append_exprs : Exprs → Exprs → Exprs
append_exprs nil es = es
append_exprs (cons e es) es' = cons e (append_exprs es es')

-- The closure of the `flat_map` in `normalize_demorgans`.
unfoldable pub flatten_one : Op → Expr → Exprs
flatten_one op (assoc inner_op inner_exprs) =
    if op_eq inner_op op then inner_exprs else cons (assoc inner_op inner_exprs) nil
flatten_one op e = cons e nil

unfoldable pub flatten : Op → Exprs → Exprs
unfolding flatten_one append_exprs
flatten op nil = nil
flatten op (cons e es) = append_exprs (flatten_one op e) (flatten op es)

unfoldable pub demorgans : Op → Exprs → Expr
unfolding map_exprs
demorgans op exprs = assoc op (map_exprs not exprs)

unfoldable pub demorgans_step : Trans
unfolding demorgans flatten
demorgans_step (not (assoc Op.and exprs)) = (demorgans Op.or exprs, true)
demorgans_step (not (assoc Op.or exprs)) = (demorgans Op.and exprs, true)
demorgans_step (assoc Op.and exprs) = (assoc Op.and (flatten Op.and exprs), false)
demorgans_step (assoc Op.or exprs) = (assoc Op.or (flatten Op.or exprs), false)
demorgans_step e = (e, false)

unfoldable pub normalize_demorgans : ℕ → ℕ → Expr → Option Expr
unfolding demorgans_step
normalize_demorgans rounds n = transform rounds n demorgans_step

-- `matches!(e, Expr::Not { .. })`
unfoldable pub is_not : Expr → Bool
is_not (not operand) = true
is_not _ = false

unfoldable pub contraposition_step : Trans
unfolding is_not map_exprs
contraposition_step (assoc Op.bicon (cons a (cons b nil))) =
    if is_not a && is_not b
    then (assoc Op.bicon (cons a (cons b nil)), false)
    else (assoc Op.bicon (cons (not a) (cons (not b) nil)), true)
contraposition_step e = (e, false)

unfoldable pub normalize_biconditional_contraposition : ℕ → ℕ → Expr → Option Expr
normalize_biconditional_contraposition rounds n = transform rounds n contraposition_step

-- The operators that `combine_associative_ops` is to flatten.
unfoldable pub selected : String → Op → Bool
unfolding op_eq
selected t op = (t == "bool" && not_bool (op_eq op Op.bicon)) || (t == "bicon" && op_eq op Op.bicon)

-- What the loop appends for one operand, and whether it sets `combined`.
unfoldable pub combine_one : String → Op → Expr → Exprs × Bool
combine_one t op_1 (assoc op_2 exprs_2) =
    if op_eq op_1 op_2 && selected t op_2
    then (exprs_2, true)
    else (cons (assoc op_2 exprs_2) nil, false)
combine_one t op_1 e = (cons e nil, false)

unfoldable pub combine_from : String → Op → Exprs → Exprs × Bool
unfolding combine_one
combine_from t op_1 nil = (nil, false)
combine_from t op_1 (cons e es) =
    let r = combine_one t op_1 e in
    let rest = combine_from t op_1 es in (append_exprs r.0 rest.0, r.1 || rest.1)

unfoldable pub combine_step : String → Trans
unfolding combine_from selected
combine_step t (assoc op_1 exprs_1) =
    let r = combine_from t op_1 exprs_1 in
    if selected t op_1 then (assoc op_1 r.0, r.1) else (assoc op_1 exprs_1, false)
combine_step t e = (e, false)

unfoldable pub combine_associative_ops : ℕ → ℕ → String → Expr → Option Expr
combine_associative_ops rounds n t = transform rounds n (combine_step t)

unfoldable pub negate_quantifiers_step : Trans
negate_quantifiers_step (not (quant QuantKind.exists name body)) =
    (quant QuantKind.forall name (not body), true)
negate_quantifiers_step (not (quant QuantKind.forall name body)) =
    (quant QuantKind.exists name (not body), true)
negate_quantifiers_step e = (e, false)

unfoldable pub negate_quantifiers : ℕ → ℕ → Expr → Option Expr
negate_quantifiers rounds n = transform rounds n negate_quantifiers_step

unfoldable pub null_quantifiers_step : Trans
null_quantifiers_step (quant kind name body) =
    if contains name (free_vars body) then (quant kind name body, false) else (body, true)
null_quantifiers_step e = (e, false)

unfoldable pub normalize_null_quantifiers : ℕ → ℕ → Expr → Option Expr
normalize_null_quantifiers rounds n = transform rounds n null_quantifiers_step

unfoldable pub opposite : QuantKind → String → Expr → Expr × Bool
opposite QuantKind.exists name body = (quant QuantKind.forall name body, true)
opposite QuantKind.forall name body = (quant QuantKind.exists name body, true)

unfoldable pub aristotelean_square_step : Trans
unfolding opposite
aristotelean_square_step (not (quant kind name (impl left right))) =
    opposite kind name (assoc Op.and (cons left (cons (not right) nil)))
aristotelean_square_step (not (quant kind name (assoc Op.and (cons a (cons b nil))))) =
    opposite kind name (impl a (not b))
aristotelean_square_step e = (e, false)

unfoldable pub aristotelean_square : ℕ → ℕ → Expr → Option Expr
aristotelean_square rounds n = transform rounds n aristotelean_square_step

unfoldable pub quantifier_distribution_step : Trans
unfolding map_exprs
quantifier_distribution_step (quant QuantKind.forall name (assoc Op.and exprs)) =
    (assoc Op.and (map_exprs (quant QuantKind.forall name) exprs), true)
quantifier_distribution_step (quant QuantKind.exists name (assoc Op.or exprs)) =
    (assoc Op.or (map_exprs (quant QuantKind.exists name) exprs), true)
quantifier_distribution_step e = (e, false)

unfoldable pub quantifier_distribution : ℕ → ℕ → Expr → Option Expr
quantifier_distribution rounds n = transform rounds n quantifier_distribution_step
