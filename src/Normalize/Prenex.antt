-- ===== src/Normalize/Prenex.antt =====
-- `normalize_prenex_laws` of aris/src/expr.rs.
use aris.Base.{
  ℕ, String, Bool, true, false, not as not_bool, ◌&&◌, Option, none, some, map_option, List, [],
  ◌∷◌, ◌++◌, if◌then◌else◌,
}
use aris.Expr.{Expr, Exprs, Op, QuantKind, impl, assoc, quant, nil, cons}
use aris.Vars.{contains, free_vars, free_vars_all}
use aris.Transform.{Trans, transform}

abbrev pub Prefix : Type 0
Prefix = List (QuantKind × String)

unfoldable pub is_none : {A : Type 0} → Option A → Bool
is_none none = true
is_none (some a) = false

-- The loop over the operands: the first quantifier whose name is free in none of them is taken off.
unfoldable pub hoist :
    List String → Option (QuantKind × String) → Exprs → Option (QuantKind × String) × Exprs
hoist all_free found nil = (found, nil)
hoist all_free found (cons (quant kind name body) es) =
    let taken = hoist all_free (some (kind, name)) es in
    let left = hoist all_free found es in
    if is_none found && not_bool (contains name all_free)
    then (taken.0, cons body taken.1)
    else (left.0, cons (quant kind name body) left.1)
hoist all_free found (cons e es) = let rest = hoist all_free found es in (rest.0, cons e rest.1)

unfoldable pub around : Op → Option (QuantKind × String) → Exprs → Expr × Bool
around op none others = (assoc op others, false)
around op (some (kind, name)) others = (quant kind name (assoc op others), true)

unfoldable pub transform_7ab : Op → Exprs → Expr × Bool
transform_7ab op exprs = let r = hoist (free_vars_all exprs) none exprs in around op r.0 r.1

unfoldable pub flipped : QuantKind → QuantKind
flipped QuantKind.forall = QuantKind.exists
flipped QuantKind.exists = QuantKind.forall

-- 7d, for a quantifier on the right
unfoldable pub hoist_right : Expr → Expr → Expr × Bool
hoist_right left (quant kind name body) =
    if not_bool (contains name (free_vars left))
    then (quant kind name (impl left body), true)
    else (impl left (quant kind name body), false)
hoist_right left right = (impl left right, false)

-- 7c, for a quantifier on the left, and then 7d
unfoldable pub hoist_impl : Expr → Expr → Expr × Bool
hoist_impl (quant kind name body) right =
    if not_bool (contains name (free_vars right))
    then (quant (flipped kind) name (impl body right), true)
    else hoist_right (quant kind name body) right
hoist_impl left right = hoist_right left right

unfoldable pub prenex_step : Trans
prenex_step (assoc Op.and exprs) = transform_7ab Op.and exprs
prenex_step (assoc Op.or exprs) = transform_7ab Op.or exprs
prenex_step (impl left right) = hoist_impl left right
prenex_step e = (e, false)

-- The prefix of quantifiers, outermost first, and what they stand before.
unfoldable pub peel : Expr → Prefix × Expr
peel (quant kind name body) = let r = peel body in ((kind, name) ∷ r.0, r.1)
peel e = ([], e)

unfoldable pub of_kind : QuantKind → Prefix → Prefix
of_kind k [] = []
of_kind QuantKind.forall ((QuantKind.forall, name) ∷ ps) =
    (QuantKind.forall, name) ∷ of_kind QuantKind.forall ps
of_kind QuantKind.exists ((QuantKind.exists, name) ∷ ps) =
    (QuantKind.exists, name) ∷ of_kind QuantKind.exists ps
of_kind QuantKind.forall ((QuantKind.exists, name) ∷ ps) = of_kind QuantKind.forall ps
of_kind QuantKind.exists ((QuantKind.forall, name) ∷ ps) = of_kind QuantKind.exists ps

-- The stable sort by the two keys.
unfoldable pub sort_by_kind : Prefix → Prefix
unfolding of_kind
sort_by_kind ps = of_kind QuantKind.forall ps ++ of_kind QuantKind.exists ps

unfoldable pub rebuild : Prefix → Expr → Expr
rebuild [] body = body
rebuild (p ∷ ps) body = quant p.0 p.1 (rebuild ps body)

unfoldable pub with_sorted_prefix : Expr → Expr
unfolding peel sort_by_kind rebuild
with_sorted_prefix e = let r = peel e in rebuild (sort_by_kind r.0) r.1

unfoldable pub normalize_prenex_laws : ℕ → ℕ → Expr → Option Expr
normalize_prenex_laws rounds n e = map_option with_sorted_prefix (transform rounds n prenex_step e)
