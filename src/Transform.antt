-- ===== src/Transform.antt =====
-- `Expr::transform` of aris/src/expr.rs: a rewriting step is tried at every node, top down, and the
-- whole pass is repeated until no step reports a change. The recursion is into the rewritten node, so
-- it is on fuel, and the loop has fuel of its own; `none` means that either ran out.
pub mod Denotes
pub mod Weight
pub mod Ends
pub mod Fixpoint
use aris.Base.{
  ℕ, zero, suc, Bool, true, false, ◌||◌, Option, none, some, ◌>>=◌, map_option, if◌then◌else◌,
}
use aris.Expr.{Expr, Exprs, contra, taut, var, apply, not, impl, assoc, quant, nil, cons}

-- A step: the new expression, and whether the code should try again.
abbrev pub Trans : Type 0
Trans = Expr → Expr × Bool

-- The operands in order, and whether any of them changed: `map(…).unzip()` and `any`.
unfoldable pub traverse_status : (Expr → Option (Expr × Bool)) → Exprs → Option (Exprs × Bool)
traverse_status f nil = some (nil, false)
traverse_status f (cons e es) =
    f e >>= λ r. traverse_status f es >>= λ rs. some (cons r.0 rs.0, r.1 || rs.1)

-- The second half of `transform_expr_inner`, on the operands of the rewritten node.
unfoldable pub operands : (Expr → Option (Expr × Bool)) → Expr → Option (Expr × Bool)
unfolding traverse_status
operands f contra = some (contra, false)
operands f taut = some (taut, false)
operands f (var name) = some (var name, false)
operands f (apply func args) =
    f func >>= λ r. traverse_status f args >>= λ rs. some (apply r.0 rs.0, r.1 || rs.1)
operands f (not operand) = f operand >>= λ r. some (not r.0, r.1)
operands f (impl left right) = f left >>= λ l. f right >>= λ r. some (impl l.0 r.0, l.1 || r.1)
operands f (assoc op exprs) = traverse_status f exprs >>= λ rs. some (assoc op rs.0, rs.1)
operands f (quant kind name body) = f body >>= λ r. some (quant kind name r.0, r.1)

unfoldable pub transform_expr_inner : ℕ → Trans → Expr → Option (Expr × Bool)
unfolding operands
transform_expr_inner zero trans e = none
transform_expr_inner (suc n) trans e =
    let result = (trans e).0 in
    let status = (trans e).1 in
    operands (λ e. transform_expr_inner n trans e) result >>= λ r. some (r.0, status || r.1)

-- The loop of `transform`, entered with the result of the pass before.
unfoldable pub transform_while : ℕ → ℕ → Trans → Expr × Bool → Option Expr
transform_while zero n trans r = if r.1 then none else some r.0
transform_while (suc rounds) n trans r =
    let rest = transform_expr_inner n trans r.0 >>= transform_while rounds n trans in
    if r.1 then rest else some r.0

unfoldable pub transform : ℕ → ℕ → Trans → Expr → Option Expr
unfolding transform_while
transform rounds n trans e = transform_expr_inner n trans e >>= transform_while rounds n trans
