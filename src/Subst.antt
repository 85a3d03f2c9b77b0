-- ===== src/Subst.antt =====
-- `subst` and `Substitution` of aris/src/expr.rs. Below a quantifier the code substitutes twice, in the
-- body and in the result, so the recursion is on fuel; `none` means that the fuel ran out or that
-- `gen_var` panicked.
pub mod Size
pub mod Meaning
pub mod Clear
pub mod Capture
pub mod Tests
use aris.Base.{
  ℕ, zero, suc, String, Bool, Option, none, some, List, [], ◌∷◌, if◌then◌else◌, ◌==◌, string_eq,
  ◌>>=◌, map_option,
}
use aris.Expr.{Expr, Exprs, contra, taut, var, apply, not, impl, assoc, quant, nil, cons}
use aris.Vars.{free_vars, gen_var}

-- `into_iter().map(…).collect()` with a step that can fail.
unfoldable pub traverse : (Expr → Option Expr) → Exprs → Option Exprs
traverse f nil = some nil
traverse f (cons e es) = f e >>= λ e'. traverse f es >>= λ es'. some (cons e' es')

unfoldable pub subst : ℕ → Expr → String → Expr → Option Expr
unfolding traverse
subst zero expr x r = none
subst (suc n) contra x r = some contra
subst (suc n) taut x r = some taut
subst (suc n) (var name) x r = some (if name == x then r else var name)
subst (suc n) (apply func args) x r =
    subst n func x r >>= λ f. traverse (λ e. subst n e x r) args >>= λ args'. some (apply f args')
subst (suc n) (not operand) x r = map_option not (subst n operand x r)
subst (suc n) (impl left right) x r =
    subst n left x r >>= λ l. subst n right x r >>= λ k. some (impl l k)
subst (suc n) (assoc op exprs) x r = map_option (assoc op) (traverse (λ e. subst n e x r) exprs)
subst (suc n) (quant kind old_name body) x r =
    let renamed = gen_var old_name (free_vars r) >>= λ name.
    subst n body old_name (var name) >>= λ body'.
    map_option (quant kind name) (subst n body' x r) in
    if old_name == x then some (quant kind old_name body) else renamed

-- `Substitution::apply`: the pairs in turn.
unfoldable pub apply_all : ℕ → List (String × Expr) → Expr → Option Expr
unfolding subst
apply_all n [] z = some z
apply_all n ((x, y) ∷ rest) z = subst n z x y >>= λ z'. apply_all n rest z'
