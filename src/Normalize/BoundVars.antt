-- ===== src/Normalize/BoundVars.antt =====
-- `replacing_bound_vars` of aris/src/expr.rs. `none` is the panic at a name that is not bound, or the end
-- of the fuel of a substitution.
use aris.Base.{
  ℕ, ◌+◌, String, Option, none, some, ◌>>=◌, map_option, List, [], ◌∷◌, ◌++◌, length, if◌then◌else◌,
  ◌==◌, string_eq,
}
use aris.Expr.{Expr, Exprs, contra, taut, var, apply, not, impl, assoc, quant, nil, cons}
use aris.Vars.{free_vars}
use aris.Vars.Decimal.{to_decimal}
use aris.Subst.{subst}

unfoldable pub or_here : Option ℕ → Option ℕ → Option ℕ
or_here none here = here
or_here (some j) here = some j

-- `rposition`, from the given index on
unfoldable pub rposition : ℕ → String → List String → Option ℕ
unfolding or_here
rposition i name [] = none
rposition i name (n ∷ gamma) =
    or_here (rposition (i + 1) name gamma) (if n == name then some i else none)

unfoldable mutual
  unfolding rposition

  pub number_vars : Expr → List String → Option Expr
  number_vars (var name) gamma = map_option (λ i. var (to_decimal i)) (rposition 0 name gamma)
  number_vars (quant kind name body) gamma =
      map_option (quant kind (to_decimal (length gamma))) (number_vars body (gamma ++ name ∷ []))
  number_vars contra gamma = some contra
  number_vars taut gamma = some taut
  number_vars (apply func args) gamma =
      number_vars func gamma >>= λ f. number_all args gamma >>= λ args'. some (apply f args')
  number_vars (not operand) gamma = map_option not (number_vars operand gamma)
  number_vars (impl left right) gamma =
      number_vars left gamma >>= λ l. number_vars right gamma >>= λ r. some (impl l r)
  number_vars (assoc op exprs) gamma = map_option (assoc op) (number_all exprs gamma)

  pub number_all : Exprs → List String → Option Exprs
  number_all nil gamma = some nil
  number_all (cons e es) gamma =
      number_vars e gamma >>= λ e'. number_all es gamma >>= λ es'. some (cons e' es')

-- The free names take the place of their numbers again.
unfoldable pub restore : ℕ → ℕ → List String → Expr → Option Expr
restore n i [] ret = some ret
restore n i (name ∷ gamma) ret = subst n ret (to_decimal i) (var name) >>= restore n (i + 1) gamma

unfoldable pub replacing_bound_vars : ℕ → Expr → Option Expr
unfolding number_vars restore
replacing_bound_vars n e = number_vars e (free_vars e) >>= restore n 0 (free_vars e)
