-- ===== src/Vars.antt =====
-- aris/src/expr.rs: sets of names, free variables and fresh names. A `HashSet<String>` is a list
-- without repetition; the code observes its members, and its order nowhere here.
pub mod Decimal
pub mod Fresh
pub mod Occurs
pub mod Tests
use Prim.Native.String.{◌++◌ as append}
use aris.Base.{
  ℕ, zero, suc, ◌+◌, ◌^◌, String, Bool, true, false, not as not_bool, Option, none, some, List, [],
  ◌∷◌, any, if◌then◌else◌, ◌==◌, string_eq, length,
}
use aris.Expr.{Expr, Exprs, QuantKind, contra, taut, var, apply, not, impl, assoc, quant, nil, cons}
use Decimal.{to_decimal}

abbrev pub contains : String → List String → Bool
contains x = any (λ y. y == x)

unfoldable pub insert : String → List String → List String
insert x s = if contains x s then s else x ∷ s

-- `extend`, `collect` and `|`
unfoldable pub extend : List String → List String → List String
extend s [] = s
extend s (x ∷ xs) = insert x (extend s xs)

unfoldable pub remove : String → List String → List String
remove x [] = []
remove x (y ∷ s) = if y == x then remove x s else y ∷ remove x s

unfoldable mutual
  pub free_vars : Expr → List String
  free_vars contra = []
  free_vars taut = []
  free_vars (var name) = name ∷ []
  free_vars (apply func args) = extend (free_vars func) (free_vars_all args)
  free_vars (not operand) = free_vars operand
  free_vars (impl left right) = extend (free_vars left) (free_vars right)
  free_vars (assoc op exprs) = free_vars_all exprs
  free_vars (quant kind name body) = remove name (free_vars body)

  pub free_vars_all : Exprs → List String
  free_vars_all nil = []
  free_vars_all (cons e es) = extend (free_vars e) (free_vars_all es)

-- `format!("{prefix}{i}")`
abbrev pub numbered : String → ℕ → String
numbered prefix i = append prefix (to_decimal i)

-- The loop of `gen_var` from `i` on, with the numbers that are left as fuel. `none` is the panic.
unfoldable pub gen_from : ℕ → ℕ → String → List String → Option String
gen_from zero i prefix avoid = none
gen_from (suc fuel) i prefix avoid =
    let rest = gen_from fuel (i + 1) prefix avoid in
    if contains (numbered prefix i) avoid then rest else some (numbered prefix i)

unfoldable pub gen_var : String → List String → Option String
gen_var prefix avoid =
    let rest = gen_from (2 ^ 64) 0 prefix avoid in
    if not_bool (contains prefix avoid) then some prefix else rest
