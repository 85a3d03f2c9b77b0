-- ===== src/Expr/Arities.antt =====
-- `infer_arities` of aris/src/expr.rs: the number of arguments of each free name, as a map. `none` is the
-- panic at a function that is not a name.
use aris.Base.{
  ℕ, suc, String, Option, none, some, ◌>>=◌, map_option, List, [], ◌∷◌, if◌then◌else◌, ltb, ◌==◌,
  string_eq,
}
use aris.Expr.{Expr, Exprs, contra, taut, var, apply, not, impl, assoc, quant, nil, cons}
use aris.Pool.{lookup, store}

abbrev pub Arities : Type 0
Arities = List (String × ℕ)

unfoldable pub larger : ℕ → Option ℕ → ℕ
larger a none = a
larger a (some b) = if ltb a b then b else a

-- `or_insert`, and then the larger of the two.
unfoldable pub raise : String → ℕ → Arities → Arities
unfolding larger
raise name arity arities = store name (larger arity (lookup name arities)) arities

unfoldable pub count_args : Exprs → ℕ
count_args nil = 0
count_args (cons e es) = suc (count_args es)

-- The loop over what the body of a quantifier has, but for the bound name.
unfoldable pub raise_all : String → Arities → Arities → Arities
unfolding raise
raise_all name [] arities = arities
raise_all name (p ∷ body_arities) arities =
    raise_all name body_arities (if p.0 == name then arities else raise p.0 p.1 arities)

unfoldable mutual
  unfolding raise raise_all count_args

  pub infer_arities : Expr → Arities → Option Arities
  infer_arities contra arities = some arities
  infer_arities taut arities = some arities
  infer_arities (var name) arities = some (raise name 0 arities)
  infer_arities (apply (var name) args) arities =
      infer_all args (raise name (count_args args) arities)
  infer_arities (apply _ args) arities = none
  infer_arities (not operand) arities = infer_arities operand arities
  infer_arities (impl left right) arities = infer_arities left arities >>= infer_arities right
  infer_arities (assoc op exprs) arities = infer_all exprs arities
  infer_arities (quant kind name body) arities =
      map_option (λ body_arities. raise_all name body_arities arities) (infer_arities body [])

  pub infer_all : Exprs → Arities → Option Arities
  infer_all nil arities = some arities
  infer_all (cons e es) arities = infer_arities e arities >>= infer_all es
