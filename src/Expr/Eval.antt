-- ===== src/Expr/Eval.antt =====
-- `Expr::eval` of aris/src/expr.rs. `none` stands for a panic: an unbound name, a truth table that
-- is too short, a shift past the width of `usize`, a quantifier, an arithmetic operator or a call
-- whose function is not a variable.
use Prim.Native.Nat.{bit_or}
use mathlib.Core.List.{foldl}
use aris.Base.{
  ℕ, ◌+◌, ◌*◌, ◌^◌, String, Bool, true, false, not as not_bool, ◌||◌, ◌&&◌, Option, none, some,
  List, [], ◌∷◌, get_elem?, if◌then◌else◌, leb, ◌>>=◌,
}
use aris.Expr.{Expr, Exprs, Op, contra, taut, var, apply, not, impl, assoc, quant, nil, cons}

-- Truth tables by name: `HashMap<String, Vec<bool>>`.
abbrev pub Env : Type 0
Env = String → Option (List Bool)

abbrev pub bit : Bool → ℕ
bit true = 1
bit false = 0

-- `index |= (x as usize) << i` for each argument, with a 64-bit `usize`.
index_from : ℕ → ℕ → List Bool → Option ℕ
index_from i index [] = some index
index_from i index (x ∷ xs) =
    let rest = index_from (i + 1) (bit_or index (bit x * 2 ^ i)) xs in
    if leb 64 i then none else rest

abbrev pub bool_eq : Bool → Bool → Bool
bool_eq true y = y
bool_eq false y = not_bool y

-- The start value and the function of each operator's loop.
unfoldable pub fold_of : Op → Option (Bool × (Bool → Bool → Bool))
fold_of Op.and = some (true, λ x y. x && y)
fold_of Op.or = some (false, λ x y. x || y)
fold_of Op.bicon = some (true, bool_eq)
fold_of Op.equiv = none
fold_of Op.add = none
fold_of Op.mult = none

unfoldable mutual
  unfolding fold_of index_from

  pub eval : Env → Expr → Option Bool
  eval env contra = some false
  eval env taut = some true
  eval env (var name) = env name >>= λ table. get_elem? table 0
  eval env (apply (var name) args) = eval_exprs env args >>= λ xs.
      index_from 0 0 xs >>= λ index. env name >>= λ table. get_elem? table index
  eval env (apply _ args) = none
  eval env (not operand) = eval env operand >>= λ x. some (not_bool x)
  eval env (impl left right) = eval env left >>= λ x. eval env right >>= λ y. some (not_bool x || y)
  eval env (assoc op exprs) =
      fold_of op >>= λ start. eval_exprs env exprs >>= λ bs. some (foldl start.1 start.0 bs)
  eval env (quant kind name body) = none

  pub eval_exprs : Env → Exprs → Option (List Bool)
  eval_exprs env nil = some []
  eval_exprs env (cons e es) = eval env e >>= λ b. eval_exprs env es >>= λ bs. some (b ∷ bs)
