-- ===== src/Expr/TwoValued.antt =====
-- The algebra of truth values: a formula of aris/src/expr.rs with its quantifiers over `Bool`. The
-- operator ≡ holds if its operands are all true or all false, a call if its function and all its
-- arguments hold, and the arithmetic operators are false.
use mathlib.Core.List.{foldl}
use aris.Base.{Bool, true, false, not as not_bool, ◌||◌, ◌&&◌, List, all, any}
use aris.Expr.{Op, QuantKind}
use aris.Expr.Eval.{bool_eq}
use aris.Expr.Denote.{Algebra}

abbrev pub connective : Op → List Bool → Bool
connective Op.and bs = all (λ b. b) bs
connective Op.or bs = any (λ b. b) bs
connective Op.bicon bs = foldl bool_eq true bs
connective Op.equiv bs = all (λ b. b) bs || all not_bool bs
connective Op.add bs = false
connective Op.mult bs = false

abbrev pub over_bool : QuantKind → (Bool → Bool) → Bool
over_bool QuantKind.forall f = f true && f false
over_bool QuantKind.exists f = f true || f false

abbrev pub two_valued : Algebra
two_valued = record {
  Value = Bool;
  contradiction = false;
  tautology = true;
  call = λ f args. f && all (λ b. b) args;
  negation = not_bool;
  implication = λ a b. not_bool a || b;
  operation = connective;
  quantifier = over_bool;
}
