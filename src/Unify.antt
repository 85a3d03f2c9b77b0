-- ===== src/Unify.antt =====
-- `unify` of aris/src/expr.rs. A hash set is a list without repetition, and which of its constraints it
-- yields first is a parameter. The calls are on fuel: `none` means that it ran out or that `gen_var` panicked;
-- the code's own `None` is `some none`.
pub mod Plain
pub mod Sets
pub mod View
pub mod Terms
pub mod Clash
pub mod Operands
pub mod Correct
pub mod Sound
pub mod General
pub mod Names
pub mod Ends
pub mod Apply
mod Tests
use aris.Base.{
  ℕ, zero, suc, String, Bool, true, false, ◌&&◌, ◌||◌, Option, none, some, List, [], ◌∷◌, ◌++◌, any,
  length, if◌then◌else◌, ◌==◌, string_eq, nat_eq, ◌>>=◌, map_option,
}
use aris.Expr.{
  Expr, Exprs, QuantKind, contra, taut, var, apply, not, impl, assoc, quant, nil, cons, to_list,
}
use aris.Expr.Equal.{expr_beq, kind_beq, expr_eq}
use aris.Expr.Size.{size}
use aris.Normalize.{op_eq}
use aris.Vars.{contains, free_vars, extend, gen_var}
use aris.Subst.{subst}

pub data Constraint : Type 0 where
  equal : Expr → Expr → Constraint

abbrev pub Substitution : Type 0
Substitution = List (String × Expr)

-- The derived equality.
unfoldable pub constraint_beq : Constraint → Constraint → Bool
constraint_beq (equal a b) (equal a' b') = expr_beq a a' && expr_beq b b'

unfoldable pub insert_constraint : Constraint → List Constraint → List Constraint
insert_constraint c s = if any (constraint_beq c) s then s else c ∷ s

unfoldable pub extend_constraints : List Constraint → List Constraint → List Constraint
extend_constraints s [] = s
extend_constraints s (c ∷ cs) = extend_constraints (insert_constraint c s) cs

-- The constraint at a place, the last one if the place is past the end, and the others.
unfoldable pub take_out : ℕ → List Constraint → Option (Constraint × List Constraint)
take_out i [] = none
take_out zero (c ∷ s) = some (c, s)
take_out (suc i) (c ∷ []) = some (c, [])
take_out (suc i) (c ∷ d ∷ s) = map_option (λ p. (p.0, c ∷ p.1)) (take_out i (d ∷ s))

unfoldable pub subst_set : String → Expr → List Constraint → Option (List Constraint)
subst_set x e1 [] = some []
subst_set x e1 (equal e2 e3 ∷ set) = subst (size e2) e2 x e1 >>= λ left.
    subst (size e3) e3 x e1 >>= λ right.
    map_option (insert_constraint (equal left right)) (subst_set x e1 set)

-- The name of a variable that is not free in the other side.
unfoldable pub assignable : Expr → Expr → Option String
assignable (var name) other = if contains name (free_vars other) then none else some name
assignable _ other = none

unfoldable pub zip_equal : Exprs → Exprs → List Constraint
zip_equal (cons x xs) (cons y ys) = equal x y ∷ zip_equal xs ys
zip_equal _ _ = []

abbrev pub same_len : Exprs → Exprs → Bool
same_len xs ys = length (to_list xs) == length (to_list ys)

-- The constraints on the operands, where both sides have the same form.
unfoldable pub operand_constraints : Expr → Expr → Option (List Constraint)
operand_constraints (not s) (not t) = some (equal s t ∷ [])
operand_constraints (impl sl sr) (impl tl tr) = some (equal sl tl ∷ equal sr tr ∷ [])
operand_constraints (apply sf sa) (apply tf ta) =
    if same_len sa ta then some (equal sf tf ∷ zip_equal sa ta) else none
operand_constraints (assoc so se) (assoc to te) =
    if op_eq so to && same_len se te then some (zip_equal se te) else none
operand_constraints _ _ = none

-- The constant of a quantifier escapes.
unfoldable pub escapes : String → Substitution → Bool
escapes uv sub = any (λ p. p.0 == uv || contains uv (free_vars p.1)) sub

unfoldable pub within_binder : String → Option Substitution → Option Substitution
within_binder uv none = none
within_binder uv (some sub) = if escapes uv sub then none else some sub

-- `unify` is the first argument of the parts of its body.
abbrev pub Unifier : Type 0
Unifier = List Constraint → Option (Option Substitution)

unfoldable pub assign : Unifier → String → Expr → List Constraint → Option (Option Substitution)
assign unify x e c =
    subst_set x e c >>= λ c'. map_option (map_option (λ sub. sub ++ ((x, e) ∷ []))) (unify c')

unfoldable pub with_operands :
    Unifier → List Constraint → Option (List Constraint) → Option (Option Substitution)
with_operands unify c none = some none
with_operands unify c (some cs) = unify (extend_constraints c cs)

unfoldable pub under_binders :
    Unifier
    → Expr
    → Expr
    → String
    → Expr
    → String
    → Expr
    → List Constraint
    → Bool
    → Option (Option Substitution)
under_binders unify left right sn sb tn tb c false = some none
under_binders unify left right sn sb tn tb c true =
    gen_var "__unification_var" (extend (free_vars left) (free_vars right)) >>= λ uv.
    subst (size sb) sb sn (var uv) >>= λ s. subst (size tb) tb tn (var uv) >>= λ t.
    map_option (within_binder uv) (unify (insert_constraint (equal s t) c))

unfoldable pub decompose : Unifier → Expr → Expr → List Constraint → Option (Option Substitution)
decompose unify (quant sk sn sb) (quant tk tn tb) c =
    under_binders unify (quant sk sn sb) (quant tk tn tb) sn sb tn tb c (kind_beq sk tk)
decompose unify left right c = with_operands unify c (operand_constraints left right)

unfoldable pub try_right :
    Unifier → Expr → Expr → List Constraint → Option String → Option (Option Substitution)
try_right unify left right c (some tname) = assign unify tname left c
try_right unify left right c none = decompose unify left right c

unfoldable pub try_left :
    Unifier → Expr → Expr → List Constraint → Option String → Option (Option Substitution)
try_left unify left right c (some sname) = assign unify sname right c
try_left unify left right c none = try_right unify left right c (assignable right left)

unfoldable pub unless_equal :
    Unifier → Expr → Expr → List Constraint → Bool → Option (Option Substitution)
unless_equal unify left right c true = unify c
unless_equal unify left right c false = try_left unify left right c (assignable left right)

unfoldable pub unify_next :
    Unifier → Option (Constraint × List Constraint) → Option (Option Substitution)
unify_next unify none = some (some [])
unify_next unify (some (equal left right, c)) = unless_equal unify left right c (left == right)

module _ (order : List Constraint → ℕ) where
  unfoldable pub unify : ℕ → List Constraint → Option (Option Substitution)
  unify zero c = none
  unify (suc n) c = unify_next (unify n) (take_out (order c) c)
