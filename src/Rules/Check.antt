-- ===== src/Rules/Check.antt =====
-- What the checks of aris/src/rules.rs share: `?` on a lookup, `deps[i]`, which panics out of range, and
-- `SharedChecks::check`.
use Prim.Native.String.{◌++◌}
use aris.Base.{
  String, ℕ, suc, Bool, false, ◌||◌, Option, none, some, List, length, get_elem?, ◌⊎◌, inl, inr,
  if◌then◌else◌, ◌==◌, nat_eq,
}
use aris.Expr.{Expr, Exprs, not, nil, cons}
use aris.Expr.Show.{to_string}
use aris.Expr.Equal.{expr_eq}
use aris.Pool.{PjRef, PooledProof}
use aris.Pool.Lines.{lookup_expr_or_die}
use aris.Pool.Scope.{ProofCheckError, incorrect_dep_count, incorrect_sub_dep_count, other}
use aris.Rules.Order.{Permutations, Checked, AnyOrderResult, either_order}

-- `?`
abbrev pub try : {A : Type 0} → ProofCheckError ⊎ A → (A → Checked) → Checked
try (inl e) k = Checked.err e
try (inr a) k = k a

abbrev pub or_panic : {A : Type 0} → Option A → (A → Checked) → Checked
or_panic none k = Checked.panic
or_panic (some a) k = k a

abbrev pub index : {A : Type 0} → List A → ℕ → (A → Checked) → Checked
index xs i = or_panic (get_elem? xs i)

-- `exprs.contains(e)`, and `exprs.iter().any(|x| x == e)`
unfoldable pub exprs_contain : Expr → Exprs → Bool
exprs_contain e nil = false
exprs_contain e (cons x exprs) = x == e || exprs_contain e exprs

unfoldable pub exprs_len : Exprs → ℕ
exprs_len nil = 0
exprs_len (cons e exprs) = suc (exprs_len exprs)

-- Whether an expression is `Not { operand }` with the operand given.
unfoldable pub is_negation_of : Expr → Expr → Bool
is_negation_of (not operand) e = operand == e
is_negation_of _ e = false

module _ {R : Type 0} (p : PooledProof Expr R) (deps : List PjRef) where
  -- `p.lookup_expr_or_die(&deps[i])?`
  unfoldable pub premise : ℕ → (Expr → Checked) → Checked
  premise i k = index deps i (λ r. try (lookup_expr_or_die p r) k)

-- `SharedChecks::check`
unfoldable pub count_deps : Option ℕ → List PjRef → Checked → Checked
count_deps none deps next = next
count_deps (some directs) deps next =
    if length deps == directs then next else Checked.err (incorrect_dep_count deps directs)

unfoldable pub count_sdeps : Option ℕ → List ℕ → Checked → Checked
count_sdeps none sdeps next = next
count_sdeps (some subs) sdeps next =
    if length sdeps == subs then next else Checked.err (incorrect_sub_dep_count sdeps subs)

unfoldable pub shared_checks : Option ℕ → Option ℕ → List PjRef → List ℕ → Checked → Checked
unfolding count_deps count_sdeps
shared_checks directs subs deps sdeps inner = count_deps directs deps (count_sdeps subs sdeps inner)

unfoldable pub contradict : Expr → Expr → AnyOrderResult
contradict (not operand) j = if operand == j then AnyOrderResult.ok else AnyOrderResult.wrong_order
contradict _ j = AnyOrderResult.wrong_order

-- `format!("Expected one of {{{prem1}, {prem2}}} to be the negation of the other.",)`
unfoldable pub not_opposite : Expr → Expr → String
not_opposite prem1 prem2 =
    "Expected one of {"
    ++ (to_string prem1 ++ (", " ++ (to_string prem2 ++ "} to be the negation of the other.")))

unfoldable pub do_expressions_contradict : Permutations → Expr → Expr → Checked
unfolding contradict
do_expressions_contradict itertools prem1 prem2 =
    either_order itertools prem1 prem2 contradict (other (not_opposite prem1 prem2))
