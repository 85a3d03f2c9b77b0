-- ===== src/Rules/Order.antt =====
-- `any_order` and `either_order` of aris/src/rules.rs: a check that is tried on all orders of the dependencies.
-- `Itertools::permutations` is a parameter. A check function gives `none` where it panics.
use aris.Base.{
  Bool, true, false, ◌||◌, ◌&&◌, Option, none, some, map_option, List, [], ◌∷◌, if◌then◌else◌, ◌==◌,
  nat_eq, string_eq,
}
pub use aris.Base.{Permutations}
use aris.Expr.{Expr}
use aris.Expr.Equal.{expr_eq}
use aris.Pool.{PjRef, pj_to_pjs, pjs_eq}
use aris.Pool.Scope.{
  ProofCheckError, ProofCheckErrors, line_does_not_exist, subproof_does_not_exist,
  references_later_line, incorrect_dep_count, incorrect_sub_dep_count, dep_of_wrong_form,
  conclusion_of_wrong_form, does_not_occur, dep_does_not_exist, one_of, other, no_more, also,
}

pub data AnyOrderResult : Type 0 where
  ok : AnyOrderResult
  err : ProofCheckError → AnyOrderResult
  wrong_order : AnyOrderResult

-- `Result<(), ProofCheckError>` of a check that may also panic.
pub data Checked : Type 0 where
  ok : Checked
  err : ProofCheckError → Checked
  panic : Checked

unfoldable pub list_beq : {A : Type 0} → (A → A → Bool) → List A → List A → Bool
list_beq eq [] [] = true
list_beq eq (a ∷ as') (b ∷ bs) = eq a b && list_beq eq as' bs
list_beq eq _ _ = false

abbrev pub pj_beq : PjRef → PjRef → Bool
pj_beq a b = pj_to_pjs a == pj_to_pjs b

-- The derived equality of errors.
unfoldable mutual
  unfolding list_beq

  pub error_beq : ProofCheckError → ProofCheckError → Bool
  error_beq (line_does_not_exist a) (line_does_not_exist b) = pj_beq a b
  error_beq (subproof_does_not_exist a) (subproof_does_not_exist b) = a == b
  error_beq (references_later_line a b) (references_later_line c d) = pj_beq a c && b == d
  error_beq (incorrect_dep_count as' n) (incorrect_dep_count bs m) =
      list_beq pj_beq as' bs && n == m
  error_beq (incorrect_sub_dep_count as' n) (incorrect_sub_dep_count bs m) =
      list_beq (λ a b. a == b) as' bs && n == m
  error_beq (dep_of_wrong_form a b) (dep_of_wrong_form c d) = a == c && b == d
  error_beq (conclusion_of_wrong_form a) (conclusion_of_wrong_form b) = a == b
  error_beq (does_not_occur a b) (does_not_occur c d) = a == c && b == d
  error_beq (dep_does_not_exist a true) (dep_does_not_exist b true) = a == b
  error_beq (dep_does_not_exist a false) (dep_does_not_exist b false) = a == b
  error_beq (one_of es) (one_of es') = errors_beq es es'
  error_beq (other a) (other b) = a == b
  error_beq _ _ = false

  pub errors_beq : ProofCheckErrors → ProofCheckErrors → Bool
  errors_beq no_more no_more = true
  errors_beq (also e es) (also e' es') = error_beq e e' && errors_beq es es'
  errors_beq _ _ = false

-- `collect` into a set
unfoldable pub has_error : ProofCheckError → ProofCheckErrors → Bool
has_error e no_more = false
has_error e (also e' es) = error_beq e e' || has_error e es

unfoldable pub insert_error : ProofCheckError → ProofCheckErrors → ProofCheckErrors
insert_error e es = if has_error e es then es else also e es

-- `results.any(is_ok)`: whether an order is accepted, and the orders that the iterator still holds.
unfoldable pub any_after :
    Option AnyOrderResult
    → List (List Expr)
    → Option (Bool × List (List Expr))
    → Option (Bool × List (List Expr))
any_after none rest next = none
any_after (some AnyOrderResult.ok) rest next = some (true, rest)
any_after (some _) rest next = next

unfoldable pub any_ok :
    (List Expr → Option AnyOrderResult) → List (List Expr) → Option (Bool × List (List Expr))
any_ok check_func [] = some (false, [])
any_ok check_func (deps ∷ rest) = any_after (check_func deps) rest (any_ok check_func rest)

-- The errors of what the iterator still holds.
unfoldable pub error_of : Option AnyOrderResult → Option ProofCheckErrors → Option ProofCheckErrors
error_of none errors = none
error_of (some (AnyOrderResult.err e)) errors = map_option (insert_error e) errors
error_of (some _) errors = errors

unfoldable pub remaining_errors :
    (List Expr → Option AnyOrderResult) → List (List Expr) → Option ProofCheckErrors
remaining_errors check_func [] = some no_more
remaining_errors check_func (deps ∷ rest) =
    error_of (check_func deps) (remaining_errors check_func rest)

unfoldable pub report : ProofCheckError → Option ProofCheckErrors → Checked
report fallthrough_error none = panic
report fallthrough_error (some no_more) = Checked.err fallthrough_error
report fallthrough_error (some (also e no_more)) = Checked.err e
report fallthrough_error (some errors) = Checked.err (one_of errors)

unfoldable pub conclude :
    (List Expr → Option AnyOrderResult)
    → ProofCheckError
    → Option (Bool × List (List Expr))
    → Checked
unfolding remaining_errors report
conclude check_func fallthrough_error none = panic
conclude check_func fallthrough_error (some (true, rest)) = Checked.ok
conclude check_func fallthrough_error (some (false, rest)) =
    report fallthrough_error (remaining_errors check_func rest)

-- A check function of two arguments, on a list.
unfoldable pub on_two : (Expr → Expr → AnyOrderResult) → List Expr → Option AnyOrderResult
on_two check_func (a ∷ b ∷ []) = some (check_func a b)
on_two check_func _ = none

module _ (itertools : Permutations) where
  unfoldable pub any_order :
      List Expr → (List Expr → Option AnyOrderResult) → ProofCheckError → Checked
  unfolding any_ok conclude
  any_order deps check_func fallthrough_error =
      conclude check_func fallthrough_error (any_ok check_func (itertools.permutations Expr deps))

  unfoldable pub either_order :
      Expr → Expr → (Expr → Expr → AnyOrderResult) → ProofCheckError → Checked
  unfolding on_two
  either_order dep_1 dep_2 check_func fallthrough_error =
      any_order (dep_1 ∷ dep_2 ∷ []) (on_two check_func) fallthrough_error
