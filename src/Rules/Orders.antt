-- ===== src/Rules/Orders.antt =====
-- What `any_order` and `either_order` of aris/src/rules.rs give.
use aris.Base.{
  Bool, true, false, ◌||◌, Option, none, some, List, [], ◌∷◌, ◌≡◌, ◌⊎◌, inl, inr, refl,
  if◌then◌else◌, ◌≢◌,
}
use aris.Expr.{Expr}
use aris.Pool.Scope.{ProofCheckError, ProofCheckErrors, no_more, also}
use aris.Rules.Order.{
  Permutations, AnyOrderResult, Checked, any_after, any_ok, conclude, report, error_of,
  insert_error, has_error, remaining_errors, on_two, any_order, either_order,
}

abbrev pub accepted : AnyOrderResult → Bool
accepted AnyOrderResult.ok = true
accepted _ = false

pub accepted-ok : (r : AnyOrderResult) → accepted r ≡ true → r ≡ AnyOrderResult.ok
accepted-ok AnyOrderResult.ok h = refl
accepted-ok (AnyOrderResult.err e) h = absurd cc
accepted-ok AnyOrderResult.wrong_order h = absurd cc

abbrev pub ForEach : (List Expr → Type 0) → List (List Expr) → Type 0
ForEach P [] = Unit
ForEach P (ds ∷ dss) = P ds × ForEach P dss

any_after-false :
    (r : Option AnyOrderResult) (dss : List (List Expr)) (next : Option (Bool × List (List Expr)))
    (rest : List (List Expr))
    → any_after r dss next ≡ some (false, rest)
    → next ≡ some (false, rest)
unfolding any_after
any_after-false none dss next rest h = absurd cc
any_after-false (some AnyOrderResult.ok) dss next rest h = absurd cc
any_after-false (some (AnyOrderResult.err e)) dss next rest h = h
any_after-false (some AnyOrderResult.wrong_order) dss next rest h = h

any_after-true :
    (r : Option AnyOrderResult) (dss : List (List Expr)) (next : Option (Bool × List (List Expr)))
    (rest : List (List Expr))
    → any_after r dss next ≡ some (true, rest)
    → (r ≡ some AnyOrderResult.ok) ⊎ (next ≡ some (true, rest))
unfolding any_after
any_after-true none dss next rest h = absurd cc
any_after-true (some AnyOrderResult.ok) dss next rest h = inl refl
any_after-true (some (AnyOrderResult.err e)) dss next rest h = inr h
any_after-true (some AnyOrderResult.wrong_order) dss next rest h = inr h

report-ne-ok : (e : ProofCheckError) (es : Option ProofCheckErrors) → report e es ≢ Checked.ok
unfolding report
report-ne-ok e none h = cc
report-ne-ok e (some no_more) h = cc
report-ne-ok e (some (also x no_more)) h = cc
report-ne-ok e (some (also x (also y es))) h = cc

err-inj : (x e : ProofCheckError) → Checked.err e ≡ Checked.err x → x ≡ e
err-inj x e h = cc

module _ (check_func : List Expr → Option AnyOrderResult) where
  -- Where no order is accepted, the iterator is used up.
  any_ok-false :
      (dss rest : List (List Expr)) → any_ok check_func dss ≡ some (false, rest) → rest ≡ []
  unfolding any_ok
  any_ok-false [] rest h = cc
  any_ok-false (ds ∷ dss) rest h =
      any_ok-false dss rest (any_after-false (check_func ds) dss (any_ok check_func dss) rest h)

  any_ok-true :
      (P : List Expr → Type 0) (dss rest : List (List Expr))
      → any_ok check_func dss ≡ some (true, rest)
      → ForEach P dss
      → (ds : List Expr) × P ds × (check_func ds ≡ some AnyOrderResult.ok)
  unfolding any_ok
  any_ok-true P [] rest h w = absurd cc
  any_ok-true P (ds ∷ dss) rest h w =
      elim (any_after-true (check_func ds) dss (any_ok check_func dss) rest h) [
        | inl e ↦ (ds, w.0, e)
        | inr later ↦ any_ok-true P dss rest later w.1
      ]

  conclude-ok :
      (e : ProofCheckError) (r : Option (Bool × List (List Expr)))
      → conclude check_func e r ≡ Checked.ok
      → (rest : List (List Expr)) × (r ≡ some (true, rest))
  unfolding conclude
  conclude-ok e none h = absurd cc
  conclude-ok e (some (true, rest)) h = (rest, refl)
  conclude-ok e (some (false, rest)) h =
      absurd (report-ne-ok e (remaining_errors check_func rest) h)

  conclude-err :
      (e x : ProofCheckError) (dss : List (List Expr)) (r : Option (Bool × List (List Expr)))
      → any_ok check_func dss ≡ r
      → conclude check_func e r ≡ Checked.err x
      → x ≡ e
  unfolding conclude remaining_errors report
  conclude-err e x dss none p h = absurd cc
  conclude-err e x dss (some (true, rest)) p h = absurd cc
  conclude-err e x dss (some (false, rest)) p h = err-inj x e (rw (any_ok-false dss rest p) at h)

module _ (itertools : Permutations) where
  -- `any_order` never gives an error of the check function: its error is always the one for
  -- dependencies of the wrong form, because the search for an accepted order has used up the
  -- iterator from which the errors are collected.
  pub any_order-err :
      (deps : List Expr) (check_func : List Expr → Option AnyOrderResult) (e x : ProofCheckError)
      → any_order itertools deps check_func e ≡ Checked.err x
      → x ≡ e
  unfolding any_order
  any_order-err deps check_func e x h =
      conclude-err check_func e x (itertools.permutations Expr deps)
        (any_ok check_func (itertools.permutations Expr deps)) refl h

  -- What holds of all orders holds of one that is accepted.
  pub any_order-ok :
      (P : List Expr → Type 0) (deps : List Expr) (check_func : List Expr → Option AnyOrderResult)
      (e : ProofCheckError)
      → any_order itertools deps check_func e ≡ Checked.ok
      → ForEach P (itertools.permutations Expr deps)
      → (ds : List Expr) × P ds × (check_func ds ≡ some AnyOrderResult.ok)
  unfolding any_order
  any_order-ok P deps check_func e h w =
      let (rest, q) =
        conclude-ok check_func e (any_ok check_func (itertools.permutations Expr deps)) h in
      any_ok-true check_func P (itertools.permutations Expr deps) rest q w

  -- Of two dependencies, `either_order` accepts exactly those that the check accepts in one of the two
  -- orders; otherwise it gives the error for dependencies of the wrong form.
  pub either_order_lem :
      (a b : Expr) (check_func : Expr → Expr → AnyOrderResult) (e : ProofCheckError)
      → either_order itertools a b check_func e ≡ (
          if accepted (check_func a b) || accepted (check_func b a)
          then Checked.ok
          else Checked.err e)
  unfolding either_order any_order any_ok any_after conclude on_two remaining_errors error_of report
      insert_error has_error
  either_order_lem a b check_func e =
      rw (itertools.permutations_two Expr a b) (two (check_func a b) (check_func b a))
    where
      two :
          (r s : AnyOrderResult)
          → conclude
              (on_two check_func)
              e
              (any_after (some r) ((b ∷ a ∷ []) ∷ []) (any_after (some s) [] (some (false, []))))
            ≡ (if accepted r || accepted s then Checked.ok else Checked.err e)
      two AnyOrderResult.ok s = refl
      two (AnyOrderResult.err x) AnyOrderResult.ok = refl
      two (AnyOrderResult.err x) (AnyOrderResult.err y) = refl
      two (AnyOrderResult.err x) AnyOrderResult.wrong_order = refl
      two AnyOrderResult.wrong_order AnyOrderResult.ok = refl
      two AnyOrderResult.wrong_order (AnyOrderResult.err y) = refl
      two AnyOrderResult.wrong_order AnyOrderResult.wrong_order = refl
