-- ===== src/Subst/Tests.antt =====
-- Runs of `subst` of aris/src/expr.rs.
use aris.Base.{◌≡◌, refl, String, Bool, true, false, some, arith, ==_ne, string_eq}
use aris.Expr.{Expr, Op, QuantKind, var, quant, assoc, nil, cons}
use aris.Expr.Denote.{update, denote}
use aris.Expr.Size.{size}
use aris.Expr.TwoValued.{two_valued}
use aris.Vars.{contains, free_vars, numbered}
use aris.Vars.Decimal.{to_decimal}
use aris.Subst.{subst}
use aris.Subst.Clear.{is_clear, subst_lem}
use aris.Subst.Capture.{before, after, subst_captures}

-- ∀x (x & y) with y replaced by z
abbrev sample : Expr
sample = quant QuantKind.forall "x" (assoc Op.and (cons (var "x") (cons (var "y") nil)))

abbrev all_false : String → Bool
all_false name = false

subst_example :
    (e' : Expr) × (subst 4 sample "y" (var "z") ≡ some e')
    × (denote two_valued all_false e'
        ≡ denote two_valued (update all_false "y" (denote two_valued all_false (var "z"))) sample)
unfolding size free_vars is_clear
subst_example =
    subst_lem two_valued all_false 4 sample "y" (var "z") (omega arith) (omega arith) refl

subst_captures_example :
    (subst 3 (before QuantKind.forall "a" (numbered "a" 0)) "y" (var "a")
      ≡ some (after QuantKind.forall (numbered "a" 0)))
    × (contains (numbered "a" 0) (free_vars (before QuantKind.forall "a" (numbered "a" 0))) ≡ true)
    × (contains (numbered "a" 0) (free_vars (after QuantKind.forall (numbered "a" 0))) ≡ false)
unfolding to_decimal
subst_captures_example =
    subst_captures QuantKind.forall "a" "y" (==_ne "y" "a" refl) (==_ne "y" (numbered "a" 0) refl)
