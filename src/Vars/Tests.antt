-- ===== src/Vars/Tests.antt =====
-- Runs of `free_vars` and `gen_var` of aris/src/expr.rs.
use aris.Base.{if◌then◌else◌, ◌≡◌, refl, String, false, some, List, [], ◌∷◌, arith}
use aris.Expr.{QuantKind, var, apply, quant, nil, cons}
use aris.Vars.{contains, insert, extend, remove, free_vars, gen_var}
use aris.Vars.Decimal.{to_decimal}
use aris.Vars.Fresh.{gen_var_lem, gen_var-numbered}

abbrev used : List String
used = "A" ∷ "B" ∷ "C" ∷ "D" ∷ []

gen_var-used : gen_var "A" used ≡ some "A0"
unfolding to_decimal
gen_var-used = gen_var-numbered "A" used refl refl

free_vars-quant :
    free_vars (quant QuantKind.forall "x" (apply (var "p") (cons (var "x") (cons (var "y") nil))))
    ≡ "y" ∷ "p" ∷ []
unfolding free_vars extend insert remove
free_vars-quant = refl

gen_var_example :
    (x : String) × (gen_var "A" used ≡ some x)
    × (contains x used ≡ false)
    × (x ≡ (if contains "A" used then x else "A"))
gen_var_example = gen_var_lem "A" used (omega arith)
