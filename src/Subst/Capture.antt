-- ===== src/Subst/Capture.antt =====
-- The renaming of `subst` in aris/src/expr.rs: the new name is chosen apart from the replacement's
-- free variables, and not apart from the body's.
use text.Mathlib.TextLemmas.{append_cancel_left, append-nil, cons-ne-nil}
use aris.Base.{◌≡◌, ◌≢◌, ◌∙◌, sym, String, true, false, some, [], ◌∷◌, string_eq, ==_refl, ==_false}
use aris.Expr.{Expr, QuantKind, var, impl, quant}
use aris.Vars.{contains, free_vars, gen_var, numbered, extend}
use aris.Vars.Fresh.{gen_var-numbered}
use aris.Vars.Occurs.{contains-remove, contains-extend}
use aris.Vars.Decimal.{to_decimal}
use aris.Subst.{subst}

numbered-ne : (a : String) → a ≢ numbered a 0
unfolding to_decimal
numbered-ne a h =
    cons-ne-nil "0" String.[]
      (sym (append_cancel_left a String.[] (to_decimal 0) (append-nil a ∙ h)))

gen_var_self : (a : String) → gen_var a (a ∷ []) ≡ some (numbered a 0)
gen_var_self a =
    gen_var-numbered a (a ∷ []) (rw (==_refl a)) (rw (==_false a (numbered a 0) (numbered-ne a)))

-- `k a. (a → b)`, and the same with `b` bound.
abbrev pub before : QuantKind → String → String → Expr
before k a b = quant k a (impl (var a) (var b))

abbrev pub after : QuantKind → String → Expr
after k b = quant k b (impl (var b) (var b))

two-subst :
    (k : QuantKind) (a b x : String)
    → a ≢ b
    → x ≢ a
    → x ≢ b
    → gen_var a (a ∷ []) ≡ some b
    → subst 3 (before k a b) x (var a) ≡ some (after k b)
unfolding subst free_vars
two-subst k a b x h h' h'' g = rw (
  ==_false a x (λ e. h' (sym e)),
  g,
  ==_refl a,
  ==_false b a (λ e. h (sym e)),
  ==_false b x (λ e. h'' (sym e)),
)

before-free : (k : QuantKind) (a b : String) → a ≢ b → contains b (free_vars (before k a b)) ≡ true
unfolding free_vars
before-free k a b h =
    contains-remove b a (extend (a ∷ []) (b ∷ []))
    ∙ rw (contains-extend b (a ∷ []) (b ∷ []), ==_refl b, ==_false b a (λ e. h (sym e)))

after-free : (k : QuantKind) (b : String) → contains b (free_vars (after k b)) ≡ false
unfolding free_vars
after-free k b = contains-remove b b (extend (b ∷ []) (b ∷ [])) ∙ rw (==_refl b)

-- For every name `a`, with `a0` the name that `gen_var` makes of it, and every other name `x`, which
-- does not even occur: replacing `x` by `a` in `k a. (a → a0)` gives `k a0. (a0 → a0)`. The variable
-- `a0`, free before, is captured.
pub subst_captures :
    (k : QuantKind) (a x : String)
    → x ≢ a
    → x ≢ numbered a 0
    → (subst 3 (before k a (numbered a 0)) x (var a) ≡ some (after k (numbered a 0)))
      × (contains (numbered a 0) (free_vars (before k a (numbered a 0))) ≡ true)
      × (contains (numbered a 0) (free_vars (after k (numbered a 0))) ≡ false)
subst_captures k a x h h' = (
  two-subst k a (numbered a 0) x (numbered-ne a) h h' (gen_var_self a),
  before-free k a (numbered a 0) (numbered-ne a),
  after-free k (numbered a 0),
)
