-- ===== src/Normalize/PrenexOrder.antt =====
-- The sort of the prefix in `normalize_prenex_laws` of aris/src/expr.rs, and what it changes.
use aris.Base.{String, Bool, true, false, some, ◌≡◌, ◌≢◌, refl, sym, ==_refl, ==_false}
use aris.Expr.{Expr, Op, QuantKind, var, assoc, quant, nil, cons}
use aris.Expr.Denote.{denote}
use aris.Expr.TwoValued.{two_valued}
use aris.Transform.{transform, transform_expr_inner}
use aris.Normalize.Prenex.{prenex_step, with_sorted_prefix, normalize_prenex_laws}

-- x ↔ y
abbrev same : String → String → Expr
same x y = assoc Op.bicon (cons (var x) (cons (var y) nil))

-- ∃x. ∀y. x ↔ y
abbrev pub some_all : String → String → Expr
some_all x y = quant QuantKind.exists x (quant QuantKind.forall y (same x y))

-- ∀y. ∃x. x ↔ y
abbrev pub all_some : String → String → Expr
all_some x y = quant QuantKind.forall y (quant QuantKind.exists x (same x y))

-- For two different names, `normalize_prenex_laws` turns ∃x. ∀y. x ↔ y into ∀y. ∃x. x ↔ y. Over the
-- truth values the first is false and the second is true.
pub normalize_prenex_laws-swaps :
    (x y : String) (ρ : String → Bool)
    → x ≢ y
    → (normalize_prenex_laws 0 4 (some_all x y) ≡ some (all_some x y))
      × (denote two_valued ρ (some_all x y) ≡ false)
      × (denote two_valued ρ (all_some x y) ≡ true)
unfolding normalize_prenex_laws with_sorted_prefix prenex_step transform transform_expr_inner denote
normalize_prenex_laws-swaps x y ρ h = (
  refl,
  rw (==_false x y h, ==_refl x, ==_refl y),
  rw (==_false y x (λ e. h (sym e)), ==_refl x, ==_refl y),
)
