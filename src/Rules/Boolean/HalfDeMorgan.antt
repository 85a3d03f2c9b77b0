-- ===== src/Rules/Boolean/HalfDeMorgan.antt =====
-- `HalfDeMorgan` of aris/src/rules.rs compares what the premise and the conclusion may be normalized to.
use aris.Base.{String, true, false, some, [], ◌∷◌, ◌≡◌, ◌==◌, string_eq, ==_refl}
use aris.Expr.{Expr, Op, var, not, assoc, nil, cons, to_list}
use aris.Expr.Equal.{expr_eq, expr_beq}
use aris.Expr.Denote.{denote}
use aris.Pool.{PjRef, PooledProof}
use aris.Pool.Lines.{lookup_expr, lookup_expr_or_die, ok_or_else}
use aris.Normalize.HalfDeMorgan.{pairs_with, combine_possibilities, normalize_halfdemorgans}
use aris.Rules.Order.{Checked}
use aris.Rules.Check.{premise}
use aris.Rules.Models.{truth}
use aris.Rules.Boolean.{share, half_de_morgan}

-- `¬(x ∨ y)`
abbrev pub neither : String → String → Expr
neither x y = not (assoc Op.or (cons (var x) (cons (var y) nil)))

share-neither :
    (x y z : String)
    → share (normalize_halfdemorgans (neither x y)) (normalize_halfdemorgans (neither x z)) ≡ true
unfolding share normalize_halfdemorgans combine_possibilities pairs_with to_list expr_beq
share-neither x y z = rw (==_refl x)

-- `HalfDeMorgan` accepts `¬(x ∨ z)` from `¬(x ∨ y)` for all names, since the two have the possibility
-- `¬x` in common; where `z` is another name than `x` and `y`, the dependency is true and the conclusion
-- is not where `z` is true alone.
pub half_de_morgan-accepts :
    {R : Type 0} (p : PooledProof Expr R) (d : PjRef) (x y z : String)
    → (x == z) ≡ false
    → (y == z) ≡ false
    → lookup_expr p d ≡ some (neither x y)
    → (half_de_morgan p (d ∷ []) (neither x z) ≡ Checked.ok)
      × (truth (λ n. n == z) (neither x y) ≡ true)
      × (truth (λ n. n == z) (neither x z) ≡ false)
unfolding half_de_morgan premise lookup_expr_or_die ok_or_else denote
half_de_morgan-accepts p d x y z a b h = (rw (h, share-neither x y z), rw (a, b), rw (a, ==_refl z))
