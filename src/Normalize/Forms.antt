-- ===== src/Normalize/Forms.antt =====
-- What the normalizers of aris/src/expr.rs that run one step give.
use aris.Base.{String, Bool, false, ◌||◌, ◌&&◌, some, ◌≡◌, arith}
use aris.Expr.{Expr, Exprs, Op, assoc, nil, cons}
use aris.Expr.Denote.{Algebra}
use aris.Transform.{Trans, transform}
use aris.Transform.Weight.{Scale, by_one, by_square, weight}
use aris.Transform.Denotes.{Same, Keeps, transform-Keeps}
use aris.Transform.Ends.{Lowers, transform-ends}
use aris.Transform.Fixpoint.{Everywhere, Everywhere-map, Honest, Idle, transform-settles}
use aris.Normalize.{op_eq, demorgans_step, normalize_demorgans, selected}
use aris.Normalize.Classical.{DeMorgan}
use aris.Normalize.Connectives.{demorgans_step-Keeps}
use aris.Normalize.Binders.{}
use aris.Normalize.Lowers.{demorgans_step-Lowers}

-- The transformation ends with the weight as fuel, and keeps the denotation.
pub runs :
    (M : Algebra) (neg bind : Scale) (trans : Trans) (e : Expr)
    → Keeps M trans
    → Lowers neg bind trans
    → (e' : Expr) × (transform (weight neg bind e) (weight neg bind e) trans e ≡ some e')
      × Same M e' e
runs M neg bind trans e k l =
    let (e', h) =
      transform-ends neg bind (weight neg bind e) (weight neg bind e) trans e l (omega arith)
        (omega arith) in
    (e', h, transform-Keeps M (weight neg bind e) (weight neg bind e) trans e e' k h)

-- The same for an honest step, of whose redexes none are left.
pub runs_settled :
    (M : Algebra) (neg bind : Scale) (trans : Trans) (redex : Expr → Bool) (e : Expr)
    → Keeps M trans
    → Lowers neg bind trans
    → Honest trans
    → ((e : Expr) → Idle trans e → redex e ≡ false)
    → (e' : Expr) × (transform (weight neg bind e) (weight neg bind e) trans e ≡ some e')
      × Same M e' e
      × Everywhere (λ e. redex e ≡ false) e'
runs_settled M neg bind trans redex e k l s i =
    let (e', h, d) = runs M neg bind trans e k l in
    (
      e',
      h,
      d,
      Everywhere-map i e'
          (transform-settles trans (weight neg bind e) (weight neg bind e) e e' s h),
    )

-- In every algebra with De Morgan's laws and associative conjunction and disjunction,
-- `normalize_demorgans` ends, with the weight of the expression as rounds and fuel, and its result
-- denotes what the expression does.
pub normalize_demorgans_lem :
    (M : Algebra) (e : Expr)
    → DeMorgan M
    → (e' : Expr) × (normalize_demorgans (weight by_square by_one e) (weight by_square by_one e) e
        ≡ some e')
      × Same M e' e
unfolding normalize_demorgans
normalize_demorgans_lem M e c =
    runs M by_square by_one demorgans_step e (demorgans_step-Keeps M c) demorgans_step-Lowers

-- An operand with the same operator, in the way that the code tests it.
abbrev has_nested : String → Op → Exprs → Bool
has_nested t op nil = false
has_nested t op (cons (assoc inner exprs) es) =
    (op_eq op inner && selected t inner) || has_nested t op es
has_nested t op (cons _ es) = has_nested t op es

-- A selected operator with an operand of the same operator.
abbrev pub is_nested : String → Expr → Bool
is_nested t (assoc op exprs) = selected t op && has_nested t op exprs
is_nested t _ = false
