-- ===== src/Expr/Equal.antt =====
-- The derived `PartialEq` of `Expr` in aris/src/expr.rs.
use aris.Base.{
  Bool, true, false, ◌&&◌, ◌≡◌, ◌↔◌, refl, ap, ap₂, PartialEq, ◌==◌, string_eq, ==_path, ==_refl,
  and-left, and-right,
}
use aris.Expr.{
  Expr, Exprs, Op, QuantKind, contra, taut, var, apply, not, impl, assoc, quant, nil, cons,
}
use aris.Normalize.{op_eq}
use aris.Normalize.Connectives.{op_eq-path}

unfoldable pub kind_beq : QuantKind → QuantKind → Bool
kind_beq QuantKind.forall QuantKind.forall = true
kind_beq QuantKind.exists QuantKind.exists = true
kind_beq _ _ = false

unfoldable mutual
  unfolding kind_beq

  pub expr_beq : Expr → Expr → Bool
  expr_beq contra contra = true
  expr_beq taut taut = true
  expr_beq (var a) (var b) = a == b
  expr_beq (apply f as') (apply g bs) = expr_beq f g && exprs_beq as' bs
  expr_beq (not a) (not b) = expr_beq a b
  expr_beq (impl a b) (impl c d) = expr_beq a c && expr_beq b d
  expr_beq (assoc op es) (assoc op' es') = op_eq op op' && exprs_beq es es'
  expr_beq (quant k x e) (quant k' x' e') = kind_beq k k' && (x == x' && expr_beq e e')
  expr_beq _ _ = false

  pub exprs_beq : Exprs → Exprs → Bool
  exprs_beq nil nil = true
  exprs_beq (cons e es) (cons e' es') = expr_beq e e' && exprs_beq es es'
  exprs_beq _ _ = false

kind_beq-path : (k k' : QuantKind) → kind_beq k k' ≡ true → k ≡ k'
unfolding kind_beq
kind_beq-path QuantKind.forall QuantKind.forall h = refl
kind_beq-path QuantKind.exists QuantKind.exists h = refl
kind_beq-path _ _ h = absurd cc

kind_beq_refl : (k : QuantKind) → kind_beq k k ≡ true
unfolding kind_beq
kind_beq_refl QuantKind.forall = refl
kind_beq_refl QuantKind.exists = refl

pub op_eq_refl : (op : Op) → op_eq op op ≡ true
unfolding op_eq
op_eq_refl Op.and = refl
op_eq_refl Op.or = refl
op_eq_refl Op.bicon = refl
op_eq_refl Op.equiv = refl
op_eq_refl Op.add = refl
op_eq_refl Op.mult = refl

mutual
  unfolding expr_beq

  path_of : (a b : Expr) → expr_beq a b ≡ true → a ≡ b
  path_of contra contra h = refl
  path_of taut taut h = refl
  path_of (var a) (var b) h = ap var (==_path a b h)
  path_of (apply f es) (apply g es') h =
      ap₂ apply (path_of f g (and-left (expr_beq f g) _ h))
        (paths_of es es' (and-right (expr_beq f g) _ h))
  path_of (not a) (not b) h = ap not (path_of a b h)
  path_of (impl a b) (impl c d) h =
      ap₂ impl (path_of a c (and-left (expr_beq a c) _ h))
        (path_of b d (and-right (expr_beq a c) _ h))
  path_of (assoc op es) (assoc op' es') h =
      ap₂ assoc (op_eq-path op op' (and-left (op_eq op op') _ h))
        (paths_of es es' (and-right (op_eq op op') _ h))
  path_of (quant k x e) (quant k' x' e') h =
      let r : (x == x' && expr_beq e e') ≡ true = and-right (kind_beq k k') _ h in
      let p : k ≡ k' = kind_beq-path k k' (and-left (kind_beq k k') _ h) in
      let q : x ≡ x' = ==_path x x' (and-left (x == x') _ r) in
      let s : e ≡ e' = path_of e e' (and-right (x == x') _ r) in rw (p, q, s)
  path_of _ _ h = absurd cc

  paths_of : (es es' : Exprs) → exprs_beq es es' ≡ true → es ≡ es'
  paths_of nil nil h = refl
  paths_of (cons e es) (cons e' es') h =
      ap₂ cons (path_of e e' (and-left (expr_beq e e') _ h))
        (paths_of es es' (and-right (expr_beq e e') _ h))
  paths_of _ _ h = absurd cc

mutual
  unfolding expr_beq

  expr_beq_refl : (a : Expr) → expr_beq a a ≡ true
  expr_beq_refl contra = refl
  expr_beq_refl taut = refl
  expr_beq_refl (var a) = ==_refl a
  expr_beq_refl (apply f es) = rw (expr_beq_refl f) (exprs_beq_refl es)
  expr_beq_refl (not a) = expr_beq_refl a
  expr_beq_refl (impl a b) = rw (expr_beq_refl a) (expr_beq_refl b)
  expr_beq_refl (assoc op es) = rw (op_eq_refl op) (exprs_beq_refl es)
  expr_beq_refl (quant k x e) = rw (kind_beq_refl k, ==_refl x) (expr_beq_refl e)

  exprs_beq_refl : (es : Exprs) → exprs_beq es es ≡ true
  exprs_beq_refl nil = refl
  exprs_beq_refl (cons e es) = rw (expr_beq_refl e) (exprs_beq_refl es)

pub expr_beq_iff : (a b : Expr) → (expr_beq a b ≡ true) ↔ (a ≡ b)
expr_beq_iff a b = (path_of a b, λ h. rw h (expr_beq_refl b))

instance abbrev pub expr_eq : PartialEq Expr
expr_eq = record { eq = expr_beq; eq_iff_path = expr_beq_iff }
