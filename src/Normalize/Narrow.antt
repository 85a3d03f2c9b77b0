-- ===== src/Normalize/Narrow.antt =====
-- The shape of the binary forms of aris/src/expr.rs.
use aris.Base.{Bool, true, false, ◌≡◌, refl}
use aris.Expr.{Expr, Exprs, Op, contra, taut, var, apply, not, impl, assoc, quant, nil, cons}
use aris.Transform.Fixpoint.{Everywhere, EverywhereAll}
use aris.Normalize.Binary.{
  normalize_assoc_to_binary, to_binary_all, to_binary_operands, fold_binary, join_left,
  normalize_assoc_to_binary_left, to_binary_left_all,
}

-- An operator with more than two operands.
abbrev pub is_wide : Expr → Bool
is_wide (assoc op (cons a (cons b (cons c es)))) = true
is_wide _ = false

abbrev pub Narrow : Expr → Type 0
Narrow = Everywhere (λ e. is_wide e ≡ false)

abbrev NarrowAll : Exprs → Type 0
NarrowAll = EverywhereAll (λ e. is_wide e ≡ false)

mutual
  unfolding normalize_assoc_to_binary

  pub binary-Narrow : (e : Expr) → Narrow (normalize_assoc_to_binary e)
  binary-Narrow contra = refl
  binary-Narrow taut = refl
  binary-Narrow (var name) = refl
  binary-Narrow (apply func args) = (refl, binary-Narrow func, binary_all-Narrow args)
  binary-Narrow (not operand) = (refl, binary-Narrow operand)
  binary-Narrow (impl left right) = (refl, binary-Narrow left, binary-Narrow right)
  binary-Narrow (assoc op exprs) = operands-Narrow op exprs
  binary-Narrow (quant kind name body) = (refl, binary-Narrow body)

  binary_all-Narrow : (es : Exprs) → NarrowAll (to_binary_all es)
  binary_all-Narrow nil = tt
  binary_all-Narrow (cons e es) = (binary-Narrow e, binary_all-Narrow es)

  operands-Narrow : (op : Op) (es : Exprs) → Narrow (assoc op (to_binary_operands op es))
  operands-Narrow op nil = (refl, tt)
  operands-Narrow op (cons a nil) = (refl, (binary-Narrow a, tt))
  operands-Narrow op (cons a (cons b nil)) = (refl, (binary-Narrow a, (binary-Narrow b, tt)))
  operands-Narrow op (cons a (cons b (cons c es))) =
      (refl, (binary-Narrow a, (operands-Narrow op (cons b (cons c es)), tt)))

fold_binary-Narrow :
    (op : Op) (acc : Expr) (es : Exprs) → Narrow acc → NarrowAll es → Narrow (fold_binary op acc es)
unfolding fold_binary
fold_binary-Narrow op acc nil h k = h
fold_binary-Narrow op acc (cons e es) h (k, k') =
    fold_binary-Narrow op (assoc op (cons acc (cons e nil))) es (refl, (h, (k, tt))) k'

join_left-Narrow : (op : Op) (es : Exprs) → NarrowAll es → Narrow (join_left op es)
unfolding join_left
join_left-Narrow op nil k = (refl, k)
join_left-Narrow op (cons a nil) k = (refl, k)
join_left-Narrow op (cons a (cons b nil)) k = (refl, k)
join_left-Narrow op (cons a (cons b (cons c es))) (k, k') =
    fold_binary-Narrow op a (cons b (cons c es)) k k'

mutual
  unfolding normalize_assoc_to_binary_left

  pub left-Narrow : (e : Expr) → Narrow (normalize_assoc_to_binary_left e)
  left-Narrow contra = refl
  left-Narrow taut = refl
  left-Narrow (var name) = refl
  left-Narrow (apply func args) = (refl, left-Narrow func, left_all-Narrow args)
  left-Narrow (not operand) = (refl, left-Narrow operand)
  left-Narrow (impl left right) = (refl, left-Narrow left, left-Narrow right)
  left-Narrow (assoc op exprs) =
      join_left-Narrow op (to_binary_left_all exprs) (left_all-Narrow exprs)
  left-Narrow (quant kind name body) = (refl, left-Narrow body)

  left_all-Narrow : (es : Exprs) → NarrowAll (to_binary_left_all es)
  left_all-Narrow nil = tt
  left_all-Narrow (cons e es) = (left-Narrow e, left_all-Narrow es)
