-- ===== src/Normalize/Binary.antt =====
-- `normalize_assoc_to_binary` and `normalize_assoc_to_binary_left` of aris/src/expr.rs.
use aris.Expr.{Expr, Exprs, Op, contra, taut, var, apply, not, impl, assoc, quant, nil, cons}

unfoldable mutual
  pub normalize_assoc_to_binary : Expr → Expr
  normalize_assoc_to_binary contra = contra
  normalize_assoc_to_binary taut = taut
  normalize_assoc_to_binary (var name) = var name
  normalize_assoc_to_binary (apply func args) =
      apply (normalize_assoc_to_binary func) (to_binary_all args)
  normalize_assoc_to_binary (not operand) = not (normalize_assoc_to_binary operand)
  normalize_assoc_to_binary (impl left right) =
      impl (normalize_assoc_to_binary left) (normalize_assoc_to_binary right)
  normalize_assoc_to_binary (assoc op exprs) = assoc op (to_binary_operands op exprs)
  normalize_assoc_to_binary (quant kind name body) =
      quant kind name (normalize_assoc_to_binary body)

  pub to_binary_all : Exprs → Exprs
  to_binary_all nil = nil
  to_binary_all (cons e es) = cons (normalize_assoc_to_binary e) (to_binary_all es)

  -- The operands of the result: of more than two, the first, and the normal form of the rest under the
  -- same operator.
  pub to_binary_operands : Op → Exprs → Exprs
  to_binary_operands op nil = nil
  to_binary_operands op (cons a nil) = cons (normalize_assoc_to_binary a) nil
  to_binary_operands op (cons a (cons b nil)) =
      cons (normalize_assoc_to_binary a) (cons (normalize_assoc_to_binary b) nil)
  to_binary_operands op (cons a (cons b (cons c es))) =
      cons (normalize_assoc_to_binary a)
        (cons (assoc op (to_binary_operands op (cons b (cons c es)))) nil)

-- `iter.fold(first, …)`
unfoldable pub fold_binary : Op → Expr → Exprs → Expr
fold_binary op acc nil = acc
fold_binary op acc (cons e es) = fold_binary op (assoc op (cons acc (cons e nil))) es

-- The branches on the number of operands, which are normal forms.
unfoldable pub join_left : Op → Exprs → Expr
unfolding fold_binary
join_left op (cons a (cons b (cons c es))) = fold_binary op a (cons b (cons c es))
join_left op exprs = assoc op exprs

unfoldable mutual
  unfolding join_left

  pub normalize_assoc_to_binary_left : Expr → Expr
  normalize_assoc_to_binary_left contra = contra
  normalize_assoc_to_binary_left taut = taut
  normalize_assoc_to_binary_left (var name) = var name
  normalize_assoc_to_binary_left (apply func args) =
      apply (normalize_assoc_to_binary_left func) (to_binary_left_all args)
  normalize_assoc_to_binary_left (not operand) = not (normalize_assoc_to_binary_left operand)
  normalize_assoc_to_binary_left (impl left right) =
      impl (normalize_assoc_to_binary_left left) (normalize_assoc_to_binary_left right)
  normalize_assoc_to_binary_left (assoc op exprs) = join_left op (to_binary_left_all exprs)
  normalize_assoc_to_binary_left (quant kind name body) =
      quant kind name (normalize_assoc_to_binary_left body)

  pub to_binary_left_all : Exprs → Exprs
  to_binary_left_all nil = nil
  to_binary_left_all (cons e es) = cons (normalize_assoc_to_binary_left e) (to_binary_left_all es)
