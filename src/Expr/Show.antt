-- ===== src/Expr/Show.antt =====
-- `Display` of `Op`, `QuantKind` and `Expr` in aris/src/expr.rs.
use Prim.Native.String.{◌++◌}
use aris.Base.{String}
use aris.Expr.{
  Expr, Exprs, Op, QuantKind, contra, taut, var, apply, not, impl, assoc, quant, nil, cons,
}

unfoldable pub show_op : Op → String
show_op Op.and = "∧"
show_op Op.or = "∨"
show_op Op.bicon = "↔"
show_op Op.equiv = "≡"
show_op Op.add = "+"
show_op Op.mult = "*"

unfoldable pub show_kind : QuantKind → String
show_kind QuantKind.forall = "∀"
show_kind QuantKind.exists = "∃"

-- `join` with a separator
unfoldable mutual
  unfolding show_op show_kind

  pub to_string : Expr → String
  to_string contra = "⊥"
  to_string taut = "⊤"
  to_string (var name) = name
  to_string (apply func args) = to_string func ++ ("(" ++ (join ", " args ++ ")"))
  to_string (not operand) = "¬" ++ to_string operand
  to_string (impl left right) = "(" ++ (to_string left ++ (" → " ++ (to_string right ++ ")")))
  to_string (assoc op exprs) = "(" ++ (join (" " ++ (show_op op ++ " ")) exprs ++ ")")
  to_string (quant kind name body) =
      "(" ++ (show_kind kind ++ (" " ++ (name ++ (" " ++ (to_string body ++ ")")))))

  pub join : String → Exprs → String
  join sep nil = ""
  join sep (cons e es) = to_string e ++ join_more sep es

  pub join_more : String → Exprs → String
  join_more sep nil = ""
  join_more sep (cons e es) = sep ++ (to_string e ++ join_more sep es)
