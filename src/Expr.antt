-- ===== src/Expr.antt =====
-- aris/src/expr.rs: the syntax of logical expressions. `Vec<Expr>` is the type `Exprs`, declared with
-- `Expr` because it holds expressions itself.
pub mod Eval
pub mod Denote
pub mod Size
pub mod TwoValued
pub mod Build
pub mod Arities
pub mod Equal
pub mod Show
mod Tests
use aris.Base.{String, ℕ, suc, List, [], ◌∷◌, ◌≡◌, refl, ap}

pub data Op : Type 0 where
  and or bicon equiv add mult : Op

pub data QuantKind : Type 0 where
  forall exists : QuantKind

mutual
  pub data Expr : Type 0 where
    contra : Expr
    taut : Expr
    var : String → Expr
    apply : Expr → Exprs → Expr
    not : Expr → Expr
    impl : Expr → Expr → Expr
    assoc : Op → Exprs → Expr
    quant : QuantKind → String → Expr → Expr

  pub data Exprs : Type 0 where
    nil : Exprs
    cons : Expr → Exprs → Exprs

-- `Vec<Expr>` as a list, and back.
unfoldable pub to_list : Exprs → List Expr
to_list nil = []
to_list (cons e es) = e ∷ to_list es

unfoldable pub from_list : List Expr → Exprs
from_list [] = nil
from_list (e ∷ es) = cons e (from_list es)

pub from_list-to_list : (es : Exprs) → from_list (to_list es) ≡ es
unfolding to_list from_list
from_list-to_list nil = refl
from_list-to_list (cons e es) = ap (cons e) (from_list-to_list es)

pub to_list-from_list : (es : List Expr) → to_list (from_list es) ≡ es
unfolding to_list from_list
to_list-from_list [] = refl
to_list-from_list (e ∷ es) = ap (e ∷◌) (to_list-from_list es)
