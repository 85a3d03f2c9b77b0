-- ===== src/Unify/Apply.antt =====
-- `Substitution::apply` of aris/src/expr.rs on a result of `unify`.
use aris.Base.{
  String, false, some, List, [], ◌∷◌, ◌≡◌, ◌≢◌, refl, sym, ◌==◌, string_eq, ==_refl, ==_false,
}
use aris.Expr.{var, taut, not}
use aris.Expr.Equal.{expr_beq}
use aris.Expr.Size.{size}
use aris.Vars.{free_vars}
use aris.Subst.{subst, apply_all}
use aris.Unify.{
  Constraint, equal, Substitution, unify, unify_next, unless_equal, try_left, try_right, assign,
  assignable, subst_set, take_out, insert_constraint,
}

-- `x = ~y` and `y = ⊤`.
abbrev pub chain : String → String → List Constraint
chain x y = equal (var x) (not (var y)) ∷ equal (var y) taut ∷ []

abbrev pub chain_solved : String → String → Substitution
chain_solved x y = (y, taut) ∷ (x, not (var y)) ∷ []

-- For all different names x and y, where the set yields `x = ~y` before `y = ⊤`, the result of `unify` has the pair
-- of `y` first. Then `apply` makes `~y` of `x`, and `~⊤` of `~y`: the sides of the first constraint stay different.
pub unify-apply_all :
    (x y : String)
    → x ≢ y
    → (unify (λ c. 0) 3 (chain x y) ≡ some (some (chain_solved x y)))
      × (apply_all 2 (chain_solved x y) (var x) ≡ some (not (var y)))
      × (apply_all 2 (chain_solved x y) (not (var y)) ≡ some (not taut))
unfolding unify unify_next unless_equal try_left try_right assign assignable subst_set take_out
    insert_constraint subst apply_all size free_vars expr_beq
unify-apply_all x y h =
    let f : (y == x) ≡ false = ==_false y x (λ e. h (sym e)) in
    (rw f (rw f refl), rw (==_false x y h) (rw (==_refl x) refl), rw (==_refl y) refl)
