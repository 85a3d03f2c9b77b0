-- ===== src/Cnf/Convert.antt =====
-- `NnfExpr::into_cnf` of aris/src/expr.rs: where it keeps the meaning, and where it does not.
use aris.Base.{
  Bool, true, false, not as not_bool, ◌||◌, ◌&&◌, List, [], ◌∷◌, all, any, CartesianProduct, some,
  map_option, ◌≡◌, refl, ap, ap₂, ◌∙◌, sym, arith, is_nil, is_nil-flat_map,
}
use aris.Expr.{Expr}
use aris.Expr.Eval.{Env, eval}
use aris.Nnf
use aris.Nnf.{NnfExpr, NnfExprs, lit, nil, cons, Valuation, holds, any_holds, all_hold}
use aris.Nnf.Convert.{into_nnf, Agrees, eval-into_nnf}
use aris.Cnf
use aris.Cnf.{
  CnfExpr, Clause, or_clauses, into_cnf, map_cnf, expr_into_cnf, cnf_holds, clauses_hold, literal,
  contra,
}
use aris.Cnf.Meaning.{cnf_holds-and, cnf_holds-or}

-- Made of empty conjunctions alone, so that the conversion gives no clause.
unfoldable mutual
  pub is_trivial : NnfExpr → Bool
  is_trivial (lit polarity name) = false
  is_trivial (Nnf.or es) = false
  is_trivial (Nnf.and es) = all_trivial es

  pub all_trivial : NnfExprs → Bool
  all_trivial nil = true
  all_trivial (cons e es) = is_trivial e && all_trivial es

unfoldable pub any_trivial : NnfExprs → Bool
any_trivial nil = false
any_trivial (cons e es) = is_trivial e || any_trivial es

-- No disjunction has a trivial operand.
unfoldable mutual
  unfolding any_trivial

  pub is_guarded : NnfExpr → Bool
  is_guarded (lit polarity name) = true
  is_guarded (Nnf.or es) = not_bool (any_trivial es) && all_guarded es
  is_guarded (Nnf.and es) = all_guarded es

  pub all_guarded : NnfExprs → Bool
  all_guarded nil = true
  all_guarded (cons e es) = is_guarded e && all_guarded es

single : (b : Bool) → ((b || false) && true) ≡ b
single true = refl
single false = refl

module _ (crate : CartesianProduct) where
  or-not-nil : (es : List CnfExpr) → is_nil (Cnf.or crate es).clauses ≡ false
  unfolding Cnf.or contra
  or-not-nil es = or_clauses-not-nil _
    where
      or_clauses-not-nil : (cs : List Clause) → is_nil (or_clauses cs).clauses ≡ false
      or_clauses-not-nil [] = refl
      or_clauses-not-nil (c ∷ cs) = refl

  is_nil-and : (es : List CnfExpr) → is_nil (Cnf.and es).clauses ≡ all (λ e. is_nil e.clauses) es
  unfolding Cnf.and
  is_nil-and es = is_nil-flat_map (λ e. e.clauses) es

  mutual
    unfolding into_cnf is_trivial literal

    is_nil-into_cnf : (n : NnfExpr) → is_nil (into_cnf crate n).clauses ≡ is_trivial n
    is_nil-into_cnf (lit p name) = refl
    is_nil-into_cnf (Nnf.or es) = or-not-nil (map_cnf crate es)
    is_nil-into_cnf (Nnf.and es) = is_nil-and (map_cnf crate es) ∙ all-map_cnf es

    all-map_cnf : (es : NnfExprs) → all (λ e. is_nil e.clauses) (map_cnf crate es) ≡ all_trivial es
    all-map_cnf nil = refl
    all-map_cnf (cons e es) = ap₂ (λ a b. a && b) (is_nil-into_cnf e) (all-map_cnf es)

  any-map_cnf : (es : NnfExprs) → any (λ e. is_nil e.clauses) (map_cnf crate es) ≡ any_trivial es
  unfolding into_cnf any_trivial
  any-map_cnf nil = refl
  any-map_cnf (cons e es) = ap₂ (λ a b. a || b) (is_nil-into_cnf e) (any-map_cnf es)

  module _ (v : Valuation) where
    mutual
      unfolding into_cnf is_guarded holds cnf_holds literal

      cnf_holds-aux :
          (n : NnfExpr) → is_guarded n ≡ true → cnf_holds v (into_cnf crate n) ≡ holds v n
      cnf_holds-aux (lit p name) h = single (Nnf.polar p (v name))
      cnf_holds-aux (Nnf.or es) h =
          let free : any_trivial es ≡ false = ground arith in
          cnf_holds-or crate v (map_cnf crate es)
          ∙ ap₂ (λ a b. not_bool a && b) (any-map_cnf es ∙ free) (any-cnf_holds es (ground arith))
      cnf_holds-aux (Nnf.and es) h = cnf_holds-and v (map_cnf crate es) ∙ all-cnf_holds es h

      all-cnf_holds :
          (es : NnfExprs)
          → all_guarded es ≡ true
          → all (cnf_holds v) (map_cnf crate es) ≡ all_hold v es
      all-cnf_holds nil h = refl
      all-cnf_holds (cons e es) h =
          ap₂ (λ a b. a && b) (cnf_holds-aux e (ground arith)) (all-cnf_holds es (ground arith))

      any-cnf_holds :
          (es : NnfExprs)
          → all_guarded es ≡ true
          → any (cnf_holds v) (map_cnf crate es) ≡ any_holds v es
      any-cnf_holds nil h = refl
      any-cnf_holds (cons e es) h =
          ap₂ (λ a b. a || b) (cnf_holds-aux e (ground arith)) (any-cnf_holds es (ground arith))

  mutual
    unfolding holds is_trivial

    holds-is_trivial : (v : Valuation) (n : NnfExpr) → is_trivial n ≡ true → holds v n ≡ true
    holds-is_trivial v (lit p name) h = cc
    holds-is_trivial v (Nnf.or es) h = cc
    holds-is_trivial v (Nnf.and es) h = all_hold-all_trivial v es h

    all_hold-all_trivial :
        (v : Valuation) (es : NnfExprs) → all_trivial es ≡ true → all_hold v es ≡ true
    all_hold-all_trivial v nil h = refl
    all_hold-all_trivial v (cons e es) h =
        ap₂ (λ a b. a && b) (holds-is_trivial v e (ground arith))
          (all_hold-all_trivial v es (ground arith))

  any_holds-any_trivial :
      (v : Valuation) (es : NnfExprs) → any_trivial es ≡ true → any_holds v es ≡ true
  unfolding any_trivial holds
  any_holds-any_trivial v nil h = cc
  any_holds-any_trivial v (cons e es) h =
      ground (arith, holds-is_trivial v e, any_holds-any_trivial v es)

-- The conversion keeps the meaning of every formula in which no disjunction has a trivially true
-- operand (one made of empty conjunctions).
pub cnf_holds-into_cnf :
    (crate : CartesianProduct) (v : Valuation) (n : NnfExpr)
    → is_guarded n ≡ true
    → cnf_holds v (into_cnf crate n) ≡ holds v n
cnf_holds-into_cnf crate v n h = cnf_holds-aux crate v n h

-- A disjunction with a trivially true operand is true, and is converted to a false formula.
pub cnf_holds-into_cnf_trivial :
    (crate : CartesianProduct) (v : Valuation) (es : NnfExprs)
    → any_trivial es ≡ true
    → (holds v (Nnf.or es) ≡ true) × (cnf_holds v (into_cnf crate (Nnf.or es)) ≡ false)
unfolding holds into_cnf
cnf_holds-into_cnf_trivial crate v es h = (
  any_holds-any_trivial crate v es h,
  cnf_holds-or crate v (map_cnf crate es)
      ∙ ap (λ a. not_bool a && any (cnf_holds v) (map_cnf crate es)) (any-map_cnf crate es ∙ h),
)

-- The whole conversion of an expression to clauses. Let each name have a table in the environment
-- whose first entry is the name's truth value in the valuation. Where the normal form exists and is
-- guarded, the conversion succeeds, evaluating the expression does not panic, and its value is the
-- meaning of the clauses.
pub eval-expr_into_cnf :
    (crate : CartesianProduct) (env : Env) (v : Valuation) (e : Expr) (n : NnfExpr)
    → Agrees env v
    → into_nnf e ≡ some n
    → is_guarded n ≡ true
    → (c : CnfExpr) × (expr_into_cnf crate e ≡ some c) × (eval env e ≡ some (cnf_holds v c))
unfolding expr_into_cnf
eval-expr_into_cnf crate env v e n ag h g = (
  into_cnf crate n,
  ap (map_option (into_cnf crate)) h,
  eval-into_nnf env v e n ag h ∙ ap some (sym (cnf_holds-into_cnf crate v n g)),
)
