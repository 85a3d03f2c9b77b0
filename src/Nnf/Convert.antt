-- ===== src/Nnf/Convert.antt =====
-- `Expr::into_nnf` of aris/src/expr.rs, and what its result means.
use mathlib.Core.List.{foldl}
use aris.Base.{
  String, true, false, Option, none, some, ◌≡◌, refl, ap, ◌∙◌, sym, arith, ◌>>=◌, bind-eq-some,
  map_option, get_elem?, map_option-eq-some, some-inj,
}
use aris.Expr.{Expr, Exprs, Op}
use aris.Expr.Eval.{Env, eval, eval_exprs, fold_of}
use aris.Nnf
use aris.Nnf.{
  NnfExpr, NnfExprs, lit, or, and, nil, cons, implies, reduce_bicon, Valuation, holds, any_holds,
  all_hold, values,
}
use aris.Nnf.Meaning.{holds-not, holds-implies, holds-reduce_bicon, foldl-and, foldl-or}

unfoldable pub assoc_nnf : Op → Option NnfExprs → Option NnfExpr
assoc_nnf Op.and exprs = map_option and exprs
assoc_nnf Op.or exprs = map_option or exprs
assoc_nnf Op.bicon exprs = exprs >>= reduce_bicon
assoc_nnf Op.equiv exprs = none
assoc_nnf Op.add exprs = none
assoc_nnf Op.mult exprs = none

unfoldable mutual
  unfolding assoc_nnf

  pub into_nnf : Expr → Option NnfExpr
  into_nnf Expr.contra = some Nnf.contra
  into_nnf Expr.taut = some Nnf.taut
  into_nnf (Expr.var name) = some (Nnf.var name)
  into_nnf (Expr.apply func args) = none
  into_nnf (Expr.quant kind name body) = none
  into_nnf (Expr.not operand) = map_option Nnf.not (into_nnf operand)
  into_nnf (Expr.impl left right) =
      into_nnf left >>= λ l. into_nnf right >>= λ r. some (implies l r)
  into_nnf (Expr.assoc op exprs) = assoc_nnf op (map_nnf exprs)

  pub map_nnf : Exprs → Option NnfExprs
  map_nnf Exprs.nil = some nil
  map_nnf (Exprs.cons e es) = into_nnf e >>= λ n. map_nnf es >>= λ ns. some (cons n ns)

-- Every name has a truth table that begins with its value.
abbrev pub Agrees : Env → Valuation → Type 0
Agrees env v = (name : String) → (env name >>= λ table. get_elem? table 0) ≡ some (v name)

-- The meaning of an operator over results that are known.
eval-assoc_nnf :
    (v : Valuation) (op : Op) (ns : NnfExprs) {n : NnfExpr}
    → assoc_nnf op (some ns) ≡ some n
    → (fold_of op >>= λ start. some (foldl start.1 start.0 (values v ns))) ≡ some (holds v n)
unfolding assoc_nnf fold_of holds
eval-assoc_nnf v Op.and ns h = cc (foldl-and v ns true)
eval-assoc_nnf v Op.or ns h = cc (foldl-or v ns false)
eval-assoc_nnf v Op.bicon ns h = ap some (sym (holds-reduce_bicon v ns h))
eval-assoc_nnf v Op.equiv ns h = cc
eval-assoc_nnf v Op.add ns h = cc
eval-assoc_nnf v Op.mult ns h = cc

assoc_nnf-none :
    (op : Op) {n : NnfExpr} (r : Option NnfExprs)
    → assoc_nnf op r ≡ some n
    → (ns : NnfExprs) × (r ≡ some ns)
unfolding assoc_nnf
assoc_nnf-none op none h = ground arith
assoc_nnf-none op (some ns) h = (ns, refl)

mutual
  unfolding eval into_nnf holds values Nnf.contra Nnf.taut Nnf.var

  eval-into_nnf_aux :
      (env : Env) (v : Valuation)
      → Agrees env v
      → (e : Expr) (n : NnfExpr) → into_nnf e ≡ some n
      → eval env e ≡ some (holds v n)
  eval-into_nnf_aux env v ag Expr.contra n h = cc
  eval-into_nnf_aux env v ag Expr.taut n h = cc
  eval-into_nnf_aux env v ag (Expr.var name) n h = cc (ag name)
  eval-into_nnf_aux env v ag (Expr.apply func args) n h = cc
  eval-into_nnf_aux env v ag (Expr.quant kind name body) n h = cc
  eval-into_nnf_aux env v ag (Expr.not operand) n h =
      let (m, e, q) = map_option-eq-some Nnf.not (into_nnf operand) h in
      rw (eval-into_nnf_aux env v ag operand m e) (ap some (sym (holds-not v m) ∙ ap (holds v) q))
  eval-into_nnf_aux env v ag (Expr.impl left right) n h =
      let (l, p, h') =
        bind-eq-some (into_nnf left) (λ l. into_nnf right >>= λ r. some (implies l r)) h in
      let (r, q, h'') = bind-eq-some (into_nnf right) (λ r. some (implies l r)) h' in
      rw (eval-into_nnf_aux env v ag left l p, eval-into_nnf_aux env v ag right r q)
        (ap some (sym (holds-implies v l r) ∙ ap (holds v) (some-inj h'')))
  eval-into_nnf_aux env v ag (Expr.assoc op exprs) n h =
      let (ns, p) = assoc_nnf-none op (map_nnf exprs) h in
      rw (eval_exprs-map_nnf env v ag exprs ns p) (eval-assoc_nnf v op ns (rw p at h))

  eval_exprs-map_nnf :
      (env : Env) (v : Valuation)
      → Agrees env v
      → (es : Exprs) (ns : NnfExprs) → map_nnf es ≡ some ns
      → eval_exprs env es ≡ some (values v ns)
  eval_exprs-map_nnf env v ag Exprs.nil ns h = cc
  eval_exprs-map_nnf env v ag (Exprs.cons e es) ns h =
      let (m, p, h') = bind-eq-some (into_nnf e) (λ n. map_nnf es >>= λ ns. some (cons n ns)) h in
      let (ms, q, h'') = bind-eq-some (map_nnf es) (λ ns. some (cons m ns)) h' in
      rw (eval-into_nnf_aux env v ag e m p, eval_exprs-map_nnf env v ag es ms q)
        (ap some (ap (values v) (some-inj h'')))

-- Where the conversion gives a formula, evaluating the expression does not panic, and the result is
-- the meaning of the formula.
pub eval-into_nnf :
    (env : Env) (v : Valuation) (e : Expr) (n : NnfExpr)
    → Agrees env v
    → into_nnf e ≡ some n
    → eval env e ≡ some (holds v n)
eval-into_nnf env v e n ag h = eval-into_nnf_aux env v ag e n h
