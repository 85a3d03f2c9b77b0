-- ===== src/Nnf/Total.antt =====
-- For which expressions `Expr::into_nnf` of aris/src/expr.rs gives a formula.
use aris.Base.{
  Bool, true, false, ◌&&◌, not as not_bool, Option, none, some, ◌≡◌, refl, ap₂, ◌∙◌, ◌>>=◌,
  map_option,
}
use aris.Expr.{Expr, Exprs, Op}
use aris.Nnf
use aris.Nnf.{NnfExprs, NnfExpr, nil, cons, reduce_bicon}
use aris.Nnf.Convert.{into_nnf, map_nnf}

abbrev pub is_some {ℓ} : {A : Type ℓ} → Option A → Bool
is_some none = false
is_some (some _) = true

abbrev is_empty : Exprs → Bool
is_empty Exprs.nil = true
is_empty (Exprs.cons e es) = false

-- The operators that the conversion reads. A biconditional needs an operand.
abbrev pub is_convertible : Op → Exprs → Bool
is_convertible Op.and es = true
is_convertible Op.or es = true
is_convertible Op.bicon es = not_bool (is_empty es)
is_convertible Op.equiv es = false
is_convertible Op.add es = false
is_convertible Op.mult es = false

-- Built from names, ⊥ and ⊤ by ¬, →, ∧, ∨ and ↔ alone, each ↔ with an operand. The operator ≡ is not
-- among them.
unfoldable mutual
  pub is_propositional : Expr → Bool
  is_propositional Expr.contra = true
  is_propositional Expr.taut = true
  is_propositional (Expr.var name) = true
  is_propositional (Expr.apply func args) = false
  is_propositional (Expr.not operand) = is_propositional operand
  is_propositional (Expr.impl left right) = is_propositional left && is_propositional right
  is_propositional (Expr.assoc op exprs) = is_convertible op exprs && all_propositional exprs
  is_propositional (Expr.quant kind name body) = false

  pub all_propositional : Exprs → Bool
  all_propositional Exprs.nil = true
  all_propositional (Exprs.cons e es) = is_propositional e && all_propositional es

is_some-map_option :
    {A B : Type 0} (f : A → B) (o : Option A) → is_some (map_option f o) ≡ is_some o
is_some-map_option f none = refl
is_some-map_option f (some a) = refl

is_some-pair :
    {A B C : Type 0} (f : A → B → C) (o : Option A) (p : Option B)
    → is_some (o >>= λ a. p >>= λ b. some (f a b)) ≡ (is_some o && is_some p)
is_some-pair f none p = refl
is_some-pair f (some a) none = refl
is_some-pair f (some a) (some b) = refl

is_some-reduce :
    (o : Option NnfExpr) (p : Option NnfExprs)
    → is_some ((o >>= λ n. p >>= λ ns. some (cons n ns)) >>= reduce_bicon)
      ≡ (is_some o && is_some p)
unfolding reduce_bicon
is_some-reduce none p = refl
is_some-reduce (some n) none = refl
is_some-reduce (some n) (some ns) = refl

mutual
  unfolding into_nnf reduce_bicon is_propositional

  is_some-aux : (e : Expr) → is_some (into_nnf e) ≡ is_propositional e
  is_some-aux Expr.contra = refl
  is_some-aux Expr.taut = refl
  is_some-aux (Expr.var name) = refl
  is_some-aux (Expr.apply func args) = refl
  is_some-aux (Expr.not operand) =
      is_some-map_option Nnf.not (into_nnf operand) ∙ is_some-aux operand
  is_some-aux (Expr.impl left right) =
      is_some-pair Nnf.implies (into_nnf left) (into_nnf right)
      ∙ ap₂ ◌&&◌ (is_some-aux left) (is_some-aux right)
  is_some-aux (Expr.assoc Op.and es) = is_some-map_option Nnf.and (map_nnf es) ∙ is_some-all es
  is_some-aux (Expr.assoc Op.or es) = is_some-map_option Nnf.or (map_nnf es) ∙ is_some-all es
  is_some-aux (Expr.assoc Op.bicon Exprs.nil) = refl
  is_some-aux (Expr.assoc Op.bicon (Exprs.cons e es)) =
      is_some-reduce (into_nnf e) (map_nnf es) ∙ ap₂ ◌&&◌ (is_some-aux e) (is_some-all es)
  is_some-aux (Expr.assoc Op.equiv es) = refl
  is_some-aux (Expr.assoc Op.add es) = refl
  is_some-aux (Expr.assoc Op.mult es) = refl
  is_some-aux (Expr.quant kind name body) = refl

  is_some-all : (es : Exprs) → is_some (map_nnf es) ≡ all_propositional es
  is_some-all Exprs.nil = refl
  is_some-all (Exprs.cons e es) =
      is_some-pair cons (into_nnf e) (map_nnf es) ∙ ap₂ ◌&&◌ (is_some-aux e) (is_some-all es)

-- The conversion succeeds exactly on the expressions built from names, ⊥ and ⊤ by ¬, →, ∧, ∨ and ↔
-- alone, each ↔ with at least one operand. So it fails on the operator ≡, as on quantifiers, calls and
-- arithmetic.
pub is_some-into_nnf : (e : Expr) → is_some (into_nnf e) ≡ is_propositional e
is_some-into_nnf e = is_some-aux e
