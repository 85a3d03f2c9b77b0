-- ===== src/Unify/Correct.antt =====
-- What the results of `unify` in aris/src/expr.rs mean, for constraints without quantifiers.
use aris.Base.{String, true, some, List, [], ◌∷◌, ◌++◌, ◌≡◌, ◌∙◌, sym}
use aris.Expr.{Expr}
use aris.Expr.Equal.{expr_eq}
use aris.Expr.Denote.{Algebra, denote}
use aris.Unify.{Constraint, equal, Substitution, extend_constraints, operand_constraints}
use aris.Unify.Plain.{is_plain, put-plain, put-denote}
use aris.Unify.Sets.{Each, Each-map, extend-Each}
use aris.Unify.View.{Plain, put_both, put_set, put_set-Each, Each-put_set}
use aris.Unify.Operands.{Holds, operands-Alike, Alike-Plain}

-- Each variable of the substitution has the value of its expression.
abbrev pub Solves : (M : Algebra) → (String → M.Value) → Substitution → Type 0
Solves M ρ [] = Unit
Solves M ρ (p ∷ sub) = (ρ p.0 ≡ denote M ρ p.1) × Solves M ρ sub

module _ (M : Algebra) (ρ : String → M.Value) where
  pub Solves-last :
      (sub : Substitution) (x : String) (e : Expr)
      → Solves M ρ (sub ++ ((x, e) ∷ []))
      → Solves M ρ sub × (ρ x ≡ denote M ρ e)
  Solves-last [] x e (h, h') = (tt, h)
  Solves-last (p ∷ sub) x e (h, h') = let (i, j) = Solves-last sub x e h' in ((h, i), j)

  pub last-Solves :
      (sub : Substitution) (x : String) (e : Expr)
      → Solves M ρ sub
      → ρ x ≡ denote M ρ e
      → Solves M ρ (sub ++ ((x, e) ∷ []))
  last-Solves [] x e h h' = (h', tt)
  last-Solves (p ∷ sub) x e (h, i) h' = (h, last-Solves sub x e i h')

  -- Where the variable has the value of the expression, the replacement changes no constraint.
  pub put_set-Holds :
      (x : String) (e : Expr) (c : List Constraint)
      → ρ x ≡ denote M ρ e
      → Each (Holds M ρ) c
      → Each (Holds M ρ) (put_set x e c)
  put_set-Holds x e c h k =
      put_set-Each (Holds M ρ) x e c
        (Each-map (Holds M ρ) (λ d. Holds M ρ (put_both x e d)) (λ d. at d) c k)
    where
      at : (d : Constraint) → Holds M ρ d → Holds M ρ (put_both x e d)
      at (equal a b) q = put-denote M ρ x e h a ∙ q ∙ sym (put-denote M ρ x e h b)

  pub Holds-put_set :
      (x : String) (e : Expr) (c : List Constraint)
      → ρ x ≡ denote M ρ e
      → Each (Holds M ρ) (put_set x e c)
      → Each (Holds M ρ) c
  Holds-put_set x e c h k =
      Each-map (λ d. Holds M ρ (put_both x e d)) (Holds M ρ) (λ d. at d) c
        (Each-put_set (Holds M ρ) x e c k)
    where
      at : (d : Constraint) → Holds M ρ (put_both x e d) → Holds M ρ d
      at (equal a b) q = sym (put-denote M ρ x e h a) ∙ q ∙ put-denote M ρ x e h b

-- The constraints stay without quantifiers.
pub put_set-Plain :
    (x : String) (e : Expr) (c : List Constraint)
    → is_plain e ≡ true
    → Each Plain c
    → Each Plain (put_set x e c)
put_set-Plain x e c h k =
    put_set-Each Plain x e c (Each-map Plain (λ d. Plain (put_both x e d)) (λ d. at d) c k)
  where
    at : (d : Constraint) → Plain d → Plain (put_both x e d)
    at (equal a b) (p, q) = (put-plain x e h a p, put-plain x e h b q)

pub extend-Plain :
    (left right : Expr) (c cs : List Constraint)
    → operand_constraints left right ≡ some cs
    → is_plain left ≡ true
    → is_plain right ≡ true
    → Each Plain c
    → Each Plain (extend_constraints c cs)
extend-Plain left right c cs h p q k =
    extend-Each Plain c cs k (Alike-Plain left right cs (operands-Alike left right cs h) p q)
