-- ===== src/Unify/Sound.antt =====
-- The result of `unify` in aris/src/expr.rs and the constraints, in every algebra: from the result's equations
-- to the constraints.
use aris.Base.{
  ℕ, suc, zero, String, true, Option, none, some, List, ◌∷◌, ◌≡◌, ap, ◌∙◌, sym, Option-cases, inl,
  inr, transport, ◌==◌,
}
use aris.Expr.{Expr, var}
use aris.Expr.Equal.{expr_eq}
use aris.Expr.Denote.{Algebra, denote}
use aris.Unify.{
  Constraint, equal, Substitution, Unifier, extend_constraints, take_out, unify, unify_next,
  unless_equal,
}
use aris.Unify.Plain.{is_plain}
use aris.Unify.Sets.{Each, take_out-Each, take_out-none, Each-extend}
use aris.Unify.View.{
  Plain, put_set, also, Arm, same, left_var, right_var, split, clash, unless_equal-Arm,
}
use aris.Unify.Operands.{Holds, operands-Alike, Alike-denote}
use aris.Unify.Correct.{Solves, Solves-last, Holds-put_set, put_set-Plain, extend-Plain}

-- An assignment under which the substitution's equations hold makes the constraints hold.
module _ (M : Algebra) (ρ : String → M.Value) where
  abbrev pub Sound : List Constraint → Option (Option Substitution) → Type 0
  Sound c none = Unit
  Sound c (some none) = Unit
  Sound c (some (some sub)) = Solves M ρ sub → Each (Holds M ρ) c

  Sound-also :
      (x : String) (e : Expr) (c c' : List Constraint) (o : Option (Option Substitution))
      → Sound c' o
      → (ρ x ≡ denote M ρ e → Each (Holds M ρ) c' → Each (Holds M ρ) c)
      → Sound c (also x e o)
  Sound-also x e c c' none h k = tt
  Sound-also x e c c' (some none) h k = tt
  Sound-also x e c c' (some (some sub)) h k =
      λ s. let (i, j) = Solves-last M ρ sub x e s in k j (h i)

  Sound-from :
      (c c' : List Constraint) (o : Option (Option Substitution))
      → Sound c' o
      → (Each (Holds M ρ) c' → Each (Holds M ρ) c)
      → Sound c o
  Sound-from c c' none h k = tt
  Sound-from c c' (some none) h k = tt
  Sound-from c c' (some (some sub)) h k = λ s. k (h s)

  arm-Sound :
      (unify : Unifier) (left right : Expr) (c : List Constraint)
      (f : Unifier → Option (Option Substitution))
      → is_plain left ≡ true
      → is_plain right ≡ true
      → Each Plain c
      → ((c' : List Constraint) → Each Plain c' → Sound c' (unify c'))
      → Arm left right c f
      → Sound (equal left right ∷ c) (f unify)
  unfolding denote
  arm-Sound unify left right c f p q k ih (same e) =
      Sound-from (equal left right ∷ c) c (unify c) (ih c k) (λ h. (ap (denote M ρ) e, h))
  arm-Sound unify left right c f p q k ih (left_var x e j) =
      Sound-also x right (equal left right ∷ c) (put_set x right c) (unify (put_set x right c))
        (ih (put_set x right c) (put_set-Plain x right c q k))
        (λ h h'. (at_var left x e ∙ h, Holds-put_set M ρ x right c h h'))
    where
      at_var : (l : Expr) (x : String) → l ≡ var x → denote M ρ l ≡ ρ x
      at_var l x e = ap (denote M ρ) e
  arm-Sound unify left right c f p q k ih (right_var x e j) =
      Sound-also x left (equal left right ∷ c) (put_set x left c) (unify (put_set x left c))
        (ih (put_set x left c) (put_set-Plain x left c p k))
        (λ h h'. (sym (at_var right x e ∙ h), Holds-put_set M ρ x left c h h'))
    where
      at_var : (l : Expr) (x : String) → l ≡ var x → denote M ρ l ≡ ρ x
      at_var l x e = ap (denote M ρ) e
  arm-Sound unify left right c f p q k ih (split cs e) =
      Sound-from (equal left right ∷ c) (extend_constraints c cs) (unify (extend_constraints c cs))
        (ih (extend_constraints c cs) (extend-Plain left right c cs e p q k))
        (λ h.
          let (i, j) = Each-extend (Holds M ρ) c cs h in
          (Alike-denote M ρ left right cs (operands-Alike left right cs e) j, i))
  arm-Sound unify left right c f p q k ih (clash e i j h) = tt

  module _ (order : List Constraint → ℕ) where
    pub unify-Sound : (n : ℕ) (c : List Constraint) → Each Plain c → Sound c (unify order n c)
    unfolding unify unify_next
    unify-Sound zero c k = tt
    unify-Sound (suc n) c k = elim (Option-cases (take_out (order c) c)) [
      | inl e ↦ rw e (λ s. transport (Each (Holds M ρ)) (sym (take_out-none (order c) c e)) tt)
      | inr ((equal left right, c'), e) ↦
          let ((p, q), k') = (take_out-Each Plain (order c) c (equal left right) c' e).0 k in
          let arm = unless_equal-Arm c' k' left right p in
          rw e (
            Sound-from c (equal left right ∷ c')
              (unless_equal (unify order n) left right c' (left == right))
              (arm-Sound (unify order n) left right c'
                (λ unify. unless_equal unify left right c' (left == right)) p q k'
                (λ c'' k''. unify-Sound n c'' k'') arm)
              (take_out-Each (Holds M ρ) (order c) c (equal left right) c' e).1)
    ]
