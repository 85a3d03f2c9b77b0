-- ===== src/Unify/General.antt =====
-- The result of `unify` in aris/src/expr.rs and the constraints, for terms: from the constraints to the
-- result's equations.
use aris.Base.{
  ℕ, suc, zero, String, true, Option, none, some, List, ◌∷◌, ◌≡◌, ap, ◌∙◌, sym, Option-cases, inl,
  inr, ◌==◌,
}
use aris.Expr.{Expr}
use aris.Expr.Equal.{expr_eq}
use aris.Expr.Denote.{denote}
use aris.Unify.{
  Constraint, equal, Substitution, Unifier, extend_constraints, take_out, unify, unify_next,
  unless_equal,
}
use aris.Unify.Plain.{is_plain}
use aris.Unify.Sets.{Each, take_out-Each, extend-Each}
use aris.Unify.View.{
  Plain, put_set, also, Arm, same, left_var, right_var, split, clash, unless_equal-Arm,
}
use aris.Unify.Terms.{terms}
use aris.Unify.Clash.{clash-value}
use aris.Unify.Operands.{Holds, operands-Alike, Alike-values}
use aris.Unify.Correct.{Solves, last-Solves, put_set-Holds, put_set-Plain, extend-Plain}

module _ (θ : String → Expr) where
  abbrev pub General : List Constraint → Option (Option Substitution) → Type 0
  General c none = Unit
  General c (some none) = ¬ Each (Holds terms θ) c
  General c (some (some sub)) = Each (Holds terms θ) c → Solves terms θ sub

  General-also :
      (x : String) (e : Expr) (c c' : List Constraint) (o : Option (Option Substitution))
      → General c' o
      → (Each (Holds terms θ) c → (θ x ≡ denote terms θ e) × Each (Holds terms θ) c')
      → General c (also x e o)
  General-also x e c c' none h k = tt
  General-also x e c c' (some none) h k = λ s. h (k s).1
  General-also x e c c' (some (some sub)) h k =
      λ s. let (i, j) = k s in last-Solves terms θ sub x e (h j) i

  General-from :
      (c c' : List Constraint) (o : Option (Option Substitution))
      → General c' o
      → (Each (Holds terms θ) c → Each (Holds terms θ) c')
      → General c o
  General-from c c' none h k = tt
  General-from c c' (some none) h k = λ s. h (k s)
  General-from c c' (some (some sub)) h k = λ s. h (k s)

  arm-General :
      (unify : Unifier) (left right : Expr) (c : List Constraint)
      (f : Unifier → Option (Option Substitution))
      → is_plain left ≡ true
      → is_plain right ≡ true
      → Each Plain c
      → ((c' : List Constraint) → Each Plain c' → General c' (unify c'))
      → Arm left right c f
      → General (equal left right ∷ c) (f unify)
  unfolding denote
  arm-General unify left right c f p q k ih (same e) =
      General-from (equal left right ∷ c) c (unify c) (ih c k) (λ h. h.1)
  arm-General unify left right c f p q k ih (left_var x e j) =
      General-also x right (equal left right ∷ c) (put_set x right c) (unify (put_set x right c))
        (ih (put_set x right c) (put_set-Plain x right c q k))
        (λ (h, h').
          let i : θ x ≡ denote terms θ right = sym (ap (denote terms θ) e) ∙ h in
          (i, put_set-Holds terms θ x right c i h'))
  arm-General unify left right c f p q k ih (right_var x e j) =
      General-also x left (equal left right ∷ c) (put_set x left c) (unify (put_set x left c))
        (ih (put_set x left c) (put_set-Plain x left c p k))
        (λ (h, h').
          let i : θ x ≡ denote terms θ left = sym (h ∙ ap (denote terms θ) e) in
          (i, put_set-Holds terms θ x left c i h'))
  arm-General unify left right c f p q k ih (split cs e) =
      General-from (equal left right ∷ c) (extend_constraints c cs)
        (unify (extend_constraints c cs))
        (ih (extend_constraints c cs) (extend-Plain left right c cs e p q k))
        (λ (h, h').
          extend-Each (Holds terms θ) c cs h'
            (Alike-values θ left right cs (operands-Alike left right cs e) h))
  arm-General unify left right c f p q k ih (clash e i j h) =
      λ s. clash-value θ left right p q e i j h s.0

  module _ (order : List Constraint → ℕ) where
    pub unify-General : (n : ℕ) (c : List Constraint) → Each Plain c → General c (unify order n c)
    unfolding unify unify_next
    unify-General zero c k = tt
    unify-General (suc n) c k = elim (Option-cases (take_out (order c) c)) [
      | inl e ↦ rw e (λ s. tt)
      | inr ((equal left right, c'), e) ↦
          let ((p, q), k') = (take_out-Each Plain (order c) c (equal left right) c' e).0 k in
          let arm = unless_equal-Arm c' k' left right p in
          rw e (
            General-from c (equal left right ∷ c')
              (unless_equal (unify order n) left right c' (left == right))
              (arm-General (unify order n) left right c'
                (λ unify. unless_equal unify left right c' (left == right)) p q k'
                (λ c'' k''. unify-General n c'' k'') arm)
              (take_out-Each (Holds terms θ) (order c) c (equal left right) c' e).0)
    ]
