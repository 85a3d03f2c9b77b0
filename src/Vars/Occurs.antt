-- ===== src/Vars/Occurs.antt =====
-- Members of the sets of aris/src/expr.rs, and the names on which an expression's denotation
-- depends.
use text.Mathlib.TextEquality.{eq_iff}
use aris.Base.{
  ◌≡◌, refl, ap, ap₂, ◌∙◌, sym, fun_ext, String, true, not as not_bool, ◌||◌, ◌&&◌, List, [], ◌∷◌,
  ◌==◌, string_eq, Bool-cases, inl, inr, arith, ==_refl, ==_path, or_assoc,
}
use aris.Expr.{Expr, Exprs, contra, taut, var, apply, not, impl, assoc, quant, nil, cons}
use aris.Expr.Denote.{Algebra, update, denote, denote_all}
use aris.Vars.{contains, insert, extend, remove, free_vars, free_vars_all}

contains-insert :
    (y x : String) (s : List String) → contains y (insert x s) ≡ ((x == y) || contains y s)
unfolding insert
contains-insert y x s = elim (Bool-cases (contains x s)) [
  | inl t ↦ elim (Bool-cases (x == y)) [
    | inl e ↦ rw (t, e) (rw (==_path x y e) at t)
    | inr f ↦ rw (t, f)
  ]
  | inr f ↦ rw f
]

pub contains-extend :
    (y : String) (s t : List String) → contains y (extend s t) ≡ (contains y t || contains y s)
unfolding extend
contains-extend y s [] = refl
contains-extend y s (x ∷ t) =
    contains-insert y x (extend s t)
    ∙ rw (contains-extend y s t) (sym (or_assoc (x == y) (contains y t) (contains y s)))

pub contains-remove :
    (y x : String) (s : List String) → contains y (remove x s) ≡ (not_bool (y == x) && contains y s)
unfolding remove
contains-remove y x [] = ground arith
contains-remove y x (z ∷ s) =
    ground (arith, eq_iff z x, eq_iff y x, eq_iff z y, contains-remove y x s)

pub contains-extend_left :
    (y : String) (s t : List String) → contains y s ≡ true → contains y (extend s t) ≡ true
contains-extend_left y s t h = contains-extend y s t ∙ ground arith

pub contains-extend_right :
    (y : String) (s t : List String) → contains y t ≡ true → contains y (extend s t) ≡ true
contains-extend_right y s t h = contains-extend y s t ∙ ground arith

module _ (M : Algebra) where
  -- Two assignments that agree on a set of names.
  abbrev pub AgreeOn : List String → (String → M.Value) → (String → M.Value) → Type 0
  AgreeOn s ρ σ = (x : String) → contains x s ≡ true → ρ x ≡ σ x

  mutual
    unfolding denote free_vars

    pub denote_ext :
        (e : Expr) (ρ σ : String → M.Value)
        → AgreeOn (free_vars e) ρ σ
        → denote M ρ e ≡ denote M σ e
    denote_ext contra ρ σ h = refl
    denote_ext taut ρ σ h = refl
    denote_ext (var name) ρ σ h = h name (rw (==_refl name))
    denote_ext (apply func args) ρ σ h =
        ap₂ M.call
          (denote_ext func ρ σ
            (λ x t. h x (contains-extend_left x (free_vars func) (free_vars_all args) t)))
          (denote_all_ext args ρ σ
            (λ x t. h x (contains-extend_right x (free_vars func) (free_vars_all args) t)))
    denote_ext (not operand) ρ σ h = ap M.negation (denote_ext operand ρ σ h)
    denote_ext (impl left right) ρ σ h =
        ap₂ M.implication
          (denote_ext left ρ σ
            (λ x t. h x (contains-extend_left x (free_vars left) (free_vars right) t)))
          (denote_ext right ρ σ
            (λ x t. h x (contains-extend_right x (free_vars left) (free_vars right) t)))
    denote_ext (assoc op exprs) ρ σ h = ap (M.operation op) (denote_all_ext exprs ρ σ h)
    denote_ext (quant kind name body) ρ σ h = ap (M.quantifier kind) (
        fun_ext (λ d. denote_ext body (update ρ name d) (update σ name d) (λ x t.
          elim (Bool-cases (x == name)) [
            | inl u ↦ rw u
            | inr u ↦ rw u (h x (rw (contains-remove x name (free_vars body), u) t))
          ])))

    denote_all_ext :
        (es : Exprs) (ρ σ : String → M.Value)
        → AgreeOn (free_vars_all es) ρ σ
        → denote_all M ρ es ≡ denote_all M σ es
    denote_all_ext nil ρ σ h = refl
    denote_all_ext (cons e es) ρ σ h =
        ap₂ ◌∷◌
          (denote_ext e ρ σ
            (λ x t. h x (contains-extend_left x (free_vars e) (free_vars_all es) t)))
          (denote_all_ext es ρ σ
            (λ x t. h x (contains-extend_right x (free_vars e) (free_vars_all es) t)))
