-- ===== src/Rules/Propositional/Parity.antt =====
-- The loop of the biconditional over the operands that `BiconditionalElim` of aris/src/rules.rs takes away and over
-- those that it leaves.
use aris.Base.{
  Bool, true, false, ◌||◌, ◌≡◌, refl, ap, ap₂, ◌∙◌, sym, Bool-cases, inl, inr, if◌then◌else◌, ◌==◌,
  ==_path, ==_refl, none,
}
use aris.Expr.{Expr, Exprs, nil, cons}
use aris.Expr.Eval.{bool_eq}
use aris.Expr.Equal.{expr_eq}
use aris.Normalize.Classical.{bool_eq_assoc, bool_eq-true_right}
use aris.Rules.Check.{exprs_contain}
use aris.Rules.Models.{agree}
use aris.Rules.Propositional.{operands_outside, first_missing}

-- No expression occurs twice.
abbrev pub Distinct : Exprs → Type 0
Distinct nil = Unit
Distinct (cons e es) = (exprs_contain e es ≡ false) × Distinct es

abbrev Within : Exprs → Exprs → Type 0
Within nil es = Unit
Within (cons x s) es = (exprs_contain x es ≡ true) × Within s es

-- Without the first occurrence.
remove_one : Expr → Exprs → Exprs
remove_one x nil = nil
remove_one x (cons e es) = let rest = remove_one x es in if e == x then es else cons e rest

bool_eq_comm : (a b : Bool) → bool_eq a b ≡ bool_eq b a
bool_eq_comm true true = refl
bool_eq_comm true false = refl
bool_eq_comm false true = refl
bool_eq_comm false false = refl

bool_eq-left_comm : (a b c : Bool) → bool_eq a (bool_eq b c) ≡ bool_eq b (bool_eq a c)
bool_eq-left_comm a b c =
    sym (bool_eq_assoc a b c) ∙ ap (λ t. bool_eq t c) (bool_eq_comm a b) ∙ bool_eq_assoc b a c

or_is_false : (a b : Bool) → (a || b) ≡ false → (a ≡ false) × (b ≡ false)
or_is_false true b h = absurd cc
or_is_false false b h = (refl, h)

apart : (x e : Expr) → (e == x) ≡ false → (x == e) ≡ false
apart x e d = elim (Bool-cases (x == e)) [
  | inl t ↦ absurd (let q = rw (==_path x e t) at d in let q' = ==_refl e in cc)
  | inr f ↦ f
]

operands_outside-absent :
    (x : Expr) (s es : Exprs)
    → exprs_contain x es ≡ false
    → operands_outside (cons x s) es ≡ operands_outside s es
unfolding operands_outside exprs_contain
operands_outside-absent x s nil h = refl
operands_outside-absent x s (cons e es) h =
    let (differs, h') = or_is_false (e == x) (exprs_contain x es) h in
    let ne : (x == e) ≡ false = apart x e differs in rw (ne, operands_outside-absent x s es h')

operands_outside-cons :
    (x : Expr) (s es : Exprs)
    → Distinct es
    → operands_outside (cons x s) es ≡ operands_outside s (remove_one x es)
unfolding remove_one operands_outside exprs_contain
operands_outside-cons x s nil d = refl
operands_outside-cons x s (cons e es) d = elim (Bool-cases (e == x)) [
  | inl t ↦
      let same : e ≡ x = ==_path e x t in
      rw (t, same, ==_refl x)
        (operands_outside-absent x s es (ap (λ y. exprs_contain y es) (sym same) ∙ d.0))
  | inr f ↦ elim (Bool-cases (exprs_contain e s)) [
    | inl t ↦ rw (f, apart x e f, t, operands_outside-cons x s es d.1)
    | inr g ↦ rw (f, apart x e f, g, operands_outside-cons x s es d.1)
  ]
]

contain-remove_ne :
    (x y : Expr) (es : Exprs)
    → (x == y) ≡ false
    → exprs_contain y (remove_one x es) ≡ exprs_contain y es
unfolding exprs_contain remove_one
contain-remove_ne x y nil n = refl
contain-remove_ne x y (cons e es) n = elim (Bool-cases (e == x)) [
  | inl t ↦ rw (t, ==_path e x t, n)
  | inr f ↦ rw (f, contain-remove_ne x y es n)
]

contain-remove :
    (x e : Expr) (es : Exprs)
    → exprs_contain e es ≡ false
    → exprs_contain e (remove_one x es) ≡ false
unfolding exprs_contain remove_one
contain-remove x e nil h = refl
contain-remove x e (cons y es) h =
    let (n, h') = or_is_false (y == e) (exprs_contain e es) h in
    elim (Bool-cases (y == x)) [ inl t ↦ rw t h' | inr f ↦ rw (f, n, contain-remove x e es h') ]

Distinct-remove : (x : Expr) (es : Exprs) → Distinct es → Distinct (remove_one x es)
unfolding remove_one
Distinct-remove x nil d = tt
Distinct-remove x (cons e es) d = elim (Bool-cases (e == x)) [
  | inl t ↦ rw t d.1
  | inr f ↦ rw f (contain-remove x e es d.0, Distinct-remove x es d.1)
]

Within-remove :
    (x : Expr) (s es : Exprs) → exprs_contain x s ≡ false → Within s es → Within s (remove_one x es)
unfolding exprs_contain
Within-remove x nil es h w = tt
Within-remove x (cons y s) es h w =
    let (n, h') = or_is_false (y == x) (exprs_contain x s) h in
    (contain-remove_ne x y es (apart x y n) ∙ w.0, Within-remove x s es h' w.1)

pub first_missing-none : (exprs s : Exprs) → first_missing exprs s ≡ none → Within s exprs
unfolding first_missing
first_missing-none exprs nil h = tt
first_missing-none exprs (cons x s) h = elim (Bool-cases (exprs_contain x exprs)) [
  | inl t ↦ (t, first_missing-none exprs s (rw t at h))
  | inr f ↦ absurd (let g = rw f at h in cc)
]

module _ (v : Expr → Bool) where
  agree-start : (b : Bool) (es : Exprs) → agree v b es ≡ bool_eq b (agree v true es)
  agree-start b nil = sym (bool_eq-true_right b)
  agree-start b (cons e es) =
      agree-start (bool_eq b (v e)) es
      ∙ bool_eq_assoc b (v e) (agree v true es)
      ∙ ap (bool_eq b) (sym (agree-start (v e) es))

  agree-remove :
      (x : Expr) (es : Exprs)
      → exprs_contain x es ≡ true
      → agree v true es ≡ bool_eq (v x) (agree v true (remove_one x es))
  unfolding exprs_contain remove_one
  agree-remove x nil h = absurd cc
  agree-remove x (cons e es) h = elim (Bool-cases (e == x)) [
    | inl t ↦ rw t (rw (==_path e x t) (agree-start (v x) es))
    | inr f ↦ rw f (
        agree-start (v e) es
        ∙ ap (bool_eq (v e)) (agree-remove x es (rw f at h))
        ∙ bool_eq-left_comm (v e) (v x) (agree v true (remove_one x es))
        ∙ ap (bool_eq (v x)) (sym (agree-start (v e) (remove_one x es))))
  ]

  operands_outside_nil : (es : Exprs) → operands_outside nil es ≡ es
  unfolding operands_outside exprs_contain
  operands_outside_nil nil = refl
  operands_outside_nil (cons e es) = ap (cons e) (operands_outside_nil es)

  -- The value of all operands is that of those taken away against that of those left.
  pub agree-operands_outside :
      (s es : Exprs)
      → Distinct es
      → Distinct s
      → Within s es
      → agree v true es ≡ bool_eq (agree v true s) (agree v true (operands_outside s es))
  agree-operands_outside nil es d d' w = ap (agree v true) (sym (operands_outside_nil es))
  agree-operands_outside (cons x s) es d d' w =
      agree-remove x es w.0
      ∙ ap (bool_eq (v x)) (
          agree-operands_outside s (remove_one x es) (Distinct-remove x es d) d'.1
            (Within-remove x s es d'.0 w.1))
      ∙ sym (
          bool_eq_assoc (v x) (agree v true s)
            (agree v true (operands_outside s (remove_one x es))))
      ∙ ap₂ bool_eq (sym (agree-start (v x) s))
          (ap (agree v true) (sym (operands_outside-cons x s es d)))
