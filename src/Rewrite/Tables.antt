-- ===== src/Rewrite/Tables.antt =====
-- Truth tables over three names, for the patterns of aris/src/equivs.rs.
use aris.Base.{
  String, Bool, true, false, ◌&&◌, ◌||◌, List, [], ◌∷◌, ◌≡◌, refl, ap, ◌∙◌, sym, ◌==◌, string_eq,
  if◌then◌else◌, all, Bool-cases, inl, inr, ==_path, and-left, and-right, In, transport, arith,
}
use aris.Expr.{Expr, Op}
use aris.Expr.Eval.{bool_eq}
use aris.Expr.Denote.{Algebra, denote}
use aris.Expr.TwoValued.{two_valued, connective}
use aris.Vars.{contains, free_vars, extend, insert}
use aris.Vars.Occurs.{denote_ext}
use aris.Rewrite.Equivs.{biconditional_substitution_patterns}
use aris.Rewrite.Rules.{plain_rules, all_equivalences}

pub all-In :
    {A : Type 0} (p : A → Bool) (x : A) (xs : List A) → In x xs → all p xs ≡ true → p x ≡ true
all-In p x [] h t = elim h [ ]
all-In p x (y ∷ xs) (inl e) t = ap p e ∙ and-left (p y) (all p xs) t
all-In p x (y ∷ xs) (inr h) t = all-In p x xs h (and-right (p y) (all p xs) t)

all-contains :
    (p : String → Bool) (n : String) (s : List String)
    → all p s ≡ true
    → contains n s ≡ true
    → p n ≡ true
all-contains p n [] t h = absurd cc
all-contains p n (m ∷ s) t h = elim (Bool-cases (m == n)) [
  | inl u ↦ ap p (sym (==_path m n u)) ∙ and-left (p m) (all p s) t
  | inr u ↦ all-contains p n s (and-right (p m) (all p s) t) (rw u at h)
]

abbrev in_all_rows : (Bool → Bool → Bool → Bool) → Bool
in_all_rows g =
    (g true true true && g true true false && g true false true && g true false false)
    && (g false true true && g false true false && g false false true && g false false false)

in_all_rows_lem :
    (g : Bool → Bool → Bool → Bool) → in_all_rows g ≡ true → (a b c : Bool) → g a b c ≡ true
in_all_rows_lem g t true true true = ground arith
in_all_rows_lem g t true true false = ground arith
in_all_rows_lem g t true false true = ground arith
in_all_rows_lem g t true false false = ground arith
in_all_rows_lem g t false true true = ground arith
in_all_rows_lem g t false true false = ground arith
in_all_rows_lem g t false false true = ground arith
in_all_rows_lem g t false false false = ground arith

bool_eq_path : (a b : Bool) → bool_eq a b ≡ true → a ≡ b
bool_eq_path true true h = refl
bool_eq_path true false h = sym h
bool_eq_path false true h = h
bool_eq_path false false h = refl

-- The algebra of truth values with any meaning of calls.
abbrev pub truth_values : (Bool → List Bool → Bool) → Algebra
truth_values call = record two_valued { call = call }

module _ (call : Bool → List Bool → Bool) (x y z : String) where
  abbrev row : Bool → Bool → Bool → String → Bool
  row a b c n = if n == x then a else if n == y then b else if n == z then c else false

  abbrev is_named : String → Bool
  is_named n = n == x || n == y || n == z

  abbrev sides_agree : Expr × Expr → Bool → Bool → Bool → Bool
  sides_agree p a b c =
      bool_eq (denote (truth_values call) (row a b c) p.0)
        (denote (truth_values call) (row a b c) p.1)

  abbrev rows_agree : Expr × Expr → Bool
  rows_agree p = in_all_rows (sides_agree p)

  abbrev are_named : Expr × Expr → Bool
  are_named p = all is_named (free_vars p.0) && all is_named (free_vars p.1)

  abbrev passes : Expr × Expr → Bool
  passes p = rows_agree p && are_named p

  named-row : (ρ : String → Bool) (n : String) → is_named n ≡ true → ρ n ≡ row (ρ x) (ρ y) (ρ z) n
  named-row ρ n t = elim (Bool-cases (n == x)) [
    | inl u ↦ rw u (ap ρ (==_path n x u))
    | inr u ↦ elim (Bool-cases (n == y)) [
      | inl v ↦ rw (u, v) (ap ρ (==_path n y v))
      | inr v ↦ elim (Bool-cases (n == z)) [
        | inl w ↦ rw (u, v, w) (ap ρ (==_path n z w))
        | inr w ↦ absurd (let t' = rw (u, v, w) at t in cc)
      ]
    ]
  ]

  named-denote :
      (ρ : String → Bool) (e : Expr)
      → all is_named (free_vars e) ≡ true
      → denote (truth_values call) ρ e ≡ denote (truth_values call) (row (ρ x) (ρ y) (ρ z)) e
  named-denote ρ e t =
      denote_ext (truth_values call) e ρ (row (ρ x) (ρ y) (ρ z))
        (λ n h. named-row ρ n (all-contains is_named n (free_vars e) t h))

  passes-denote :
      (p : Expr × Expr) (ρ : String → Bool)
      → passes p ≡ true
      → denote (truth_values call) ρ p.0 ≡ denote (truth_values call) ρ p.1
  passes-denote p ρ t =
      let table = and-left (rows_agree p) (are_named p) t in
      let covered = and-right (rows_agree p) (are_named p) t in
      named-denote ρ p.0 (and-left _ _ covered)
      ∙ bool_eq_path _ _ (in_all_rows_lem (sides_agree p) table (ρ x) (ρ y) (ρ z))
      ∙ sym (named-denote ρ p.1 (and-right _ _ covered))

module _ (call : Bool → List Bool → Bool) where
  abbrev is_equivalence : Expr × Expr → Bool
  is_equivalence p = passes call "P" "Q" "R" p || passes call "phi" "psi" "lambda" p

  plain_rules_lem : all (all is_equivalence) plain_rules ≡ true
  unfolding denote free_vars extend insert
  plain_rules_lem = refl

  is_equivalence-denote :
      (p : Expr × Expr) (ρ : String → Bool)
      → is_equivalence p ≡ true
      → denote (truth_values call) ρ p.0 ≡ denote (truth_values call) ρ p.1
  is_equivalence-denote p ρ t = elim (Bool-cases (passes call "P" "Q" "R" p)) [
    | inl u ↦ passes-denote call "P" "Q" "R" p ρ u
    | inr u ↦ passes-denote call "phi" "psi" "lambda" p ρ (rw u at t)
  ]

  -- Where two values agree, one may stand for the other as an argument.
  substitution_lem :
      (a b : Bool) (f : Bool → Bool)
      → connective Op.and (connective Op.bicon (a ∷ b ∷ []) ∷ f a ∷ [])
        ≡ connective Op.and (connective Op.bicon (a ∷ b ∷ []) ∷ f b ∷ [])
  substitution_lem true true f = refl
  substitution_lem true false f = refl
  substitution_lem false true f = refl
  substitution_lem false false f = refl

  pub patterns-denote :
      (patterns : List (Expr × Expr))
      → In patterns all_equivalences
      → (p : Expr × Expr) → In p patterns
      → (ρ : String → Bool) → denote (truth_values call) ρ p.0 ≡ denote (truth_values call) ρ p.1
  unfolding denote
  patterns-denote patterns (inr r) p i ρ = is_equivalence-denote p ρ (
      all-In is_equivalence p patterns i
        (all-In (all is_equivalence) patterns plain_rules r plain_rules_lem))
  patterns-denote patterns (inl e) p i ρ = only p (transport (λ ps. In p ps) e i)
    where
      only :
          (p : Expr × Expr)
          → In p biconditional_substitution_patterns
          → denote (truth_values call) ρ p.0 ≡ denote (truth_values call) ρ p.1
      only p (inl q) = rw q (substitution_lem (ρ "phi") (ρ "psi") (λ v. call (ρ "S") (v ∷ [])))
      only p (inr n) = elim n [ ]
