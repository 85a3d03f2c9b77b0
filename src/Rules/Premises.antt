-- ===== src/Rules/Premises.antt =====
-- What it means for aris/src/rules.rs that the lines and the subproofs which a step refers to are right, and what
-- the lookups of a check give then.
use aris.Base.{ℕ, suc, zero, Bool, true, Option, none, some, List, [], ◌∷◌, length, map, ◌≡◌, refl}
use aris.Expr.{Expr}
use aris.Pool.{PjRef, PooledProof, PooledSubproof, lookup_subproof}
use aris.Pool.Lines.{lookup_expr, lookup_expr_or_die, ok_or_else}
use aris.Pool.Scope.{line_does_not_exist}
use aris.Rules.Order.{Checked}
use aris.Rules.Check.{try, premise}
use aris.Rules.Propositional.Subproofs.{step_keys, premise_keys}

module _ {R : Type 0} (p : PooledProof Expr R) where
  -- The expression of each line, if it is there, has the property.
  abbrev pub Satisfy : (Expr → Type 0) → List PjRef → Type 0
  Satisfy P [] = Unit
  Satisfy P (r ∷ rs) = ((e : Expr) → lookup_expr p r ≡ some e → P e) × Satisfy P rs

  pub Satisfy-both :
      (P Q : Expr → Type 0) (rs : List PjRef)
      → Satisfy P rs
      → Satisfy Q rs
      → Satisfy (λ e. P e × Q e) rs
  Satisfy-both P Q [] u w = tt
  Satisfy-both P Q (r ∷ rs) u w = (λ e h. (u.0 e h, w.0 e h), Satisfy-both P Q rs u.1 w.1)

  pub try-ok :
      (r : PjRef) (k : Expr → Checked)
      → try (lookup_expr_or_die p r) k ≡ Checked.ok
      → (e : Expr) × (lookup_expr p r ≡ some e) × (k e ≡ Checked.ok)
  unfolding lookup_expr_or_die ok_or_else
  try-ok r k h = of_option (lookup_expr p r) refl h
    where
      of_option :
          (o : Option Expr)
          → lookup_expr p r ≡ o
          → try (ok_or_else (line_does_not_exist r) o) k ≡ Checked.ok
          → (e : Expr) × (lookup_expr p r ≡ some e) × (k e ≡ Checked.ok)
      of_option none q h = absurd cc
      of_option (some e) q h = (e, q, h)

  -- The expression that a check finds at a dependency has the property, if those of all do.
  pub premise-ok :
      (P : Expr → Type 0) (deps : List PjRef) (i : ℕ) (k : Expr → Checked)
      → Satisfy P deps
      → premise p deps i k ≡ Checked.ok
      → (e : Expr) × P e × (k e ≡ Checked.ok)
  unfolding premise
  premise-ok P [] i k w h = absurd cc
  premise-ok P (r ∷ deps) zero k w h = let (e, q, h') = try-ok r k h in (e, w.0 e q, h')
  premise-ok P (r ∷ deps) (suc i) k w h = premise-ok P deps i k w.1 h

  pub premises-ok :
      (P : Expr → Type 0) (deps : List PjRef) (k : Expr → Expr → Checked)
      → Satisfy P deps
      → premise p deps 0 (λ a. premise p deps 1 (k a)) ≡ Checked.ok
      → (a b : Expr) × P a × P b × (k a b ≡ Checked.ok)
  premises-ok P deps k w h =
      let (a, s, h') = premise-ok P deps 0 (λ a. premise p deps 1 (k a)) w h in
      let (b, t, h'') = premise-ok P deps 1 (k a) w h' in (a, b, s, t, h'')

module _ {R : Type 0} (p : PooledProof Expr R) (v : Expr → Bool) where
  abbrev pub IsTrue : Expr → Type 0
  IsTrue e = v e ≡ true

  abbrev pub AllHold : List PjRef → Type 0
  AllHold rs = Satisfy p IsTrue rs

  -- The subproof has one premise, and its steps are true where its premise is.
  abbrev pub Derives : ℕ → Type 0
  Derives s =
      (sub : PooledSubproof)
      → lookup_subproof p s ≡ some sub
      → (length (premise_keys sub) ≡ 1)
        × (AllHold (map PjRef.prem (premise_keys sub)) → AllHold (map PjRef.just (step_keys sub)))

  abbrev pub AllDerive : List ℕ → Type 0
  AllDerive [] = Unit
  AllDerive (s ∷ sdeps) = Derives s × AllDerive sdeps
