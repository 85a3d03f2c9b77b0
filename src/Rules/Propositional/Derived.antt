-- ===== src/Rules/Propositional/Derived.antt =====
-- Subproofs that derive their steps from their premise, as the checks of aris/src/rules.rs read them.
use aris.Base.{
  ℕ, Bool, true, ◌||◌, Option, none, some, map_option, List, [], ◌∷◌, length, any, all, map, ◌≡◌,
  refl, ap, ◌∙◌, sym, Bool-cases, ◌⊎◌, inl, inr, ◌==◌, nat_eq, ==_path, arith, and-left, and-right,
}
use aris.Expr.{Expr, Exprs, nil, cons}
use aris.Expr.Equal.{expr_eq}
use aris.Pool.{PjRef, PooledProof, PooledSubproof, lookup_premise, lookup_step, lookup_subproof}
use aris.Pool.Lines.{
  lookup_expr, lookup_expr_or_die, lookup_premise_or_die, lookup_subproof_or_die, ok_or_else,
}
use aris.Pool.Scope.{ProofCheckError, line_does_not_exist, subproof_does_not_exist}
use aris.Rules.Order.{Checked}
use aris.Rules.Check.{try}
use aris.Rules.Models.{any_of}
use aris.Rules.Premises.{AllHold, AllDerive}
use aris.Rules.Propositional.{found}
use aris.Rules.Propositional.Sound.{found-some}
use aris.Rules.Propositional.Subproofs.{
  append_result, collect, step_keys, premise_keys, find_not, missing_case, has_step, first_is,
  starts_by,
}

pub try-inr :
    {A : Type 0} (m : ProofCheckError ⊎ A) (k : A → Checked)
    → try m k ≡ Checked.ok
    → (a : A) × (m ≡ inr a) × (k a ≡ Checked.ok)
try-inr (inl e) k h = absurd cc
try-inr (inr a) k h = (a, refl, h)

pub found_or_die :
    {A : Type 0} (x : ProofCheckError) (o : Option A) (a : A) → ok_or_else x o ≡ inr a → o ≡ some a
unfolding ok_or_else
found_or_die x none a h = absurd cc
found_or_die x (some b) a h = cc

pub append_result-inr :
    {A : Type 0} (m : ProofCheckError ⊎ A) (ms : ProofCheckError ⊎ List A) (bs : List A)
    → append_result m ms ≡ inr bs
    → (a : A) × (as' : List A) × (m ≡ inr a) × (ms ≡ inr as') × (bs ≡ a ∷ as')
unfolding append_result
append_result-inr (inl e) ms bs h = absurd cc
append_result-inr (inr a) (inl e) bs h = absurd cc
append_result-inr (inr a) (inr as') bs h = (a, as', refl, refl, cc)

pub inr-inj : {A B : Type 0} {a b : B} → ◌≡◌ {A = A ⊎ B} (inr a) (inr b) → a ≡ b
inr-inj h = cc

pub only_one : (keys : List ℕ) → length keys ≡ 1 → (k : ℕ) × (keys ≡ k ∷ [])
only_one [] h = absurd (omega arith)
only_one (k ∷ []) h = (k, refl)
only_one (k ∷ m ∷ ms) h = absurd (omega arith)

module _ {R : Type 0} (p : PooledProof Expr R) (v : Expr → Bool) where
  abbrev pub SubDerives : PooledSubproof → Type 0
  SubDerives sub =
      (length (premise_keys sub) ≡ 1)
      × (AllHold p v (map PjRef.prem (premise_keys sub))
          → AllHold p v (map PjRef.just (step_keys sub)))

  abbrev pub AllSubs : List PooledSubproof → Type 0
  AllSubs [] = Unit
  AllSubs (s ∷ ss) = SubDerives s × AllSubs ss

  pub collected :
      (sdeps : List ℕ) (sproofs : List PooledSubproof)
      → AllDerive p v sdeps
      → collect (lookup_subproof_or_die p) sdeps ≡ inr sproofs
      → AllSubs sproofs
  unfolding collect lookup_subproof_or_die
  collected [] sproofs w h = rw (← inr-inj h) (tt)
  collected (s ∷ sdeps) sproofs w h =
      let (sub, subs, q, q', e) =
        append_result-inr (lookup_subproof_or_die p s) (collect (lookup_subproof_or_die p) sdeps)
          sproofs h in
      rw e (
        w.0 sub (found_or_die (subproof_does_not_exist s) (lookup_subproof p s) sub q),
        collected sdeps subs w.1 q',
      )

  has_step-true :
      (c : Expr) (keys : List ℕ)
      → AllHold p v (map PjRef.just keys)
      → any (λ k. found c (map_option (λ j. j.expr) (lookup_step p k))) keys ≡ true
      → v c ≡ true
  unfolding lookup_expr
  has_step-true c [] a h = absurd cc
  has_step-true c (k ∷ keys) a h =
      elim (Bool-cases (found c (map_option (λ j. j.expr) (lookup_step p k)))) [
        | inl t ↦ a.0 c (found-some c (map_option (λ j. j.expr) (lookup_step p k)) t)
        | inr f ↦ has_step-true c keys a.1 (rw f at h)
      ]

  prem-holds :
      (e : Expr) (k : ℕ)
      → lookup_premise p k ≡ some e
      → v e ≡ true
      → ((x : Expr) → lookup_expr p (PjRef.prem k) ≡ some x → v x ≡ true)
  unfolding lookup_expr
  prem-holds e k q t x h = let same : x ≡ e = some_eq (sym h ∙ q) in rw same t
    where
      some_eq : {a b : Expr} → some a ≡ some b → a ≡ b
      some_eq g = cc

  pub steps-hold :
      (e : Expr) (k : ℕ) (sub : PooledSubproof)
      → SubDerives sub
      → premise_keys sub ≡ k ∷ []
      → lookup_premise p k ≡ some e
      → v e ≡ true
      → AllHold p v (map PjRef.just (step_keys sub))
  steps-hold e k sub d q l t = d.1 (rw q (prem-holds e k l t, tt))

  starts_by-derives :
      (e c : Expr) (sub : PooledSubproof)
      → SubDerives sub
      → starts_by p e sub ≡ true
      → has_step p c sub ≡ true
      → v e ≡ true
      → v c ≡ true
  unfolding starts_by has_step first_is
  starts_by-derives e c sub d s h t =
      let (k, q) = only_one (premise_keys sub) d.0 in
      has_step-true c (step_keys sub)
        (steps-hold e k sub d q (found-some e (lookup_premise p k) (ap (first_is p e) (sym q) ∙ s))
          t)
        h

  pub some_case :
      (e c : Expr) (sproofs : List PooledSubproof)
      → AllSubs sproofs
      → any (starts_by p e) sproofs ≡ true
      → all (has_step p c) sproofs ≡ true
      → v e ≡ true
      → v c ≡ true
  some_case e c [] w s h t = absurd cc
  some_case e c (sub ∷ subs) w s h t = elim (Bool-cases (starts_by p e sub)) [
    | inl first ↦
        starts_by-derives e c sub w.0 first
          (and-left (has_step p c sub) (all (has_step p c) subs) h) t
    | inr later ↦
        some_case e c subs w.1 (rw later at s)
          (and-right (has_step p c sub) (all (has_step p c) subs) h) t
  ]

  pub each_case :
      (test : Expr → Bool) (c : Expr) (exprs : Exprs)
      → missing_case (find_not test exprs) ≡ Checked.ok
      → ((e : Expr) → test e ≡ true → v e ≡ true → v c ≡ true)
      → any_of v exprs ≡ true
      → v c ≡ true
  unfolding missing_case find_not
  each_case test c nil h k a = absurd cc
  each_case test c (cons e exprs) h k a = elim (Bool-cases (test e)) [
    | inl t ↦ elim (Bool-cases (v e)) [
      | inl holds ↦ k e t holds
      | inr fails ↦ each_case test c exprs (rw t at h) k (rw fails at a)
    ]
    | inr f ↦ absurd (let g = rw f at h in cc)
  ]

  pub collected_step :
      (c : Expr) (keys : List ℕ) (conc : List Expr)
      → AllHold p v (map PjRef.just keys)
      → collect (λ k. lookup_expr_or_die p (PjRef.just k)) keys ≡ inr conc
      → any (λ x. x == c) conc ≡ true
      → v c ≡ true
  unfolding collect lookup_expr_or_die
  collected_step c [] conc a h s = absurd (let e = rw (← inr-inj h) at s in cc)
  collected_step c (k ∷ keys) conc a h s =
      let look : ℕ → ProofCheckError ⊎ Expr = λ k. lookup_expr_or_die p (PjRef.just k) in
      let (e, es, q, q', l) = append_result-inr (look k) (collect look keys) conc h in
      elim (Bool-cases (e == c)) [
        | inl same ↦ rw (← ==_path e c same) (
            a.0 e (
              found_or_die (line_does_not_exist (PjRef.just k)) (lookup_expr p (PjRef.just k)) e q))
        | inr differs ↦
            collected_step c keys es a.1 q' (
              ap (λ b. b || any (λ x. x == c) es) (sym differs)
              ∙ ap (any (λ x. x == c)) (sym l)
              ∙ s)
      ]

  pub collected_premise :
      (k : ℕ) (prem : List Expr)
      → collect (lookup_premise_or_die p) (k ∷ []) ≡ inr prem
      → (e : Expr) × (prem ≡ e ∷ []) × (lookup_premise p k ≡ some e)
  unfolding collect lookup_premise_or_die
  collected_premise k prem h =
      let (e, es, q, q', l) = append_result-inr (lookup_premise_or_die p k) (inr []) prem h in
      (
        e,
        l ∙ ap (e ∷◌) (sym (inr-inj q')),
        found_or_die (line_does_not_exist (PjRef.prem k)) (lookup_premise p k) e q,
      )
