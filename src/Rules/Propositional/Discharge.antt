-- ===== src/Rules/Propositional/Discharge.antt =====
-- What the checks of `PropositionalInference` in aris/src/rules.rs that use subproofs accept, by
-- truth values, where each subproof has one premise and derives its steps from it.
use aris.Base.{
  ℕ, Bool, true, false, not as not_bool, ◌||◌, List, [], ◌∷◌, length, any, all, ◌≡◌, refl, ap, ◌∙◌,
  sym, Bool-cases, inl, inr, if◌then◌else◌, ◌==◌, nat_eq, ==_path,
}
use aris.Expr.{Expr, Op, contra, not, impl, assoc}
use aris.Expr.Equal.{expr_eq}
use aris.Pool.{PjRef, PooledProof, PooledSubproof, lookup_subproof}
use aris.Pool.Lines.{lookup_expr_or_die, lookup_premise_or_die, lookup_subproof_or_die}
use aris.Pool.Scope.{subproof_does_not_exist, does_not_occur, dep_does_not_exist}
use aris.Rules.Order.{Checked}
use aris.Rules.Check.{premise}
use aris.Rules.Models.{Respects}
use aris.Rules.Premises.{AllHold, AllDerive, premise-ok}
use aris.Rules.Propositional.Sound.{Sound, passed-ok, refused_check-ok, single_dep-true}
use aris.Rules.Propositional.Subproofs.{
  collect, step_keys, premise_keys, has_step, starts_by, or_elim_of, or_elim, only_subproof,
  discharge, imp_intro_of, imp_intro, not_intro_of, not_intro,
}
use aris.Rules.Propositional.Derived.{
  try-inr, found_or_die, only_one, SubDerives, collected, some_case, each_case, collected_step,
  collected_premise, steps-hold,
}

module _ {R : Type 0} (p : PooledProof Expr R) (v : Expr → Bool) (r : Respects v) where
  discharge-true :
      (assumed derived : Expr) (sub : PooledSubproof)
      → SubDerives p v sub
      → discharge p assumed derived sub ≡ Checked.ok
      → v assumed ≡ true
      → v derived ≡ true
  unfolding discharge
  discharge-true assumed derived sub d h t =
      let steps = collect (λ k. lookup_expr_or_die p (PjRef.just k)) (step_keys sub) in
      let (k, q) = only_one (premise_keys sub) d.0 in
      let (prem, c, h') = try-inr (collect (lookup_premise_or_die p) (premise_keys sub)) _ h in
      let (e, l, found_e) =
        collected_premise p v k prem (ap (collect (lookup_premise_or_die p)) (sym q) ∙ c) in
      let (same, h'') = refused_check-ok (assumed == e) _ (does_not_occur assumed e) (rw l at h') in
      let (conc, c', h''') = try-inr steps _ h'' in
      collected_step p v derived (step_keys sub) conc
        (steps-hold p v e k sub d q found_e (rw (← ==_path assumed e same) t)) c'
        (passed-ok (any (λ x. x == derived) conc) Checked.ok (dep_does_not_exist derived false)
          h''').0

  only_subproof-ok :
      (sdeps : List ℕ) (k : PooledSubproof → Checked)
      → AllDerive p v sdeps
      → only_subproof p sdeps k ≡ Checked.ok
      → (sub : PooledSubproof) × SubDerives p v sub × (k sub ≡ Checked.ok)
  unfolding only_subproof lookup_subproof_or_die
  only_subproof-ok [] k w h = absurd cc
  only_subproof-ok (s ∷ sdeps) k w h =
      let (sub, q, h') = try-inr (lookup_subproof_or_die p s) _ h in
      let d : SubDerives p v sub =
        w.0 sub (found_or_die (subproof_does_not_exist s) (lookup_subproof p s) sub q) in
      (sub, d, one_premise (length (premise_keys sub) == 1) (k sub) h')
    where
      one_premise :
          (b : Bool) (next : Checked)
          → (if b then next else Checked.panic) ≡ Checked.ok
          → next ≡ Checked.ok
      one_premise true next h = h
      one_premise false next h = absurd cc

  imp_intro_of-true :
      (c : Expr) (sub : PooledSubproof)
      → SubDerives p v sub
      → imp_intro_of p c sub ≡ Checked.ok
      → v c ≡ true
  unfolding imp_intro_of
  imp_intro_of-true (impl left right) sub d h =
      r.at_impl left right ∙ material (v left) (v right) (discharge-true left right sub d h)
    where
      material : (a b : Bool) → (a ≡ true → b ≡ true) → (not_bool a || b) ≡ true
      material true b k = k refl
      material false b k = refl
  imp_intro_of-true _ sub d h = absurd cc

  pub imp_intro-Sound : (sdeps : List ℕ) → AllDerive p v sdeps → Sound v (λ c. imp_intro p c sdeps)
  unfolding imp_intro
  imp_intro-Sound sdeps w c h =
      let (sub, d, h') = only_subproof-ok sdeps (imp_intro_of p c) w h in
      imp_intro_of-true c sub d h'

  not_intro_of-true :
      (c : Expr) (sub : PooledSubproof)
      → SubDerives p v sub
      → not_intro_of p c sub ≡ Checked.ok
      → v c ≡ true
  unfolding not_intro_of
  not_intro_of-true (not operand) sub d h = elim (Bool-cases (v operand)) [
    | inl t ↦ absurd (let e = discharge-true operand contra sub d h t in let e' = r.at_contra in cc)
    | inr f ↦ r.at_not operand ∙ ap not_bool f
  ]
  not_intro_of-true _ sub d h = absurd cc

  pub not_intro-Sound : (sdeps : List ℕ) → AllDerive p v sdeps → Sound v (λ c. not_intro p c sdeps)
  unfolding not_intro
  not_intro-Sound sdeps w c h =
      let (sub, d, h') = only_subproof-ok sdeps (not_intro_of p c) w h in
      not_intro_of-true c sub d h'

  or_elim_of-true :
      (prem c : Expr) (sdeps : List ℕ)
      → AllDerive p v sdeps
      → v prem ≡ true
      → or_elim_of p prem c sdeps ≡ Checked.ok
      → v c ≡ true
  unfolding or_elim_of
  or_elim_of-true (assoc Op.or exprs) c sdeps w t h =
      let (sproofs, q, h') = try-inr (collect (lookup_subproof_or_die p) sdeps) _ h in
      let (have, cases) =
        passed-ok (all (has_step p c) sproofs) _ (dep_does_not_exist c false) h' in
      each_case p v (λ e. any (starts_by p e) sproofs) c exprs cases
        (λ e s. some_case p v e c sproofs (collected p v sdeps sproofs w q) s have)
        (sym (r.at_or exprs) ∙ t)
  or_elim_of-true _ c sdeps w t h = absurd cc

  pub or_elim-Sound :
      (deps : List PjRef) (sdeps : List ℕ)
      → AllHold p v deps
      → AllDerive p v sdeps
      → Sound v (λ c. or_elim p deps c sdeps)
  unfolding or_elim
  or_elim-Sound deps sdeps a w c h =
      single_dep-true p v r deps a c (premise p deps 0 (λ prem. or_elim_of p prem c sdeps))
        (λ g.
          let (prem, t, h') =
            premise-ok p (λ e. v e ≡ true) deps 0 (λ prem. or_elim_of p prem c sdeps) a g in
          or_elim_of-true prem c sdeps w t h')
        h
