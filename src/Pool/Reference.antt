-- ===== src/Pool/Reference.antt =====
-- Which lines may be referred to by `can_reference_dep` of aris/src/proofs.rs, and its fuel.
use aris.Base.{
  ℕ, zero, suc, ◌<◌, Bool, true, Option, none, some, map_option, [], ◌≡◌, ◌↔◌, refl, ap, ◌∙◌,
  Option-cases, inl, inr, arith,
}
use aris.Pool.{
  PjRef, PjsRef, pjs_eq, pj_to_pjs, PooledSubproof, PooledProof, parent_of, lookup_subproof,
}
use aris.Pool.Parents.{Descending}
use aris.Pool.Scope.{
  refs, Deps, walk, noted, named, aux_at, aux, possible_deps_for_line, can_reference_dep,
}
use aris.Pool.Sees.{Sees, nothing-noted, aux-Notes}

module _ {E R : Type 0} (p : PooledProof E R) where
  aux-some :
      (n s : ℕ) (r : PjsRef) (acc : Deps) (sub : PooledSubproof)
      → lookup_subproof p s ≡ some sub
      → aux (suc n) p (some s) r acc
        ≡ aux n p (parent_of p.pools (PjsRef.sub s)) (PjsRef.sub s) (walk r (refs sub) acc)
  unfolding aux aux_at named
  aux-some n s r acc sub h = rw h

  aux-none :
      (n : ℕ) (sr : Option ℕ) (r : PjsRef) (acc : Deps)
      → named p sr ≡ none
      → aux (suc n) p sr r acc ≡ some (walk r (refs p.proof) acc)
  unfolding aux aux_at
  aux-none n sr r acc h = rw h

  named-none : (s : ℕ) → lookup_subproof p s ≡ none → named p (some s) ≡ none
  unfolding named
  named-none s h = rw h

  named_root : named p none ≡ none
  unfolding named
  named_root = refl

  aux_total :
      (n : ℕ) (sr : Option ℕ) (r : PjsRef) (acc : Deps)
      → Descending p.pools
      → 0 < n
      → ((s : ℕ) → sr ≡ some s → suc s < n)
      → (a : Deps) × (aux n p sr r acc ≡ some a)
  aux_total zero sr r acc d pos h = absurd (omega arith)
  aux_total (suc n) none r acc d pos h =
      (walk r (refs p.proof) acc, aux-none n none r acc named_root)
  aux_total (suc n) (some s) r acc d pos h = elim (Option-cases (lookup_subproof p s)) [
    | inl e ↦ (walk r (refs p.proof) acc, aux-none n (some s) r acc (named-none s e))
    | inr (sub, e) ↦
        let f = h s refl in
        let (a, q) =
          aux_total n (parent_of p.pools (PjsRef.sub s)) (PjsRef.sub s) (walk r (refs sub) acc) d
            (omega arith) (λ s' e'. let g = d s s' e' in omega arith) in
        (a, aux-some n s r acc sub e ∙ q)
  ]

  -- The lines that `r` may refer to.
  abbrev pub MayReference : PjRef → PjsRef → Type 0
  MayReference r x = Sees p (named p (parent_of p.pools (pj_to_pjs r))) (pj_to_pjs r) x

  -- Where each subproof is younger than its parent, fuel of two more than the key of the line's
  -- parent is enough for `can_reference_dep`, and its result is true exactly for the lines that
  -- stand before the line in its subproof, or before an enclosing subproof in the one that holds it.
  pub can_reference_dep_lem :
      (n : ℕ) (r : PjRef) (x : PjsRef)
      → Descending p.pools
      → 0 < n
      → ((s : ℕ) → parent_of p.pools (pj_to_pjs r) ≡ some s → suc s < n)
      → (valid : Bool) × (can_reference_dep n p r x ≡ some valid)
        × ((valid ≡ true) ↔ MayReference r x)
  unfolding can_reference_dep possible_deps_for_line
  can_reference_dep_lem n r x d pos fuel =
      let (a, q) =
        aux_total n (parent_of p.pools (pj_to_pjs r)) (pj_to_pjs r) ([], []) d pos fuel in
      let (to, from) =
        aux-Notes p x n (parent_of p.pools (pj_to_pjs r)) (pj_to_pjs r) ([], []) a q in
      (
        noted x a,
        ap (map_option (noted x)) q,
        (
          λ t. elim (to t) [ inl m ↦ absurd (let f = nothing-noted x in cc) | inr v ↦ v ],
          λ v. from (inr v),
        ),
      )
