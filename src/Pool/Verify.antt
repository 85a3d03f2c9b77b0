-- ===== src/Pool/Verify.antt =====
-- When `verify_line` of aris/src/proofs/pooledproof.rs accepts a step.
use mathlib.Core.List.{map}
use aris.Base.{
  ℕ, suc, ◌<◌, true, false, Option, none, some, map_option, List, [], ◌∷◌, ◌++◌, ◌≡◌, ◌↔◌, refl, ap,
  ◌∙◌, sym, Bool-cases, Option-cases, inl, inr, some-inj,
}
use aris.Pool.{PjRef, PjsRef, pj_to_pjs, Justification, PooledProof, parent_of, lookup_step}
use aris.Pool.Parents.{Descending}
use aris.Pool.Scope.{
  ProofCheckError, can_reference_dep, first_invalid, verdict, verify_step, verify_line,
  line_does_not_exist,
}
use aris.Pool.Reference.{MayReference, can_reference_dep_lem}

module _ {E R : Type 0} (p : PooledProof E R) where
  abbrev pub MayReferenceAll : PjRef → List PjsRef → Type 0
  MayReferenceAll r [] = Unit
  MayReferenceAll r (d ∷ ds) = MayReference p r d × MayReferenceAll r ds

  first_invalid-valid :
      (n : ℕ) (r : PjRef) (d : PjsRef) (ds : List PjsRef)
      → can_reference_dep n p r d ≡ some true
      → first_invalid n p r (d ∷ ds) ≡ first_invalid n p r ds
  unfolding first_invalid
  first_invalid-valid n r d ds h = rw h

  first_invalid-invalid :
      (n : ℕ) (r : PjRef) (d : PjsRef) (ds : List PjsRef)
      → can_reference_dep n p r d ≡ some false
      → first_invalid n p r (d ∷ ds) ≡ some (some d)
  unfolding first_invalid
  first_invalid-invalid n r d ds h = rw h

  first_invalid_lem :
      (n : ℕ) (r : PjRef) (ds : List PjsRef)
      → Descending p.pools
      → 0 < n
      → ((s : ℕ) → parent_of p.pools (pj_to_pjs r) ≡ some s → suc s < n)
      → (o : Option PjsRef) × (first_invalid n p r ds ≡ some o)
        × ((o ≡ none) ↔ MayReferenceAll r ds)
  unfolding first_invalid
  first_invalid_lem n r [] d pos fuel = (none, refl, ((λ _. tt), λ _. refl))
  first_invalid_lem n r (x ∷ ds) d pos fuel =
      let (valid, q, (to, from)) = can_reference_dep_lem p n r x d pos fuel in
      let (o, q', (to', from')) = first_invalid_lem n r ds d pos fuel in
      elim (Bool-cases valid) [
        | inl t ↦ (
          o,
          first_invalid-valid n r x ds (q ∙ ap some t) ∙ q',
          ((λ e. (to t, to' e)), λ m. from' m.1),
        )
        | inr f ↦ (
          some x,
          first_invalid-invalid n r x ds (q ∙ ap some f),
          ((λ e. absurd cc), λ m. absurd (let t = from m.0 in cc)),
        )
      ]

  module _ (check : PooledProof E R → Justification E R → Option ProofCheckError) where
    -- The step is there, it refers to lines that it may refer to, and its rule accepts it.
    abbrev pub Accepted : ℕ → Type 0
    Accepted k =
        (j : Justification E R) × (lookup_step p k ≡ some j)
        × MayReferenceAll (PjRef.just k) (map pj_to_pjs j.deps ++ map PjsRef.sub j.sdeps)
        × (check p j ≡ none)

    verdict-none :
        (r : PjRef) (checked : Option ProofCheckError) (o : Option PjsRef)
        → (verdict r checked o ≡ none) ↔ ((o ≡ none) × (checked ≡ none))
    unfolding verdict
    verdict-none r checked none = ((λ h. (refl, h)), λ h. h.1)
    verdict-none r checked (some d) = ((λ h. absurd cc), λ h. absurd (let e = h.0 in cc))

    verify_line-some :
        (n k : ℕ) (j : Justification E R)
        → lookup_step p k ≡ some j
        → verify_line check n p (PjRef.just k)
          ≡ map_option
              (verdict (PjRef.just k) (check p j))
              (first_invalid n p (PjRef.just k) (map pj_to_pjs j.deps ++ map PjsRef.sub j.sdeps))
    unfolding verify_line verify_step
    verify_line-some n k j h = rw h

    verify_line-none :
        (n k : ℕ)
        → lookup_step p k ≡ none
        → verify_line check n p (PjRef.just k) ≡ some (some (line_does_not_exist (PjRef.just k)))
    unfolding verify_line verify_step
    verify_line-none n k h = rw h

    -- Where each subproof is younger than its parent, `verify_line` ends for every step, with fuel of
    -- two more than the key of its parent, and it is `Ok` exactly if the step is there, each line and
    -- subproof that it refers to stands before it or before a subproof that it stands in, in the
    -- same list, and the check of its rule is `Ok`.
    pub verify_line_lem :
        (n k : ℕ)
        → Descending p.pools
        → 0 < n
        → ((s : ℕ) → parent_of p.pools (PjsRef.just k) ≡ some s → suc s < n)
        → (result : Option ProofCheckError) × (verify_line check n p (PjRef.just k) ≡ some result)
          × ((result ≡ none) ↔ Accepted k)
    unfolding pj_to_pjs
    verify_line_lem n k d pos fuel = elim (Option-cases (lookup_step p k)) [
      | inl e ↦ (
        some (line_does_not_exist (PjRef.just k)),
        verify_line-none n k e,
        ((λ h. absurd cc), λ a. absurd (let f = a.1 in cc)),
      )
      | inr (j, e) ↦
          let ds : List PjsRef = map pj_to_pjs j.deps ++ map PjsRef.sub j.sdeps in
          let (o, q, (to, from)) = first_invalid_lem n (PjRef.just k) ds d pos fuel in
          let (split, join) = verdict-none (PjRef.just k) (check p j) o in
          (
            verdict (PjRef.just k) (check p j) o,
            verify_line-some n k j e ∙ ap (map_option (verdict (PjRef.just k) (check p j))) q,
            (
              (λ h. let (a, b) = split h in (j, e, to a, b)),
              λ (i, e', m, c).
                  let same : i ≡ j = some-inj (sym e' ∙ e) in
                  join (from (rw same at m), ap (check p) (sym same) ∙ c),
            ),
          )
    ]
