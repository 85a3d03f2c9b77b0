-- ===== src/Pool/Parents.antt =====
-- The chains of parents in aris/src/proofs/pooledproof.rs: proofs in which a subproof has a greater
-- key than the one that holds it.
use aris.Base.{
  ℕ, zero, suc, ◌<◌, Option, none, some, ◌>>=◌, List, [], ◌∷◌, ◌≡◌, ◌≢◌, ◌⊎◌, refl, ap, ◌∙◌, sym,
  Option-cases, inl, inr, arith, some-inj, nat_eq, Bool-cases, ◌==◌, ==_path, ==_ne,
}
use aris.Pool.{
  PjsRef, Pools, PooledSubproof, PooledProof, Justification, lookup, parent_of, transitive_parents,
  and_above,
}
use aris.Pool.Maps.{Room}
use aris.Pool.Add.{Placement, self_of, add_premise, add_subproof}
use aris.Pool.Added.{add_premise_lem, add_subproof_lem, add_subproof-still_valid}

-- A subproof is younger than its parent.
abbrev pub Descending : {E R : Type 0} → Pools E R → Type 0
Descending pools = (t s : ℕ) → parent_of pools (PjsRef.sub t) ≡ some s → s < t

pub record WellFormed {E R : Type 0} (pools : Pools E R) : Type 0 where
  pub descending : Descending pools
  -- Only a step of the pool has a parent.
  pub just_used :
      (k s : ℕ)
      → parent_of pools (PjsRef.just k) ≡ some s
      → (j : Justification E R) × (lookup k pools.just_map ≡ some j)

module _ {E R : Type 0} where
  transitive_parents-some :
      (n : ℕ) (pools : Pools E R) (idx : PjsRef) (s : ℕ) (result : List ℕ)
      → parent_of pools idx ≡ some s
      → transitive_parents n pools (PjsRef.sub s) ≡ some result
      → transitive_parents (suc n) pools idx ≡ some (s ∷ result)
  unfolding transitive_parents
  transitive_parents-some n pools idx s result h r =
      ap (and_above (λ s. transitive_parents n pools (PjsRef.sub s))) h
      ∙ ap (λ o. o >>= λ result. some (s ∷ result)) r

  transitive_parents-none :
      (n : ℕ) (pools : Pools E R) (idx : PjsRef)
      → parent_of pools idx ≡ none
      → transitive_parents (suc n) pools idx ≡ some []
  unfolding transitive_parents
  transitive_parents-none n pools idx h =
      ap (and_above (λ s. transitive_parents n pools (PjsRef.sub s))) h

  -- From a subproof, fuel of one more than its key is enough.
  sub_parents :
      (n t : ℕ) (pools : Pools E R)
      → Descending pools
      → t < n
      → (tps : List ℕ) × (transitive_parents n pools (PjsRef.sub t) ≡ some tps)
  sub_parents zero t pools w h = absurd (omega arith)
  sub_parents (suc n) t pools w h = elim (Option-cases (parent_of pools (PjsRef.sub t))) [
    | inl e ↦ ([], transitive_parents-none n pools (PjsRef.sub t) e)
    | inr (s, e) ↦
        let d = w t s e in
        let (tps, q) = sub_parents n s pools w (omega arith) in
        (s ∷ tps, transitive_parents-some n pools (PjsRef.sub t) s tps e q)
  ]

  -- The chain of parents of any reference ends where each subproof is younger than its parent: fuel of two more than the key of
  -- the parent is enough, and any fuel at all if there is none.
  pub transitive_parents_total :
      (n : ℕ) (pools : Pools E R) (idx : PjsRef)
      → Descending pools
      → 0 < n
      → ((s : ℕ) → parent_of pools idx ≡ some s → suc s < n)
      → (tps : List ℕ) × (transitive_parents n pools idx ≡ some tps)
  transitive_parents_total zero pools idx w h k = absurd (omega arith)
  transitive_parents_total (suc n) pools idx w h k = elim (Option-cases (parent_of pools idx)) [
    | inl e ↦ ([], transitive_parents-none n pools idx e)
    | inr (s, e) ↦
        let d = k s e in
        let (tps, q) = sub_parents n s pools w (omega arith) in
        (s ∷ tps, transitive_parents-some n pools idx s tps e q)
  ]

  -- Adding a premise, to a subproof that exists, keeps the proof well formed.
  pub add_premise-WellFormed :
      (p : PooledProof E R) (self : Option ℕ) (e : E) (sub : PooledSubproof) (idx : ℕ)
      (p' : PooledProof E R)
      → Room p.pools.prem_map
      → self_of p self ≡ some sub
      → WellFormed p.pools
      → add_premise p self e ≡ some (idx, p')
      → WellFormed p'.pools
  add_premise-WellFormed p self e sub idx p' r h w a =
      let (i, q, sub', b, _, _, _, _, _, _, others, steps, _) = add_premise_lem p self e sub r h in
      let same : q ≡ p' = ap (λ x. x.1) (some-inj (sym b ∙ a)) in
      rw (sym same) (record {
        descending = λ t s d. w.descending t s (sym (others (PjsRef.sub t) (inr (λ c. cc))) ∙ d);
        just_used = λ k s d.
            let (j, u) = w.just_used k s (sym (others (PjsRef.just k) (inr (λ c. cc))) ∙ d) in
            (j, ap (lookup k) steps ∙ u);
      })

  -- The parent of a new subproof, or the old entry, is older.
  older :
      (p p' : PooledProof E R) (self : Option ℕ) (idx t s : ℕ)
      → WellFormed p.pools
      → ((s : ℕ) → self ≡ some s → parent_of p'.pools (PjsRef.sub idx) ≡ some s)
      → ((s : ℕ) → self ≡ some s → s < idx)
      → ((i : PjsRef)
          → (self ≡ none) ⊎ (i ≢ PjsRef.sub idx)
          → parent_of p'.pools i ≡ parent_of p.pools i)
      → parent_of p'.pools (PjsRef.sub t) ≡ some s
      → s < t
  older p p' none idx t s w new less others d =
      w.descending t s (sym (others (PjsRef.sub t) (inl refl)) ∙ d)
  older p p' (some o) idx t s w new less others d = elim (Bool-cases (t == idx)) [
    | inl e ↦
        let same : t ≡ idx = ==_path t idx e in
        let q =
          some-inj
            (sym (new o refl) ∙ ap (λ i. parent_of p'.pools (PjsRef.sub i)) (sym same) ∙ d) in
        omega (arith, less o refl)
    | inr f ↦ w.descending t s (sym (others (PjsRef.sub t) (inr (λ c. ==_ne t idx f cc))) ∙ d)
  ]

  -- Adding a subproof, to a subproof that exists, keeps the proof well formed.
  pub add_subproof-WellFormed :
      (stays : Placement) (p : PooledProof E R) (self : Option ℕ) (sub : PooledSubproof) (idx : ℕ)
      (p' : PooledProof E R)
      → Room p.pools.sub_map
      → self_of p self ≡ some sub
      → WellFormed p.pools
      → add_subproof stays p self ≡ some (idx, p')
      → WellFormed p'.pools
  add_subproof-WellFormed stays p self sub idx p' r h w a =
      let (i, q, sub', b, _, _, _, _, _, new, less, others, steps, _, _) =
        add_subproof_lem stays p self sub r h (add_subproof-still_valid stays p self a) in
      let same : q ≡ p' = ap (λ x. x.1) (some-inj (sym b ∙ a)) in
      rw (sym same) (record {
        descending = λ t s d. older p q self i t s w new less others d;
        just_used = λ k s d.
            let (j, u) = w.just_used k s (sym (others (PjsRef.just k) (inr (λ c. cc))) ∙ d) in
            (j, ap (lookup k) steps ∙ u);
      })
