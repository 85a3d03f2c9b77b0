-- ===== src/Pool/Mutated.antt =====
-- What the mutation of a line in aris/src/proofs/pooledproof.rs changes, and the depth of a line in
-- aris/src/proofs.rs.
use aris.Base.{
  ℕ, zero, suc, ◌<◌, true, false, Option, none, some, ◌>>=◌, map_option, List, [], ◌∷◌, length, ◌≡◌,
  ◌≢◌, refl, ap, ◌∙◌, sym, Bool-cases, inl, inr, if◌then◌else◌, ◌==◌, PartialEq, nat_eq, ==_path,
  ==_ne, ==_false, ==_refl,
}
use aris.Pool.{
  PjsRef, Justification, PooledProof, lookup, parent_of, transitive_parents, and_above, lookup_step,
}
use aris.Pool.Parents.{Descending, transitive_parents_total}
use aris.Pool.Lines.{modify, with_mut_step, count, depth_of_line}

module _ {K V : Type 0} ⦃e : PartialEq K⦄ where
  lookup-modify_if :
      (j k : K) (f : V → V) (m : List (K × V))
      → lookup j (modify k f m) ≡ (if j == k then map_option f (lookup j m) else lookup j m)
  unfolding lookup modify
  lookup-modify_if j k f [] = elim (Bool-cases (j == k)) [ inl t ↦ rw t | inr h ↦ rw h ]
  lookup-modify_if j k f (p ∷ m) = elim (Bool-cases (p.0 == k)) [
    | inl t ↦ rw t (here p.0 p.1 t)
    | inr h ↦ rw h (there p.0 p.1 h (lookup-modify_if j k f m))
  ]
    where
      here :
          (a : K) (v : V)
          → (a == k) ≡ true
          → (if a == j then some (f v) else lookup j m) ≡ (
              if j == k
              then map_option f (if a == j then some v else lookup j m)
              else (if a == j then some v else lookup j m))
      here a v t = elim (Bool-cases (j == k)) [
        | inl t' ↦
            let q : a ≡ j = ==_path a k t ∙ sym (==_path j k t') in
            let q' : (a == j) ≡ true = rw q (==_refl j) in rw (t', q')
        | inr h ↦ rw (h, ==_false a j (λ q. ==_ne j k h (sym q ∙ ==_path a k t)))
      ]

      there :
          (a : K) (v : V)
          → (a == k) ≡ false
          → lookup j (modify k f m) ≡ (if j == k then map_option f (lookup j m) else lookup j m)
          → (if a == j then some v else lookup j (modify k f m)) ≡ (
              if j == k
              then map_option f (if a == j then some v else lookup j m)
              else (if a == j then some v else lookup j m))
      there a v h i = elim (Bool-cases (j == k)) [
        | inl t ↦ rw (t, ==_false a j (λ q. ==_ne a k h (q ∙ ==_path j k t))) (i ∙ rw t)
        | inr h' ↦ rw h' (ap (λ r. if a == j then some v else r) (i ∙ rw h'))
      ]

more :
    (s : ℕ) (u : Option (List ℕ))
    → map_option suc (map_option length u) ≡ map_option length (u >>= λ r. some (s ∷ r))
more s none = refl
more s (some r) = refl

count_lem :
    (o : Option ℕ) (above : ℕ → Option ℕ) (ups : ℕ → Option (List ℕ))
    → ((s : ℕ) → above s ≡ map_option length (ups s))
    → count o above ≡ map_option length (and_above ups o)
unfolding count
count_lem none above ups h = refl
count_lem (some s) above ups h = ap (map_option suc) (h s) ∙ more s (ups s)

module _ {E R : Type 0} (p : PooledProof E R) where
  abbrev pub StepMutated : ℕ → (Justification E R → Justification E R) → Justification E R → Type 0
  StepMutated r f j =
      (p' : PooledProof E R) × (with_mut_step p r f ≡ some p')
      × (lookup_step p' r ≡ some (f j))
      × ((k : ℕ) → k ≢ r → lookup_step p' k ≡ lookup_step p k)
      × (p'.pools.prem_map ≡ p.pools.prem_map)
      × (p'.pools.sub_map ≡ p.pools.sub_map)
      × (p'.pools.containing_subproof ≡ p.pools.containing_subproof)
      × (p'.proof ≡ p.proof)

  -- A step that is there is changed to the function's result, and every other step,
  -- the premises, the subproofs, the parents and the root are as before.
  pub with_mut_step_lem :
      (r : ℕ) (f : Justification E R → Justification E R) (j : Justification E R)
      → lookup_step p r ≡ some j
      → StepMutated r f j
  unfolding with_mut_step lookup_step
  with_mut_step_lem r f j h = (
    record p { pools = record p.pools { just_map = modify r f p.pools.just_map } },
    ap
        (map_option
          (λ _. record p { pools = record p.pools { just_map = modify r f p.pools.just_map } }))
        h,
    lookup-modify_if r r f p.pools.just_map ∙ rw (==_refl r) (ap (map_option f) h),
    λ k n. lookup-modify_if k r f p.pools.just_map ∙ rw (==_false k r n),
    refl,
    refl,
    refl,
    refl,
  )

  depth-transitive_parents :
      (n : ℕ) (r : PjsRef)
      → depth_of_line n p r ≡ map_option length (transitive_parents n p.pools r)
  unfolding depth_of_line transitive_parents
  depth-transitive_parents zero r = refl
  depth-transitive_parents (suc n) r =
      count_lem (parent_of p.pools r) (λ s. depth_of_line n p (PjsRef.sub s))
        (λ s. transitive_parents n p.pools (PjsRef.sub s))
        (λ s. depth-transitive_parents n (PjsRef.sub s))

  -- Where each subproof is younger than its parent, `depth_of_line` and `transitive_parents` end, with
  -- fuel of two more than the key of the first parent, and the depth of a line is the number of the
  -- subproofs that it stands in.
  pub depth_of_line_lem :
      (n : ℕ) (r : PjsRef)
      → Descending p.pools
      → 0 < n
      → ((s : ℕ) → parent_of p.pools r ≡ some s → suc s < n)
      → (tps : List ℕ) × (transitive_parents n p.pools r ≡ some tps)
        × (depth_of_line n p r ≡ some (length tps))
  depth_of_line_lem n r d pos fuel =
      let (tps, t) = transitive_parents_total n p.pools r d pos fuel in
      (tps, t, depth-transitive_parents n r ∙ ap (map_option length) t)
