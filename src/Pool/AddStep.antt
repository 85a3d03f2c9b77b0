-- ===== src/Pool/AddStep.antt =====
-- What `add_step` of aris/src/proofs/pooledproof.rs adds, and the references to subproofs that it
-- drops.
use aris.Base.{
  ℕ, zero, suc, ◌<◌, Bool, true, false, not as not_bool, ◌&&◌, ◌||◌, Option, none, some, ◌>>=◌,
  List, [], ◌∷◌, ◌++◌, ◌≡◌, ◌≢◌, ◌⊎◌, refl, ap, ◌∙◌, sym, Bool-cases, inl, inr, if◌then◌else◌, ◌==◌,
  nat_eq, ==_path, ==_ne, any, some-inj,
}
use aris.ZipperVec.{iter}
use aris.Pool.{
  JsRef, PjsRef, pjs_eq, Justification, PooledSubproof, Pools, PooledProof, lookup, store, next_key,
  parent_of, set_parent, and_above, transitive_parents, lookup_step,
}
use aris.Pool.Maps.{lookup-store_if, Room, next_key_fresh}
use aris.Pool.Add.{self_of, put_self, push_line, retain_outside, add_step}
use aris.Pool.Added.{
  self_of-put_self, self_of-put_self_other, put_self_pools, push_line_lem, set_parent_pools,
  self_of-pools, parent_of_self, put_self-parent_of, parent_of-set_parent_other,
}
use aris.Pool.Parents.{WellFormed, transitive_parents_total}

abbrev pub has : ℕ → List ℕ → Bool
has x = any (λ y. y == x)

has-if :
    (c : Bool) (x d : ℕ) (r : List ℕ)
    → has x (if c then r else d ∷ r) ≡ (if c then has x r else ((d == x) || has x r))
has-if true x d r = refl
has-if false x d r = refl

keep_outside :
    (c a b t : Bool)
    → (a ≡ true → c ≡ t)
    → (if c then (b && not_bool t) else (a || (b && not_bool t))) ≡ ((a || b) && not_bool t)
keep_outside true true b t h = rw (sym (h refl)) (and_false b)
  where
    and_false : (b : Bool) → (b && false) ≡ false
    and_false true = refl
    and_false false = refl
keep_outside true false b t h = refl
keep_outside false true b t h = rw (sym (h refl))
keep_outside false false b t h = refl

-- Exactly the references that are not among the parents stay.
has-retain_outside :
    (tps sdeps : List ℕ) (x : ℕ)
    → has x (retain_outside tps sdeps) ≡ (has x sdeps && not_bool (has x tps))
unfolding retain_outside
has-retain_outside tps [] x = refl
has-retain_outside tps (d ∷ sdeps) x =
    has-if (has d tps) x d (retain_outside tps sdeps)
    ∙ ap (λ r. if has d tps then r else ((d == x) || r)) (has-retain_outside tps sdeps x)
    ∙ keep_outside (has d tps) (d == x) (has x sdeps) (has x tps)
        (λ e. ap (λ y. has y tps) (==_path d x e))

and_above_ext :
    (f g : ℕ → Option (List ℕ)) (o : Option ℕ)
    → ((s : ℕ) → f s ≡ g s)
    → and_above f o ≡ and_above g o
and_above_ext f g none h = refl
and_above_ext f g (some s) h = ap (λ o. o >>= λ result. some (s ∷ result)) (h s)

module _ {E R : Type 0} where
  -- The chain of parents is read from `containing_subproof` only.
  transitive_parents_ext :
      (n : ℕ) (a b : Pools E R) (idx : PjsRef)
      → ((i : PjsRef) → parent_of a i ≡ parent_of b i)
      → transitive_parents n a idx ≡ transitive_parents n b idx
  unfolding transitive_parents
  transitive_parents_ext zero a b idx h = refl
  transitive_parents_ext (suc n) a b idx h =
      and_above_ext (λ s. transitive_parents n a (PjsRef.sub s))
        (λ s. transitive_parents n b (PjsRef.sub s)) (parent_of a idx)
        (λ s. transitive_parents_ext n a b (PjsRef.sub s) h)
      ∙ ap (and_above (λ s. transitive_parents n b (PjsRef.sub s))) (h idx)

  add_step-eq :
      (n : ℕ) (p q : PooledProof E R) (self : Option ℕ) (j : Justification E R) (tps : List ℕ)
      → transitive_parents n
          (set_parent p.pools (PjsRef.just (next_key p.pools.just_map)) self)
          (PjsRef.just (next_key p.pools.just_map))
        ≡ some tps
      → push_line
          (record p { pools = set_parent p.pools (PjsRef.just (next_key p.pools.just_map)) self })
          self
          (JsRef.just (next_key p.pools.just_map))
        ≡ some q
      → add_step n p self j
        ≡ some (
          next_key p.pools.just_map,
          record q {
            pools = record q.pools {
              just_map =
                  store
                    (next_key p.pools.just_map)
                    (record j { sdeps = retain_outside tps j.sdeps })
                    q.pools.just_map;
            };
          },
        )
  unfolding add_step
  add_step-eq n p q self j tps t h = rw (t, h)

  -- The new step has the parent that it is given.
  first_parent :
      (p : PooledProof E R) (self : Option ℕ) (s : ℕ)
      → WellFormed p.pools
      → Room p.pools.just_map
      → parent_of
          (set_parent p.pools (PjsRef.just (next_key p.pools.just_map)) self)
          (PjsRef.just (next_key p.pools.just_map))
        ≡ some s
      → self ≡ some s
  first_parent p none s w r h =
      let idx : ℕ = next_key p.pools.just_map in
      let (j, u) = w.just_used idx s (
        sym (parent_of-set_parent_other p.pools (PjsRef.just idx) (PjsRef.just idx) none (inl refl))
        ∙ h) in
      let f = next_key_fresh p.pools.just_map r in absurd cc
  first_parent p (some o) s w r h =
      sym (parent_of_self p.pools (PjsRef.just (next_key p.pools.just_map)) (some o) o refl) ∙ h

  abbrev pub StepAdded :
      ℕ → PooledProof E R → Option ℕ → Justification E R → PooledSubproof → Type 0
  StepAdded n p self j sub =
      (idx : ℕ) × (p' : PooledProof E R) × (sub' : PooledSubproof) × (sdeps tps : List ℕ)
      × (add_step n p self j ≡ some (idx, p'))
      × (lookup_step p idx ≡ none)
      × ((k : ℕ)
          → lookup_step p' k
            ≡ (if k == idx then some (record j { sdeps = sdeps }) else lookup_step p k))
      × (transitive_parents n p'.pools (PjsRef.just idx) ≡ some tps)
      × ((x : ℕ) → has x sdeps ≡ (has x j.sdeps && not_bool (has x tps)))
      × (self_of p' self ≡ some sub')
      × (iter sub'.line_list ≡ iter sub.line_list ++ JsRef.just idx ∷ [])
      × (sub'.premise_list ≡ sub.premise_list)
      × ((s : ℕ) → self ≡ some s → parent_of p'.pools (PjsRef.just idx) ≡ some s)
      × ((i : PjsRef)
          → (self ≡ none) ⊎ (i ≢ PjsRef.just idx)
          → parent_of p'.pools i ≡ parent_of p.pools i)
      × (p'.pools.prem_map ≡ p.pools.prem_map)
      × ((t : Option ℕ) → t ≢ self → self_of p' t ≡ self_of p t)

  -- Adding a step to a subproof that exists, in a well-formed proof, succeeds with fuel of two more
  -- than the key of `self`. The key is new; it now leads to the step without its references to
  -- subproofs that the step stands in, and every other key to what it did; the key is appended to
  -- the lines of `self`, whose premises stay. All other parents, the premises and the other subproofs stay.
  pub add_step_lem :
      (n : ℕ) (p : PooledProof E R) (self : Option ℕ) (j : Justification E R) (sub : PooledSubproof)
      → Room p.pools.just_map
      → WellFormed p.pools
      → self_of p self ≡ some sub
      → 0 < n
      → ((s : ℕ) → self ≡ some s → suc s < n)
      → StepAdded n p self j sub
  unfolding lookup_step parent_of
  add_step_lem n p self j sub r w h pos fuel =
      let idx : ℕ = next_key p.pools.just_map in
      let linked : Pools E R = set_parent p.pools (PjsRef.just idx) self in
      let base : PooledProof E R = record p { pools = linked } in
      let (same_prem, same_just, same_sub) = set_parent_pools p.pools (PjsRef.just idx) self in
      let others : (i : PjsRef) → i ≢ PjsRef.just idx → parent_of linked i ≡ parent_of p.pools i =
        λ i c. parent_of-set_parent_other p.pools (PjsRef.just idx) i self (inr c) in
      let (tps, t) =
        transitive_parents_total n linked (PjsRef.just idx)
          (λ t s d. w.descending t s (sym (others (PjsRef.sub t) (λ c. cc)) ∙ d)) pos
          (λ s d. fuel s (first_parent p self s w r d)) in
      let (v, pushed, i) =
        push_line_lem base self (JsRef.just idx) sub (self_of-pools p linked self same_sub ∙ h) in
      let sub' : PooledSubproof = record sub { line_list = v } in
      let q : PooledProof E R = put_self base self sub' in
      let (keep_prem, keep_just, _) = put_self_pools base self sub' in
      let just' : Justification E R = record j { sdeps = retain_outside tps j.sdeps } in
      let pools : Pools E R = record q.pools { just_map = store idx just' q.pools.just_map } in
      (
        idx,
        record q { pools = pools },
        sub',
        retain_outside tps j.sdeps,
        tps,
        add_step-eq n p q self j tps t pushed,
        next_key_fresh p.pools.just_map r,
        λ k.
            ap (λ m. lookup k (store idx just' m)) (keep_just ∙ same_just)
            ∙ lookup-store_if k idx just' p.pools.just_map,
        transitive_parents_ext n pools linked (PjsRef.just idx)
              (λ i. put_self-parent_of base self sub' i)
            ∙ t,
        has-retain_outside tps j.sdeps,
        self_of-pools q pools self refl ∙ self_of-put_self base self sub',
        i,
        refl,
        λ s e.
            put_self-parent_of base self sub' (PjsRef.just idx)
            ∙ parent_of_self p.pools (PjsRef.just idx) self s e,
        λ i c.
            put_self-parent_of base self sub' i
            ∙ parent_of-set_parent_other p.pools (PjsRef.just idx) i self c,
        keep_prem ∙ same_prem,
        λ t c.
            self_of-pools q pools t refl
            ∙ self_of-put_self_other base self t sub' c
            ∙ self_of-pools p linked t same_sub,
      )

  -- Adding a step, to a subproof that exists, keeps the proof well formed.
  pub add_step-WellFormed :
      (n : ℕ) (p : PooledProof E R) (self : Option ℕ) (j : Justification E R) (sub : PooledSubproof)
      (idx : ℕ) (p' : PooledProof E R)
      → Room p.pools.just_map
      → WellFormed p.pools
      → self_of p self ≡ some sub
      → 0 < n
      → ((s : ℕ) → self ≡ some s → suc s < n)
      → add_step n p self j ≡ some (idx, p')
      → WellFormed p'.pools
  unfolding lookup_step
  add_step-WellFormed n p self j sub idx p' r w h pos fuel a =
      let (i, q, sub', sdeps, tps, b, _, found, _, _, _, _, _, _, others, _, _) =
        add_step_lem n p self j sub r w h pos fuel in
      let same : q ≡ p' = ap (λ x. x.1) (some-inj (sym b ∙ a)) in
      rw (sym same) (record {
        descending = λ t s d. w.descending t s (sym (others (PjsRef.sub t) (inr (λ c. cc))) ∙ d);
        just_used = λ k s d. elim (Bool-cases (k == i)) [
          | inl e ↦ (record j { sdeps = sdeps }, found k ∙ rw e)
          | inr f ↦
              let (u, v) =
                w.just_used k s (sym (others (PjsRef.just k) (inr (λ c. ==_ne k i f cc))) ∙ d) in
              (u, found k ∙ rw f v)
        ];
      })
