-- ===== src/Pool/Added.antt =====
-- What `add_premise` and `add_subproof` of aris/src/proofs/pooledproof.rs do to a proof.
use aris.Base.{
  true, Bool-cases, ℕ, Option, none, some, map_option, [], ◌∷◌, ◌++◌, ◌≡◌, ◌≢◌, ◌⊎◌, ◌<◌, refl, ap,
  ◌∙◌, sym, inl, inr, if◌then◌else◌, ◌==◌, nat_eq,
}
use aris.ZipperVec.{ZipperVec, iter}
use aris.ZipperVec.Edit.{push_lem}
use aris.Pool.{
  JsRef, PjsRef, pjs_eq, PooledSubproof, Pools, PooledProof, lookup, store, next_key, new_subproof,
  parent_of, set_parent, lookup_premise, lookup_subproof,
}
use aris.Pool.Maps.{
  lookup-store, lookup-store_other, lookup-store_if, Room, next_key_fresh, next_key-above,
}
use aris.Pool.Add.{
  self_of, put_self, push_premise, push_line, add_premise, add_subproof, Placement, still_valid,
  through_reference,
}

module _ {E R : Type 0} where
  pub self_of-put_self :
      (p : PooledProof E R) (self : Option ℕ) (sub : PooledSubproof)
      → self_of (put_self p self sub) self ≡ some sub
  unfolding self_of put_self lookup_subproof
  self_of-put_self p none sub = refl
  self_of-put_self p (some s) sub = lookup-store s sub p.pools.sub_map

  pub self_of-put_self_other :
      (p : PooledProof E R) (self t : Option ℕ) (sub : PooledSubproof)
      → t ≢ self
      → self_of (put_self p self sub) t ≡ self_of p t
  unfolding self_of put_self lookup_subproof
  self_of-put_self_other p none none sub h = absurd (h refl)
  self_of-put_self_other p none (some t) sub h = refl
  self_of-put_self_other p (some s) none sub h = refl
  self_of-put_self_other p (some s) (some t) sub h =
      lookup-store_other t s sub p.pools.sub_map (λ e. h (ap some e))

  -- Every map but that of the subproofs is as it was.
  pub put_self_pools :
      (p : PooledProof E R) (self : Option ℕ) (sub : PooledSubproof)
      → ((put_self p self sub).pools.prem_map ≡ p.pools.prem_map)
        × ((put_self p self sub).pools.just_map ≡ p.pools.just_map)
        × ((put_self p self sub).pools.containing_subproof ≡ p.pools.containing_subproof)
  unfolding put_self
  put_self_pools p none sub = (refl, refl, refl)
  put_self_pools p (some s) sub = (refl, refl, refl)

  push_premise_lem :
      (p : PooledProof E R) (self : Option ℕ) (idx : ℕ) (sub : PooledSubproof)
      → self_of p self ≡ some sub
      → (v : ZipperVec ℕ) × (push_premise p self idx
          ≡ some (put_self p self (record sub { premise_list = v })))
        × (iter v ≡ iter sub.premise_list ++ idx ∷ [])
  unfolding push_premise
  push_premise_lem p self idx sub h =
      let (v, q, i) = push_lem sub.premise_list idx in (v, rw (h, q), i)

  pub push_line_lem :
      (p : PooledProof E R) (self : Option ℕ) (idx : JsRef) (sub : PooledSubproof)
      → self_of p self ≡ some sub
      → (v : ZipperVec JsRef) × (push_line p self idx
          ≡ some (put_self p self (record sub { line_list = v })))
        × (iter v ≡ iter sub.line_list ++ idx ∷ [])
  unfolding push_line
  push_line_lem p self idx sub h = let (v, q, i) = push_lem sub.line_list idx in (v, rw (h, q), i)

  pub set_parent_pools :
      (pools : Pools E R) (idx : PjsRef) (self : Option ℕ)
      → ((set_parent pools idx self).prem_map ≡ pools.prem_map)
        × ((set_parent pools idx self).just_map ≡ pools.just_map)
        × ((set_parent pools idx self).sub_map ≡ pools.sub_map)
  unfolding set_parent
  set_parent_pools pools idx none = (refl, refl, refl)
  set_parent_pools pools idx (some s) = (refl, refl, refl)

  parent_of-set_parent :
      (pools : Pools E R) (idx : PjsRef) (s : ℕ)
      → parent_of (set_parent pools idx (some s)) idx ≡ some s
  unfolding parent_of set_parent
  parent_of-set_parent pools idx s = lookup-store idx s pools.containing_subproof

  pub parent_of_self :
      (pools : Pools E R) (idx : PjsRef) (self : Option ℕ) (s : ℕ)
      → self ≡ some s
      → parent_of (set_parent pools idx self) idx ≡ some s
  parent_of_self pools idx self s t =
      ap (λ o. parent_of (set_parent pools idx o) idx) t ∙ parent_of-set_parent pools idx s

  pub parent_of-set_parent_other :
      (pools : Pools E R) (idx i : PjsRef) (self : Option ℕ)
      → (self ≡ none) ⊎ (i ≢ idx)
      → parent_of (set_parent pools idx self) i ≡ parent_of pools i
  unfolding parent_of set_parent
  parent_of-set_parent_other pools idx i none h = refl
  parent_of-set_parent_other pools idx i (some s) (inl h) = absurd cc
  parent_of-set_parent_other pools idx i (some s) (inr h) =
      lookup-store_other i idx s pools.containing_subproof h

  pub put_self-parent_of :
      (p : PooledProof E R) (self : Option ℕ) (sub : PooledSubproof) (idx : PjsRef)
      → parent_of (put_self p self sub).pools idx ≡ parent_of p.pools idx
  unfolding parent_of
  put_self-parent_of p self sub idx = let (_, _, h) = put_self_pools p self sub in ap (lookup idx) h

  -- `self` depends on the root and the map of subproofs only.
  pub self_of-pools :
      (p : PooledProof E R) (pools : Pools E R) (self : Option ℕ)
      → pools.sub_map ≡ p.pools.sub_map
      → self_of (record p { pools = pools }) self ≡ self_of p self
  unfolding self_of lookup_subproof
  self_of-pools p pools none h = refl
  self_of-pools p pools (some s) h = ap (lookup s) h

  abbrev pub PremiseAdded : PooledProof E R → Option ℕ → E → PooledSubproof → Type 0
  PremiseAdded p self e sub =
      (idx : ℕ) × (p' : PooledProof E R) × (sub' : PooledSubproof) × (add_premise p self e
        ≡ some (idx, p'))
      × (lookup_premise p idx ≡ none)
      × ((k : ℕ) → lookup_premise p' k ≡ (if k == idx then some e else lookup_premise p k))
      × (self_of p' self ≡ some sub')
      × (iter sub'.premise_list ≡ iter sub.premise_list ++ idx ∷ [])
      × (sub'.line_list ≡ sub.line_list)
      × ((s : ℕ) → self ≡ some s → parent_of p'.pools (PjsRef.prem idx) ≡ some s)
      × ((i : PjsRef)
          → (self ≡ none) ⊎ (i ≢ PjsRef.prem idx)
          → parent_of p'.pools i ≡ parent_of p.pools i)
      × (p'.pools.just_map ≡ p.pools.just_map)
      × ((t : Option ℕ) → t ≢ self → self_of p' t ≡ self_of p t)

  -- Adding a premise to a subproof that exists succeeds. The key is new; it now leads to the
  -- expression, and every other key to what it did; the key is appended to the premises of the subproof,
  -- whose lines stay; and the subproof, if it is not the root, is the parent of the premise.
  -- All other parents, the steps and the other subproofs stay.
  pub add_premise_lem :
      (p : PooledProof E R) (self : Option ℕ) (e : E) (sub : PooledSubproof)
      → Room p.pools.prem_map
      → self_of p self ≡ some sub
      → PremiseAdded p self e sub
  unfolding add_premise lookup_premise parent_of
  add_premise_lem p self e sub r h =
      let idx : ℕ = next_key p.pools.prem_map in
      let base : Pools E R = record p.pools { prem_map = store idx e p.pools.prem_map } in
      let pools : Pools E R = set_parent base (PjsRef.prem idx) self in
      let q : PooledProof E R = record p { pools = pools } in
      let (same_prem, same_just, same_sub) = set_parent_pools base (PjsRef.prem idx) self in
      let (v, w, i) = push_premise_lem q self idx sub (self_of-pools p pools self same_sub ∙ h) in
      let sub' : PooledSubproof = record sub { premise_list = v } in
      let (keep_prem, keep_just, keep_parent) = put_self_pools q self sub' in
      (
        idx,
        put_self q self sub',
        sub',
        ap (map_option (λ p'. (idx, p'))) w,
        next_key_fresh p.pools.prem_map r,
        λ k. ap (lookup k) (keep_prem ∙ same_prem) ∙ lookup-store_if k idx e p.pools.prem_map,
        self_of-put_self q self sub',
        i,
        refl,
        λ s t.
            put_self-parent_of q self sub' (PjsRef.prem idx)
            ∙ parent_of_self base (PjsRef.prem idx) self s t,
        λ i n.
            put_self-parent_of q self sub' i
            ∙ parent_of-set_parent_other base (PjsRef.prem idx) i self n,
        keep_just ∙ same_just,
        λ t n. self_of-put_self_other q self t sub' n ∙ self_of-pools p pools t same_sub,
      )

  -- A subproof that is there stays, with its lists, when another key is added to the pool.
  self_of-store :
      (p : PooledProof E R) (pools : Pools E R) (self : Option ℕ) (idx : ℕ) (new : PooledSubproof)
      (sub : PooledSubproof)
      → pools.sub_map ≡ store idx new p.pools.sub_map
      → lookup idx p.pools.sub_map ≡ none
      → self_of p self ≡ some sub
      → self_of (record p { pools = pools }) self ≡ some sub
  unfolding self_of lookup_subproof
  self_of-store p pools none idx new sub h f q = q
  self_of-store p pools (some s) idx new sub h f q =
      ap (lookup s) h
      ∙ lookup-store_other s idx new p.pools.sub_map
          (λ e. let h' = ap (λ i. lookup i p.pools.sub_map) e in cc)
      ∙ q

  self_of-store_other :
      (p : PooledProof E R) (pools : Pools E R) (t : Option ℕ) (idx : ℕ) (new : PooledSubproof)
      → pools.sub_map ≡ store idx new p.pools.sub_map
      → t ≢ some idx
      → self_of (record p { pools = pools }) t ≡ self_of p t
  unfolding self_of lookup_subproof
  self_of-store_other p pools none idx new h m = refl
  self_of-store_other p pools (some t) idx new h m =
      ap (lookup t) h ∙ lookup-store_other t idx new p.pools.sub_map (λ e. m (ap some e))

  -- The subproof that changes is not the one with a key that is new.
  pub other_key :
      (p : PooledProof E R) (self : Option ℕ) (sub : PooledSubproof) (idx s : ℕ)
      → self_of p self ≡ some sub
      → lookup idx p.pools.sub_map ≡ none
      → self ≡ some s
      → idx ≢ s
  unfolding self_of lookup_subproof
  other_key p self sub idx s h f t e =
      let h' = sym (ap (self_of p) t) ∙ h in
      let f' = ap (λ i. lookup i p.pools.sub_map) (sym e) ∙ f in cc

  lookup_subproof-put_self :
      (p : PooledProof E R) (self : Option ℕ) (sub : PooledSubproof) (idx : ℕ)
      → ((s : ℕ) → self ≡ some s → idx ≢ s)
      → lookup_subproof (put_self p self sub) idx ≡ lookup_subproof p idx
  unfolding put_self lookup_subproof
  lookup_subproof-put_self p none sub idx h = refl
  lookup_subproof-put_self p (some s) sub idx h =
      lookup-store_other idx s sub p.pools.sub_map (h s refl)

  abbrev pub SubproofAdded : Placement → PooledProof E R → Option ℕ → PooledSubproof → Type 0
  SubproofAdded stays p self sub =
      (idx : ℕ) × (p' : PooledProof E R) × (sub' : PooledSubproof) × (add_subproof stays p self
        ≡ some (idx, p'))
      × (lookup_subproof p idx ≡ none)
      × (lookup_subproof p' idx ≡ some new_subproof)
      × (self_of p' self ≡ some sub')
      × (iter sub'.line_list ≡ iter sub.line_list ++ JsRef.sub idx ∷ [])
      × (sub'.premise_list ≡ sub.premise_list)
      × ((s : ℕ) → self ≡ some s → parent_of p'.pools (PjsRef.sub idx) ≡ some s)
      × ((s : ℕ) → self ≡ some s → s < idx)
      × ((i : PjsRef)
          → (self ≡ none) ⊎ (i ≢ PjsRef.sub idx)
          → parent_of p'.pools i ≡ parent_of p.pools i)
      × (p'.pools.just_map ≡ p.pools.just_map)
      × (p'.pools.prem_map ≡ p.pools.prem_map)
      × ((t : Option ℕ) → t ≢ self → t ≢ some idx → self_of p' t ≡ self_of p t)

  -- Adding a subproof to a subproof that exists succeeds, where the insertion into the map leaves
  -- the entry of that subproof where it is, or it is the root. The key is new; it now leads to a
  -- subproof, without premises and lines; the key is appended to the lines of `self`, whose
  -- premises stay; and `self`, if it is not the root, is its parent and has a smaller key. All
  -- other parents, the steps, the premises and the other subproofs stay.
  pub add_subproof_lem :
      (stays : Placement) (p : PooledProof E R) (self : Option ℕ) (sub : PooledSubproof)
      → Room p.pools.sub_map
      → self_of p self ≡ some sub
      → still_valid stays p.pools.sub_map self ≡ true
      → SubproofAdded stays p self sub
  unfolding add_subproof through_reference lookup_subproof parent_of self_of
  add_subproof_lem stays p self sub r h valid =
      let idx : ℕ = next_key p.pools.sub_map in
      let linked : Pools E R = set_parent p.pools (PjsRef.sub idx) self in
      let pools : Pools E R = record linked { sub_map = store idx new_subproof linked.sub_map } in
      let q : PooledProof E R = record p { pools = pools } in
      let (same_prem, same_just, same_sub) = set_parent_pools p.pools (PjsRef.sub idx) self in
      let fresh = next_key_fresh p.pools.sub_map r in
      let same = ap (store idx new_subproof) same_sub in
      let (v, w, i) =
        push_line_lem q self (JsRef.sub idx) sub
          (self_of-store p pools self idx new_subproof sub same fresh h) in
      let sub' : PooledSubproof = record sub { line_list = v } in
      let (keep_prem, keep_just, _) = put_self_pools q self sub' in
      (
        idx,
        put_self q self sub',
        sub',
        ap (map_option (λ p'. (idx, p')))
            (ap (λ b. through_reference b (push_line q self (JsRef.sub idx))) valid ∙ w),
        fresh,
        lookup_subproof-put_self q self sub' idx (λ s t. other_key p self sub idx s h fresh t)
            ∙ lookup-store idx new_subproof linked.sub_map,
        self_of-put_self q self sub',
        i,
        refl,
        λ s t.
            put_self-parent_of q self sub' (PjsRef.sub idx)
            ∙ parent_of_self p.pools (PjsRef.sub idx) self s t,
        λ s t. next_key-above s sub p.pools.sub_map r (sym (ap (self_of p) t) ∙ h),
        λ i n.
            put_self-parent_of q self sub' i
            ∙ parent_of-set_parent_other p.pools (PjsRef.sub idx) i self n,
        keep_just ∙ same_just,
        keep_prem ∙ same_prem,
        λ t n m.
            self_of-put_self_other q self t sub' n
            ∙ self_of-store_other p pools t idx new_subproof same m,
      )

  -- An addition that has a result went through a valid reference.
  pub add_subproof-still_valid :
      (stays : Placement) (p : PooledProof E R) (self : Option ℕ) {x : ℕ × PooledProof E R}
      → add_subproof stays p self ≡ some x
      → still_valid stays p.pools.sub_map self ≡ true
  unfolding add_subproof through_reference
  add_subproof-still_valid stays p self h =
      elim (Bool-cases (still_valid stays p.pools.sub_map self)) [
        | inl t ↦ t
        | inr f ↦ absurd (let h' = rw f at h in cc)
      ]
