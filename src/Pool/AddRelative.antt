-- ===== src/Pool/AddRelative.antt =====
-- What `add_step_relative` of aris/src/proofs/pooledproof.rs does, whether the line that the step is put
-- beside is held by a subproof of the pool or by `self`.
use aris.Base.{
  ℕ, Bool, Option, none, some, ◌>>=◌, map_option, ◌≡◌, ◌≢◌, refl, ap, ◌∙◌, inr, if◌then◌else◌, ◌==◌,
  nat_eq,
}
use aris.ZipperVec.{ZipperVec, iter}
use aris.ZipperVec.Edit.{insert_beside, insert_relative_lem}
use aris.Pool.{
  JsRef, PjsRef, pjs_eq, js_to_pjs, Justification, PooledSubproof, Pools, PooledProof, lookup,
  store, next_key, parent_of, set_parent, lookup_step,
}
use aris.Pool.Maps.{lookup-store_if, Room, next_key_fresh}
use aris.Pool.Add.{self_of, put_self}
use aris.Pool.Added.{
  self_of-put_self, self_of-put_self_other, put_self_pools, set_parent_pools, self_of-pools,
  parent_of_self, put_self-parent_of, parent_of-set_parent_other,
}
use aris.Pool.Relative.{js_eq, line_beside, with_mut_subproof, insert_line, add_step_relative}

-- The subproof that a line is put into: the parent of the line beside it, or `self`.
abbrev pub holder : Option ℕ → Option ℕ → Option ℕ
holder self none = self
holder self (some s) = some s

module _ {E R : Type 0} where
  -- The result of the insertion: the state is that of the pool with the parent noted, where there is
  -- one, and the list of the holder changed.
  insert_line_lem :
      (p : PooledProof E R) (self parent : Option ℕ) (idx r : JsRef) (after : Bool)
      (sub : PooledSubproof)
      → self_of p (holder self parent) ≡ some sub
      → (v : ZipperVec JsRef) × (insert_line p self idx r after parent
          ≡ some (
              put_self
                (record p { pools = set_parent p.pools (js_to_pjs idx) parent })
                (holder self parent)
                (record sub { line_list = v })))
        × (iter v ≡ insert_beside idx r after (iter sub.line_list))
  unfolding insert_line line_beside set_parent with_mut_subproof self_of
  insert_line_lem p self none idx r after sub h =
      let (v, q, i) = insert_relative_lem sub.line_list idx r after in (v, rw (h, q), i)
  insert_line_lem p self (some s) idx r after sub h =
      let (v, q, i) = insert_relative_lem sub.line_list idx r after in
      let q' : PooledProof E R = record p { pools = set_parent p.pools (js_to_pjs idx) (some s) } in
      (
        v,
        ap (λ o. with_mut_subproof p o (line_beside q' (some s) idx r after)) h
            ∙ ap (λ o. o >>= λ v. some (put_self q' (some s) (record sub { line_list = v }))) q,
        i,
      )

  abbrev pub StepAddedRelative :
      PooledProof E R → Option ℕ → Justification E R → JsRef → Bool → PooledSubproof → Type 0
  StepAddedRelative p self j r after sub =
      let at = holder self (parent_of p.pools (js_to_pjs r)) in
      (idx : ℕ) × (p' : PooledProof E R) × (sub' : PooledSubproof) × (add_step_relative p self j r
          after
        ≡ some (idx, p'))
      × (lookup_step p idx ≡ none)
      × ((k : ℕ) → lookup_step p' k ≡ (if k == idx then some j else lookup_step p k))
      × (self_of p' at ≡ some sub')
      × (iter sub'.line_list ≡ insert_beside (JsRef.just idx) r after (iter sub.line_list))
      × (sub'.premise_list ≡ sub.premise_list)
      × ((s : ℕ)
          → parent_of p.pools (js_to_pjs r) ≡ some s
          → parent_of p'.pools (PjsRef.just idx) ≡ some s)
      × ((i : PjsRef) → i ≢ PjsRef.just idx → parent_of p'.pools i ≡ parent_of p.pools i)
      × (p'.pools.prem_map ≡ p.pools.prem_map)
      × ((t : Option ℕ) → t ≢ at → self_of p' t ≡ self_of p t)

  -- Adding a step beside a line whose holder is there succeeds. The key is new; it now leads to the step
  -- as it is given, and every other key to what it did; the key stands beside the line in the list
  -- of the holder (at the end, if the line is not in it), whose premises stay; the parent of the line,
  -- if it has one, is the parent of the step; and all other parents, the premises and the other
  -- subproofs stay.
  pub add_step_relative_lem :
      (p : PooledProof E R) (self : Option ℕ) (j : Justification E R) (r : JsRef) (after : Bool)
      (sub : PooledSubproof)
      → Room p.pools.just_map
      → self_of p (holder self (parent_of p.pools (js_to_pjs r))) ≡ some sub
      → StepAddedRelative p self j r after sub
  unfolding add_step_relative lookup_step parent_of js_to_pjs
  add_step_relative_lem p self j r after sub room h =
      let parent : Option ℕ = parent_of p.pools (js_to_pjs r) in
      let idx : ℕ = next_key p.pools.just_map in
      let base : Pools E R = record p.pools { just_map = store idx j p.pools.just_map } in
      let linked : Pools E R = set_parent base (PjsRef.just idx) parent in
      let q : PooledProof E R = record p { pools = linked } in
      let (same_prem, same_just, same_sub) = set_parent_pools base (PjsRef.just idx) parent in
      let (v, w, i) =
        insert_line_lem (record p { pools = base }) self parent (JsRef.just idx) r after sub
          (self_of-pools p base (holder self parent) refl ∙ h) in
      let sub' : PooledSubproof = record sub { line_list = v } in
      let (keep_prem, keep_just, _) = put_self_pools q (holder self parent) sub' in
      (
        idx,
        put_self q (holder self parent) sub',
        sub',
        ap (map_option (λ p'. (idx, p'))) w,
        next_key_fresh p.pools.just_map room,
        λ k. ap (lookup k) (keep_just ∙ same_just) ∙ lookup-store_if k idx j p.pools.just_map,
        self_of-put_self q (holder self parent) sub',
        i,
        refl,
        λ s t.
            put_self-parent_of q (holder self parent) sub' (PjsRef.just idx)
            ∙ parent_of_self base (PjsRef.just idx) parent s t,
        λ i n.
            put_self-parent_of q (holder self parent) sub' i
            ∙ parent_of-set_parent_other base (PjsRef.just idx) i parent (inr n),
        keep_prem ∙ same_prem,
        λ t n.
            self_of-put_self_other q (holder self parent) t sub' n
            ∙ self_of-pools p linked t same_sub,
      )
