-- ===== src/Pool/Relative.antt =====
-- `add_premise_relative`, `add_subproof_relative` and `add_step_relative` of
-- aris/src/proofs/pooledproof.rs: the new line is put beside another one, in the list of the subproof
-- that holds that one.
use aris.Base.{
  ℕ, Bool, true, false, Option, none, some, ◌>>=◌, map_option, ◌≡◌, ◌↔◌, ap, ◌==◌, PartialEq,
  nat_eq, ==_path, ==_refl,
}
use aris.ZipperVec.{insert_relative}
use aris.Pool.{
  JsRef, PjsRef, pjs_eq, js_to_pjs, Justification, PooledSubproof, PooledProof, store, next_key,
  new_subproof, parent_of, set_parent, lookup_subproof,
}
use aris.Pool.Add.{Placement, still_valid, through_reference, self_of, put_self}

unfoldable pub js_beq : JsRef → JsRef → Bool
js_beq (JsRef.just a) (JsRef.just b) = a == b
js_beq (JsRef.sub a) (JsRef.sub b) = a == b
js_beq _ _ = false

js_just-inj : {a b : ℕ} → JsRef.just a ≡ JsRef.just b → a ≡ b
js_just-inj h = cc

js_sub-inj : {a b : ℕ} → JsRef.sub a ≡ JsRef.sub b → a ≡ b
js_sub-inj h = cc

pub js_beq_iff : (a b : JsRef) → (js_beq a b ≡ true) ↔ (a ≡ b)
unfolding js_beq
js_beq_iff (JsRef.just a) (JsRef.just b) =
    (λ h. ap JsRef.just (==_path a b h), λ h. rw (js_just-inj h) (==_refl b))
js_beq_iff (JsRef.sub a) (JsRef.sub b) =
    (λ h. ap JsRef.sub (==_path a b h), λ h. rw (js_sub-inj h) (==_refl b))
js_beq_iff _ _ = (λ h. absurd cc, λ h. absurd cc)

instance abbrev pub js_eq : PartialEq JsRef
js_eq = record { eq = js_beq; eq_iff_path = js_beq_iff }

module _ {E R : Type 0} where
  -- The insertion of a line into a subproof that is there.
  unfoldable pub line_beside :
      PooledProof E R → Option ℕ → JsRef → JsRef → Bool → PooledSubproof → Option (PooledProof E R)
  line_beside p at idx r after sub = insert_relative sub.line_list idx r after >>= λ v.
      some (put_self p at (record sub { line_list = v }))

  unfoldable pub premise_beside :
      PooledProof E R → Option ℕ → ℕ → ℕ → Bool → PooledSubproof → Option (PooledProof E R)
  premise_beside p at idx r after sub = insert_relative sub.premise_list idx r after >>= λ v.
      some (put_self p at (record sub { premise_list = v }))

  -- `with_mut_subproof`: nothing happens where the subproof is not there.
  unfoldable pub with_mut_subproof :
      PooledProof E R
      → Option PooledSubproof
      → (PooledSubproof → Option (PooledProof E R))
      → Option (PooledProof E R)
  with_mut_subproof p none f = some p
  with_mut_subproof p (some sub) f = f sub

  -- The branches on the parent of the line that the new one is put beside.
  unfoldable pub insert_line :
      PooledProof E R → Option ℕ → JsRef → JsRef → Bool → Option ℕ → Option (PooledProof E R)
  insert_line p self idx r after none = self_of p self >>= line_beside p self idx r after
  insert_line p self idx r after (some s) = with_mut_subproof p (lookup_subproof p s) (
      line_beside (record p { pools = set_parent p.pools (js_to_pjs idx) (some s) }) (some s) idx r
        after)

  unfoldable pub insert_premise :
      PooledProof E R → Option ℕ → ℕ → ℕ → Bool → Option ℕ → Option (PooledProof E R)
  insert_premise p self idx r after none = self_of p self >>= premise_beside p self idx r after
  insert_premise p self idx r after (some s) = with_mut_subproof p (lookup_subproof p s) (
      premise_beside (record p { pools = set_parent p.pools (PjsRef.prem idx) (some s) }) (some s)
        idx r after)

  unfoldable pub add_premise_relative :
      PooledProof E R → Option ℕ → E → ℕ → Bool → Option (ℕ × PooledProof E R)
  add_premise_relative p self e r after =
      let idx = next_key p.pools.prem_map in
      let pools = record p.pools { prem_map = store idx e p.pools.prem_map } in
      map_option (λ p'. (idx, p'))
        (insert_premise (record p { pools = pools }) self idx r after
          (parent_of pools (PjsRef.prem r)))

  unfoldable pub add_subproof_relative :
      Placement → PooledProof E R → Option ℕ → JsRef → Bool → Option (ℕ × PooledProof E R)
  add_subproof_relative stays p self r after =
      let idx = next_key p.pools.sub_map in
      let pools = record p.pools { sub_map = store idx new_subproof p.pools.sub_map } in
      map_option (λ p'. (idx, p'))
        (through_reference (still_valid stays p.pools.sub_map self) (
          insert_line (record p { pools = pools }) self (JsRef.sub idx) r after
            (parent_of pools (js_to_pjs r))))

  unfoldable pub add_step_relative :
      PooledProof E R → Option ℕ → Justification E R → JsRef → Bool → Option (ℕ × PooledProof E R)
  add_step_relative p self just r after =
      let idx = next_key p.pools.just_map in
      let pools = record p.pools { just_map = store idx just p.pools.just_map } in
      map_option (λ p'. (idx, p'))
        (insert_line (record p { pools = pools }) self (JsRef.just idx) r after
          (parent_of pools (js_to_pjs r)))
