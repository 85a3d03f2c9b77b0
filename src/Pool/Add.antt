-- ===== src/Pool/Add.antt =====
-- `add_premise`, `add_subproof` and `add_step` of aris/src/proofs/pooledproof.rs. The methods are called
-- on a subproof, `self`, whose own lists they change in place: the root, or one that the pool holds.
-- `none` is a missing `self`, a failed push, a chain of parents that does not end, or the use of a
-- reference to `self` that is not valid any more.
use aris.Base.{
  ℕ, Bool, true, false, Option, none, some, ◌>>=◌, map_option, List, [], ◌∷◌, if◌then◌else◌, ◌==◌,
  nat_eq, any,
}
use aris.ZipperVec.{push}
use aris.Pool.{
  JsRef, PjsRef, Justification, PooledSubproof, PooledProof, store, next_key, new_subproof,
  set_parent, transitive_parents, lookup_subproof,
}

-- `sdeps.retain(|x| !tps.contains(x))`
unfoldable pub retain_outside : List ℕ → List ℕ → List ℕ
retain_outside tps [] = []
retain_outside tps (x ∷ sdeps) =
    let rest = retain_outside tps sdeps in if any (λ y. y == x) tps then rest else x ∷ rest

-- Whether `BTreeMap::insert` of a new greatest key leaves the entry of a key where it is in memory. A
-- node of the tree that is full is split, and then some of its entries move.
abbrev pub Placement : Type 0
Placement = List (ℕ × PooledSubproof) → ℕ → Bool

-- The reference to `self` after that insertion: a subproof of the pool stands in the tree itself.
unfoldable pub still_valid : Placement → List (ℕ × PooledSubproof) → Option ℕ → Bool
still_valid stays sub_map none = true
still_valid stays sub_map (some s) = stays sub_map s

-- What is done through the reference to `self`. Where that is not valid any more, the behaviour is undefined.
unfoldable pub through_reference : {A : Type 0} → Bool → Option A → Option A
through_reference true effect = effect
through_reference false effect = none

module _ {E R : Type 0} where
  unfoldable pub self_of : PooledProof E R → Option ℕ → Option PooledSubproof
  self_of p none = some p.proof
  self_of p (some s) = lookup_subproof p s

  -- The state after `self` has become the given subproof.
  unfoldable pub put_self : PooledProof E R → Option ℕ → PooledSubproof → PooledProof E R
  put_self p none sub = record p { proof = sub }
  put_self p (some s) sub = record p {
    pools = record p.pools { sub_map = store s sub p.pools.sub_map };
  }

  unfoldable pub push_premise : PooledProof E R → Option ℕ → ℕ → Option (PooledProof E R)
  unfolding self_of put_self
  push_premise p self idx = self_of p self >>= λ sub.
      push sub.premise_list idx >>= λ v. some (put_self p self (record sub { premise_list = v }))

  unfoldable pub push_line : PooledProof E R → Option ℕ → JsRef → Option (PooledProof E R)
  unfolding self_of put_self
  push_line p self idx = self_of p self >>= λ sub.
      push sub.line_list idx >>= λ v. some (put_self p self (record sub { line_list = v }))

  unfoldable pub add_premise : PooledProof E R → Option ℕ → E → Option (ℕ × PooledProof E R)
  unfolding push_premise
  add_premise p self e =
      let idx = next_key p.pools.prem_map in
      let pools = record p.pools { prem_map = store idx e p.pools.prem_map } in
      map_option (λ p'. (idx, p'))
        (push_premise (record p { pools = set_parent pools (PjsRef.prem idx) self }) self idx)

  unfoldable pub add_subproof :
      Placement → PooledProof E R → Option ℕ → Option (ℕ × PooledProof E R)
  unfolding push_line still_valid through_reference
  add_subproof stays p self =
      let idx = next_key p.pools.sub_map in
      let pools = set_parent p.pools (PjsRef.sub idx) self in
      let pools = record pools { sub_map = store idx new_subproof pools.sub_map } in
      map_option (λ p'. (idx, p'))
        (through_reference (still_valid stays p.pools.sub_map self)
          (push_line (record p { pools = pools }) self (JsRef.sub idx)))

  unfoldable pub add_step :
      ℕ → PooledProof E R → Option ℕ → Justification E R → Option (ℕ × PooledProof E R)
  unfolding push_line retain_outside
  add_step n p self just =
      let idx = next_key p.pools.just_map in
      let pools = set_parent p.pools (PjsRef.just idx) self in
      transitive_parents n pools (PjsRef.just idx) >>= λ tps.
      let just' = record just { sdeps = retain_outside tps just.sdeps } in
      push_line (record p { pools = pools }) self (JsRef.just idx) >>= λ p'.
      some (
        idx,
        record p' { pools = record p'.pools { just_map = store idx just' p'.pools.just_map } },
      )
