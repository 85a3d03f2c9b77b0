-- ===== src/Pool/Built.antt =====
-- The proofs that the additions of aris/src/proofs/pooledproof.rs build from an empty one.
use aris.Base.{ℕ, suc, ◌<◌, true, Option, none, some, ◌≡◌, some-inj}
use aris.Pool.{
  JsRef, js_to_pjs, Justification, PooledSubproof, PooledProof, new, new_subproof, lookup,
  parent_of, lookup_subproof,
}
use aris.Pool.Maps.{Room}
use aris.Pool.Add.{Placement, self_of, add_premise, add_subproof, add_step}
use aris.Pool.AddStep.{add_step-WellFormed}
use aris.Pool.Parents.{WellFormed, add_premise-WellFormed, add_subproof-WellFormed}
use aris.Pool.Scope.{refs}
use aris.Pool.Placed.{Known, Placed}
use aris.Pool.Placed.Holder.{no_line}
use aris.Pool.Placed.Add.{add_premise-Placed, add_subproof-Placed, add_step-Placed}
use aris.Pool.Sees.{among}

module _ {E R : Type 0} where
  -- Each addition is to the root or to a subproof that is there, while the pool has room for a key, and with the
  -- fuel that the chain of parents needs.
  pub data Built : PooledProof E R → Type 0 where
    empty : Built new
    added_premise :
        (p : PooledProof E R) (self : Option ℕ) (e : E) (sub : PooledSubproof) (idx : ℕ)
        {p' : PooledProof E R}
        → Built p
        → Room p.pools.prem_map
        → self_of p self ≡ some sub
        → add_premise p self e ≡ some (idx, p')
        → Built p'
    added_subproof :
        (stays : Placement) (p : PooledProof E R) (self : Option ℕ) (sub : PooledSubproof) (idx : ℕ)
        {p' : PooledProof E R}
        → Built p
        → Room p.pools.sub_map
        → self_of p self ≡ some sub
        → add_subproof stays p self ≡ some (idx, p')
        → Built p'
    added_step :
        (n : ℕ) (p : PooledProof E R) (self : Option ℕ) (j : Justification E R)
        (sub : PooledSubproof) (idx : ℕ) {p' : PooledProof E R}
        → Built p
        → Room p.pools.just_map
        → self_of p self ≡ some sub
        → 0 < n
        → ((s : ℕ) → self ≡ some s → suc s < n)
        → add_step n p self j ≡ some (idx, p')
        → Built p'

  empty-WellFormed : WellFormed (new {E = E} {R = R}).pools
  unfolding parent_of lookup
  empty-WellFormed = record { descending = λ t s h. absurd cc; just_used = λ k s h. absurd cc }

  empty-Placed : Placed (new {E = E} {R = R})
  unfolding parent_of lookup self_of lookup_subproof new_subproof
  empty-Placed = record { agrees = at; parent_known = λ x s h. absurd cc }
    where
      at :
          (t : Option ℕ) (sub : PooledSubproof) (x : JsRef)
          → self_of (new {E = E} {R = R}) t ≡ some sub
          → among (js_to_pjs x) (refs sub) ≡ true
          → (parent_of (new {E = E} {R = R}).pools (js_to_pjs x) ≡ t)
            × Known (new {E = E} {R = R}) x
      at none sub x h a = no_line x (rw (some-inj h) a)
      at (some t) sub x h a = absurd cc

  -- In a proof that the additions build, each subproof is younger than its parent, only a step of the
  -- pool has a parent, the parent of each line is the subproof in whose list it stands, and each line of
  -- a list, or with a parent, is in the pool.
  pub Built-Placed : (p : PooledProof E R) → Built p → WellFormed p.pools × Placed p
  Built-Placed p empty = (empty-WellFormed, empty-Placed)
  Built-Placed p (added_premise o self e sub idx b r h a) =
      let (w, placed) = Built-Placed o b in
      (
        add_premise-WellFormed o self e sub idx p r h w a,
        add_premise-Placed o self e sub idx p r h placed a,
      )
  Built-Placed p (added_subproof stays o self sub idx b r h a) =
      let (w, placed) = Built-Placed o b in
      (
        add_subproof-WellFormed stays o self sub idx p r h w a,
        add_subproof-Placed stays o self sub idx p r h placed a,
      )
  Built-Placed p (added_step n o self j sub idx b r h pos fuel a) =
      let (w, placed) = Built-Placed o b in
      (
        add_step-WellFormed n o self j sub idx p r w h pos fuel a,
        add_step-Placed n o self j sub idx p r w h pos fuel placed a,
      )
