-- ===== src/Pool.antt =====
-- aris/src/proofs/pooledproof.rs and the references of aris/src/proofs.rs: a proof is a tree of
-- subproofs over pools of premises, steps and subproofs that are found by key. A `BTreeMap` is a list of
-- keys with values, and a coproduct of reference types is a data type with a constructor for each.
-- `E` is the type of the lines' expressions (`HCons<Expr, Tail>` in the code) and `R` that of the rules.
pub mod Maps
pub mod Keys
pub mod Add
pub mod Added
pub mod Parents
pub mod AddStep
pub mod Placed
pub mod Built
pub mod Scope
pub mod Sees
pub mod Reference
pub mod Verify
pub mod Relative
pub mod AddRelative
pub mod Remove
pub mod Dropped
pub mod Removed
pub mod Lines
pub mod Mutated
pub mod Tests
use aris.Base.{
  ℕ, zero, suc, ◌+◌, ◌^◌, ◌%◌, Bool, true, false, not as not_bool, ◌||◌, Option, none, some, ◌>>=◌,
  map_option, List, [], ◌∷◌, if◌then◌else◌, ◌==◌, PartialEq, nat_eq, ltb, any, ◌≡◌, ◌↔◌, refl, ap,
  ==_path, ==_refl,
}
use aris.ZipperVec.{ZipperVec, new as new_vec, push, iter}

pub data PjRef : Type 0 where
  prem just : ℕ → PjRef

pub data JsRef : Type 0 where
  just sub : ℕ → JsRef

pub data PjsRef : Type 0 where
  prem just sub : ℕ → PjsRef

unfoldable pub pj_to_pjs : PjRef → PjsRef
pj_to_pjs (PjRef.prem k) = PjsRef.prem k
pj_to_pjs (PjRef.just k) = PjsRef.just k

unfoldable pub js_to_pjs : JsRef → PjsRef
js_to_pjs (JsRef.just k) = PjsRef.just k
js_to_pjs (JsRef.sub k) = PjsRef.sub k

unfoldable pub pjs_beq : PjsRef → PjsRef → Bool
pjs_beq (PjsRef.prem a) (PjsRef.prem b) = a == b
pjs_beq (PjsRef.just a) (PjsRef.just b) = a == b
pjs_beq (PjsRef.sub a) (PjsRef.sub b) = a == b
pjs_beq _ _ = false

prem_inj : {a b : ℕ} → PjsRef.prem a ≡ PjsRef.prem b → a ≡ b
prem_inj h = cc

just_inj : {a b : ℕ} → PjsRef.just a ≡ PjsRef.just b → a ≡ b
just_inj h = cc

sub_inj : {a b : ℕ} → PjsRef.sub a ≡ PjsRef.sub b → a ≡ b
sub_inj h = cc

pub pjs_beq_iff : (a b : PjsRef) → (pjs_beq a b ≡ true) ↔ (a ≡ b)
unfolding pjs_beq
pjs_beq_iff (PjsRef.prem a) (PjsRef.prem b) =
    (λ h. ap PjsRef.prem (==_path a b h), λ h. rw (prem_inj h) (==_refl b))
pjs_beq_iff (PjsRef.just a) (PjsRef.just b) =
    (λ h. ap PjsRef.just (==_path a b h), λ h. rw (just_inj h) (==_refl b))
pjs_beq_iff (PjsRef.sub a) (PjsRef.sub b) =
    (λ h. ap PjsRef.sub (==_path a b h), λ h. rw (sub_inj h) (==_refl b))
pjs_beq_iff _ _ = (λ h. absurd cc, λ h. absurd cc)

instance abbrev pub pjs_eq : PartialEq PjsRef
pjs_eq = record { eq = pjs_beq; eq_iff_path = pjs_beq_iff }

pub record Justification (E R : Type 0) : Type 0 where
  pub expr : E
  pub rule : R
  pub deps : List PjRef
  pub sdeps : List ℕ

pub record PooledSubproof : Type 0 where
  pub premise_list : ZipperVec ℕ
  pub line_list : ZipperVec JsRef

-- Maps with a test for the equality of keys.
module _ {K V : Type 0} ⦃e : PartialEq K⦄ where
  unfoldable pub lookup : K → List (K × V) → Option V
  lookup k [] = none
  lookup k (p ∷ m) = let rest = lookup k m in if p.0 == k then some p.1 else rest

  unfoldable pub store : K → V → List (K × V) → List (K × V)
  store k v [] = (k, v) ∷ []
  store k v (p ∷ m) = let rest = store k v m in if p.0 == k then (k, v) ∷ m else p ∷ rest

-- `keys().next_back()`: the greatest key.
unfoldable pub last_key : {V : Type 0} → List (ℕ × V) → Option ℕ
last_key [] = none
last_key (p ∷ m) = elim (last_key m) [
  | none ↦ some p.0
  | some k ↦ if ltb k p.0 then some p.0 else some k
]

-- One more, in the 64 bits of `usize`.
unfoldable pub key_after : Option ℕ → ℕ
key_after none = 0
key_after (some k) = (k + 1) % 2 ^ 64

-- `next_premkey`, `next_justkey` and `next_subkey`
unfoldable pub next_key : {V : Type 0} → List (ℕ × V) → ℕ
next_key m = key_after (last_key m)

pub record Pools (E R : Type 0) : Type 0 where
  pub prem_map : List (ℕ × E)
  pub just_map : List (ℕ × Justification E R)
  pub sub_map : List (ℕ × PooledSubproof)
  pub containing_subproof : List (PjsRef × ℕ)

pub record PooledProof (E R : Type 0) : Type 0 where
  pub pools : Pools E R
  pub proof : PooledSubproof

-- One round of the loop of `transitive_parents`: the parent, if there is one, and those above it.
abbrev pub and_above : (ℕ → Option (List ℕ)) → Option ℕ → Option (List ℕ)
and_above above none = some []
and_above above (some s) = above s >>= λ result. some (s ∷ result)

unfoldable pub new_subproof : PooledSubproof
unfolding new_vec
new_subproof = record { premise_list = new_vec; line_list = new_vec }

module _ {E R : Type 0} where
  abbrev pub new : PooledProof E R
  new = record {
    pools = record { prem_map = []; just_map = []; sub_map = []; containing_subproof = [] };
    proof = new_subproof;
  }

  unfoldable pub parent_of : Pools E R → PjsRef → Option ℕ
  unfolding pjs_beq lookup
  parent_of pools idx = lookup idx pools.containing_subproof

  -- The subproof that a method is called on is the root, `none`, or one of the pool, by its key: this is
  -- what `subproof_to_subkey` finds by comparing addresses.
  unfoldable pub set_parent : Pools E R → PjsRef → Option ℕ → Pools E R
  unfolding store
  set_parent pools idx none = pools
  set_parent pools idx (some sk) = record pools {
    containing_subproof = store idx sk pools.containing_subproof;
  }

  -- The loop of `transitive_parents`, with fuel; `none` is a loop that is not over.
  unfoldable pub transitive_parents : ℕ → Pools E R → PjsRef → Option (List ℕ)
  transitive_parents zero pools idx = none
  transitive_parents (suc n) pools idx =
      and_above (λ s. transitive_parents n pools (PjsRef.sub s)) (parent_of pools idx)

  unfoldable pub lookup_premise : PooledProof E R → ℕ → Option E
  unfolding lookup
  lookup_premise p r = lookup r p.pools.prem_map

  unfoldable pub lookup_step : PooledProof E R → ℕ → Option (Justification E R)
  unfolding lookup
  lookup_step p r = lookup r p.pools.just_map

  unfoldable pub lookup_subproof : PooledProof E R → ℕ → Option PooledSubproof
  unfolding lookup
  lookup_subproof p r = lookup r p.pools.sub_map
