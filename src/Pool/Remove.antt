-- ===== src/Pool/Remove.antt =====
-- `remove_line` and `remove_subproof` of aris/src/proofs/pooledproof.rs: an entry of a pool goes, with
-- every reference to it in the lists and in the dependencies of the steps. `remove_subproof` calls itself
-- for the subproofs inside, with fuel, and `none` is the end of it.
use aris.Base.{
  ℕ, zero, suc, Bool, not as not_bool, Option, none, some, ◌>>=◌, map_option, List, [], ◌∷◌,
  if◌then◌else◌, ◌==◌, PartialEq, nat_eq,
}
use aris.ZipperVec.{ZipperVec, from_vec, iter}
use aris.Pool.{
  PjRef, JsRef, PjsRef, pjs_eq, pj_to_pjs, js_to_pjs, Justification, PooledSubproof, Pools,
  PooledProof, lookup,
}

-- `filter` and `collect`
unfoldable pub filter {ℓ} : {A : Type ℓ} → (A → Bool) → List A → List A
filter p [] = []
filter p (x ∷ xs) = let rest = filter p xs in if p x then x ∷ rest else rest

-- A list with a cursor is built again from the elements that stay.
unfoldable pub filter_vec : {T : Type 0} → (T → Bool) → ZipperVec T → ZipperVec T
unfolding filter
filter_vec p v = from_vec (filter p (iter v))

unfoldable pub delete : {K V : Type 0} ⦃e : PartialEq K⦄ → K → List (K × V) → List (K × V)
delete k [] = []
delete k (p ∷ m) = let rest = delete k m in if p.0 == k then rest else p ∷ rest

unfoldable pub map_values : {K V W : Type 0} → (V → W) → List (K × V) → List (K × W)
map_values f [] = []
map_values f (p ∷ m) = (p.0, f p.1) ∷ map_values f m

-- The dependencies without those on one line or subproof.
unfoldable pub forget : {E R : Type 0} → PjsRef → Justification E R → Justification E R
unfolding filter
forget (PjsRef.prem k) j = record j {
  deps = filter (λ d. not_bool (pj_to_pjs d == PjsRef.prem k)) j.deps;
}
forget (PjsRef.just k) j = record j {
  deps = filter (λ d. not_bool (pj_to_pjs d == PjsRef.just k)) j.deps;
}
forget (PjsRef.sub k) j = record j { sdeps = filter (λ d. not_bool (d == k)) j.sdeps }

unfoldable pub without_premise : ℕ → PooledSubproof → PooledSubproof
unfolding filter_vec
without_premise idx v = record v {
  premise_list = filter_vec (λ x. not_bool (x == idx)) v.premise_list;
}

unfoldable pub without_line : PjsRef → PooledSubproof → PooledSubproof
unfolding filter_vec
without_line idx v = record v {
  line_list = filter_vec (λ x. not_bool (js_to_pjs x == idx)) v.line_list;
}

module _ {E R : Type 0} where
  unfoldable pub remove_line_helper : Pools E R → PjsRef → Pools E R
  unfolding map_values delete
  remove_line_helper pools idx = record pools {
    just_map = map_values (forget idx) pools.just_map;
    containing_subproof = delete idx pools.containing_subproof;
  }

  unfoldable pub remove_premise : Pools E R → ℕ → Pools E R
  remove_premise pools idx =
      remove_line_helper
        (record pools {
          prem_map = delete idx pools.prem_map;
          sub_map = map_values (without_premise idx) pools.sub_map;
        })
        (PjsRef.prem idx)

  unfoldable pub remove_step : Pools E R → ℕ → Pools E R
  remove_step pools idx =
      remove_line_helper
        (record pools {
          just_map = delete idx pools.just_map;
          sub_map = map_values (without_line (PjsRef.just idx)) pools.sub_map;
        })
        (PjsRef.just idx)

  unfoldable pub remove_premises : Pools E R → List ℕ → Pools E R
  remove_premises pools [] = pools
  remove_premises pools (prem ∷ prems) = remove_premises (remove_premise pools prem) prems

  -- The loop over the lines of the subproof that goes.
  unfoldable pub remove_lines :
      (Pools E R → ℕ → Option (Pools E R)) → Pools E R → List JsRef → Option (Pools E R)
  remove_lines remove_sub pools [] = some pools
  remove_lines remove_sub pools (JsRef.just jr ∷ lines) =
      remove_lines remove_sub (remove_step pools jr) lines
  remove_lines remove_sub pools (JsRef.sub sr ∷ lines) =
      remove_sub pools sr >>= λ pools. remove_lines remove_sub pools lines

  unfoldable pub remove_inside :
      (Pools E R → ℕ → Option (Pools E R)) → Pools E R → Option PooledSubproof → Option (Pools E R)
  remove_inside remove_sub pools none = some pools
  remove_inside remove_sub pools (some sub) =
      remove_lines remove_sub (remove_premises pools (iter sub.premise_list)) (iter sub.line_list)

  unfoldable pub remove_subproof : ℕ → Pools E R → ℕ → Option (Pools E R)
  remove_subproof zero pools idx = none
  remove_subproof (suc n) pools idx =
      remove_inside (λ pools sr. remove_subproof n pools sr)
        (record pools { sub_map = delete idx pools.sub_map }) (lookup idx pools.sub_map)
      >>= λ pools. some (
          remove_line_helper
            (record pools { sub_map = map_values (without_line (PjsRef.sub idx)) pools.sub_map })
            (PjsRef.sub idx))

  unfoldable pub pools_remove_line : Pools E R → PjRef → Pools E R
  pools_remove_line pools (PjRef.prem k) = remove_premise pools k
  pools_remove_line pools (PjRef.just k) = remove_step pools k

  -- The methods of the whole proof, which take the reference from the root's lists as well.
  unfoldable pub remove_line : PooledProof E R → PjRef → PooledProof E R
  unfolding filter_vec
  remove_line p r = record p {
    pools = pools_remove_line p.pools r;
    proof = record {
      premise_list = filter_vec (λ x. not_bool (PjsRef.prem x == pj_to_pjs r)) p.proof.premise_list;
      line_list = filter_vec (λ x. not_bool (js_to_pjs x == pj_to_pjs r)) p.proof.line_list;
    };
  }

  unfoldable pub remove_whole_subproof : ℕ → PooledProof E R → ℕ → Option (PooledProof E R)
  remove_whole_subproof n p r =
      map_option (λ pools. record p { pools = pools; proof = without_line (PjsRef.sub r) p.proof })
        (remove_subproof n p.pools r)
