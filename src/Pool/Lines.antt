-- ===== src/Pool/Lines.antt =====
-- The methods of the trait `Proof` in aris/src/proofs.rs that are given once for all proofs, and the
-- mutation of a line in aris/src/proofs/pooledproof.rs. Loops and recursions along references are on
-- fuel, and `none` is its end. `transitive_dependencies` has a loop that need not end where steps depend
-- on each other in a circle.
use mathlib.Core.List.{map}
use aris.Base.{
  ℕ, zero, suc, Bool, false, Option, none, some, ◌>>=◌, map_option, List, [], ◌∷◌, ◌++◌, ◌⊎◌, inl,
  inr, reverse, if◌then◌else◌, ◌==◌, PartialEq, nat_eq,
}
use aris.ZipperVec.{iter}
use aris.Pool.{
  PjRef, JsRef, PjsRef, pj_to_pjs, js_to_pjs, Justification, PooledSubproof, PooledProof, parent_of,
  lookup_premise, lookup_step, lookup_subproof,
}
use aris.Pool.Add.{self_of, add_step}
use aris.Pool.Relative.{add_step_relative}
use aris.Pool.Scope.{ProofCheckError, line_does_not_exist, subproof_does_not_exist}

-- `get_mut` of a map, and a change of what it finds.
unfoldable pub modify : {K V : Type 0} ⦃e : PartialEq K⦄ → K → (V → V) → List (K × V) → List (K × V)
modify k f [] = []
modify k f (p ∷ m) = let rest = modify k f m in if p.0 == k then (p.0, f p.1) ∷ m else p ∷ rest

-- `ok_or_else`
unfoldable pub ok_or_else : {A : Type 0} → ProofCheckError → Option A → ProofCheckError ⊎ A
ok_or_else err none = inl err
ok_or_else err (some a) = inr a

unfoldable pub direct_lines : List JsRef → List ℕ
direct_lines [] = []
direct_lines (JsRef.just k ∷ lines) = k ∷ direct_lines lines
direct_lines (JsRef.sub k ∷ lines) = direct_lines lines

unfoldable pub exprs : PooledSubproof → List PjRef
exprs sub =
    map PjRef.prem (iter sub.premise_list) ++ map PjRef.just (direct_lines (iter sub.line_list))

unfoldable pub count : Option ℕ → (ℕ → Option ℕ) → Option ℕ
count none above = some 0
count (some parent) above = map_option suc (above parent)

-- The lines of the steps and, by `inside`, of the subproofs; a subproof that is not there has none.
unfoldable pub gather : (ℕ → Option (List PjRef)) → List JsRef → Option (List PjRef)
gather inside [] = some []
gather inside (JsRef.just k ∷ lines) =
    map_option (λ rest. PjRef.just k ∷ rest) (gather inside lines)
gather inside (JsRef.sub s ∷ lines) =
    inside s >>= λ those. gather inside lines >>= λ rest. some (those ++ rest)

unfoldable pub within :
    (PooledSubproof → Option (List PjRef)) → Option PooledSubproof → Option (List PjRef)
within f none = some []
within f (some sub) = f sub

unfoldable pub visited : PjsRef → List PjRef → List PjRef
visited (PjsRef.prem k) result = PjRef.prem k ∷ result
visited (PjsRef.just k) result = PjRef.just k ∷ result
visited (PjsRef.sub k) result = result

module _ {E R : Type 0} where
  unfoldable pub with_mut_premise : PooledProof E R → ℕ → (E → E) → Option (PooledProof E R)
  with_mut_premise p r f =
      map_option
        (λ _. record p { pools = record p.pools { prem_map = modify r f p.pools.prem_map } })
        (lookup_premise p r)

  unfoldable pub with_mut_step :
      PooledProof E R → ℕ → (Justification E R → Justification E R) → Option (PooledProof E R)
  with_mut_step p r f =
      map_option
        (λ _. record p { pools = record p.pools { just_map = modify r f p.pools.just_map } })
        (lookup_step p r)

  unfoldable pub lookup_expr : PooledProof E R → PjRef → Option E
  lookup_expr p (PjRef.prem k) = lookup_premise p k
  lookup_expr p (PjRef.just k) = map_option (λ j. j.expr) (lookup_step p k)

  unfoldable pub lookup_expr_or_die : PooledProof E R → PjRef → ProofCheckError ⊎ E
  lookup_expr_or_die p r = ok_or_else (line_does_not_exist r) (lookup_expr p r)

  unfoldable pub lookup_premise_or_die : PooledProof E R → ℕ → ProofCheckError ⊎ E
  lookup_premise_or_die p r = ok_or_else (line_does_not_exist (PjRef.prem r)) (lookup_premise p r)

  unfoldable pub lookup_justification_or_die :
      PooledProof E R → ℕ → ProofCheckError ⊎ Justification E R
  lookup_justification_or_die p r =
      ok_or_else (line_does_not_exist (PjRef.just r)) (lookup_step p r)

  unfoldable pub lookup_subproof_or_die : PooledProof E R → ℕ → ProofCheckError ⊎ PooledSubproof
  lookup_subproof_or_die p r = ok_or_else (subproof_does_not_exist r) (lookup_subproof p r)

  unfoldable pub depth_of_line : ℕ → PooledProof E R → PjsRef → Option ℕ
  unfolding count
  depth_of_line zero p r = none
  depth_of_line (suc n) p r =
      count (parent_of p.pools r) (λ parent. depth_of_line n p (PjsRef.sub parent))

  -- `lines().first()`, and the step before it.
  unfoldable pub prepend_before :
      ℕ → PooledProof E R → Option ℕ → Justification E R → List JsRef → Option (ℕ × PooledProof E R)
  prepend_before n p self just [] = add_step n p self just
  prepend_before n p self just (first_step ∷ _) = add_step_relative p self just first_step false

  unfoldable pub prepend_step :
      ℕ → PooledProof E R → Option ℕ → Justification E R → Option (ℕ × PooledProof E R)
  prepend_step n p self just =
      self_of p self >>= λ sub. prepend_before n p self just (iter sub.line_list)

  unfoldable pub contained_justifications :
      ℕ → PooledProof E R → Bool → PooledSubproof → Option (List PjRef)
  contained_justifications zero p include_premises sub = none
  contained_justifications (suc n) p include_premises sub =
      let premises = if include_premises then map PjRef.prem (iter sub.premise_list) else [] in
      map_option (λ ret. ret ++ premises)
        (gather (λ s. within (contained_justifications n p include_premises) (lookup_subproof p s))
          (iter sub.line_list))

  -- What a reference puts on the stack, first at the bottom.
  unfoldable pub pushed : PooledProof E R → PjsRef → List PjsRef
  pushed p (PjsRef.prem k) = []
  pushed p (PjsRef.just k) = elim (lookup_step p k) [
    | none ↦ []
    | some j ↦ map pj_to_pjs j.deps ++ map PjsRef.sub j.sdeps
  ]
  pushed p (PjsRef.sub s) = elim (lookup_subproof p s) [
    | none ↦ []
    | some sub ↦ map js_to_pjs (iter sub.line_list)
  ]

  -- The loop of `transitive_dependencies`, with the top of the stack first.
  unfoldable pub dependencies_from :
      ℕ → PooledProof E R → List PjsRef → List PjRef → Option (List PjRef)
  dependencies_from n p [] result = some result
  dependencies_from zero p (r ∷ stack) result = none
  dependencies_from (suc n) p (r ∷ stack) result =
      dependencies_from n p (reverse (pushed p r) ++ stack) (visited r result)

  unfoldable pub transitive_dependencies : ℕ → PooledProof E R → PjRef → Option (List PjRef)
  transitive_dependencies n p line = dependencies_from n p (pj_to_pjs line ∷ []) []
