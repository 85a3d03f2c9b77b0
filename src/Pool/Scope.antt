-- ===== src/Pool/Scope.antt =====
-- Which lines a line may refer to: `possible_deps_for_line` and `can_reference_dep` of
-- aris/src/proofs.rs, and `verify_line` of aris/src/proofs/pooledproof.rs with the check of the rule as
-- a parameter. The recursion from a subproof to its parent is on fuel, and `none` is its end.
use mathlib.Core.List.{map}
use aris.Base.{
  ℕ, String, zero, suc, Bool, Option, none, some, ◌>>=◌, map_option, List, [], ◌∷◌, ◌++◌,
  if◌then◌else◌, ◌==◌, any,
}
use aris.Expr.{Expr}
use aris.ZipperVec.{iter}
use aris.Pool.{
  PjRef, PjsRef, pjs_eq, pj_to_pjs, js_to_pjs, Justification, PooledSubproof, PooledProof,
  parent_of, lookup_premise, lookup_step, lookup_subproof,
}

-- The premises and then the lines of a subproof.
unfoldable pub refs : PooledSubproof → List PjsRef
refs sub = map PjsRef.prem (iter sub.premise_list) ++ map js_to_pjs (iter sub.line_list)

-- `deps` and `sdeps`
abbrev pub Deps : Type 0
Deps = List PjRef × List ℕ

unfoldable pub note : PjsRef → Deps → Deps
note (PjsRef.prem k) acc = (PjRef.prem k ∷ acc.0, acc.1)
note (PjsRef.just k) acc = (PjRef.just k ∷ acc.0, acc.1)
note (PjsRef.sub k) acc = (acc.0, k ∷ acc.1)

-- The loop over the lines of one subproof, up to the line itself.
unfoldable pub walk : PjsRef → List PjsRef → Deps → Deps
walk r [] acc = acc
walk r (line ∷ lines) acc =
    let rest = walk r lines (note line acc) in if line == r then acc else rest

-- `contains` of the two sets
unfoldable pub noted : PjsRef → Deps → Bool
noted (PjsRef.sub k) acc = any (λ s. PjsRef.sub s == PjsRef.sub k) acc.1
noted r acc = any (λ d. pj_to_pjs d == r) acc.0

mutual
  pub data ProofCheckError : Type 0 where
    line_does_not_exist : PjRef → ProofCheckError
    subproof_does_not_exist : ℕ → ProofCheckError
    references_later_line : PjRef → PjsRef → ProofCheckError
    incorrect_dep_count : List PjRef → ℕ → ProofCheckError
    incorrect_sub_dep_count : List ℕ → ℕ → ProofCheckError
    dep_of_wrong_form : Expr → Expr → ProofCheckError
    conclusion_of_wrong_form : Expr → ProofCheckError
    does_not_occur : Expr → Expr → ProofCheckError
    dep_does_not_exist : Expr → Bool → ProofCheckError
    one_of : ProofCheckErrors → ProofCheckError
    other : String → ProofCheckError

  -- A set of errors.
  pub data ProofCheckErrors : Type 0 where
    no_more : ProofCheckErrors
    also : ProofCheckError → ProofCheckErrors → ProofCheckErrors

-- `none` in the result is `Ok`.
unfoldable pub verdict : PjRef → Option ProofCheckError → Option PjsRef → Option ProofCheckError
verdict r checked none = checked
verdict r checked (some d) = some (references_later_line r d)

module _ {E R : Type 0} where
  -- The subproof that `sr` names, with its key.
  unfoldable pub named : PooledProof E R → Option ℕ → Option (ℕ × PooledSubproof)
  named p none = none
  named p (some s) = map_option (λ sub. (s, sub)) (lookup_subproof p s)

  -- One call of `aux`, with the call for the parent as an argument.
  unfoldable pub aux_at :
      PooledProof E R
      → (ℕ → Deps → Option Deps)
      → PjsRef
      → Deps
      → Option (ℕ × PooledSubproof)
      → Option Deps
  aux_at p up r acc none = some (walk r (refs p.proof) acc)
  aux_at p up r acc (some (s, sub)) = up s (walk r (refs sub) acc)

  unfoldable pub aux : ℕ → PooledProof E R → Option ℕ → PjsRef → Deps → Option Deps
  aux zero p sr r acc = none
  aux (suc n) p sr r acc =
      aux_at p (λ s acc. aux n p (parent_of p.pools (PjsRef.sub s)) (PjsRef.sub s) acc) r acc
        (named p sr)

  unfoldable pub possible_deps_for_line : ℕ → PooledProof E R → PjRef → Option Deps
  possible_deps_for_line n p r = aux n p (parent_of p.pools (pj_to_pjs r)) (pj_to_pjs r) ([], [])

  unfoldable pub can_reference_dep : ℕ → PooledProof E R → PjRef → PjsRef → Option Bool
  can_reference_dep n p r1 r2 = map_option (noted r2) (possible_deps_for_line n p r1)

  -- The first reference that is not valid.
  unfoldable pub first_invalid : ℕ → PooledProof E R → PjRef → List PjsRef → Option (Option PjsRef)
  first_invalid n p r [] = some none
  first_invalid n p r (d ∷ ds) =
      let rest = first_invalid n p r ds in
      can_reference_dep n p r d >>= λ valid. if valid then rest else some (some d)

  module _ (check : PooledProof E R → Justification E R → Option ProofCheckError) where
    unfoldable pub verify_step :
        ℕ → PooledProof E R → PjRef → Option (Justification E R) → Option (Option ProofCheckError)
    verify_step n p r none = some (some (line_does_not_exist r))
    verify_step n p r (some j) =
        map_option (verdict r (check p j))
          (first_invalid n p r (map pj_to_pjs j.deps ++ map PjsRef.sub j.sdeps))

    unfoldable pub verify_premise : PjRef → Option E → Option (Option ProofCheckError)
    verify_premise r none = some (some (line_does_not_exist r))
    verify_premise r (some e) = some none

    unfoldable pub verify_line : ℕ → PooledProof E R → PjRef → Option (Option ProofCheckError)
    verify_line n p (PjRef.prem k) = verify_premise (PjRef.prem k) (lookup_premise p k)
    verify_line n p (PjRef.just k) = verify_step n p (PjRef.just k) (lookup_step p k)
