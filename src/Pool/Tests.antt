-- ===== src/Pool/Tests.antt =====
-- Additions to a proof of aris/src/proofs/pooledproof.rs with a subproof in a subproof.
use aris.Base.{
  length, ltb, List, ℕ, Bool, true, Option, none, some, [], ◌∷◌, ◌≡◌, ◌↔◌, refl, Bool-cases, inl,
  inr, ◌==◌, nat_eq, ==_path, arith, some-inj,
}
use aris.Expr.{Expr, taut}
use aris.ZipperVec.{zipper, iter}
use aris.Pool.{
  key_after, store, set_parent, next_key, new, PjRef, JsRef, PjsRef, pjs_eq, pjs_beq, pj_to_pjs,
  js_to_pjs, Justification, PooledSubproof, PooledProof, lookup, last_key, parent_of,
  transitive_parents, new_subproof, lookup_step, lookup_subproof,
}
use aris.Pool.Maps.{Room}
use aris.Pool.Add.{
  Placement, still_valid, through_reference, push_line, add_step, add_subproof, put_self,
  retain_outside, self_of,
}
use aris.Pool.Added.{PremiseAdded, SubproofAdded, add_premise_lem, add_subproof_lem}
use aris.Pool.Parents.{Descending, WellFormed}
use aris.Pool.Scope.{
  ProofCheckError, can_reference_dep, verify_line, verify_step, first_invalid,
  possible_deps_for_line, aux, aux_at, named, refs, walk, noted, note, verdict,
}
use aris.Pool.Reference.{MayReference, can_reference_dep_lem}
use aris.Pool.Verify.{Accepted, verify_line_lem}
use aris.Pool.AddRelative.{StepAddedRelative, add_step_relative_lem}
use aris.Pool.Removed.{LineRemoved, remove_line_lem}
use aris.Pool.Lines.{depth_of_line, count}
use aris.Pool.Placed.{Placed}
use aris.Pool.Built.{Built, empty, added_subproof, added_step, Built-Placed}
use aris.ZipperVec.{new as new_vec, move_cursor, push}
use aris.Pool.AddStep.{StepAdded, add_step_lem}

-- Subproof 1 stands in subproof 0.
abbrev outer : PooledSubproof
outer = record { premise_list = zipper [] []; line_list = zipper (JsRef.sub 1 ∷ []) [] }

abbrev nested : PooledProof Expr ℕ
nested = record {
  pools = record {
    prem_map = [];
    just_map = [];
    sub_map = (0, outer) ∷ (1, new_subproof) ∷ [];
    containing_subproof = (PjsRef.sub 1, 0) ∷ [];
  };
  proof = record { premise_list = zipper [] []; line_list = zipper (JsRef.sub 0 ∷ []) [] };
}

-- A step that refers to both subproofs that it is to stand in.
abbrev circular : Justification Expr ℕ
circular = record { expr = taut; rule = 0; deps = []; sdeps = 0 ∷ 1 ∷ [] }

empty-Room : (V : Type 0) → Room {V = V} []
unfolding last_key
empty-Room V l h = absurd cc

two-Room : Room nested.pools.sub_map
unfolding last_key
two-Room l h = omega (arith, some-inj h)

nested-WellFormed : WellFormed nested.pools
unfolding parent_of lookup pjs_beq
nested-WellFormed = record {
  descending = λ t s h. elim (Bool-cases (1 == t)) [
    | inl e ↦ let h' = rw e at h in omega (arith, some-inj h', ==_path 1 t e)
    | inr f ↦ let h' = rw f at h in absurd cc
  ];
  just_used = λ k s h. absurd cc;
}

add_premise_example : PremiseAdded nested (some 1) taut new_subproof
unfolding self_of lookup_subproof lookup
add_premise_example = add_premise_lem nested (some 1) taut new_subproof (empty-Room Expr) refl

-- A tree of one node: no entry moves.
abbrev small_tree : Placement
small_tree sub_map s = ltb (length sub_map) 11

add_subproof_example : SubproofAdded small_tree nested (some 1) new_subproof
unfolding still_valid self_of lookup_subproof lookup
add_subproof_example = add_subproof_lem small_tree nested (some 1) new_subproof two-Room refl refl

add_step_example : StepAdded 3 nested (some 1) circular new_subproof
unfolding self_of lookup_subproof lookup
add_step_example =
    add_step_lem 3 nested (some 1) circular new_subproof (empty-Room (Justification Expr ℕ))
      nested-WellFormed refl (omega arith) (λ s h. omega (arith, some-inj h))

-- A rule that accepts every step.
abbrev lenient : PooledProof Expr ℕ → Justification Expr ℕ → Option ProofCheckError
lenient p j = none

-- `nested` with a premise in the root and a step in subproof 1 that refers to it.
abbrev with_step : PooledProof Expr ℕ
with_step = record {
  pools = record {
    prem_map = (0, taut) ∷ [];
    just_map = (0, record { expr = taut; rule = 0; deps = PjRef.prem 0 ∷ []; sdeps = [] }) ∷ [];
    sub_map =
        (0, outer)
        ∷ (1, record { premise_list = zipper [] []; line_list = zipper (JsRef.just 0 ∷ []) [] })
        ∷ [];
    containing_subproof = (PjsRef.just 0, 1) ∷ (PjsRef.sub 1, 0) ∷ [];
  };
  proof = record { premise_list = zipper (0 ∷ []) []; line_list = zipper (JsRef.sub 0 ∷ []) [] };
}

with_step-Descending : Descending with_step.pools
unfolding parent_of lookup pjs_beq
with_step-Descending t s h = elim (Bool-cases (1 == t)) [
  | inl e ↦ let h' = rw e at h in omega (arith, some-inj h', ==_path 1 t e)
  | inr f ↦ let h' = rw f at h in absurd cc
]

-- The step in the inner subproof may refer to the premise of the root, and passes.
verify_line_run : verify_line lenient 3 with_step (PjRef.just 0) ≡ some none
unfolding verify_line verify_step first_invalid can_reference_dep possible_deps_for_line aux aux_at
    named refs lookup_step lookup_subproof lookup parent_of pjs_beq pj_to_pjs js_to_pjs iter noted
    walk note verdict
verify_line_run = refl

verify_line_example :
    (result : Option ProofCheckError) × (verify_line lenient 3 with_step (PjRef.just 0)
      ≡ some result)
    × ((result ≡ none) ↔ Accepted with_step lenient 0)
unfolding parent_of lookup pjs_beq
verify_line_example =
    verify_line_lem with_step lenient 3 0 with_step-Descending (omega arith)
      (λ s h. omega (arith, some-inj h))

can_reference_dep_example :
    (valid : Bool) × (can_reference_dep 3 with_step (PjRef.just 0) (PjsRef.prem 0) ≡ some valid)
    × ((valid ≡ true) ↔ MayReference with_step (PjRef.just 0) (PjsRef.prem 0))
unfolding parent_of lookup pjs_beq pj_to_pjs
can_reference_dep_example =
    can_reference_dep_lem with_step 3 (PjRef.just 0) (PjsRef.prem 0) with_step-Descending
      (omega arith) (λ s h. omega (arith, some-inj h))

add_step_relative_example : StepAddedRelative nested none circular (JsRef.sub 1) true outer
unfolding self_of lookup_subproof lookup parent_of js_to_pjs pjs_beq
add_step_relative_example =
    add_step_relative_lem nested none circular (JsRef.sub 1) true outer
      (empty-Room (Justification Expr ℕ)) refl

remove_line_example : LineRemoved with_step (PjRef.prem 0)
remove_line_example = remove_line_lem with_step (PjRef.prem 0)

depth_of_line_run : depth_of_line 3 with_step (PjsRef.just 0) ≡ some 2
unfolding depth_of_line count parent_of lookup pjs_beq
depth_of_line_run = refl

-- A proof with one step, in a subproof.
abbrev alone : Justification Expr ℕ
alone = record { expr = taut; rule = 0; deps = []; sdeps = [] }

abbrev one_subproof : PooledProof Expr ℕ
one_subproof = record {
  pools = record {
    prem_map = [];
    just_map = [];
    sub_map = (0, record { premise_list = zipper [] []; line_list = zipper [] [] }) ∷ [];
    containing_subproof = [];
  };
  proof = record { premise_list = zipper [] []; line_list = zipper (JsRef.sub 0 ∷ []) [] };
}

abbrev one_step : PooledProof Expr ℕ
one_step = record one_subproof {
  pools = record {
    prem_map = [];
    just_map = (0, alone) ∷ [];
    sub_map =
        (0, record { premise_list = zipper [] []; line_list = zipper (JsRef.just 0 ∷ []) [] }) ∷ [];
    containing_subproof = (PjsRef.just 0, 0) ∷ [];
  };
}

one_step-Built : Built one_step
unfolding add_subproof still_valid through_reference add_step push_line put_self self_of
    lookup_subproof lookup store set_parent next_key last_key key_after push new_subproof
    transitive_parents parent_of pjs_beq retain_outside new_vec move_cursor
one_step-Built =
    added_step 2 one_subproof (some 0) alone new_subproof 0
      (added_subproof small_tree new none new_subproof 0 empty (empty-Room PooledSubproof) refl
        refl)
      (empty-Room (Justification Expr ℕ)) refl (omega arith) (λ s h. omega (arith, some-inj h)) refl

Built-Placed_example : WellFormed one_step.pools × Placed one_step
Built-Placed_example = Built-Placed one_step one_step-Built

-- A map whose only key is the greatest one.
abbrev full : List (ℕ × ℕ)
full = (18_446_744_073_709_551_615, 0) ∷ []
