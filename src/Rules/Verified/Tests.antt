-- ===== src/Rules/Verified/Tests.antt =====
-- A proof with a subproof whose premise is discharged, checked by the code of aris/src/rules.rs.
use mathlib.Core.List.{map}
use aris.Base.{
  true, by_position, ℕ, none, some, [], ◌∷◌, ◌≡◌, refl, inl, inr, arith, some-inj, Bool-cases, ◌==◌,
  nat_eq, string_eq, ==_path,
}
use aris.Expr.{Expr, Op, var, impl, assoc, nil, cons}
use aris.ZipperVec.{new as new_vec, move_cursor, push, zipper}
use aris.Pool.{
  new, new, new_subproof, key_after, transitive_parents, next_key, set_parent, last_key, store,
  PjRef, JsRef, PjsRef, Justification, PooledSubproof, PooledProof, lookup, parent_of,
}
use aris.Rules.{PropositionalInference}
use aris.Rules.Tests.{petgraph}
use aris.Rules.Models.{truth, truth-Respects}
use aris.Rules.Premises.{AllHold}
use aris.Rules.Propositional.Subproofs.{step_keys}
use aris.Rules.Verified.{Inference, OnePremise, checked}
use aris.Rules.Verified.Sound.{AllVerified, verify_line-Sound}
use aris.Base.{suc, ◌<◌}
use aris.Expr.Denote.{denote}
use aris.Normalize.{op_eq}
use aris.Expr.Equal.{expr_beq}
use aris.Pool.{js_to_pjs, lookup_step, lookup_premise, pj_to_pjs, pjs_beq, lookup_subproof}
use aris.Pool.Lines.{
  ok_or_else, direct_lines, lookup_expr, lookup_expr_or_die, lookup_subproof_or_die,
  lookup_premise_or_die,
}
use aris.Pool.Scope.{
  can_reference_dep, verify_step, noted, note, aux_at, first_invalid, verdict, verify_line, aux,
  walk, named, refs, possible_deps_for_line,
}
use aris.Pool.Built.{Built, empty, added_premise, added_subproof, added_step}
use aris.Pool.Maps.{Room}
use aris.Rules.Check.{count_deps, count_sdeps, shared_checks, exprs_contain}
use aris.Rules.Counts.{propositional_inference_num_deps, propositional_inference_num_subdeps}
use aris.Rules.Groups.{propositional_check, check_propositional}
use aris.Rules.Propositional.{
  exprs_have_deps, single_dep, found, and_intro_of, deps_occur, and_intro,
}
use aris.Rules.Propositional.Subproofs.{imp_intro, imp_intro_of, only_subproof, collect, discharge}
use aris.Rules.Verified.{check_inference, error_in, Allowed}
use aris.ZipperVec.{iter}
use aris.Pool.Add.{
  still_valid, through_reference, self_of, put_self, add_step, retain_outside, add_premise,
  push_premise, add_subproof, push_line,
}

abbrev a_and_b : Expr
a_and_b = assoc Op.and (cons (var "A") (cons (var "B") nil))

-- From `A`, with `B` outside.
abbrev inner : PooledSubproof
inner = record { premise_list = zipper (1 ∷ []) []; line_list = zipper (JsRef.just 0 ∷ []) [] }

abbrev conjoined : Justification Expr Inference
conjoined = record {
  expr = a_and_b;
  rule = inl PropositionalInference.and_intro;
  deps = PjRef.prem 1 ∷ PjRef.prem 0 ∷ [];
  sdeps = [];
}

abbrev discharged : Justification Expr Inference
discharged = record {
  expr = impl (var "A") a_and_b;
  rule = inl PropositionalInference.imp_intro;
  deps = [];
  sdeps = 0 ∷ [];
}

abbrev from_b : PooledProof Expr Inference
from_b = record {
  pools = record {
    prem_map = (0, var "B") ∷ (1, var "A") ∷ [];
    just_map = (0, conjoined) ∷ (1, discharged) ∷ [];
    sub_map = (0, inner) ∷ [];
    containing_subproof = (PjsRef.prem 1, 0) ∷ (PjsRef.just 0, 0) ∷ [];
  };
  proof = record {
    premise_list = zipper (0 ∷ []) [];
    line_list = zipper (JsRef.just 1 ∷ JsRef.sub 0 ∷ []) [];
  };
}

either_step :
    (P : ℕ → Justification Expr Inference → Type 0)
    → P 0 conjoined
    → P 1 discharged
    → (k : ℕ) (j : Justification Expr Inference) → lookup_step from_b k ≡ some j
    → P k j
unfolding lookup_step lookup
either_step P a b k j h = elim (Bool-cases (0 == k)) [
  | inl t ↦ rw (← ==_path 0 k t, ← some-inj (rw t at h)) a
  | inr f ↦ elim (Bool-cases (1 == k)) [
    | inl t ↦ rw (← ==_path 1 k t, ← some-inj (rw (f, t) at h)) b
    | inr g ↦ absurd (let h' = rw (f, g) at h in cc)
  ]
]

-- The states on the way to the proof.
abbrev with_b : PooledProof Expr Inference
with_b = record {
  pools = record {
    prem_map = (0, var "B") ∷ [];
    just_map = [];
    sub_map = [];
    containing_subproof = [];
  };
  proof = record { premise_list = zipper (0 ∷ []) []; line_list = zipper [] [] };
}

abbrev with_subproof : PooledProof Expr Inference
with_subproof = record with_b {
  pools = record with_b.pools {
    sub_map = (0, record { premise_list = zipper [] []; line_list = zipper [] [] }) ∷ [];
  };
  proof = record with_b.proof { line_list = zipper (JsRef.sub 0 ∷ []) [] };
}

abbrev with_a : PooledProof Expr Inference
with_a = record with_subproof {
  pools = record {
    prem_map = (0, var "B") ∷ (1, var "A") ∷ [];
    just_map = [];
    sub_map = (0, record { premise_list = zipper (1 ∷ []) []; line_list = zipper [] [] }) ∷ [];
    containing_subproof = (PjsRef.prem 1, 0) ∷ [];
  };
}

abbrev with_conjunction : PooledProof Expr Inference
with_conjunction = record with_a {
  pools = record with_a.pools {
    just_map = (0, conjoined) ∷ [];
    sub_map = (0, inner) ∷ [];
    containing_subproof = (PjsRef.prem 1, 0) ∷ (PjsRef.just 0, 0) ∷ [];
  };
}

empty-Room : (V : Type 0) → Room {V = V} []
unfolding last_key
empty-Room V l h = absurd cc

one-Room : {V : Type 0} (a : V) → Room ((0, a) ∷ [])
unfolding last_key
one-Room a l h = omega (arith, some-inj h)

from_b-Built : Built from_b
unfolding add_premise add_subproof still_valid through_reference add_step push_premise push_line
    put_self self_of lookup_subproof lookup store set_parent next_key last_key key_after push
    new_subproof transitive_parents parent_of pjs_beq retain_outside new_vec move_cursor
from_b-Built =
    added_step 1 with_conjunction none discharged with_conjunction.proof 1
      (added_step 2 with_a (some 0) conjoined
        (record { premise_list = zipper (1 ∷ []) []; line_list = zipper [] [] }) 0
        (added_premise with_subproof (some 0) (var "A") new_subproof 1
          (added_subproof (λ sub_map s. true) with_b none with_b.proof 0
            (added_premise new none (var "B") new_subproof 0 empty (empty-Room Expr) refl refl)
            (empty-Room PooledSubproof) refl refl)
          (one-Room (var "B")) refl refl)
        (empty-Room (Justification Expr Inference)) refl (omega arith)
        (λ s h. omega (arith, some-inj h)) refl)
      (one-Room conjoined) refl (omega arith) (λ s h. absurd cc) refl

from_b-OnePremise : OnePremise from_b
unfolding lookup_subproof lookup iter
from_b-OnePremise s sub h = elim (Bool-cases (0 == s)) [
  | inl t ↦ rw (← some-inj (rw t at h)) refl
  | inr f ↦ absurd (let h' = rw f at h in cc)
]

from_b-AllVerified : AllVerified by_position petgraph from_b 2
unfolding verify_line verify_step first_invalid can_reference_dep possible_deps_for_line aux aux_at
    named refs lookup_step lookup_subproof lookup parent_of pjs_beq pj_to_pjs js_to_pjs iter noted
    walk note verdict checked error_in check_inference check_propositional shared_checks count_deps
    count_sdeps propositional_check propositional_inference_num_deps
    propositional_inference_num_subdeps and_intro imp_intro single_dep and_intro_of deps_occur
    exprs_have_deps exprs_contain expr_beq lookup_expr lookup_premise lookup_expr_or_die ok_or_else
    imp_intro_of only_subproof lookup_subproof_or_die lookup_premise_or_die collect discharge
    direct_lines found op_eq
from_b-AllVerified =
    either_step
      (λ k j. verify_line (checked by_position petgraph) 2 from_b (PjRef.just k) ≡ some none) refl
      refl

from_b_fuel : (k s : ℕ) → parent_of from_b.pools (PjsRef.just k) ≡ some s → suc s < 2
unfolding parent_of lookup pjs_beq
from_b_fuel k s h = elim (Bool-cases (0 == k)) [
  | inl t ↦ let h' = rw t at h in omega (arith, some-inj h')
  | inr f ↦ absurd (let h' = rw f at h in cc)
]

-- The steps of the proof, of which there is one, are true where `B` is, whatever `A` is.
verify_line-Sound_example :
    AllHold from_b (truth (λ n. n == "B")) (map PjRef.just (step_keys from_b.proof))
unfolding lookup_expr lookup_premise lookup iter parent_of pjs_beq denote
verify_line-Sound_example =
    verify_line-Sound by_position petgraph from_b 2 (truth (λ n. n == "B"))
      (truth-Respects (λ n. n == "B")) from_b-Built from_b-OnePremise
      (either_step (λ k j. Allowed from_b j.rule j.deps) tt tt) (omega arith) from_b_fuel
      from_b-AllVerified ((λ e h. rw (← some-inj h)), tt)
