-- ===== src/Rules/Verified/Sound.antt =====
-- What `verify_line` of aris/src/proofs/pooledproof.rs and the checks of aris/src/rules.rs are for:
-- proofs in which every step passes.
use mathlib.Core.List.{map}
use aris.Base.{
  ℕ, suc, ◌+◌, ◌<◌, Bool, true, none, some, map_option, List, [], ◌∷◌, ◌≡◌, refl, sym, ◌∙◌, ap, inl,
  inr, Option-cases, arith, some-inj, Bool-cases, ◌==◌, nat_eq, ==_path,
}
use aris.Expr.{Expr}
use aris.ZipperVec.{iter}
use aris.Pool.{
  PjRef, PjsRef, pj_to_pjs, Justification, PooledProof, lookup, parent_of, lookup_subproof,
  lookup_step,
}
use aris.Pool.Scope.{refs, verify_line}
use aris.Pool.Lines.{lookup_expr}
use aris.Pool.Verify.{Accepted, verify_line_lem}
use aris.Rules.Order.{Permutations, Checked}
use aris.Rules.Propositional.Graph.{Petgraph}
use aris.Rules.Propositional.Subproofs.{premise_keys, step_keys}
use aris.Rules.Models.{Respects}
use aris.Rules.Premises.{AllHold, AllDerive}
use aris.Rules.Soundness.{
  check_propositional-Sound, check_boolean-Sound, check_conditional-Sound,
  check_biconditional-Sound,
}
use aris.Pool.Built.{Built, Built-Placed}
use aris.Rules.Verified.{Inference, check_inference, error_in, checked, Allowed, OnePremise}
use aris.Rules.Verified.Seen.{all_Good, premises-Good, past_premises, steps_hold}
use aris.Rules.Verified.Lines.{Stepwise, good_lines}

error_in-none : (c : Checked) → error_in c ≡ none → c ≡ Checked.ok
unfolding error_in
error_in-none Checked.ok h = refl
error_in-none (Checked.err e) h = absurd cc
error_in-none Checked.panic h = absurd cc

-- The keys of a map have a bound.
keys-bound :
    {V : Type 0} (m : List (ℕ × V)) → (b : ℕ) × ((k : ℕ) (a : V) → lookup k m ≡ some a → k < b)
unfolding lookup
keys-bound [] = (0, λ k a h. absurd cc)
keys-bound (x ∷ m) =
    let (b, w) = keys-bound m in
    (
      suc (x.0 + b),
      λ k a h. elim (Bool-cases (x.0 == k)) [
        | inl t ↦ omega (arith, ==_path x.0 k t)
        | inr f ↦ let less = w k a (rw f at h) in omega arith
      ],
    )

abbrev pub AllAllowed : PooledProof Expr Inference → Type 0
AllAllowed p =
    (k : ℕ) (j : Justification Expr Inference) → lookup_step p k ≡ some j → Allowed p j.rule j.deps

abbrev pub AllVerified : Permutations → Petgraph → PooledProof Expr Inference → ℕ → Type 0
AllVerified itertools petgraph p n =
    (k : ℕ) (j : Justification Expr Inference)
    → lookup_step p k ≡ some j
    → verify_line (checked itertools petgraph) n p (PjRef.just k) ≡ some none

module _ (itertools : Permutations) (petgraph : Petgraph) (p : PooledProof Expr Inference)
    (v : Expr → Bool) where
  check_inference-Sound :
      (rule : Inference) (deps : List PjRef) (sdeps : List ℕ)
      → Respects v
      → AllHold p v deps
      → AllDerive p v sdeps
      → Allowed p rule deps
      → (c : Expr) → check_inference itertools p petgraph rule c deps sdeps ≡ Checked.ok
      → v c ≡ true
  unfolding check_inference
  check_inference-Sound (inl rule) deps sdeps r w d x =
      check_propositional-Sound itertools p petgraph rule v deps sdeps r w d x
  check_inference-Sound (inr (inl rule)) deps sdeps r w d x =
      check_boolean-Sound itertools p rule v deps sdeps r w x
  check_inference-Sound (inr (inr (inl rule))) deps sdeps r w d x =
      check_conditional-Sound itertools p rule v deps sdeps r w
  check_inference-Sound (inr (inr (inr rule))) deps sdeps r w d x =
      check_biconditional-Sound itertools p rule v deps sdeps r w

  accepted-Stepwise :
      Respects v
      → AllAllowed p
      → ((k : ℕ) (j : Justification Expr Inference)
          → lookup_step p k ≡ some j
          → Accepted p (checked itertools petgraph) k)
      → Stepwise p v
  unfolding lookup_expr checked
  accepted-Stepwise r allowed acc k seen e h = elim (Option-cases (lookup_step p k)) [
    | inl q ↦ absurd (let h' = rw q at h in cc)
    | inr (j, q) ↦
        let (i, q', m, c) = acc k j q in
        let found : j.expr ≡ e = some-inj (sym (ap (map_option (λ j. j.expr)) q) ∙ h) in
        let (a, b) = all_Good p v (PjRef.just k) i.deps i.sdeps seen m in
        rw (← found, ← some-inj (sym q' ∙ q))
          (check_inference-Sound i.rule i.deps i.sdeps r a b (allowed k i q') i.expr
            (error_in-none _ c))
  ]

-- In a proof whose rules are of the four groups, which the additions built and in which each subproof
-- has one premise, let `verify_line`, with fuel of two more than the key of each step's parent, be
-- `Ok` for every step. Let no step use `HalfDeMorgan`, and the biconditionals that steps of
-- `BiconditionalIntro` depend on have two operands, and those that steps of `BiconditionalElim` depend
-- on no operand twice. Then the steps in the list of the root are true under every assignment of truth
-- values that respects the connectives and under which the premises of the root are true.
pub verify_line-Sound :
    (itertools : Permutations) (petgraph : Petgraph) (p : PooledProof Expr Inference) (n : ℕ)
    (v : Expr → Bool)
    → Respects v
    → Built p
    → OnePremise p
    → AllAllowed p
    → 0 < n
    → ((k s : ℕ) → parent_of p.pools (PjsRef.just k) ≡ some s → suc s < n)
    → AllVerified itertools petgraph p n
    → AllHold p v (map PjRef.prem (premise_keys p.proof))
    → AllHold p v (map PjRef.just (step_keys p.proof))
unfolding lookup_subproof refs pj_to_pjs
verify_line-Sound itertools petgraph p n v r built one allowed pos fuel verified w =
    let (formed, placed) = Built-Placed p built in
    let (bound, low) = keys-bound p.pools.sub_map in
    let all_good =
      good_lines p v placed formed.descending one
        (accepted-Stepwise itertools petgraph p v r allowed (λ k j q. accepted k j q)) bound bound
        none (λ t sub q. low t sub q) (omega arith) tt tt
        (λ k. premises-Good p v k (premise_keys p.proof) (iter p.proof.line_list) w) in
    steps_hold p v (iter p.proof.line_list) (λ k h.
      all_good (PjsRef.just k)
        (past_premises p v k (premise_keys p.proof) (iter p.proof.line_list) h))
  where
    accepted :
        (k : ℕ) (j : Justification Expr Inference)
        → lookup_step p k ≡ some j
        → Accepted p (checked itertools petgraph) k
    accepted k j q =
        let (result, q', (to, from)) =
          verify_line_lem p (checked itertools petgraph) n k ((Built-Placed p built).0.descending)
            pos (fuel k) in
        to (some-inj (sym q' ∙ verified k j q))
