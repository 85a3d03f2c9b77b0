-- ===== src/Rules/Verified.antt =====
-- A proof of aris/src/proofs/pooledproof.rs whose rules are of the four groups that Rules.Groups
-- models, each line checked by `verify_line`, and what it needs to be laid out like.
pub mod Along
pub mod Seen
pub mod Lines
pub mod Sound
mod Tests
use aris.Base.{ℕ, Bool, true, Option, none, some, List, length, ◌≡◌, ◌⊎◌, inl, inr}
use aris.Expr.{Expr}
use aris.Pool.{
  PjRef, JsRef, PjsRef, js_to_pjs, Justification, PooledSubproof, PooledProof, parent_of,
  lookup_subproof,
}
use aris.Pool.Scope.{ProofCheckError, refs, other}
use aris.Pool.Sees.{among}
use aris.Rules.{
  PropositionalInference, BooleanInference, ConditionalInference, BiconditionalInference,
}
use aris.Rules.Order.{Permutations, Checked}
use aris.Rules.Propositional.Graph.{Petgraph}
use aris.Rules.Propositional.Subproofs.{premise_keys}
use aris.Rules.Groups.{check_propositional, check_boolean, check_conditional, check_biconditional}
use aris.Rules.Soundness.{Restricted, IsSound}

-- The coproduct of the four groups.
abbrev pub Inference : Type 0
Inference =
    PropositionalInference ⊎ (BooleanInference ⊎ (ConditionalInference ⊎ BiconditionalInference))

-- The check of the group that a rule is of.
unfoldable pub check_inference :
    Permutations
    → PooledProof Expr Inference
    → Petgraph
    → Inference
    → Expr
    → List PjRef
    → List ℕ
    → Checked
check_inference itertools p g (inl r) c deps sdeps =
    check_propositional itertools p g r c deps sdeps
check_inference itertools p g (inr (inl r)) c deps sdeps = check_boolean itertools p r c deps sdeps
check_inference itertools p g (inr (inr (inl r))) c deps sdeps =
    check_conditional itertools p r c deps sdeps
check_inference itertools p g (inr (inr (inr r))) c deps sdeps =
    check_biconditional itertools p r c deps sdeps

-- The result for `verify_line`, in which a panic is not `Ok`.
unfoldable pub error_in : Checked → Option ProofCheckError
error_in Checked.ok = none
error_in (Checked.err e) = some e
error_in Checked.panic = some (other "panic")

unfoldable pub checked :
    Permutations
    → Petgraph
    → PooledProof Expr Inference
    → Justification Expr Inference
    → Option ProofCheckError
unfolding check_inference error_in
checked itertools g p j = error_in (check_inference itertools p g j.rule j.expr j.deps j.sdeps)

-- The rules, with what two of them need of their dependencies, that are sound.
abbrev pub Allowed : PooledProof Expr Inference → Inference → List PjRef → Type 0
Allowed p (inl r) deps = Restricted p r deps
Allowed p (inr (inl r)) deps = IsSound r
Allowed p (inr (inr r)) deps = Unit

module _ {E R : Type 0} where
  abbrev pub OnePremise : PooledProof E R → Type 0
  OnePremise p =
      (s : ℕ) (sub : PooledSubproof)
      → lookup_subproof p s ≡ some sub
      → length (premise_keys sub) ≡ 1
