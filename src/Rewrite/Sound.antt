-- ===== src/Rewrite/Sound.antt =====
-- The reductions of the rules of aris/src/equivs.rs, in the orders that aris/src/rewrite_rules.rs adds, by
-- truth values: what the test of aris/src/equivs.rs tries.
use aris.Base.{
  String, Bool, true, List, ◌≡◌, refl, ap, ◌∙◌, sym, all, arith, CartesianProduct, Permutations, In,
  In-map, In-flat_map, transport,
}
use aris.Expr.{Expr, Op}
use aris.Expr.Denote.{denote}
use aris.Rewrite.{permute_ops, permute_patterns, from_patterns}
use aris.Rewrite.Swapped.{has_small_operators, Commutes, Swapped-denote}
use aris.Rewrite.Permuted.{permute_ops-Swapped}
use aris.Rewrite.Rules.{all_equivalences}
use aris.Rewrite.Tables.{truth_values, patterns-denote, all-In}

module _ (call : Bool → List Bool → Bool) where
  truth_values-Commutes : Commutes (truth_values call)
  truth_values-Commutes Op.and a b = ground arith
  truth_values-Commutes Op.or a b = ground arith
  truth_values-Commutes Op.bicon a b = ground arith
  truth_values-Commutes Op.equiv a b = ground arith
  truth_values-Commutes Op.add a b = ground arith
  truth_values-Commutes Op.mult a b = ground arith

finds_small : List (Expr × Expr) → Bool
finds_small patterns = all (λ p. has_small_operators p.0) patterns

all_equivalences_lem : all finds_small all_equivalences ≡ true
unfolding finds_small
all_equivalences_lem = refl

module _ (products : CartesianProduct) (orders : Permutations) where
  -- A reduction is a pattern of the rule, with the find side in another order.
  In-permute_patterns :
      (q : Expr × Expr) (patterns : List (Expr × Expr))
      → In q (permute_patterns products orders patterns)
      → (p : Expr × Expr) × In p patterns × In q.0 (permute_ops products orders p.0) × (q.1 ≡ p.1)
  unfolding permute_patterns
  In-permute_patterns q patterns i =
      let (p, j, k) = In-flat_map _ q patterns i in
      let (f, m, e) = In-map (λ find. (find, p.1)) q (permute_ops products orders p.0) k in
      (
        p,
        j,
        transport (λ g. In g (permute_ops products orders p.0)) (sym (ap (λ r. r.0) e)) m,
        ap (λ r. r.1) e,
      )

  -- Both sides of each reduction of each rule have the same truth value, for all truth values of the names and
  -- whatever a call gives.
  pub from_patterns-denote :
      (patterns : List (Expr × Expr))
      → In patterns all_equivalences
      → (q : Expr × Expr) → In q (from_patterns products orders patterns).reductions
      → (call : Bool → List Bool → Bool) (ρ : String → Bool)
      → denote (truth_values call) ρ q.0 ≡ denote (truth_values call) ρ q.1
  unfolding from_patterns finds_small
  from_patterns-denote patterns r q i call ρ =
      let (p, j, k, e) = In-permute_patterns q patterns i in
      let small =
        all-In (λ p. has_small_operators p.0) p patterns j
          (all-In finds_small patterns all_equivalences r all_equivalences_lem) in
      Swapped-denote (truth_values call) (truth_values-Commutes call) p.0 q.0
        ((permute_ops-Swapped products orders p.0 q.0 small).0 k) ρ
      ∙ patterns-denote call patterns r p j ρ
      ∙ ap (denote (truth_values call) ρ) (sym e)
