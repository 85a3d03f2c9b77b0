-- ===== src/Rewrite/Tests.antt =====
-- The rewrite rules of aris/src/rewrite_rules.rs and aris/src/equivs.rs at examples, those of their tests first.
use aris.Base.{
  String, Bool, [], ◌∷◌, ◌≡◌, refl, ◌↔◌, inl, inr, In, length, itertools, by_position, ◌==◌,
  string_eq,
}
use mathlib.Core.List.{flat_map}
use aris.Expr.{Expr, var, contra, not, from_list}
use aris.Expr.Denote.{denote}
use aris.Rewrite.{permute_ops, permute_patterns, from_patterns}
use aris.Rewrite.Equivs.{both, complement_patterns}
use aris.Rewrite.Rules.{all_equivalences}
use aris.Rewrite.Swapped.{Swapped}
use aris.Rewrite.Tables.{truth_values}
use aris.Rewrite.Permuted.{permute_ops-Swapped}
use aris.Rewrite.Sound.{from_patterns-denote}

abbrev a_and_b : Expr
a_and_b = both (var "A") (var "B")

abbrev c_and_d : Expr
c_and_d = both (var "C") (var "D")

permute_ops_two :
    permute_ops itertools by_position a_and_b ≡ a_and_b ∷ both (var "B") (var "A") ∷ []
unfolding permute_ops flat_map from_list
permute_ops_two = refl

permute_ops_eight : length (permute_ops itertools by_position (both a_and_b c_and_d)) ≡ 8
unfolding permute_ops flat_map from_list
permute_ops_eight = refl

permute_ops-Swapped_example :
    In (both (var "B") (var "A")) (permute_ops itertools by_position a_and_b)
    ↔ Swapped a_and_b (both (var "B") (var "A"))
permute_ops-Swapped_example =
    permute_ops-Swapped itertools by_position a_and_b (both (var "B") (var "A")) refl

-- The second reduction of `COMPLEMENT`: the first pattern with its operands exchanged.
abbrev exchanged_complement : Expr × Expr
exchanged_complement = (both (not (var "phi")) (var "phi"), contra)

abbrev phi_holds : String → Bool
phi_holds n = n == "phi"

complement-In : In complement_patterns all_equivalences
complement-In = inr (
    inr (
      inr (
        inr (
          inr (
            inr (
              inr (
                inr (
                  inr (
                    inr (
                      inr (
                        inr (
                          inr (
                            inr (
                              inr (
                                inr (
                                  inr (
                                    inr (
                                      inr (
                                        inr (
                                          inr (
                                            inr (
                                              inr (
                                                inr (
                                                  inr (
                                                    inr (
                                                      inr (
                                                        inr (
                                                          inr (
                                                            inr
                                                            (inl refl))))))))))))))))))))))))))))))

exchanged-In :
    In exchanged_complement (from_patterns itertools by_position complement_patterns).reductions
unfolding from_patterns permute_patterns permute_ops flat_map from_list
exchanged-In = inr (inl refl)

from_patterns-denote_example :
    denote (truth_values (λ f vs. f)) phi_holds (both (not (var "phi")) (var "phi"))
    ≡ denote (truth_values (λ f vs. f)) phi_holds contra
from_patterns-denote_example =
    from_patterns-denote itertools by_position complement_patterns complement-In
      exchanged_complement exchanged-In (λ f vs. f) phi_holds
