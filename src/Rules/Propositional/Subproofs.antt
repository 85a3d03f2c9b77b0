-- ===== src/Rules/Propositional/Subproofs.antt =====
-- The checks of `PropositionalInference` in aris/src/rules.rs that discharge the premise of a subproof.
use aris.Base.{
  Bool, true, false, not as not_bool, Option, none, some, map_option, List, [], ◌∷◌, length, any,
  all, ◌⊎◌, inl, inr, if◌then◌else◌, ◌==◌, nat_eq, ℕ,
}
use aris.Expr.{Expr, Exprs, Op, contra, var, not, impl, assoc, nil, cons}
use aris.Expr.Equal.{expr_eq}
use aris.Expr.Build.{impl_place_holder, assoc_place_holder}
use aris.ZipperVec.{iter}
use aris.Pool.{PjRef, PooledProof, PooledSubproof, lookup_premise, lookup_step}
use aris.Pool.Lines.{
  lookup_expr_or_die, lookup_premise_or_die, lookup_subproof_or_die, direct_lines,
}
use aris.Pool.Scope.{ProofCheckError, conclusion_of_wrong_form, does_not_occur, dep_does_not_exist}
use aris.Rules.Order.{Checked}
use aris.Rules.Check.{try, index, premise}
use aris.Rules.Propositional.{single_dep, found}

-- `collect` of results: the values, or the first error.
unfoldable pub append_result :
    {A : Type 0} → ProofCheckError ⊎ A → ProofCheckError ⊎ List A → ProofCheckError ⊎ List A
append_result (inl e) rest = inl e
append_result (inr a) (inl e) = inl e
append_result (inr a) (inr as') = inr (a ∷ as')

unfoldable pub collect :
    {A B : Type 0} → (A → ProofCheckError ⊎ B) → List A → ProofCheckError ⊎ List B
unfolding append_result
collect f [] = inr []
collect f (a ∷ as') = append_result (f a) (collect f as')

-- The steps of a subproof, `lines` without the subproofs.
abbrev pub step_keys : PooledSubproof → List ℕ
step_keys sproof = direct_lines (iter sproof.line_list)

abbrev pub premise_keys : PooledSubproof → List ℕ
premise_keys sproof = iter sproof.premise_list

-- `find` of an operand that fails a test
unfoldable pub find_not : (Expr → Bool) → Exprs → Option Expr
find_not test nil = none
find_not test (cons e exprs) = let rest = find_not test exprs in if test e then rest else some e

unfoldable pub missing_case : Option Expr → Checked
missing_case none = Checked.ok
missing_case (some e) = Checked.err (dep_does_not_exist e false)

module _ {R : Type 0} (p : PooledProof Expr R) where
  -- A step of the subproof is the expression.
  unfoldable pub has_step : Expr → PooledSubproof → Bool
  has_step c sproof =
      any (λ k. found c (map_option (λ j. j.expr) (lookup_step p k))) (step_keys sproof)

  unfoldable pub first_is : Expr → List ℕ → Bool
  first_is e [] = false
  first_is e (r ∷ _) = found e (lookup_premise p r)

  -- The first premise of the subproof, if there is one, is the expression.
  unfoldable pub starts_by : Expr → PooledSubproof → Bool
  starts_by e sproof = first_is e (premise_keys sproof)

  unfoldable pub or_elim_of : Expr → Expr → List ℕ → Checked
  or_elim_of (assoc Op.or exprs) conclusion sdeps =
      try (collect (lookup_subproof_or_die p) sdeps) (λ sproofs.
        if all (has_step conclusion) sproofs
        then missing_case (find_not (λ e. any (starts_by e) sproofs) exprs)
        else Checked.err (dep_does_not_exist conclusion false))
  or_elim_of prem conclusion sdeps =
      Checked.err (dep_does_not_exist (assoc_place_holder Op.or) true)

  unfoldable pub or_elim : List PjRef → Expr → List ℕ → Checked
  or_elim deps conclusion sdeps =
      single_dep p deps conclusion (premise p deps 0 (λ prem. or_elim_of prem conclusion sdeps))

  -- The subproof at the front, which has to have one premise.
  unfoldable pub only_subproof : List ℕ → (PooledSubproof → Checked) → Checked
  only_subproof sdeps k = index sdeps 0 λ s.
      try (lookup_subproof_or_die p s)
        λ sproof. if length (premise_keys sproof) == 1 then k sproof else Checked.panic

  -- From `assumed` the subproof derives `derived`.
  unfoldable pub discharge : Expr → Expr → PooledSubproof → Checked
  discharge assumed derived sproof =
      try (collect (lookup_premise_or_die p) (premise_keys sproof)) λ prem. index prem 0 λ prem_0.
        if not_bool (assumed == prem_0)
        then Checked.err (does_not_occur assumed prem_0)
        else try (collect (λ k. lookup_expr_or_die p (PjRef.just k)) (step_keys sproof)) λ conc.
          if any (λ c. c == derived) conc
          then Checked.ok
          else Checked.err (dep_does_not_exist derived false)

  unfoldable pub imp_intro_of : Expr → PooledSubproof → Checked
  imp_intro_of (impl left right) sproof = discharge left right sproof
  imp_intro_of conclusion sproof = Checked.err (conclusion_of_wrong_form impl_place_holder)

  unfoldable pub imp_intro : Expr → List ℕ → Checked
  imp_intro conclusion sdeps = only_subproof sdeps (imp_intro_of conclusion)

  unfoldable pub not_intro_of : Expr → PooledSubproof → Checked
  not_intro_of (not operand) sproof = discharge operand contra sproof
  not_intro_of conclusion sproof = Checked.err (conclusion_of_wrong_form (not (var "_")))

  unfoldable pub not_intro : Expr → List ℕ → Checked
  not_intro conclusion sdeps = only_subproof sdeps (not_intro_of conclusion)
