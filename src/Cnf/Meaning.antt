-- ===== src/Cnf/Meaning.antt =====
-- What `CnfExpr::and` and `CnfExpr::or` of aris/src/expr.rs mean.
use aris.Base.{
  Bool, false, ◌||◌, ◌&&◌, List, [], ◌∷◌, map, flatten, all, any, CartesianProduct, ◌≡◌, ◌⊎◌, refl,
  ap, ap₂, ◌∙◌, sym, inl, inr, any-flatten, all-map, any-map, all-flat_map, all-or_left,
  all-or_right, fun_ext, or_false, is_nil, is_nil-map, is_nil-flat_map, all-const, not as not_bool,
}
use aris.Nnf.{Valuation}
use aris.Cnf.{
  Clause, CnfExpr, contra, and, or, or_clauses, clause_holds, clauses_hold, cnf_holds, lit_holds,
}

-- A conjunction of formulas is the conjunction of their meanings.
pub cnf_holds-and :
    (v : Valuation) (es : List CnfExpr) → cnf_holds v (and es) ≡ all (cnf_holds v) es
unfolding cnf_holds and
cnf_holds-and v es = all-flat_map (clause_holds v) (λ e. e.clauses) es

module _ (crate : CartesianProduct) (v : Valuation) where
  abbrev mcp : List (List Clause) → List (List Clause)
  mcp = crate.multi_cartesian_product Clause

  -- One row of the product holds if its clauses, joined, hold.
  abbrev row_holds : List Clause → Bool
  row_holds row = any (clause_holds v) row

  -- Distribution: the product of conjunctions, row by row, is the disjunction of conjunctions.
  all-mcp :
      (cs : List Clause) (rest : List (List Clause))
      → all row_holds (mcp (cs ∷ rest)) ≡ any (clauses_hold v) (cs ∷ rest)
  all-mcp cs [] =
      rw (crate.one_list Clause cs)
        (all-map row_holds (λ c. c ∷ []) cs ∙ all-or_right false (clause_holds v) cs)
  all-mcp cs (ds ∷ rest) = rw (crate.more_lists Clause cs ds rest) (
      all-flat_map row_holds (λ c. map (c ∷◌) (mcp (ds ∷ rest))) cs
      ∙ ap (λ f. all f cs)
          (fun_ext (λ c.
            all-map row_holds (c ∷◌) (mcp (ds ∷ rest))
            ∙ all-or_left (clause_holds v c) row_holds (mcp (ds ∷ rest))))
      ∙ all-or_right (all row_holds (mcp (ds ∷ rest))) (clause_holds v) cs
      ∙ ap (clauses_hold v cs ||◌) (all-mcp ds rest))

  -- The clauses that `or` makes, before its test for none.
  all-joined :
      (cs : List Clause) (rest : List (List Clause))
      → clauses_hold v (map flatten (mcp (cs ∷ rest))) ≡ any (clauses_hold v) (cs ∷ rest)
  all-joined cs rest =
      all-map (clause_holds v) flatten (mcp (cs ∷ rest))
      ∙ ap (λ f. all f (mcp (cs ∷ rest))) (fun_ext (any-flatten (lit_holds v)))
      ∙ all-mcp cs rest

  -- There is no row exactly when one of the lists is empty.
  is_nil-mcp :
      (cs : List Clause) (rest : List (List Clause))
      → is_nil (mcp (cs ∷ rest)) ≡ any is_nil (cs ∷ rest)
  is_nil-mcp cs [] =
      rw (crate.one_list Clause cs) (is_nil-map (λ c. c ∷ []) cs ∙ sym (or_false (is_nil cs)))
  is_nil-mcp cs (ds ∷ rest) = rw (crate.more_lists Clause cs ds rest) (
      is_nil-flat_map (λ c. map (c ∷◌) (mcp (ds ∷ rest))) cs
      ∙ ap (λ f. all f cs) (fun_ext (λ c. is_nil-map (c ∷◌) (mcp (ds ∷ rest))))
      ∙ all-const (is_nil (mcp (ds ∷ rest))) cs
      ∙ ap (is_nil cs ||◌) (is_nil-mcp ds rest))

  cnf_holds-or_clauses :
      (cs : List Clause) → cnf_holds v (or_clauses cs) ≡ (not_bool (is_nil cs) && clauses_hold v cs)
  unfolding cnf_holds or_clauses contra
  cnf_holds-or_clauses [] = refl
  cnf_holds-or_clauses (c ∷ cs) = refl

  or_clauses-none :
      (rows : List (List Clause))
      → (rows ≡ []) ⊎ (rows ≡ [] ∷ [])
      → or_clauses (map flatten rows) ≡ contra
  unfolding or_clauses contra flatten
  or_clauses-none rows (inl e) = rw e
  or_clauses-none rows (inr e) = rw e

  -- A disjunction means the disjunction of the meanings, unless an operand has no clause at all:
  -- then it is false.
  pub cnf_holds-or :
      (es : List CnfExpr)
      → cnf_holds v (or crate es)
        ≡ (not_bool (any (λ e. is_nil e.clauses) es) && any (cnf_holds v) es)
  unfolding or cnf_holds contra
  cnf_holds-or [] = rw (or_clauses-none (mcp []) (crate.no_list Clause))
  cnf_holds-or (e ∷ es) =
      let rest : List (List Clause) = map (λ e. e.clauses) es in
      cnf_holds-or_clauses (map flatten (mcp (e.clauses ∷ rest)))
      ∙ ap₂ (λ a b. not_bool a && b)
          (is_nil-map flatten (mcp (e.clauses ∷ rest))
            ∙ is_nil-mcp e.clauses rest
            ∙ any-map is_nil (λ e. e.clauses) (e ∷ es))
          (all-joined e.clauses rest ∙ any-map (clauses_hold v) (λ e. e.clauses) (e ∷ es))
