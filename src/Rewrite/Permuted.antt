-- ===== src/Rewrite/Permuted.antt =====
-- What `permute_ops` of aris/src/rewrite_rules.rs lists, for operators with one or two operands.
use mathlib.Core.List.{map, flat_map}
use aris.Base.{
  true, List, [], ◌∷◌, ◌≡◌, refl, ap, sym, ◌↔◌, inl, inr, and-left, and-right, CartesianProduct,
  Permutations, In, EachIn, map-In, In-map, flat_map-In, In-flat_map, product-In, transport,
}
use aris.Expr.{Expr, Exprs, contra, taut, var, apply, not, impl, assoc, quant, nil, cons, from_list}
use aris.Rewrite.{applied, permute_ops}
use aris.Rewrite.Swapped.{
  has_small_operators, all_small, Swapped, SwappedAll, at_contra, at_taut, at_var, at_apply, at_not,
  at_impl, at_one, kept, exchanged, at_quant, at_nil, at_cons,
}
use aris.Rewrite.Members.{
  permuted, permuted_all, with_op, one_operand, two_operands, one-In, two-In, In-one_operand,
  In-two_operands, In-apply,
}

module _ (products : CartesianProduct) (orders : Permutations) where
  mutual
    unfolding permute_ops from_list applied flat_map

    Swapped-In : (e f : Expr) → Swapped e f → In f (permuted products orders e)
    Swapped-In e f at_contra = inl refl
    Swapped-In e f at_taut = inl refl
    Swapped-In e f (at_var name) = inl refl
    Swapped-In e f (at_apply func func' args args' s t) =
        let (l, i, q) = SwappedAll-EachIn args args' t in
        flat_map-In applied (func' ∷ l) (apply func' args')
          (products.multi_cartesian_product Expr
            (permuted products orders func ∷ permuted_all products orders args))
          (product-In products (func' ∷ l) (permuted products orders func)
            (permuted_all products orders args) (Swapped-In func func' s, i))
          (inl (ap (apply func') (sym q)))
    Swapped-In e f (at_not a a' s) = map-In not a' (permuted products orders a) (Swapped-In a a' s)
    Swapped-In e f (at_impl l l' r r' s t) =
        flat_map-In (λ left. map (impl left) (permuted products orders r)) l' (impl l' r')
          (permuted products orders l) (Swapped-In l l' s)
          (map-In (impl l') r' (permuted products orders r) (Swapped-In r r' t))
    Swapped-In e f (at_one op a a' s) = rw (one_operand products orders op a) (
        flat_map-In (with_op products orders op) (permuted products orders a ∷ [])
          (assoc op (cons a' nil)) ((permuted products orders a ∷ []) ∷ []) (inl refl)
          (one-In products orders op a' (permuted products orders a) (Swapped-In a a' s)))
    Swapped-In e f (kept op a a' b b' s t) = rw (two_operands products orders op a b) (
        flat_map-In (with_op products orders op)
          (permuted products orders a ∷ permuted products orders b ∷ [])
          (assoc op (cons a' (cons b' nil)))
          ((permuted products orders a ∷ permuted products orders b ∷ [])
            ∷ (permuted products orders b ∷ permuted products orders a ∷ [])
            ∷ [])
          (inl refl)
          (two-In products orders op a' b' (permuted products orders a) (permuted products orders b)
            (Swapped-In a a' s) (Swapped-In b b' t)))
    Swapped-In e f (exchanged op a a' b b' s t) = rw (two_operands products orders op a b) (
        flat_map-In (with_op products orders op)
          (permuted products orders b ∷ permuted products orders a ∷ [])
          (assoc op (cons b' (cons a' nil)))
          ((permuted products orders a ∷ permuted products orders b ∷ [])
            ∷ (permuted products orders b ∷ permuted products orders a ∷ [])
            ∷ [])
          (inr (inl refl))
          (two-In products orders op b' a' (permuted products orders b) (permuted products orders a)
            (Swapped-In b b' t) (Swapped-In a a' s)))
    Swapped-In e f (at_quant kind name a a' s) =
        map-In (quant kind name) a' (permuted products orders a) (Swapped-In a a' s)

    SwappedAll-EachIn :
        (es fs : Exprs)
        → SwappedAll es fs
        → (l : List Expr) × EachIn l (permuted_all products orders es) × (from_list l ≡ fs)
    SwappedAll-EachIn es fs at_nil = ([], _, refl)
    SwappedAll-EachIn es fs (at_cons e e' es' fs' s t) =
        let (l, i, q) = SwappedAll-EachIn es' fs' t in
        (e' ∷ l, (Swapped-In e e' s, i), ap (cons e') q)

  mutual
    unfolding permute_ops from_list applied flat_map

    In-Swapped :
        (e f : Expr)
        → has_small_operators e ≡ true
        → In f (permuted products orders e)
        → Swapped e f
    In-Swapped contra f h (inl q) = transport (Swapped contra) (sym q) at_contra
    In-Swapped contra f h (inr n) = elim n [ ]
    In-Swapped taut f h (inl q) = transport (Swapped taut) (sym q) at_taut
    In-Swapped taut f h (inr n) = elim n [ ]
    In-Swapped (var name) f h (inl q) = transport (Swapped (var name)) (sym q) (at_var name)
    In-Swapped (var name) f h (inr n) = elim n [ ]
    In-Swapped (apply func args) f h i =
        let (func', l, j, k, q) = In-apply products orders func args f i in
        transport (Swapped (apply func args)) (sym q) (
          at_apply func func' args (from_list l) (In-Swapped func func' (and-left _ _ h) j)
            (EachIn-SwappedAll args l (and-right _ _ h) k))
    In-Swapped (not a) f h i =
        let (a', j, q) = In-map not f (permuted products orders a) i in
        transport (Swapped (not a)) (sym q) (at_not a a' (In-Swapped a a' h j))
    In-Swapped (impl l r) f h i =
        let (l', j, k) =
          In-flat_map (λ left. map (impl left) (permuted products orders r)) f
            (permuted products orders l) i in
        let (r', m, q) = In-map (impl l') f (permuted products orders r) k in
        transport (Swapped (impl l r)) (sym q) (
          at_impl l l' r r' (In-Swapped l l' (and-left _ _ h) j)
            (In-Swapped r r' (and-right _ _ h) m))
    In-Swapped (assoc op nil) f h i = absurd cc
    In-Swapped (assoc op (cons a nil)) f h i =
        let (a', j, q) = In-one_operand products orders op a f i in
        transport (Swapped (assoc op (cons a nil))) (sym q) (at_one op a a' (In-Swapped a a' h j))
    In-Swapped (assoc op (cons a (cons b nil))) f h i =
        let (a', b', j, k, q) = In-two_operands products orders op a b f i in
        let s : Swapped a a' = In-Swapped a a' (and-left _ _ h) j in
        let t : Swapped b b' = In-Swapped b b' (and-right _ _ h) k in
        elim q [
          | inl u ↦
              transport (Swapped (assoc op (cons a (cons b nil)))) (sym u) (kept op a a' b b' s t)
          | inr u ↦
              transport (Swapped (assoc op (cons a (cons b nil)))) (sym u)
                (exchanged op a a' b b' s t)
        ]
    In-Swapped (assoc op (cons a (cons b (cons c es)))) f h i = absurd cc
    In-Swapped (quant kind name a) f h i =
        let (a', j, q) = In-map (quant kind name) f (permuted products orders a) i in
        transport (Swapped (quant kind name a)) (sym q)
          (at_quant kind name a a' (In-Swapped a a' h j))

    EachIn-SwappedAll :
        (es : Exprs) (l : List Expr)
        → all_small es ≡ true
        → EachIn l (permuted_all products orders es)
        → SwappedAll es (from_list l)
    EachIn-SwappedAll nil [] h i = at_nil
    EachIn-SwappedAll nil (f ∷ l) h i = elim i [ ]
    EachIn-SwappedAll (cons e es) [] h i = elim i [ ]
    EachIn-SwappedAll (cons e es) (f ∷ l) h (i, j) =
        at_cons e f es (from_list l) (In-Swapped e f (and-left _ _ h) i)
          (EachIn-SwappedAll es l (and-right _ _ h) j)

  -- Where every operator has one or two operands, `permute_ops` lists exactly the expressions that differ
  -- from the given one in the order of the two operands of some operators.
  pub permute_ops-Swapped :
      (e f : Expr)
      → has_small_operators e ≡ true
      → In f (permute_ops products orders e) ↔ Swapped e f
  permute_ops-Swapped e f h = (In-Swapped e f h, Swapped-In e f)
