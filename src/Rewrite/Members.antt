-- ===== src/Rewrite/Members.antt =====
-- The members of the lists that `permute_ops` of aris/src/rewrite_rules.rs makes for an operator with one or two
-- operands, and for a call.
use mathlib.Core.List.{map, flat_map}
use aris.Base.{
  List, [], ◌∷◌, ◌≡◌, ap, ◌⊎◌, inl, inr, CartesianProduct, Permutations, In, EachIn, map-In, In-map,
  In-flat_map, product-In, In-product, transport,
}
use aris.Expr.{Expr, Exprs, Op, apply, assoc, nil, cons, from_list}
use aris.Rewrite.{applied, permute_ops, permute_all}

module _ (products : CartesianProduct) (orders : Permutations) where
  abbrev pub permuted : Expr → List Expr
  permuted e = permute_ops products orders e

  abbrev pub permuted_all : Exprs → List (List Expr)
  permuted_all es = permute_all products orders es

  abbrev pub with_op : Op → List (List Expr) → List Expr
  with_op op permutations =
      map (λ args. assoc op (from_list args)) (products.multi_cartesian_product Expr permutations)

  -- An operator with two operands, in both orders.
  pub two_operands :
      (op : Op) (a b : Expr)
      → permuted (assoc op (cons a (cons b nil)))
        ≡ flat_map
            (with_op op)
            ((permuted a ∷ permuted b ∷ []) ∷ (permuted b ∷ permuted a ∷ []) ∷ [])
  unfolding permute_ops
  two_operands op a b =
      ap (flat_map (with_op op)) (orders.permutations_two (List Expr) (permuted a) (permuted b))

  pub one_operand :
      (op : Op) (a : Expr)
      → permuted (assoc op (cons a nil)) ≡ flat_map (with_op op) ((permuted a ∷ []) ∷ [])
  unfolding permute_ops
  one_operand op a = ap (flat_map (with_op op)) (orders.permutations_one (List Expr) (permuted a))

  pub one-In :
      (op : Op) (e : Expr) (xs : List Expr)
      → In e xs
      → In (assoc op (cons e nil)) (with_op op (xs ∷ []))
  unfolding from_list
  one-In op e xs i =
      map-In (λ args. assoc op (from_list args)) (e ∷ [])
        (products.multi_cartesian_product Expr (xs ∷ []))
        (product-In products (e ∷ []) xs [] (i, _))

  In-one :
      (op : Op) (e : Expr) (xs : List Expr)
      → In e (with_op op (xs ∷ []))
      → (a : Expr) × In a xs × (e ≡ assoc op (cons a nil))
  unfolding from_list
  In-one op e xs h =
      let (l, i, q) =
        In-map (λ args. assoc op (from_list args)) e
          (products.multi_cartesian_product Expr (xs ∷ [])) h in
      chosen l (In-product products l xs [] i) q
    where
      chosen :
          (l : List Expr)
          → EachIn l (xs ∷ [])
          → e ≡ assoc op (from_list l)
          → (a : Expr) × In a xs × (e ≡ assoc op (cons a nil))
      chosen (a ∷ []) (i, _) q = (a, i, q)
      chosen [] h q = elim h [ ]
      chosen (a ∷ b ∷ l) (i, h) q = elim h [ ]

  pub two-In :
      (op : Op) (e f : Expr) (xs ys : List Expr)
      → In e xs
      → In f ys
      → In (assoc op (cons e (cons f nil))) (with_op op (xs ∷ ys ∷ []))
  unfolding from_list
  two-In op e f xs ys i j =
      map-In (λ args. assoc op (from_list args)) (e ∷ f ∷ [])
        (products.multi_cartesian_product Expr (xs ∷ ys ∷ []))
        (product-In products (e ∷ f ∷ []) xs (ys ∷ []) (i, (j, _)))

  In-two :
      (op : Op) (e : Expr) (xs ys : List Expr)
      → In e (with_op op (xs ∷ ys ∷ []))
      → (a : Expr) × (b : Expr) × In a xs × In b ys × (e ≡ assoc op (cons a (cons b nil)))
  unfolding from_list
  In-two op e xs ys h =
      let (l, i, q) =
        In-map (λ args. assoc op (from_list args)) e
          (products.multi_cartesian_product Expr (xs ∷ ys ∷ [])) h in
      chosen l (In-product products l xs (ys ∷ []) i) q
    where
      chosen :
          (l : List Expr)
          → EachIn l (xs ∷ ys ∷ [])
          → e ≡ assoc op (from_list l)
          → (a : Expr) × (b : Expr) × In a xs × In b ys × (e ≡ assoc op (cons a (cons b nil)))
      chosen (a ∷ b ∷ []) (i, (j, _)) q = (a, b, i, j, q)
      chosen [] h q = elim h [ ]
      chosen (a ∷ []) (i, h) q = elim h [ ]
      chosen (a ∷ b ∷ c ∷ l) (i, (j, h)) q = elim h [ ]

  pub In-one_operand :
      (op : Op) (a f : Expr)
      → In f (permuted (assoc op (cons a nil)))
      → (a' : Expr) × In a' (permuted a) × (f ≡ assoc op (cons a' nil))
  In-one_operand op a f i =
      chosen (In-flat_map (with_op op) f ((permuted a ∷ []) ∷ []) (rw (one_operand op a) at i))
    where
      chosen :
          ((xss : List (List Expr)) × In xss ((permuted a ∷ []) ∷ []) × In f (with_op op xss))
          → (a' : Expr) × In a' (permuted a) × (f ≡ assoc op (cons a' nil))
      chosen (xss, inl q, k) = In-one op f (permuted a) (transport (λ x. In f (with_op op x)) q k)
      chosen (xss, inr n, k) = elim n [ ]

  pub In-two_operands :
      (op : Op) (a b f : Expr)
      → In f (permuted (assoc op (cons a (cons b nil))))
      → (a' : Expr) × (b' : Expr) × In a' (permuted a)
        × In b' (permuted b)
        × ((f ≡ assoc op (cons a' (cons b' nil))) ⊎ (f ≡ assoc op (cons b' (cons a' nil))))
  In-two_operands op a b f i =
      chosen (In-flat_map (with_op op) f both_orders (rw (two_operands op a b) at i))
    where
      both_orders : List (List (List Expr))
      both_orders = (permuted a ∷ permuted b ∷ []) ∷ (permuted b ∷ permuted a ∷ []) ∷ []

      chosen :
          ((xss : List (List Expr)) × In xss
              ((permuted a ∷ permuted b ∷ []) ∷ (permuted b ∷ permuted a ∷ []) ∷ [])
            × In f (with_op op xss))
          → (a' : Expr) × (b' : Expr) × In a' (permuted a)
            × In b' (permuted b)
            × ((f ≡ assoc op (cons a' (cons b' nil))) ⊎ (f ≡ assoc op (cons b' (cons a' nil))))
      chosen (xss, inl q, k) =
          let (a', b', j, j', r) =
            In-two op f (permuted a) (permuted b) (transport (λ x. In f (with_op op x)) q k) in
          (a', b', j, j', inl r)
      chosen (xss, inr (inl q), k) =
          let (b', a', j, j', r) =
            In-two op f (permuted b) (permuted a) (transport (λ x. In f (with_op op x)) q k) in
          (a', b', j', j, inr r)
      chosen (xss, inr (inr n), k) = elim n [ ]

  pub In-apply :
      (func : Expr) (args : Exprs) (f : Expr)
      → In f (permuted (apply func args))
      → (func' : Expr) × (l : List Expr) × In func' (permuted func)
        × EachIn l (permuted_all args)
        × (f ≡ apply func' (from_list l))
  unfolding permute_ops applied
  In-apply func args f i =
      let (l, j, k) =
        In-flat_map applied f
          (products.multi_cartesian_product Expr (permuted func ∷ permuted_all args)) i in
      parts l (In-product products l (permuted func) (permuted_all args) j) k
    where
      parts :
          (l : List Expr)
          → EachIn l (permuted func ∷ permuted_all args)
          → In f (applied l)
          → (func' : Expr) × (l : List Expr) × In func' (permuted func)
            × EachIn l (permuted_all args)
            × (f ≡ apply func' (from_list l))
      parts [] n k = elim n [ ]
      parts (func' ∷ l) (i, j) (inr n) = elim n [ ]
      parts (func' ∷ l) (i, j) (inl q) = (func', l, i, j, q)
