-- ===== src/Rules/Propositional/Graph/Slab.antt =====
-- The numbers that the slab of aris/src/rules.rs gives to expressions, and the edges that are added
-- to the graph.
use aris.Base.{
  ℕ, suc, Bool, true, false, ◌&&◌, ◌≤◌, ◌<◌, Option, none, some, List, [], ◌∷◌, length, any, ◌==◌,
  nat_eq, ◌≡◌, refl, ap, ◌∙◌, sym, Bool-cases, inl, inr, ==_path, ==_refl, arith, some-inj,
  and-left, and-right, nat_beq,
}
use aris.Expr.{Expr}
use aris.Expr.Equal.{expr_eq}
use aris.Rules.Propositional.Graph.{
  SlabMap, Graph, Reach, here, next, find, or_insert, entry, add_edge, named_by,
}

-- The entries are numbered down to 1.
abbrev pub Numbered : SlabMap → Type 0
Numbered [] = Unit
Numbered (x ∷ slab) = (x.1 ≡ suc (length slab)) × Numbered slab

named_by-le :
    (slab : SlabMap) (n : ℕ) (e : Expr) → Numbered slab → named_by n slab ≡ some e → n ≤ length slab
unfolding named_by
named_by-le [] n e d h = absurd cc
named_by-le (x ∷ slab) n e d h = elim (Bool-cases (x.1 == n)) [
  | inl t ↦ let q = ==_path x.1 n t in let q' = d.0 in omega arith
  | inr f ↦ let k = named_by-le slab n e d.1 (rw f at h) in omega arith
]

-- A new entry does not hide an older one.
named_by-grow :
    (slab : SlabMap) (x : Expr × ℕ) (n : ℕ) (e : Expr)
    → Numbered (x ∷ slab)
    → named_by n slab ≡ some e
    → named_by n (x ∷ slab) ≡ some e
unfolding named_by
named_by-grow slab x n e d h =
    let k = named_by-le slab n e d.1 h in
    let apart : (x.1 == n) ≡ false = differs x.1 n (omega (arith, d.0)) in rw apart h
  where
    differs : (a b : ℕ) → b < a → nat_beq a b ≡ false
    differs a b l = ground arith

find-named_by :
    (slab : SlabMap) (e : Expr) (n : ℕ)
    → Numbered slab
    → find e slab ≡ some n
    → named_by n slab ≡ some e
unfolding find named_by
find-named_by [] e n d h = absurd cc
find-named_by (x ∷ slab) e n d h = elim (Bool-cases (x.0 == e)) [
  | inl t ↦ first x slab e n (==_path x.0 e t) (some-inj (rw t at h))
  | inr f ↦ named_by-grow slab x n e d (find-named_by slab e n d.1 (rw f at h))
]
  where
    first :
        (x : Expr × ℕ) (slab : SlabMap) (e : Expr) (n : ℕ)
        → x.0 ≡ e
        → x.1 ≡ n
        → named_by n (x ∷ slab) ≡ some e
    first x slab e n q q' = rw (q', ==_refl n) (ap some q)

-- What is numbered keeps its number.
abbrev Extends : SlabMap → SlabMap → Type 0
Extends slab slab' = (n : ℕ) (e : Expr) → named_by n slab ≡ some e → named_by n slab' ≡ some e

fresh :
    (e : Expr) (slab : SlabMap)
    → Numbered slab
    → Numbered (or_insert e slab none).1
      × Extends slab (or_insert e slab none).1
      × (named_by (or_insert e slab none).0 (or_insert e slab none).1 ≡ some e)
unfolding or_insert named_by
fresh e slab d = (
  (refl, d),
  λ n x h. named_by-grow slab (e, suc (length slab)) n x (refl, d) h,
  rw (==_refl {A = ℕ} (suc (length slab))),
)

kept :
    (e : Expr) (slab : SlabMap) (n : ℕ)
    → Numbered slab
    → find e slab ≡ some n
    → Numbered (or_insert e slab (some n)).1
      × Extends slab (or_insert e slab (some n)).1
      × (named_by (or_insert e slab (some n)).0 (or_insert e slab (some n)).1 ≡ some e)
unfolding or_insert
kept e slab n d h = (d, λ m x q. q, find-named_by slab e n d h)

entry_lem :
    (e : Expr) (slab : SlabMap)
    → Numbered slab
    → Numbered (entry e slab).1
      × Extends slab (entry e slab).1
      × (named_by (entry e slab).0 (entry e slab).1 ≡ some e)
unfolding entry
entry_lem e slab d = by_case (find e slab) refl
  where
    by_case :
        (o : Option ℕ)
        → find e slab ≡ o
        → Numbered (or_insert e slab o).1
          × Extends slab (or_insert e slab o).1
          × (named_by (or_insert e slab o).0 (or_insert e slab o).1 ≡ some e)
    by_case none h = fresh e slab d
    by_case (some n) h = kept e slab n d h

module _ (v : Expr → Bool) where
  -- An edge leads from an expression to one that is true where the first is.
  abbrev pub Edge : SlabMap → ℕ → ℕ → Type 0
  Edge slab n m =
      (x y : Expr) × (named_by n slab ≡ some x)
      × (named_by m slab ≡ some y)
      × (v x ≡ true → v y ≡ true)

  abbrev pub Edges : SlabMap → List (ℕ × ℕ) → Type 0
  Edges slab [] = Unit
  Edges slab (e ∷ g) = Edge slab e.0 e.1 × Edges slab g

  abbrev pub Good : Graph → Type 0
  Good g = Numbered g.0 × Edges g.0 g.1

  Edges-extend :
      (slab slab' : SlabMap) (g : List (ℕ × ℕ)) → Extends slab slab' → Edges slab g → Edges slab' g
  Edges-extend slab slab' [] k w = tt
  Edges-extend slab slab' (e ∷ g) k ((x, y, p, q, i), w) =
      ((x, y, k e.0 x p, k e.1 y q, i), Edges-extend slab slab' g k w)

  pub entry-Good : (e : Expr) (g : Graph) → Good g → Good ((entry e g.0).1, g.1)
  entry-Good e g (d, w) =
      let (d', k, _) = entry_lem e g.0 d in (d', Edges-extend g.0 (entry e g.0).1 g.1 k w)

  pub add_edge-Good :
      (a b : Expr) (g : Graph) → (v a ≡ true → v b ≡ true) → Good g → Good (add_edge a b g)
  unfolding add_edge
  add_edge-Good a b g i (d, w) =
      let (d1, k1, n1) = entry_lem a g.0 d in
      let slab1 : SlabMap = (entry a g.0).1 in
      let (d2, k2, n2) = entry_lem b slab1 d1 in
      let slab2 : SlabMap = (entry b slab1).1 in
      (
        d2,
        (
          (a, b, k2 (entry a g.0).0 a n1, n2, i),
          Edges-extend slab1 slab2 g.1 k2 (Edges-extend g.0 slab1 g.1 k1 w),
        ),
      )

  along-Edge :
      (slab : SlabMap) (g : List (ℕ × ℕ)) (a b : ℕ)
      → Edges slab g
      → any (λ e. e.0 == a && e.1 == b) g ≡ true
      → Edge slab a b
  along-Edge slab [] a b w h = absurd cc
  along-Edge slab (e ∷ g) a b (x, w) h = elim (Bool-cases (e.0 == a && e.1 == b)) [
    | inl t ↦
        rw
          (
            ← ==_path e.0 a (and-left (e.0 == a) (e.1 == b) t),
            ← ==_path e.1 b (and-right (e.0 == a) (e.1 == b) t),
          )
          x
    | inr f ↦ along-Edge slab g a b w (rw f at h)
  ]

  -- Along the edges truth is kept.
  pub Reach-true :
      (slab : SlabMap) (g : List (ℕ × ℕ)) {a b : ℕ} (x y : Expr)
      → Edges slab g
      → Reach g a b
      → named_by a slab ≡ some x
      → named_by b slab ≡ some y
      → v x ≡ true
      → v y ≡ true
  Reach-true slab g x y w here p q t = rw (← some-inj (sym p ∙ q)) t
  Reach-true slab g x y w (next {a = a} {b = b} {c = c} h r) p q t =
      let (x', y', p', q', i) = along-Edge slab g a b w h in
      Reach-true slab g y' y w r q' q (i (rw (← some-inj (sym p ∙ p')) t))
