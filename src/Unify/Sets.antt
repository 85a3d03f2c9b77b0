-- ===== src/Unify/Sets.antt =====
-- The sets of constraints of `unify` in aris/src/expr.rs: what holds of each member, and their sizes.
use aris.Base.{
  ℕ, zero, suc, ◌+◌, ◌≤◌, Bool, true, none, some, List, [], ◌∷◌, any, ◌≡◌, refl, ap, ap₂, sym, ◌↔◌,
  Bool-cases, inl, inr, arith, and-left, and-right, ==_path, transport, map_option-eq-some,
  some-inj,
}
use aris.Expr.Equal.{expr_beq, expr_eq}
use aris.Expr.Size.{size, size-pos}
use aris.Unify.{Constraint, equal, constraint_beq, insert_constraint, extend_constraints, take_out}

constraint_beq-path : (c d : Constraint) → constraint_beq c d ≡ true → c ≡ d
unfolding constraint_beq
constraint_beq-path (equal a b) (equal a' b') h =
    ap₂ equal (==_path a a' (and-left (expr_beq a a') (expr_beq b b') h))
      (==_path b b' (and-right (expr_beq a a') (expr_beq b b') h))

module _ (P : Constraint → Type 0) where
  abbrev pub Each : List Constraint → Type 0
  Each [] = Unit
  Each (c ∷ s) = P c × Each s

  any-Each : (c : Constraint) (s : List Constraint) → any (constraint_beq c) s ≡ true → Each s → P c
  any-Each c [] t h = absurd cc
  any-Each c (d ∷ s) t (h, h') = elim (Bool-cases (constraint_beq c d)) [
    | inl u ↦ transport P (sym (constraint_beq-path c d u)) h
    | inr u ↦ any-Each c s (rw u at t) h'
  ]

  pub insert-Each :
      (c : Constraint) (s : List Constraint) → P c → Each s → Each (insert_constraint c s)
  unfolding insert_constraint
  insert-Each c s h h' = elim (Bool-cases (any (constraint_beq c) s)) [
    | inl t ↦ rw t h'
    | inr t ↦ rw t (h, h')
  ]

  pub Each-insert :
      (c : Constraint) (s : List Constraint) → Each (insert_constraint c s) → P c × Each s
  unfolding insert_constraint
  Each-insert c s h = elim (Bool-cases (any (constraint_beq c) s)) [
    | inl t ↦ let h' = rw t at h in (any-Each c s t h', h')
    | inr t ↦ rw t at h
  ]

  pub extend-Each : (s cs : List Constraint) → Each s → Each cs → Each (extend_constraints s cs)
  unfolding extend_constraints
  extend-Each s [] h h' = h
  extend-Each s (c ∷ cs) h (h', h'') =
      extend-Each (insert_constraint c s) cs (insert-Each c s h' h) h''

  pub Each-extend : (s cs : List Constraint) → Each (extend_constraints s cs) → Each s × Each cs
  unfolding extend_constraints
  Each-extend s [] h = (h, tt)
  Each-extend s (c ∷ cs) h =
      let (h', h'') = Each-extend (insert_constraint c s) cs h in
      let (i, j) = Each-insert c s h' in (j, (i, h''))

  -- What is taken out, and what is left.
  pub take_out-Each :
      (i : ℕ) (s : List Constraint) (c : Constraint) (r : List Constraint)
      → take_out i s ≡ some (c, r)
      → Each s ↔ (P c × Each r)
  unfolding take_out
  take_out-Each i [] c r h = absurd cc
  take_out-Each zero (d ∷ s) c r h =
      let e : d ∷ s ≡ c ∷ r = ap (λ p. p.0 ∷ p.1) (some-inj h) in
      (λ k. transport Each e k, λ k. transport Each (sym e) k)
  take_out-Each (suc i) (d ∷ []) c r h =
      let e : d ∷ [] ≡ c ∷ r = ap (λ p. p.0 ∷ p.1) (some-inj h) in
      (λ k. transport Each e k, λ k. transport Each (sym e) k)
  take_out-Each (suc i) (d ∷ d' ∷ s) c r h =
      let (p, q, e) = map_option-eq-some (λ p. (p.0, d ∷ p.1)) (take_out i (d' ∷ s)) h in
      let (f, g) = take_out-Each i (d' ∷ s) p.0 p.1 q in
      (
        λ (k, k'). let (a, b) = f k' in transport (λ z. P z.0 × Each z.1) e (a, (k, b)),
        λ k.
            let (a, (b, b')) : P p.0 × (P d × Each p.1) =
              transport (λ z. P z.0 × Each z.1) (sym e) k in
            (b, g (a, b')),
      )

take_out-cons :
    (i : ℕ) (c : Constraint) (s : List Constraint)
    → (p : Constraint × List Constraint) × (take_out i (c ∷ s) ≡ some p)
unfolding take_out
take_out-cons zero c s = ((c, s), refl)
take_out-cons (suc i) c [] = ((c, []), refl)
take_out-cons (suc i) c (d ∷ s) = let (p, q) = take_out-cons i d s in ((p.0, c ∷ p.1), rw q refl)

pub take_out-none : (i : ℕ) (s : List Constraint) → take_out i s ≡ none → s ≡ []
take_out-none i [] h = refl
take_out-none i (c ∷ s) h = let (p, q) = take_out-cons i c s in absurd cc

-- The nodes of a constraint, and of a set.
unfoldable pub nodes : Constraint → ℕ
nodes (equal a b) = size a + size b

unfoldable pub total : List Constraint → ℕ
total [] = 0
total (c ∷ s) = nodes c + total s

pub total-insert :
    (c : Constraint) (s : List Constraint) → total (insert_constraint c s) ≤ nodes c + total s
unfolding insert_constraint total
total-insert c s = ground arith

pub total-extend : (s cs : List Constraint) → total (extend_constraints s cs) ≤ total s + total cs
unfolding extend_constraints total
total-extend s [] = omega arith
total-extend s (c ∷ cs) = omega (arith, total-extend (insert_constraint c s) cs, total-insert c s)

pub total-take_out :
    (i : ℕ) (s : List Constraint) (c : Constraint) (r : List Constraint)
    → take_out i s ≡ some (c, r)
    → total s ≡ nodes c + total r
unfolding take_out total
total-take_out i [] c r h = absurd cc
total-take_out zero (d ∷ s) c r h = ap (λ p. nodes p.0 + total p.1) (some-inj h)
total-take_out (suc i) (d ∷ []) c r h = ap (λ p. nodes p.0 + total p.1) (some-inj h)
total-take_out (suc i) (d ∷ d' ∷ s) c r h =
    let (p, q, e) = map_option-eq-some (λ p. (p.0, d ∷ p.1)) (take_out i (d' ∷ s)) h in
    let f = total-take_out i (d' ∷ s) p.0 p.1 q in omega (arith, ap (λ z. nodes z.0 + total z.1) e)

pub nodes-pos : (c : Constraint) → 2 ≤ nodes c
unfolding nodes
nodes-pos (equal a b) = omega (arith, size-pos a, size-pos b)

pub Each-map :
    (P Q : Constraint → Type 0)
    → ((c : Constraint) → P c → Q c)
    → (s : List Constraint) → Each P s
    → Each Q s
Each-map P Q f [] h = tt
Each-map P Q f (c ∷ s) (h, h') = (f c h, Each-map P Q f s h')

-- A member with a property, by what follows from it.
pub any-elim :
    (p : Constraint → Bool) (X : Type 0) (s : List Constraint)
    → Each (λ c. p c ≡ true → X) s
    → any p s ≡ true
    → X
any-elim p X [] h t = absurd cc
any-elim p X (c ∷ s) (h, h') t = elim (Bool-cases (p c)) [
  | inl u ↦ h u
  | inr u ↦ any-elim p X s h' (rw u at t)
]

pub any-Each_self :
    (p : Constraint → Bool) (s : List Constraint) → Each (λ c. p c ≡ true → any p s ≡ true) s
any-Each_self p [] = tt
any-Each_self p (c ∷ s) =
    (λ h. rw h refl, Each-map _ _ (λ d f h. let g = f h in ground arith) s (any-Each_self p s))
