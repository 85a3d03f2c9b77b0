-- ===== src/Pool/Sees.antt =====
-- The lines that a line of a proof of aris/src/proofs.rs may refer to, as a relation, and
-- `possible_deps_for_line`.
use aris.Base.{
  ℕ, zero, suc, Bool, true, false, ◌||◌, Option, none, some, List, [], ◌∷◌, ◌≡◌, ◌⊎◌, ◌↔◌, refl, ap,
  ◌∙◌, sym, Bool-cases, inl, inr, if◌then◌else◌, ◌==◌, any, some-inj, or_assoc,
}
use aris.Pool.{PjsRef, pjs_eq, pjs_beq, pj_to_pjs, PooledSubproof, PooledProof, parent_of}
use aris.Pool.Scope.{refs, Deps, note, walk, noted, named, aux_at, aux}

-- What stands before `r` in a list of lines; all of the list, if `r` does not.
abbrev pub before : PjsRef → List PjsRef → List PjsRef
before r [] = []
before r (line ∷ lines) = let rest = before r lines in if line == r then [] else line ∷ rest

abbrev pub among : PjsRef → List PjsRef → Bool
among x lines = any (λ y. y == x) lines

noted-note : (x y : PjsRef) (acc : Deps) → noted x (note y acc) ≡ ((y == x) || noted x acc)
unfolding noted note pjs_beq pj_to_pjs
noted-note (PjsRef.prem k) (PjsRef.prem m) acc = refl
noted-note (PjsRef.prem k) (PjsRef.just m) acc = refl
noted-note (PjsRef.prem k) (PjsRef.sub m) acc = refl
noted-note (PjsRef.just k) (PjsRef.prem m) acc = refl
noted-note (PjsRef.just k) (PjsRef.just m) acc = refl
noted-note (PjsRef.just k) (PjsRef.sub m) acc = refl
noted-note (PjsRef.sub k) (PjsRef.prem m) acc = refl
noted-note (PjsRef.sub k) (PjsRef.just m) acc = refl
noted-note (PjsRef.sub k) (PjsRef.sub m) acc = refl

or_swap_left : (a b c : Bool) → (a || (b || c)) ≡ (b || (a || c))
or_swap_left true true c = refl
or_swap_left true false c = refl
or_swap_left false b c = refl

noted-walk :
    (x r : PjsRef) (lines : List PjsRef) (acc : Deps)
    → noted x (walk r lines acc) ≡ (among x (before r lines) || noted x acc)
unfolding walk
noted-walk x r [] acc = refl
noted-walk x r (line ∷ lines) acc = elim (Bool-cases (line == r)) [
  | inl t ↦ rw t
  | inr f ↦ rw f (
      noted-walk x r lines (note line acc)
      ∙ ap (among x (before r lines) ||◌) (noted-note x line acc)
      ∙ or_swap_left (among x (before r lines)) (line == x) (noted x acc)
      ∙ sym (or_assoc (line == x) (among x (before r lines)) (noted x acc)))
]

module _ {E R : Type 0} (p : PooledProof E R) where
  -- `r`, held by the subproof that the second argument names (the root, where that names none), may
  -- refer to a line that stands before it there, or to what the subproof itself may refer to.
  pub data Sees : Option (ℕ × PooledSubproof) → PjsRef → PjsRef → Type 0 where
    at_root : {r x : PjsRef} → among x (before r (refs p.proof)) ≡ true → Sees none r x
    beside :
        {s : ℕ} {sub : PooledSubproof} {r x : PjsRef}
        → among x (before r (refs sub)) ≡ true
        → Sees (some (s, sub)) r x
    outside :
        {s : ℕ} {sub : PooledSubproof} {r x : PjsRef}
        → Sees (named p (parent_of p.pools (PjsRef.sub s))) (PjsRef.sub s) x
        → Sees (some (s, sub)) r x

pub nothing-noted : (x : PjsRef) → noted x ([], []) ≡ false
unfolding noted
nothing-noted (PjsRef.prem k) = refl
nothing-noted (PjsRef.just k) = refl
nothing-noted (PjsRef.sub k) = refl

or_cases : (a b : Bool) → (a || b) ≡ true → (a ≡ true) ⊎ (b ≡ true)
or_cases true b h = inl refl
or_cases false b h = inr h

or_left : (a b : Bool) → a ≡ true → (a || b) ≡ true
or_left a b h = rw h

or_right : (a b : Bool) → b ≡ true → (a || b) ≡ true
or_right true b h = refl
or_right false b h = h

module _ {E R : Type 0} (p : PooledProof E R) (x : PjsRef) where
  -- What is noted at the end is what was noted before, or is seen.
  abbrev pub Notes : Deps → Deps → Option (ℕ × PooledSubproof) → PjsRef → Type 0
  Notes acc a o r = (noted x a ≡ true) ↔ ((noted x acc ≡ true) ⊎ Sees p o r x)

  aux_at-Notes :
      (up : ℕ → Deps → Option Deps) (o : Option (ℕ × PooledSubproof)) (r : PjsRef) (acc a : Deps)
      → ((s : ℕ) (acc a : Deps)
          → up s acc ≡ some a
          → Notes acc a (named p (parent_of p.pools (PjsRef.sub s))) (PjsRef.sub s))
      → aux_at p up r acc o ≡ some a
      → Notes acc a o r
  unfolding aux_at
  aux_at-Notes up none r acc a k h =
      let same = ap (noted x) (sym (some-inj h)) ∙ noted-walk x r (refs p.proof) acc in
      (
        λ t. elim (or_cases (among x (before r (refs p.proof))) (noted x acc) (sym same ∙ t)) [
          | inl m ↦ inr (Sees.at_root m)
          | inr m ↦ inl m
        ],
        λ t. same ∙ back t,
      )
    where
      back :
          (noted x acc ≡ true) ⊎ Sees p none r x
          → (among x (before r (refs p.proof)) || noted x acc) ≡ true
      back (inl m) = or_right (among x (before r (refs p.proof))) (noted x acc) m
      back (inr (Sees.at_root m)) = or_left (among x (before r (refs p.proof))) (noted x acc) m
  aux_at-Notes up (some (s, sub)) r acc a k h =
      let (to, from) = k s (walk r (refs sub) acc) a h in (λ t. forth (to t), λ t. from (back t))
    where
      here : noted x (walk r (refs sub) acc) ≡ (among x (before r (refs sub)) || noted x acc)
      here = noted-walk x r (refs sub) acc

      forth :
          (noted x (walk r (refs sub) acc) ≡ true)
            ⊎ Sees p (named p (parent_of p.pools (PjsRef.sub s))) (PjsRef.sub s) x
          → (noted x acc ≡ true) ⊎ Sees p (some (s, sub)) r x
      forth (inl m) = elim (or_cases (among x (before r (refs sub))) (noted x acc) (sym here ∙ m)) [
        | inl m ↦ inr (Sees.beside m)
        | inr m ↦ inl m
      ]
      forth (inr v) = inr (Sees.outside v)

      back :
          (noted x acc ≡ true) ⊎ Sees p (some (s, sub)) r x
          → (noted x (walk r (refs sub) acc) ≡ true)
            ⊎ Sees p (named p (parent_of p.pools (PjsRef.sub s))) (PjsRef.sub s) x
      back (inl m) = inl (here ∙ or_right (among x (before r (refs sub))) (noted x acc) m)
      back (inr (Sees.beside m)) =
          inl (here ∙ or_left (among x (before r (refs sub))) (noted x acc) m)
      back (inr (Sees.outside v)) = inr v

  pub aux-Notes :
      (n : ℕ) (sr : Option ℕ) (r : PjsRef) (acc a : Deps)
      → aux n p sr r acc ≡ some a
      → Notes acc a (named p sr) r
  unfolding aux
  aux-Notes zero sr r acc a h = absurd cc
  aux-Notes (suc n) sr r acc a h =
      aux_at-Notes (λ s acc. aux n p (parent_of p.pools (PjsRef.sub s)) (PjsRef.sub s) acc)
        (named p sr) r acc a
        (λ s acc a h. aux-Notes n (parent_of p.pools (PjsRef.sub s)) (PjsRef.sub s) acc a h) h
