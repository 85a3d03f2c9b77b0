-- ===== src/ZipperVec/Cursor.antt =====
-- Moving the cursor of aris/src/zipper_vec.rs, and reading a vector through it.
use aris.Base.{
  ℕ, ◌+◌, ◌-◌, ◌≤◌, ◌<◌, ◌≡◌, refl, sym, ◌∙◌, Bool-cases, inl, inr, Option, none, some, List, [],
  ◌∷◌, reverse, length, get_elem?, ltb, ltb-true, ltb-false, ltb-lt, ltb-le, if◌then◌else◌,
  length-append, length-reverse, get_elem?-append_left, get_elem?-append_right, get_elem?-reverse,
  append_assoc, reverse-cons, arith,
}
use aris.ZipperVec.{
  ZipperVec, zipper, cursor_pos, len, inc_while, dec_while, move_cursor, iter, get,
}

module _ {ℓ} {T : Type ℓ} where
  -- An element may cross the cursor.
  pub iter-cons : (x : T) (p s : List T) → iter (zipper (x ∷ p) s) ≡ iter (zipper p (x ∷ s))
  unfolding iter
  iter-cons x p s = simp (reverse-cons, append_assoc)

  pub length-iter : (z : ZipperVec T) → length (iter z) ≡ len z
  unfolding iter len
  length-iter z = simp (length-append, length-reverse)

  -- A result of a loop over the stacks `p` and `s`: the same elements in the same order.
  abbrev Moved : Option (ZipperVec T) → ZipperVec T → (ℕ → Type 0) → Type ℓ
  Moved r z P = (m : ZipperVec T) × (r ≡ some m) × (iter m ≡ iter z) × P (cursor_pos m)

  inc_while-Moved :
      (to : ℕ) (p s : List T)
      → to ≤ length p + length s
      → Moved (inc_while to p s) (zipper p s) (λ c. to ≤ c)
  unfolding inc_while cursor_pos
  inc_while-Moved to p [] h = (zipper p [], ground arith, refl, omega arith)
  inc_while-Moved to p (x ∷ s) h = elim (Bool-cases (ltb (length p) to)) [
    | inl t ↦
        let (m, e, l, c) = inc_while-Moved to (x ∷ p) s (omega arith) in
        (m, rw t e, l ∙ iter-cons x p s, c)
    | inr f ↦ (zipper p (x ∷ s), rw f, refl, ground arith)
  ]

  dec_while-Moved :
      (to : ℕ) (p s : List T) → to ≤ length p → Moved (dec_while to p s) (zipper p s) (λ c. c ≡ to)
  unfolding dec_while cursor_pos
  dec_while-Moved to [] s h = (zipper [] s, ground arith, refl, omega arith)
  dec_while-Moved to (x ∷ p) s h = elim (Bool-cases (ltb to (length (x ∷ p)))) [
    | inl t ↦
        let (m, e, l, c) = dec_while-Moved to p (x ∷ s) (ground arith) in
        (m, rw t e, l ∙ sym (iter-cons x p s), c)
    | inr f ↦ (zipper (x ∷ p) s, rw f, refl, ground arith)
  ]

  -- Within the vector `move_cursor` returns (neither the assertion fails nor a loop runs on), with
  -- the cursor where it was asked to be, and the elements unchanged.
  pub move_cursor_lem :
      (z : ZipperVec T) (to : ℕ)
      → to ≤ len z
      → (m : ZipperVec T) × (move_cursor z to ≡ some m) × (cursor_pos m ≡ to) × (iter m ≡ iter z)
  unfolding move_cursor len cursor_pos
  move_cursor_lem z to h =
      let (m, e, l, c) = inc_while-Moved to z.prefix z.suffix_r h in
      let (n, e', l', c') = dec_while-Moved to m.prefix m.suffix_r c in
      (n, ground (arith), c', l' ∙ l)

  -- Beyond the end the assertion fails.
  pub move_cursor-none : (z : ZipperVec T) (to : ℕ) → len z < to → move_cursor z to ≡ none
  unfolding move_cursor
  move_cursor-none z to h = ground arith

  -- The three cases of `get`.
  get_cases :
      (z : ZipperVec T) (i : ℕ)
      → (i < cursor_pos z → get z i ≡ get_elem? (iter z) i)
        × (cursor_pos z ≤ i
            → i < len z
            → get z i ≡ get_elem? (iter z) (len z - 1 - (i - cursor_pos z)))
        × (len z ≤ i → get z i ≡ none)
  unfolding get iter cursor_pos len
  get_cases z i = (
    λ h.
        rw (ltb-true i _ h)
          (sym (get_elem?-append_left (reverse p) s i (omega (arith, length-reverse p)))),
    λ h k.
        let inner : i - length p < length s = omega arith in
        let e : length p + length s - 1 - (i - length p)
            ≡ length (reverse p) + (length s - 1 - (i - length p)) =
          omega (arith, length-reverse p) in
        rw (ltb-false i _ h, ltb-true _ _ inner, e, get_elem?-append_right (reverse p) s)
          (get_elem?-reverse s (i - length p) inner),
    λ h.
        rw
          (ltb-false i (length p) (omega arith), ltb-false (i - length p) (length s) (omega arith)),
  )
    where
      open z use {prefix as p, suffix_r as s}

  -- `get` reads what `iter` yields only before the cursor. From the cursor on it reads the rest
  -- of the vector back to front, and past the end it gives nothing.
  pub get_lem :
      (z : ZipperVec T) (i : ℕ)
      → get z i ≡ (
          if ltb i (cursor_pos z)
          then get_elem? (iter z) i
          else if ltb i (len z)
          then get_elem? (iter z) (len z - 1 - (i - cursor_pos z))
          else none)
  get_lem z i =
      let (front, back, past) = get_cases z i in
      elim (Bool-cases (ltb i (cursor_pos z))) [
        | inl t ↦ rw t (front (ltb-lt i (cursor_pos z) t))
        | inr f ↦ elim (Bool-cases (ltb i (len z))) [
          | inl t ↦ rw (f, t) (back (ltb-le i (cursor_pos z) f) (ltb-lt i (len z) t))
          | inr g ↦ rw (f, g) (past (ltb-le i (len z) g))
        ]
      ]
