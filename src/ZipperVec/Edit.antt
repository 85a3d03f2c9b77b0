-- ===== src/ZipperVec/Edit.antt =====
-- The edits of aris/src/zipper_vec.rs, against edits of a plain list.
use mathlib.Core.List.{reverse-reverse}
use aris.Base.{
  ℕ, zero, suc, ◌+◌, ◌≤◌, ◌<◌, ◌≡◌, refl, sym, ◌∙◌, ap, Bool-cases, inl, inr, Bool, true, false,
  none, some, List, [], ◌∷◌, ◌++◌, reverse, length, get_elem?, dec_lt, ap₂, nat_beq_pos,
  if◌then◌else◌, length-reverse, append-nil, append_assoc, reverse-cons, arith, PartialEq, ◌==◌,
  ltb-true, ltb-false, get_elem?-append-cons,
}
use aris.ZipperVec.{
  ZipperVec, zipper, from_vec, cursor_pos, len, is_empty, inc_cursor, move_cursor, push, iter,
  pop_suffix, pop, seek, place, insert_relative,
}
use aris.ZipperVec.Cursor.{length-iter, move_cursor_lem}

module _ {ℓ} {T : Type ℓ} where
  pub remove_at : List T → ℕ → List T
  remove_at [] _ = []
  remove_at (_ ∷ xs) zero = xs
  remove_at (x ∷ xs) (suc i) = x ∷ remove_at xs i

  remove_at-append :
      (xs : List T) (x : T) (ys : List T) → remove_at (xs ++ x ∷ ys) (length xs) ≡ xs ++ ys
  unfolding remove_at
  remove_at-append [] x ys = refl
  remove_at-append (y ∷ xs) x ys = ap (y ∷◌) (remove_at-append xs x ys)

  -- `from_vec` holds the elements of its argument in order.
  pub iter-from_vec : (v : List T) → iter (from_vec v) ≡ v
  unfolding iter from_vec
  iter-from_vec v = simp (reverse-reverse, append-nil)

  push-eq :
      (z : ZipperVec T) (x : T) {m : ZipperVec T}
      → move_cursor z (len z) ≡ some m
      → push z x ≡ some (zipper (x ∷ m.prefix) m.suffix_r)
  unfolding push
  push-eq z x e = rw (e, push)

  iter-push_back :
      (x : T) (p s : List T)
      → cursor_pos (zipper p s) ≡ len (zipper p s)
      → iter (zipper (x ∷ p) s) ≡ iter (zipper p s) ++ x ∷ []
  unfolding iter len cursor_pos
  iter-push_back x p [] h = simp (reverse-cons, append-nil)
  iter-push_back x p (y ∷ s) h = absurd (omega arith)

  -- A push never fails and appends at the end, wherever the cursor was.
  pub push_lem :
      (z : ZipperVec T) (x : T)
      → (m : ZipperVec T) × (push z x ≡ some m) × (iter m ≡ iter z ++ x ∷ [])
  push_lem z x =
      let (m, e, c, l) = move_cursor_lem z (len z) (omega arith) in
      let full : cursor_pos m ≡ len m = omega (arith, ap length l, length-iter z, length-iter m) in
      (
        zipper (x ∷ m.prefix) m.suffix_r,
        push-eq z x e,
        iter-push_back x m.prefix m.suffix_r full ∙ ap (◌++ x ∷ []) l,
      )

  removed :
      (p : List T) (x : T) (s : List T)
      → ((pop_suffix (zipper p (x ∷ s))).0 ≡ get_elem? (iter (zipper p (x ∷ s))) (length p))
        × (iter (pop_suffix (zipper p (x ∷ s))).1 ≡ remove_at (iter (zipper p (x ∷ s))) (length p))
  unfolding pop_suffix iter
  removed p x s =
      rw (← length-reverse p)
        (sym (get_elem?-append-cons (reverse p) s x), sym (remove_at-append (reverse p) x s))

  pop_suffix_lem :
      (m : ZipperVec T)
      → cursor_pos m < len m
      → ((pop_suffix m).0 ≡ get_elem? (iter m) (cursor_pos m))
        × (iter (pop_suffix m).1 ≡ remove_at (iter m) (cursor_pos m))
  unfolding cursor_pos len
  pop_suffix_lem m = on_stacks m.prefix m.suffix_r
    where
      on_stacks :
          (p s : List T)
          → length p < length p + length s
          → ((pop_suffix (zipper p s)).0 ≡ get_elem? (iter (zipper p s)) (length p))
            × (iter (pop_suffix (zipper p s)).1 ≡ remove_at (iter (zipper p s)) (length p))
      on_stacks p [] h = absurd (omega arith)
      on_stacks p (x ∷ s) h = removed p x s

  pop-eq :
      (z : ZipperVec T) (i : ℕ) {m : ZipperVec T}
      → i < len z
      → move_cursor z i ≡ some m
      → pop z i ≡ some (pop_suffix m)
  unfolding pop
  pop-eq z i h e = rw (ltb-true i _ h, e, pop)

  past_end : (xs : List T) (i : ℕ) → length xs ≤ i → (get_elem? xs i ≡ none) × (remove_at xs i ≡ xs)
  unfolding remove_at
  past_end [] i h = (refl, refl)
  past_end (x ∷ xs) zero h = absurd (omega arith)
  past_end (x ∷ xs) (suc i) h = let (p, q) = past_end xs i (omega arith) in (p, ap (x ∷◌) q)

  pop_past : (z : ZipperVec T) (i : ℕ) → len z ≤ i → pop z i ≡ some (none, z)
  unfolding pop
  pop_past z i h = rw (ltb-false i _ h)

  pop_within :
      (z : ZipperVec T) (i : ℕ)
      → i < len z
      → (m : ZipperVec T) × (pop z i ≡ some (get_elem? (iter z) i, m))
        × (iter m ≡ remove_at (iter z) i)
  pop_within z i h =
      let (m, e, c, l) = move_cursor_lem z i (omega arith) in
      let (head, rest) =
        pop_suffix_lem m (omega (arith, ap length l, length-iter z, length-iter m)) in
      let at : cursor_pos m ≡ i = c in
      (
        (pop_suffix m).1,
        pop-eq z i h e ∙ ap (λ o. some (o, (pop_suffix m).1)) (head ∙ ap₂ get_elem? l c),
        rest ∙ ap₂ remove_at l c,
      )

  -- `pop i` never fails: it returns the element at `i` and removes just that one, and past the end
  -- it returns nothing and changes nothing.
  pub pop_lem :
      (z : ZipperVec T) (i : ℕ)
      → (m : ZipperVec T) × (pop z i ≡ some (get_elem? (iter z) i, m))
        × (iter m ≡ remove_at (iter z) i)
  pop_lem z i = elim (dec_lt i (len z)) [
    | yes h ↦ pop_within z i h
    | no h ↦
        let (p, q) = past_end (iter z) i (omega (arith, length-iter z)) in
        (z, rw p (pop_past z i (omega arith)), sym q)
  ]

  module _ ⦃e : PartialEq T⦄ where
    -- `val` beside the first element equal to `rel`, and at the end if there is none.
    pub insert_beside : T → T → Bool → List T → List T
    insert_beside val rel after [] = val ∷ []
    insert_beside val rel after (x ∷ xs) =
        if x == rel
        then (if after then x ∷ val ∷ xs else val ∷ x ∷ xs)
        else x ∷ insert_beside val rel after xs

    iter-place-nil :
        (val : T) (after : Bool) (p : List T)
        → iter (place val after (zipper p [])) ≡ reverse p ++ val ∷ []
    unfolding iter place inc_cursor
    iter-place-nil val true p = refl
    iter-place-nil val false p = simp (reverse-cons, append-nil)

    iter-place-cons :
        (val : T) (after : Bool) (p : List T) (x : T) (s : List T)
        → iter (place val after (zipper p (x ∷ s)))
          ≡ reverse p ++ (if after then x ∷ val ∷ s else val ∷ x ∷ s)
    unfolding iter place inc_cursor
    iter-place-cons val true p x s = simp (reverse-cons, append_assoc)
    iter-place-cons val false p x s = simp (reverse-cons, append_assoc)

    iter-place-seek :
        (val rel : T) (after : Bool) (p s : List T)
        → iter (place val after (seek rel p s)) ≡ reverse p ++ insert_beside val rel after s
    unfolding seek insert_beside
    iter-place-seek val rel after p [] = iter-place-nil val after p
    iter-place-seek val rel after p (x ∷ s) = elim (Bool-cases (x == rel)) [
      | inl t ↦ rw t (iter-place-cons val after p x s)
      | inr f ↦ rw f (iter-place-seek val rel after (x ∷ p) s ∙ simp (reverse-cons, append_assoc))
    ]

    insert_relative-empty :
        (val rel : T) (after : Bool) (p s : List T)
        → length p + length s ≡ 0
        → (insert_relative (zipper p s) val rel after ≡ some (zipper (val ∷ p) s))
          × (iter (zipper (val ∷ p) s) ≡ insert_beside val rel after (iter (zipper p s)))
    unfolding insert_relative iter insert_beside
    insert_relative-empty val rel after [] [] h = (refl, refl)
    insert_relative-empty val rel after [] (x ∷ s) h = absurd (omega arith)
    insert_relative-empty val rel after (x ∷ p) s h = absurd (omega arith)

    insert_relative-eq :
        (z : ZipperVec T) (val rel : T) (after : Bool) {m : ZipperVec T}
        → 0 < len z
        → move_cursor z 0 ≡ some m
        → insert_relative z val rel after ≡ some (place val after (seek rel m.prefix m.suffix_r))
    unfolding insert_relative is_empty
    insert_relative-eq z val rel after h e = rw (nat_beq_pos _ h, e, insert_relative)

    at_start : (p s : List T) → length p ≡ 0 → (reverse p ≡ []) × (iter (zipper p s) ≡ s)
    unfolding iter
    at_start [] s h = (refl, refl)
    at_start (x ∷ p) s h = absurd (omega arith)

    -- `insert_relative` never fails, and refines insertion beside `rel` in the list of elements.
    pub insert_relative_lem :
        (z : ZipperVec T) (val rel : T) (after : Bool)
        → (m : ZipperVec T) × (insert_relative z val rel after ≡ some m)
          × (iter m ≡ insert_beside val rel after (iter z))
    unfolding len cursor_pos
    insert_relative_lem z val rel after = elim (dec_lt 0 (len z)) [
      | yes h ↦
          let (m, e, c, l) = move_cursor_lem z 0 (omega arith) in
          let (p, q) = at_start m.prefix m.suffix_r c in
          (
            place val after (seek rel m.prefix m.suffix_r),
            insert_relative-eq z val rel after h e,
            iter-place-seek val rel after m.prefix m.suffix_r
                ∙ ap₂ (λ a b. a ++ insert_beside val rel after b) p (sym q ∙ l),
          )
      | no h ↦
          let (a, b) = insert_relative-empty val rel after z.prefix z.suffix_r (omega arith) in
          (zipper (val ∷ z.prefix) z.suffix_r, a, b)
    ]
