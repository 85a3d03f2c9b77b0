-- ===== src/ZipperVec.antt =====
-- aris/src/zipper_vec.rs: a list with an edit cursor, as two stacks. A `Vec` that the code pushes
-- to and pops from is written here with its last element first, so `get`, which indexes a `Vec`
-- from the front, indexes the reversed list. `none` is a failed assertion or a loop without end.
pub mod Cursor
pub mod Edit
mod Tests
use aris.Base.{
  ℕ, zero, suc, ◌+◌, ◌-◌, Bool, true, false, Option, none, some, List, [], ◌∷◌, ◌++◌, reverse,
  length, get_elem?, ltb, leb, nat_beq, not, if◌then◌else◌, PartialEq, ◌==◌,
}

pub record ZipperVec {ℓ} (T : Type ℓ) : Type ℓ where
  pub prefix : List T
  pub suffix_r : List T

module _ {ℓ} {T : Type ℓ} where
  abbrev pub zipper : List T → List T → ZipperVec T
  zipper p s = record { prefix = p; suffix_r = s }

  unfoldable pub new : ZipperVec T
  new = zipper [] []

  unfoldable pub from_vec : List T → ZipperVec T
  from_vec v = zipper (reverse v) []

  unfoldable pub cursor_pos : ZipperVec T → ℕ
  cursor_pos z = length z.prefix

  unfoldable pub len : ZipperVec T → ℕ
  len z = length z.prefix + length z.suffix_r

  unfoldable pub is_empty : ZipperVec T → Bool
  unfolding len
  is_empty z = nat_beq (len z) 0

  unfoldable pub dec_cursor : ZipperVec T → ZipperVec T
  dec_cursor z = elim z.prefix [ [] ↦ z | x ∷ p ↦ zipper p (x ∷ z.suffix_r) ]

  unfoldable pub inc_cursor : ZipperVec T → ZipperVec T
  inc_cursor z = elim z.suffix_r [ [] ↦ z | x ∷ s ↦ zipper (x ∷ z.prefix) s ]

  -- The two loops of `move_cursor`. Each round moves one element; when the stack that is popped is
  -- empty and the test still holds, a round changes nothing and the loop does not end.
  inc_while : ℕ → List T → List T → Option (ZipperVec T)
  inc_while to p [] = if ltb (length p) to then none else some (zipper p [])
  inc_while to p (x ∷ s) =
      let rest = inc_while to (x ∷ p) s in
      if ltb (length p) to then rest else some (zipper p (x ∷ s))

  dec_while : ℕ → List T → List T → Option (ZipperVec T)
  dec_while to [] s = if ltb to 0 then none else some (zipper [] s)
  dec_while to (x ∷ p) s =
      let rest = dec_while to p (x ∷ s) in
      if ltb to (length (x ∷ p)) then rest else some (zipper (x ∷ p) s)

  unfoldable pub move_cursor : ZipperVec T → ℕ → Option (ZipperVec T)
  unfolding inc_while dec_while len
  move_cursor z to =
      if leb to (len z)
      then elim (inc_while to z.prefix z.suffix_r) [
        | none ↦ none
        | some m ↦ dec_while to m.prefix m.suffix_r
      ]
      else none

  unfoldable pub push : ZipperVec T → T → Option (ZipperVec T)
  unfolding len
  push z x = elim (move_cursor z (len z)) [
    | none ↦ none
    | some m ↦ some (record m { prefix = x ∷ m.prefix })
  ]

  unfoldable pub iter : ZipperVec T → List T
  iter z = reverse z.prefix ++ z.suffix_r

  unfoldable pub get : ZipperVec T → ℕ → Option T
  unfolding cursor_pos
  get z i =
      let j = cursor_pos z in
      let k = length z.suffix_r in
      if ltb i j
      then get_elem? (reverse z.prefix) i
      else if ltb (i - j) k
      then get_elem? (reverse z.suffix_r) (i - j)
      else none

  -- `self.suffix_r.pop()`
  pop_suffix : ZipperVec T → Option T × ZipperVec T
  pop_suffix z = elim z.suffix_r [ [] ↦ (none, z) | x ∷ s ↦ (some x, zipper z.prefix s) ]

  unfoldable pub pop : ZipperVec T → ℕ → Option (Option T × ZipperVec T)
  unfolding len pop_suffix
  pop z i =
      if ltb i (len z)
      then elim (move_cursor z i) [ none ↦ none | some m ↦ some (pop_suffix m) ]
      else some (none, z)

  -- The search loop of `insert_relative`: stop before the first element equal to `rel`.
  module _ ⦃e : PartialEq T⦄ where
    seek : T → List T → List T → ZipperVec T
    seek rel p [] = zipper p []
    seek rel p (x ∷ s) =
        let rest = seek rel (x ∷ p) s in if not (x == rel) then rest else zipper p (x ∷ s)

    place : T → Bool → ZipperVec T → ZipperVec T
    place val true z = let m = inc_cursor z in record m { suffix_r = val ∷ m.suffix_r }
    place val false z = record z { prefix = val ∷ z.prefix }

    unfoldable pub insert_relative : ZipperVec T → T → T → Bool → Option (ZipperVec T)
    unfolding is_empty seek place inc_cursor
    insert_relative z val rel after =
        if is_empty z then some (record z { prefix = val ∷ z.prefix }) else elim (move_cursor z 0) [
          | none ↦ none
          | some m ↦ some (place val after (seek rel m.prefix m.suffix_r))
        ]
