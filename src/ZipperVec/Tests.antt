-- ===== src/ZipperVec/Tests.antt =====
-- Runs of aris/src/zipper_vec.rs.
use aris.Base.{
  nat_eq, ltb, if◌then◌else◌, ℕ, ◌-◌, ◌≡◌, refl, arith, true, some, none, [], ◌∷◌, get_elem?,
}
use aris.ZipperVec.{ZipperVec, zipper, cursor_pos, len, move_cursor, iter, get, insert_relative}
use aris.ZipperVec.Cursor.{move_cursor_lem, get_lem}
use aris.ZipperVec.Edit.{insert_relative_lem, insert_beside}

-- [10, 20 | 30, 40, 50]
abbrev sample : ZipperVec ℕ
sample = zipper (20 ∷ 10 ∷ []) (30 ∷ 40 ∷ 50 ∷ [])

iter-sample : iter sample ≡ 10 ∷ 20 ∷ 30 ∷ 40 ∷ 50 ∷ []
unfolding iter
iter-sample = refl

get-sample : get sample 2 ≡ some 50
unfolding get
get-sample = refl

insert_relative-sample :
    insert_relative sample 25 20 true ≡ some (zipper (20 ∷ 10 ∷ []) (25 ∷ 30 ∷ 40 ∷ 50 ∷ []))
unfolding insert_relative move_cursor
insert_relative-sample = refl

move_cursor_example :
    (m : ZipperVec ℕ) × (move_cursor sample 4 ≡ some m)
    × (cursor_pos m ≡ 4)
    × (iter m ≡ iter sample)
unfolding len
move_cursor_example = move_cursor_lem sample 4 (omega arith)

get_example : get sample 2 ≡ (
    if ltb 2 (cursor_pos sample)
    then get_elem? (iter sample) 2
    else if ltb 2 (len sample)
    then get_elem? (iter sample) (len sample - 1 - (2 - cursor_pos sample))
    else none)
get_example = get_lem sample 2

insert_relative_example :
    (m : ZipperVec ℕ) × (insert_relative sample 25 20 true ≡ some m)
    × (iter m ≡ insert_beside 25 20 true (iter sample))
insert_relative_example = insert_relative_lem sample 25 20 true
