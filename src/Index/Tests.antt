-- ===== src/Index/Tests.antt =====
-- The index at concrete inputs.
use libmowgli.Base.{◌≡◌, refl, [], ◌∷◌, some, arith}
use libmowgli.Index.{Index, insert, append}
use libmowgli.Index.Grow.{contents, IsValid}
use libmowgli.Index.Edit.{insert_room, append_full}

-- Three pointers in a block of five cells.
abbrev three : Index
three = record { cells = some (7 ∷ 8 ∷ 9 ∷ 0 ∷ 0 ∷ []); count = 3; size = 5 }

three-IsValid : IsValid three
three-IsValid = (refl, omega arith, omega arith)

-- A full block of eight cells.
abbrev full : Index
full = record { cells = some (1 ∷ 2 ∷ 3 ∷ 4 ∷ 5 ∷ 6 ∷ 7 ∷ 8 ∷ []); count = 8; size = 8 }

full-IsValid : IsValid full
full-IsValid = (refl, omega arith, omega arith)

abbrev two : Index
two = record { cells = some (4 ∷ 5 ∷ 0 ∷ []); count = 2; size = 3 }

insert_room_example :
    (j : Index) × (insert three 1 6 ≡ some j)
    × (contents j ≡ 7 ∷ 6 ∷ 8 ∷ 9 ∷ [])
    × (j.count ≡ 4)
    × IsValid j
insert_room_example = insert_room three 1 6 three-IsValid (omega arith) (omega arith) (omega arith)

append_full_example :
    (j : Index) × (append full 9 ≡ some j)
    × (contents j ≡ 1 ∷ 0 ∷ 0 ∷ 0 ∷ 0 ∷ 0 ∷ 0 ∷ 0 ∷ 9 ∷ [])
    × IsValid j
append_full_example = append_full full 9 full-IsValid refl (omega arith)
