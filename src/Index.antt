-- ===== src/Index.antt =====
-- src/libmowgli/container/index.c: a growing array of pointers.
-- An `int` is a natural number here: the callers pass no negative count or position.
mod Tests
pub mod Grow
pub mod Room
pub mod Edit
use libmowgli.Base.{
  ℕ, zero, suc, ◌+◌, ◌-◌, ◌*◌, ◌/◌, ◌^◌, List, [], ◌∷◌, Option, none, some, Bool, leb, ltb, ◌==◌,
  if◌then◌else◌, replicate, get_elem?, take, drop, ◌++◌,
}
use libmowgli.Memory.{◌>>=◌, read_range, write_range, move_range}

-- A stored pointer; NULL is 0.
abbrev pub Ptr : Type 0
Ptr = ℕ

-- `mowgli_index_t`. The two fields of the comparator are for code that is compiled out.
pub record Index : Type 0 where
  pub cells : Option (List Ptr)
  pub count : ℕ
  pub size : ℕ

unfoldable pub create : Index
create = record { cells = none; count = 0; size = 0 }

-- `while (size > index->size) index->size <<= 1;`: a shift past 2 ^ 31 is undefined.
pub double_until : ℕ → ℕ → ℕ → Option ℕ
double_until zero size cur = none
double_until (suc fuel) size cur =
    let rest = double_until fuel size (cur * 2) in
    if leb size cur then some cur else if leb (2 ^ 30) cur then none else rest

-- `memcpy (new_ptr, index->data, oldsize)`: `oldsize` counts bytes, and a pointer has eight. The
-- sizes are 64 times a power of 2, so that whole pointers are copied.
copy_old : List Ptr → Option (List Ptr) → ℕ → Option (List Ptr)
copy_old new none oldsize = some new
copy_old new (some old) oldsize = do moved ← read_range old 0 (oldsize / 8); write_range new 0 moved

unfoldable pub allocate : Index → ℕ → Option Index
unfolding double_until copy_old read_range write_range
allocate i size = if leb size i.size then some i else (do
  let oldsize = if i.size == 0 then 64 else i.size
  size' ← double_until 32 size oldsize
  cells ← copy_old (replicate size' 0) i.cells oldsize
  some (record i { cells = some cells; size = size' }))

unfoldable pub set : Index → ℕ → Ptr → Option Index
unfolding write_range
set i at value = do
  cells ← i.cells
  cells' ← write_range cells at (value ∷ [])
  some (record i { cells = some cells' })

unfoldable pub get : Index → ℕ → Option Ptr
get i at = i.cells >>= λ cells. get_elem? cells at

-- The move of `make_room`, made only if there is something behind `at`.
shift : Index → ℕ → ℕ → Option (Option (List Ptr))
unfolding move_range
shift i at n =
    if ltb at i.count
    then (do
      cells ← i.cells
      cells' ← move_range cells (at + n) at (i.count - at)
      some (some cells'))
    else some i.cells

unfoldable pub make_room : Index → ℕ → ℕ → Option Index
unfolding allocate shift
make_room i at n = do
  j ← allocate i (i.count + n)
  cells ← shift j at n
  some (record j { cells = cells; count = j.count + n })

unfoldable pub insert : Index → ℕ → Ptr → Option Index
unfolding make_room set
insert i at value = make_room i at 1 >>= λ j. set j at value

unfoldable pub append : Index → Ptr → Option Index
unfolding insert
append i value = insert i i.count value

-- `memcpy (target->data + to, source->data + from, sizeof(void *) * count)`, two arrays
unfoldable pub copy_set : Index → ℕ → Index → ℕ → ℕ → Option Index
unfolding read_range write_range
copy_set source from target to n = do
  old ← source.cells
  moved ← read_range old from n
  cells ← target.cells
  cells' ← write_range cells to moved
  some (record target { cells = some cells' })

unfoldable pub copy_insert : Index → ℕ → Index → ℕ → ℕ → Option Index
unfolding make_room copy_set
copy_insert source from target to n =
    make_room target to n >>= λ room. copy_set source from room to n

unfoldable pub copy_append : Index → ℕ → Index → ℕ → Option Index
unfolding copy_insert
copy_append source from target n = copy_insert source from target target.count n

unfoldable pub merge_insert : Index → ℕ → Index → Option Index
unfolding copy_insert
merge_insert first at second = copy_insert second 0 first at second.count

unfoldable pub merge_append : Index → Index → Option Index
unfolding copy_insert
merge_append first second = copy_insert second 0 first first.count second.count

unfoldable pub move : Index → ℕ → ℕ → ℕ → Option Index
unfolding move_range
move i from to n = do
  cells ← i.cells
  cells' ← move_range cells to from n
  some (record i { cells = some cells' })

-- `count -= n`, then a move of `count - at` pointers: a negative number of them is undefined.
unfoldable pub delete : Index → ℕ → ℕ → Option Index
unfolding move_range
delete i at n = if ltb i.count (at + n) then none else (do
  cells ← i.cells
  cells' ← move_range cells at (at + n) (i.count - n - at)
  some (record i { cells = some cells'; count = i.count - n }))

-- `qsort` is the C library's.
module _ (qsort : List Ptr → List Ptr) where
  unfoldable pub sort : Index → Option Index
  unfolding read_range write_range
  sort i = do
    cells ← i.cells
    sorted ← read_range cells 0 i.count
    cells' ← write_range cells 0 (qsort sorted)
    some (record i { cells = some cells' })
