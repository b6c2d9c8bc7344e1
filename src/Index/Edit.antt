-- ===== src/Index/Edit.antt =====
-- What the editing operations of an index do to the pointers held.
use libmowgli.Base.{
  ℕ, ◌+◌, ◌-◌, ◌/◌, ◌^◌, ◌≤◌, ◌<◌, ◌≡◌, refl, ap, subst, ◌∙◌, sym, List, [], ◌∷◌, Option, none,
  some, leb, ltb, replicate, take, drop, ◌++◌, arith, length, true, false, length-take, length-drop,
  length-append, length-replicate, take-take, drop-take, le→leb,
}
use mathlib.Core.Path.{fun_ext}
use libmowgli.Memory.{◌>>=◌, splice, length-splice, take-splice, read_range-some, move_range-some}
use libmowgli.Index.{
  Ptr, Index, make_room, set, insert, append, copy_set, copy_insert, merge_append, delete,
}
use libmowgli.Index.Grow.{
  count-le-size, length-contents, index, contents, contents_of, IsValid, survivors,
}
use libmowgli.Index.Room.{put_in_end, put_in_removed, put_range, put_in, PutIn, make_room-put_range}

-- What `insert` does to a well-formed index, up to 2 ^ 30 pointers: the value stands at `at`, and
-- the pointers that the reallocation (if one is made) leaves stand around it in order.
pub insert_lem :
    (i : Index) (at : ℕ) (value : Ptr)
    → IsValid i
    → at ≤ i.count
    → i.count + 1 ≤ 2 ^ 30
    → PutIn i at (value ∷ []) (insert i at value)
unfolding insert set put_range
insert_lem i at value v within s =
    make_room-put_range i at (value ∷ []) v within (omega arith) (omega arith)

copy_set-put_range :
    (source room : Index) (old : List Ptr) (from to n : ℕ)
    → source.cells ≡ some old
    → from + n ≤ length old
    → copy_set source from room to n ≡ put_range room to (take n (drop from old))
unfolding copy_set put_range
copy_set-put_range source room old from to n e h = rw (e, read_range-some old from n h) refl

pub copy_insert_lem :
    (source target : Index) (old : List Ptr) (from to n : ℕ)
    → IsValid target
    → source.cells ≡ some old
    → from + n ≤ length old
    → to ≤ target.count
    → 0 < n
    → target.count + n ≤ 2 ^ 30
    → PutIn target to (take n (drop from old)) (copy_insert source from target to n)
unfolding copy_insert
copy_insert_lem source target old from to n v e h within p s =
    let xs = take n (drop from old) in
    let k : length xs ≡ n = omega (arith, length-take n (drop from old), length-drop from old) in
    let same =
      ap (λ f. make_room target to n >>= f)
        (fun_ext (λ room. copy_set-put_range source room old from to n e h))
      ∙ ap (λ m. make_room target to m >>= λ j. put_range j to xs) (sym k) in
    subst (PutIn target to xs) (sym same)
      (make_room-put_range target to xs v within (omega arith) (omega arith))

-- `insert` into a well-formed index with a free cell, and no more than 2 ^ 30 cells, keeps every
-- pointer: the value stands at the position, and what stood there and behind it moves up by one.
-- The index stays well-formed.
pub insert_room :
    (i : Index) (at : ℕ) (value : Ptr)
    → IsValid i
    → at ≤ i.count
    → i.count < i.size
    → i.size ≤ 2 ^ 30
    → (j : Index) × (insert i at value ≡ some j)
      × (contents j ≡ put_in (contents i) at (value ∷ []))
      × (j.count ≡ i.count + 1)
      × IsValid j
insert_room i at value v within room s =
    let p = insert_lem i at value v within (omega arith) in
    let fits = le→leb (i.count + 1) i.size (omega arith) in
    (p.after, p.runs, p.held ∙ rw fits refl, p.counted, p.valid)

-- `append` to a full well-formed index of fewer than 2 ^ 30 cells reallocates it, and the copy is
-- eight times too short: afterwards the first eighth of the pointers is there, all others are
-- NULL, and the new pointer is the last.
pub append_full :
    (i : Index) (value : Ptr)
    → IsValid i
    → i.count ≡ i.size
    → i.size < 2 ^ 30
    → (j : Index) × (append i value ≡ some j)
      × (contents j
          ≡ (take (i.size / 8) (contents i) ++ replicate (i.size - i.size / 8) 0) ++ (value ∷ []))
      × IsValid j
unfolding append
append_full i value v full s =
    let p = insert_lem i i.count value v (omega arith) (omega arith) in
    let grows : leb (i.count + 1) i.size ≡ false = ground arith in
    let lost = take (i.size / 8) (contents i) ++ replicate (i.size - i.size / 8) 0 in
    let left : survivors i (i.count + 1) ≡ lost =
      rw grows (ap (λ k. take (i.size / 8) (contents i) ++ replicate (k - i.size / 8) 0) full) in
    let n : i.count ≡ length lost = omega (
      arith,
      length-append (take (i.size / 8) (contents i)) (replicate (i.size - i.size / 8) 0),
      length-take (i.size / 8) (contents i),
      length-replicate {A = ℕ} (i.size - i.size / 8) 0,
      length-contents i v,
    ) in
    (
      p.after,
      p.runs,
      p.held
          ∙ ap (λ z. put_in z i.count (value ∷ [])) left
          ∙ put_in_end lost (value ∷ []) i.count n,
      p.valid,
    )

-- `merge_append` into a well-formed index with enough free cells, and no more than 2 ^ 30, of an
-- index that is not empty puts the pointers of the second index behind those of the first. The
-- first stays well-formed.
pub merge_append-append :
    (first second : Index) (old : List Ptr)
    → IsValid first
    → second.cells ≡ some old
    → second.count ≤ length old
    → 0 < second.count
    → first.count + second.count ≤ first.size
    → first.size ≤ 2 ^ 30
    → (j : Index) × (merge_append first second ≡ some j)
      × (contents j ≡ contents first ++ contents second)
      × (j.count ≡ first.count + second.count)
      × IsValid j
unfolding merge_append
merge_append-append first second old v e h p room s =
    let q =
      copy_insert_lem second first old 0 first.count second.count v e (omega arith) (omega arith) p
        (omega arith) in
    let n : length (take second.count old) ≡ second.count =
      omega (arith, length-take second.count old) in
    let fits : leb (first.count + length (take second.count old)) first.size ≡ true =
      le→leb _ first.size (omega arith) in
    let held : contents second ≡ take second.count old = ap (λ c. contents_of c second.count) e in
    (
      q.after,
      q.runs,
      q.held
          ∙ ap (λ z. put_in z first.count (take second.count old)) (rw fits refl)
          ∙ put_in_end (contents first) (take second.count old) first.count
              (sym (length-contents first v))
          ∙ ap (λ z. contents first ++ z) (sym held),
      q.counted ∙ omega arith,
      q.valid,
    )

-- `delete` of n pointers that a well-formed index holds from a position on keeps those before and
-- behind them, in order, and the index stays well-formed.
pub delete_lem :
    (i : Index) (at n : ℕ)
    → IsValid i
    → 0 < i.size
    → at + n ≤ i.count
    → (j : Index) × (delete i at n ≡ some j)
      × (contents j ≡ take at (contents i) ++ drop (at + n) (contents i))
      × (j.count ≡ i.count - n)
      × IsValid j
unfolding delete
delete_lem i at n v p h = go i.cells i.count i.size v p h
  where
    go :
        (cells : Option (List Ptr)) (c size : ℕ)
        → IsValid (index cells c size)
        → 0 < size
        → at + n ≤ c
        → (j : Index) × (delete (index cells c size) at n ≡ some j)
          × (contents j ≡ take at (contents_of cells c) ++ drop (at + n) (contents_of cells c))
          × (j.count ≡ c - n)
          × IsValid j
    go none c size v p h = absurd (omega arith)
    go (some d) c size (l, k, q) p h =
        let cut = take (c - n - at) (drop (at + n) d) in
        let m : length cut ≡ c - n - at =
          omega (arith, length-take (c - n - at) (drop (at + n) d), length-drop (at + n) d) in
        let within : ltb c (at + n) ≡ false = ground arith in
        let rest : c - n - at ≡ c - (at + n) = omega arith in
        (
          index (some (splice d at cut)) (c - n) size,
          rw (within, move_range-some d at (at + n) (c - n - at) (omega arith) (omega arith)) refl,
          take-splice d cut at (c - n) (omega arith) (omega arith)
              ∙ ap (λ z. z ++ cut) (sym (take-take at c d (omega arith)))
              ∙ ap (λ z. take at (take c d) ++ z)
                  (ap (λ z. take z (drop (at + n) d)) rest ∙ sym (drop-take (at + n) c d)),
          refl,
          (length-splice d cut at (omega arith) ∙ l, omega arith, q),
        )

-- Deleting the value that `insert` has put into a well-formed index with a free cell, and no more
-- than 2 ^ 30 cells, gives back the pointers that were held.
pub delete-insert :
    (i : Index) (at : ℕ) (value : Ptr)
    → IsValid i
    → at ≤ i.count
    → i.count < i.size
    → i.size ≤ 2 ^ 30
    → (j k : Index) × (insert i at value ≡ some j)
      × (delete j at 1 ≡ some k)
      × (contents k ≡ contents i)
delete-insert i at value v within room s =
    let (j, inserted, held, counted, w) = insert_room i at value v within room s in
    let c = count-le-size j w in
    let (k, deleted, left, _, _) = delete_lem j at 1 w (omega arith) (omega arith) in
    (
      j,
      k,
      inserted,
      deleted,
      left
          ∙ ap (λ z. take at z ++ drop (at + 1) z) held
          ∙ put_in_removed (contents i) (value ∷ []) at (omega (arith, length-contents i v)),
    )
