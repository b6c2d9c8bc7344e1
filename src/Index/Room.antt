-- ===== src/Index/Room.antt =====
-- Growing an index, and making room in it.
use libmowgli.Base.{
  ℕ, ◌+◌, ◌-◌, ◌^◌, ◌≤◌, ◌<◌, ◌≡◌, refl, ap, ◌∙◌, sym, List, Option, some, ltb, take, drop, ◌++◌,
  arith, length, Bool-cases, inl, inr, length-take, length-drop, take-take, drop-take,
  take-append_add, take-length, drop-length, drop-append_add, take-append-drop, append-nil,
}
use libmowgli.Memory.{
  ◌>>=◌, write_range, splice, splice-nil, length-splice, take-splice_before, drop-splice,
  write_range-some, move_range-some,
}
use libmowgli.Index.{Ptr, Index, shift, make_room}
use libmowgli.Index.Grow.{contents, IsValid, survivors, index, allocate_lem}

-- The block after `make_room` and a write of `xs` into the room.
edited : List Ptr → ℕ → ℕ → List Ptr → List Ptr
edited d c at xs = splice (splice d (at + length xs) (take (c - at) (drop at d))) at xs

module _ (d xs : List Ptr) (c at : ℕ) (fits : c + length xs ≤ length d) (within : at ≤ c) where
  abbrev tail : List Ptr
  tail = take (c - at) (drop at d)

  length-tail : length tail ≡ c - at
  length-tail = omega (arith, length-take (c - at) (drop at d), length-drop at d)

  length-shifted : length (splice d (at + length xs) tail) ≡ length d
  length-shifted = length-splice d tail (at + length xs) (omega (arith, length-tail))

  length-edited : length (edited d c at xs) ≡ length d
  unfolding edited
  length-edited = length-splice _ xs at (omega (arith, length-shifted)) ∙ length-shifted

  drop-shifted :
      drop (at + length xs) (splice d (at + length xs) tail)
      ≡ tail ++ drop (at + length xs + length tail) d
  drop-shifted = drop-splice d tail (at + length xs) (omega arith)

  take-edited :
      take (c + length xs) (edited d c at xs) ≡ take at (take c d) ++ (xs ++ drop at (take c d))
  unfolding edited
  take-edited =
      take-append_add (c + length xs) (c + length xs - at) (take at shifted)
        (xs ++ drop (at + length xs) shifted)
        (omega (arith, length-take at shifted, length-shifted))
      ∙ ap (λ zs. take at shifted ++ zs)
          (take-append_add (c + length xs - at) (c - at) xs (drop (at + length xs) shifted)
            (omega arith))
      ∙ ap (λ zs. zs ++ (xs ++ take (c - at) (drop (at + length xs) shifted))) front
      ∙ ap (λ zs. take at (take c d) ++ (xs ++ zs)) back
    where
      shifted : List Ptr
      shifted = splice d (at + length xs) tail

      front : take at shifted ≡ take at (take c d)
      front =
          take-splice_before d tail (at + length xs) at (omega arith) (omega arith)
          ∙ sym (take-take at c d within)

      back : take (c - at) (drop (at + length xs) shifted) ≡ drop at (take c d)
      back =
          ap (take (c - at)) drop-shifted
          ∙ take-append_add (c - at) 0 tail (drop (at + length xs + length tail) d)
              (omega (arith, length-tail))
          ∙ append-nil tail
          ∙ sym (drop-take at c d)

-- `shift`, also where there is nothing to move.
shift_lem :
    (d : List Ptr) (c size at n : ℕ)
    → c + n ≤ length d
    → at ≤ c
    → shift (index (some d) c size) at n
      ≡ some (some (splice d (at + n) (take (c - at) (drop at d))))
unfolding shift
shift_lem d c size at n fits within = elim (Bool-cases (ltb at c)) [
  | inl behind ↦
      rw (behind, move_range-some d (at + n) at (c - at) (omega arith) (omega arith)) refl
  | inr end ↦
      let e : 0 ≡ c - at = ground arith in
      rw end (
        ap (λ z. some (some z))
          (sym (splice-nil d (at + n)) ∙ ap (λ k. splice d (at + n) (take k (drop at d))) e))
]

-- A write behind `make_room`.
unfoldable pub put_range : Index → ℕ → List Ptr → Option Index
put_range j at xs = do
  cells ← j.cells
  cells' ← write_range cells at xs
  some (record j { cells = some cells' })

-- The pointers held after `xs` has been put in at `at`, where `make_room` has left `s`.
abbrev pub put_in : List Ptr → ℕ → List Ptr → List Ptr
put_in s at xs = take at s ++ (xs ++ drop at s)

pub put_in_end : (s xs : List Ptr) (n : ℕ) → n ≡ length s → put_in s n xs ≡ s ++ xs
put_in_end s xs n e =
    ap (λ z. z ++ (xs ++ drop n s)) (take-length n s (omega arith))
    ∙ ap (λ z. s ++ (xs ++ z)) (drop-length n s (omega arith))
    ∙ ap (λ z. s ++ z) (append-nil xs)

pub put_in_removed :
    (s xs : List Ptr) (n : ℕ)
    → n ≤ length s
    → take n (put_in s n xs) ++ drop (n + length xs) (put_in s n xs) ≡ s
put_in_removed s xs n h =
    let e = length-take n s in
    ap (λ z. z ++ drop (n + length xs) (put_in s n xs))
      (take-append_add n 0 (take n s) (xs ++ drop n s) (omega arith) ∙ append-nil (take n s))
    ∙ ap (λ z. take n s ++ z)
        (drop-append_add (n + length xs) (length xs) (take n s) (xs ++ drop n s) (omega arith)
          ∙ drop-append_add (length xs) 0 xs (drop n s) (omega arith))
    ∙ take-append-drop n s

pub record PutIn (i : Index) (at : ℕ) (xs : List Ptr) (run : Option Index) : Type 0 where
  pub after : Index
  pub runs : run ≡ some after
  pub held : contents after ≡ put_in (survivors i (i.count + length xs)) at xs
  pub counted : after.count ≡ i.count + length xs
  pub valid : IsValid after

pub make_room-put_range :
    (i : Index) (at : ℕ) (xs : List Ptr)
    → IsValid i
    → at ≤ i.count
    → 0 < length xs
    → i.count + length xs ≤ 2 ^ 30
    → PutIn i at xs (make_room i at (length xs) >>= λ j. put_range j at xs)
unfolding make_room put_range
make_room-put_range i at xs v within p s =
    let a = allocate_lem i (i.count + length xs) v (omega arith) s (omega arith) in
    let fits : i.count + length xs ≤ length a.cells = omega (arith, a.enough, a.sized) in
    let shifted = splice a.cells (at + length xs) (take (i.count - at) (drop at a.cells)) in
    let room : length shifted ≡ length a.cells =
      length-splice a.cells (take (i.count - at) (drop at a.cells)) (at + length xs)
        (omega (arith, length-take (i.count - at) (drop at a.cells), length-drop at a.cells)) in
    record {
      after = index (some (edited a.cells i.count at xs)) (i.count + length xs) a.size;
      runs =
          rw (a.run, shift_lem a.cells i.count a.size at (length xs) fits within)
            (rw (write_range-some shifted xs at (omega arith)) (unfold edited in refl));
      held = take-edited a.cells xs i.count at fits within ∙ ap (λ z. put_in z at xs) a.kept;
      counted = refl;
      valid = (
        length-edited a.cells xs i.count at fits within ∙ a.sized,
        a.enough,
        omega (arith, a.enough),
      );
    }
