-- ===== src/Memory.antt =====
-- Blocks of memory as lists of cells, and the C library's block copies (memcpy, memmove, calloc)
-- on them. An access that leaves its block is undefined in C: it is `none` here.
use libmowgli.Base.{
  ℕ, [], take-append-drop, ◌+◌, ◌≤◌, ◌≡◌, List, [], ◌++◌, Option, none, some, arith, leb,
  if◌then◌else◌, length, take, drop, le→leb, length-append, length-take, length-drop,
  take-append_add, drop-append_add, sym, take-append_le, take-take, append-nil, ◌∙◌, ap,
}

module _ {ℓ κ} {A : Type ℓ} {B : Type κ} where
  infixl 5 ◌>>=◌
  abbrev pub ◌>>=◌ : Option A → (A → Option B) → Option B
  none >>= f = none
  some a >>= f = f a

module _ {ℓ} {A : Type ℓ} where
  -- The `n` cells from `off` on.
  unfoldable pub read_range : List A → ℕ → ℕ → Option (List A)
  read_range xs off n = if leb (off + n) (length xs) then some (take n (drop off xs)) else none

  abbrev pub splice : List A → ℕ → List A → List A
  splice xs off ys = take off xs ++ (ys ++ drop (off + length ys) xs)

  -- `memcpy (xs + off, ys, length ys)`
  unfoldable pub write_range : List A → ℕ → List A → Option (List A)
  write_range xs off ys =
      if leb (off + length ys) (length xs) then some (splice xs off ys) else none

  pub length-splice :
      (xs ys : List A) (off : ℕ)
      → off + length ys ≤ length xs
      → length (splice xs off ys) ≡ length xs
  length-splice xs ys off h = omega (
    arith,
    length-append (take off xs) (ys ++ drop (off + length ys) xs),
    length-append ys (drop (off + length ys) xs),
    length-take off xs,
    length-drop (off + length ys) xs,
  )

  pub write_range-some :
      (xs ys : List A) (off : ℕ)
      → off + length ys ≤ length xs
      → write_range xs off ys ≡ some (splice xs off ys)
  unfolding write_range
  write_range-some xs ys off h = ground (arith, le→leb (off + length ys) (length xs) h)

  take-append_le_length : (xs ys : List A) → take (length xs) (xs ++ ys) ≡ xs
  take-append_le_length xs ys = take-append_add (length xs) 0 xs ys (omega arith) ∙ append-nil xs

  -- What stands before the end of the write afterwards.
  pub take-splice :
      (xs ys : List A) (off n : ℕ)
      → off + length ys ≤ length xs
      → n ≡ off + length ys
      → take n (splice xs off ys) ≡ take off xs ++ ys
  take-splice xs ys off n h e =
      take-append_add n (length ys) (take off xs) (ys ++ drop (off + length ys) xs)
        (omega (arith, length-take off xs))
      ∙ ap (λ (zs : List A). take off xs ++ zs)
          (take-append_le_length ys (drop (off + length ys) xs))

  -- What stands before a write is left alone.
  pub take-splice_start :
      (xs ys : List A) (off : ℕ) → off ≤ length xs → take off (splice xs off ys) ≡ take off xs
  take-splice_start xs ys off h =
      take-append_le off (take off xs) (ys ++ drop (off + length ys) xs)
        (omega (arith, length-take off xs))
      ∙ take-take off off xs (omega arith)

  pub take-splice_before :
      (xs ys : List A) (off m : ℕ)
      → m ≤ off
      → off ≤ length xs
      → take m (splice xs off ys) ≡ take m xs
  take-splice_before xs ys off m l h =
      sym (take-take m off (splice xs off ys) l)
      ∙ ap (take m) (take-splice_start xs ys off h)
      ∙ take-take m off xs l

  pub drop-splice :
      (xs ys : List A) (off : ℕ)
      → off ≤ length xs
      → drop off (splice xs off ys) ≡ ys ++ drop (off + length ys) xs
  drop-splice xs ys off h =
      drop-append_add off 0 (take off xs) (ys ++ drop (off + length ys) xs)
        (omega (arith, length-take off xs))

  pub read_range-some :
      (xs : List A) (off n : ℕ)
      → off + n ≤ length xs
      → read_range xs off n ≡ some (take n (drop off xs))
  unfolding read_range
  read_range-some xs off n h = rw (le→leb (off + n) (length xs) h)

  -- `memmove (xs + to, xs + from, n)`
  unfoldable pub move_range : List A → ℕ → ℕ → ℕ → Option (List A)
  unfolding read_range write_range
  move_range xs to from n = read_range xs from n >>= write_range xs to

  pub move_range-some :
      (xs : List A) (to from n : ℕ)
      → to + n ≤ length xs
      → from + n ≤ length xs
      → move_range xs to from n ≡ some (splice xs to (take n (drop from xs)))
  unfolding move_range
  move_range-some xs to from n h k = rw (read_range-some xs from n k) (
      write_range-some xs (take n (drop from xs)) to
        (omega (arith, length-take n (drop from xs), length-drop from xs)))

  pub splice-nil : (xs : List A) (off : ℕ) → splice xs off [] ≡ xs
  splice-nil xs off =
      let e : off + 0 ≡ off = omega arith in
      ap (λ k. take off xs ++ drop k xs) e ∙ take-append-drop off xs
