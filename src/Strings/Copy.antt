-- ===== src/Strings/Copy.antt =====
-- `mowgli_strlcpy` and `mowgli_strlcat` on terminated strings.
use libmowgli.Base.{
  ℕ, zero, suc, ◌+◌, ◌≤◌, ◌<◌, ◌≡◌, ◌≢◌, refl, ap, ◌∙◌, [], ◌∷◌, ◌++◌, some, arith, length, take,
  drop, take-nil, All,
}
use libmowgli.Strings.{
  Bytes, strlen, copied, strlcpy_loop, strlcpy, strlcat_copy, strlcat_find, strlcat,
}

-- No byte is the terminator.
abbrev pub NoNul : Bytes → Type 0
NoNul = All (λ c. c ≢ 0)

-- The string `a`, terminated, over the first cells of the block `d`.
abbrev pub onto : Bytes → Bytes → Bytes
onto a d = a ++ (0 ∷ drop (suc (length a)) d)

pub strlen_lem : (a r : Bytes) → NoNul a → strlen (a ++ (0 ∷ r)) ≡ some (length a)
unfolding strlen
strlen_lem [] r h = refl
strlen_lem (c ∷ a) r h = ground (arith, strlen_lem a r h.1)

strlcpy_loop-onto :
    (n : ℕ) (d a r : Bytes)
    → NoNul a
    → n < length d
    → strlcpy_loop (suc n) d (a ++ (0 ∷ r)) ≡ some (copied (onto (take n a) d) (length a))
unfolding strlcpy_loop
strlcpy_loop-onto n [] a r h l = elim l [ ]
strlcpy_loop-onto zero (x ∷ d) a r h l = ground (arith, strlen_lem a r h)
strlcpy_loop-onto (suc n) (x ∷ d) [] r h l = refl
strlcpy_loop-onto (suc n) (x ∷ d) (c ∷ a) r h l =
    ground (arith, strlcpy_loop-onto n d a r h.1 (omega arith))

-- On a terminated source with the bytes a, and a size n + 1 that the destination has,
-- `mowgli_strlcpy` writes the first n bytes of a and a terminator, leaves the rest of the
-- destination alone, and returns the length of the source.
pub strlcpy-onto :
    (n : ℕ) (d a r : Bytes)
    → NoNul a
    → n < length d
    → strlcpy d (a ++ (0 ∷ r)) (suc n) ≡ some (copied (onto (take n a) d) (length a))
unfolding strlcpy
strlcpy-onto n d a r h l = strlcpy_loop-onto n d a r h l

strlcat_copy-onto :
    (n : ℕ) (d b r : Bytes)
    → NoNul b
    → n < length d
    → strlcat_copy (suc n) d (b ++ (0 ∷ r)) ≡ some (copied (onto (take n b) d) (length b))
unfolding strlcat_copy
strlcat_copy-onto n [] b r h l = elim l [ ]
strlcat_copy-onto n (x ∷ d) [] r h l = rw take-nil refl
strlcat_copy-onto zero (x ∷ d) (c ∷ b) r h l =
    ground (arith, strlcat_copy-onto zero (x ∷ d) b r h.1 l)
strlcat_copy-onto (suc n) (x ∷ d) (c ∷ b) r h l =
    ground (arith, strlcat_copy-onto n d b r h.1 (omega arith))

strlcat_find-onto :
    (n : ℕ) (a d b r : Bytes)
    → NoNul a
    → NoNul b
    → length a ≤ n
    → n ≤ length a + length d
    → strlcat_find (suc n) (a ++ (0 ∷ d)) (b ++ (0 ∷ r))
      ≡ some (copied (onto (take n (a ++ b)) (a ++ (0 ∷ d))) (length a + length b))
unfolding strlcat_find
strlcat_find-onto n [] d b r ha hb l m =
    strlcat_copy-onto n (0 ∷ d) b r hb (omega arith)
    ∙ ap (λ k. some (copied (onto (take n b) (0 ∷ d)) k)) (omega arith)
strlcat_find-onto zero (c ∷ a) d b r ha hb l m = elim l [ ]
strlcat_find-onto (suc n) (c ∷ a) d b r ha hb l m =
    ground (arith, strlcat_find-onto n a d b r ha.1 hb (omega arith) (omega arith))

strlcat_find-full :
    (n : ℕ) (a d b r : Bytes)
    → NoNul a
    → NoNul b
    → n ≤ length a
    → strlcat_find n (a ++ d) (b ++ (0 ∷ r)) ≡ some (copied (a ++ d) (n + length b))
unfolding strlcat_find
strlcat_find-full zero a d b r ha hb l = ground (arith, strlen_lem b r hb)
strlcat_find-full (suc n) [] d b r ha hb l = elim l [ ]
strlcat_find-full (suc n) (c ∷ a) d b r ha hb l =
    ground (arith, strlcat_find-full n a d b r ha.1 hb (omega arith))

-- Appending to the terminated string a in a block of n + 1 cells or more, with the size n + 1: if
-- a has at most n bytes, `mowgli_strlcat` leaves the first n bytes of a and the source together,
-- terminated, and returns the length of the whole; otherwise it writes nothing and returns n + 1
-- and the length of the source.
pub strlcat-onto :
    (n : ℕ) (a d b r : Bytes)
    → NoNul a
    → NoNul b
    → n ≤ length a + length d
    → ((length a ≤ n)
        → strlcat (a ++ (0 ∷ d)) (b ++ (0 ∷ r)) (suc n)
          ≡ some (copied (onto (take n (a ++ b)) (a ++ (0 ∷ d))) (length a + length b)))
      × ((n < length a)
          → strlcat (a ++ (0 ∷ d)) (b ++ (0 ∷ r)) (suc n)
            ≡ some (copied (a ++ (0 ∷ d)) (suc n + length b)))
unfolding strlcat
strlcat-onto n a d b r ha hb m = (
  λ l. strlcat_find-onto n a d b r ha hb l m,
  λ l. strlcat_find-full (suc n) a (0 ∷ d) b r ha hb l,
)
