-- ===== src/Strings/Grow.antt =====
-- Storing in a string buffer, and growing it.
use libmowgli.Base.{
  ℕ, suc, ◌+◌, ◌-◌, ◌≤◌, ◌<◌, ◌≡◌, ap, ◌∙◌, sym, [], ◌∷◌, ◌++◌, Option, some, arith, length, take,
  drop, length-append, length-drop, length-replicate, take-replicate, drop-replicate,
  take-append_add, take-length, replicate,
}
use libmowgli.Memory.{
  ◌>>=◌, write_range, splice, write_range-some, length-splice, take-splice, take-splice_start,
}
use libmowgli.Strings.{Bytes, strlcpy, Buffer, grow, alloc, copied}
use libmowgli.Strings.Copy.{NoNul, onto, strlcpy-onto}

-- The bytes that the buffer holds.
abbrev pub contents : Buffer → Bytes
contents s = take s.pos s.str

-- The block has the size that the buffer says, and the bytes held are followed by a terminator.
pub record IsValid (s : Buffer) : Type 0 where
  pub sized : length s.str ≡ s.size
  pub room : s.pos < s.size
  pub terminated : (r : Bytes) × (s.str ≡ contents s ++ (0 ∷ r))

-- Storing bytes and a terminator behind what is held, as both functions end.
unfoldable pub store : Buffer → Bytes → ℕ → Option Buffer
store t bytes k = do
  str ← write_range t.str t.pos bytes
  str' ← write_range str (t.pos + k) (0 ∷ [])
  some (record t { str = str'; pos = t.pos + k })

-- The block after the two writes, and the buffer.
abbrev pub block : Buffer → Bytes → ℕ → Bytes
block t bytes k = splice (splice t.str t.pos bytes) (t.pos + k) (0 ∷ [])

abbrev pub after : Buffer → Bytes → ℕ → Buffer
after t bytes k = record t { str = block t bytes k; pos = t.pos + k }

module _ (t : Buffer) (bytes : Bytes) (k : ℕ) where
  pub store-some :
      length bytes ≡ k
      → length t.str ≡ t.size
      → t.pos + k < t.size
      → store t bytes k ≡ some (after t bytes k)
  unfolding store
  store-some e l h = rw (
    write_range-some t.str bytes t.pos (omega arith),
    write_range-some (splice t.str t.pos bytes) (0 ∷ []) (t.pos + k)
        (omega (arith, length-splice t.str bytes t.pos)),
  )

  pub block-prefix :
      length bytes ≡ k
      → length t.str ≡ t.size
      → t.pos + k < t.size
      → take (t.pos + k) (splice t.str t.pos bytes) ≡ contents t ++ bytes
  block-prefix e l h = take-splice t.str bytes t.pos (t.pos + k) (omega arith) (omega arith)

  pub after-contents :
      length bytes ≡ k
      → length t.str ≡ t.size
      → t.pos + k < t.size
      → contents (after t bytes k) ≡ contents t ++ bytes
  after-contents e l h =
      take-splice_start (splice t.str t.pos bytes) (0 ∷ []) (t.pos + k)
        (omega (arith, length-splice t.str bytes t.pos))
      ∙ block-prefix e l h

  pub after-IsValid :
      length bytes ≡ k → length t.str ≡ t.size → t.pos + k < t.size → IsValid (after t bytes k)
  after-IsValid e l h = record {
    sized =
        length-splice (splice t.str t.pos bytes) (0 ∷ []) (t.pos + k)
          (omega (arith, length-splice t.str bytes t.pos))
        ∙ length-splice t.str bytes t.pos (omega arith)
        ∙ l;
    room = h;
    terminated = (
      drop (t.pos + k + 1) (splice t.str t.pos bytes),
      ap (λ (zs : Bytes). zs ++ (0 ∷ drop (t.pos + k + 1) (splice t.str t.pos bytes)))
          (block-prefix e l h ∙ sym (after-contents e l h)),
    );
  }

pub strlcpy-alloc :
    (n : ℕ) (str a r : Bytes)
    → str ≡ a ++ (0 ∷ r)
    → NoNul a
    → length a ≤ n
    → strlcpy (alloc (suc n)) str (suc n) ≡ some (copied (onto a (alloc (suc n))) (length a))
strlcpy-alloc n str a r e h l =
    ap (λ (z : Bytes). strlcpy (alloc (suc n)) z (suc n)) e
    ∙ strlcpy-onto n (alloc (suc n)) a r h (omega (arith, length-replicate {A = ℕ} (suc n) 0))
    ∙ ap (λ (z : Bytes). some (copied (onto z (alloc (suc n))) (length a))) (take-length n a l)

-- `a` is what stands in the block before its first terminator.
pub record IsPrefix (s : Buffer) (a : Bytes) : Type 0 where
  pub no_nul : NoNul a
  pub within : length a ≤ s.pos
  pub cut : (r : Bytes) × (s.str ≡ a ++ (0 ∷ r))

-- What a reallocation keeps of the bytes held: those before the first terminator.
abbrev pub kept : Buffer → Bytes → Bytes
kept s a = a ++ replicate (s.pos - length a) 0

-- The buffer after the reallocation to `n + 1` bytes.
abbrev pub grown : Buffer → Bytes → ℕ → Buffer
grown s a n = record s { str = onto a (alloc (suc n)); size = suc n }

module _ (s : Buffer) (a : Bytes) (p : IsPrefix s a) (n : ℕ) (l : s.pos ≤ n) where
  pub grow-grown : grow s (suc n) ≡ some (grown s a n)
  unfolding grow
  grow-grown = rw (strlcpy-alloc n s.str a p.cut.0 p.cut.1 p.no_nul (omega (arith, p.within)))

  pub take-zeros :
      take (s.pos - length a) (0 ∷ drop (suc (length a)) (alloc (suc n)))
      ≡ replicate (s.pos - length a) 0
  take-zeros =
      ap (λ (z : Bytes). take (s.pos - length a) (0 ∷ z))
        (drop-replicate {A = ℕ} (suc (length a)) (suc n) 0)
      ∙ take-replicate {A = ℕ} (s.pos - length a) (suc (suc n - suc (length a))) 0 (omega arith)

  pub grown-contents : contents (grown s a n) ≡ kept s a
  grown-contents =
      take-append_add s.pos (s.pos - length a) a (0 ∷ drop (suc (length a)) (alloc (suc n)))
        (omega (arith, p.within))
      ∙ ap (λ (z : Bytes). a ++ z) take-zeros

  pub length-grown : length (grown s a n).str ≡ suc n
  length-grown = omega (
    arith,
    length-append a (0 ∷ drop (suc (length a)) (alloc (suc n))),
    length-drop (suc (length a)) (alloc (suc n)),
    length-replicate {A = ℕ} (suc n) 0,
    p.within,
  )
