-- ===== src/Strings/Append.antt =====
-- The string buffer: what `append`, `append_char` and `reset` do to the bytes held.
use libmowgli.Base.{
  ℕ, suc, ◌+◌, ◌-◌, ◌*◌, ◌%◌, ◌^◌, ◌≤◌, ◌<◌, max, ◌≡◌, refl, ap, ◌∙◌, [], ◌∷◌, ◌++◌, some, arith,
  append_assoc, Bool, if◌then◌else◌, length, take, drop, length-take, length-append, append-nil,
  replicate, Bool-cases, inl, inr, true, false, le→leb,
}
use libmowgli.Memory.{◌>>=◌, read_range, write_range, splice, write_range-some, length-splice}
use libmowgli.Strings.{
  Bytes, size_mod, Buffer, create, reset, grow, is_tight, make_room, append, append_char, alloc,
}
use libmowgli.Strings.Copy.{NoNul}
use libmowgli.Strings.Grow.{
  contents, IsValid, store, after, store-some, after-contents, after-IsValid, IsPrefix, kept, grown,
  grow-grown, grown-contents, length-grown,
}

-- The buffer that `append` stores into.
abbrev roomy : Buffer → Bytes → ℕ → Buffer
roomy s a n = if is_tight s n then grown s a (max (s.size * 2) (s.pos + n + 8) - 1) else s

module _ (s : Buffer) (a : Bytes) (n : ℕ) (v : IsValid s) (p : IsPrefix s a)
    (small : s.size + n + 8 < 2 ^ 63) where
  roomy-size : s.pos ≤ max (s.size * 2) (s.pos + n + 8) - 1
  roomy-size = omega (arith, v.room)

  make_room-roomy : make_room s n (s.pos + n + 8) ≡ some (roomy s a n)
  unfolding make_room
  make_room-roomy = elim (Bool-cases (is_tight s n)) [
    | inl tight ↦
        let e : max ((s.size * 2) % size_mod) ((s.pos + n + 8) % size_mod)
            ≡ suc (max (s.size * 2) (s.pos + n + 8) - 1) =
          omega (arith, v.room) in
        rw tight
          (ap (grow s) e ∙ grow-grown s a p (max (s.size * 2) (s.pos + n + 8) - 1) roomy-size)
    | inr fits ↦ rw fits
  ]

  append-store :
      (src : Bytes) → n ≤ length src → append s src n ≡ store (roomy s a n) (take n src) n
  unfolding append store read_range
  append-store src l = rw (make_room-roomy, le→leb (0 + n) (length src) (omega arith))

  roomy-contents : contents (roomy s a n) ≡ (if is_tight s n then kept s a else contents s)
  roomy-contents = elim (Bool-cases (is_tight s n)) [
    | inl tight ↦ rw tight (grown-contents s a p _ roomy-size)
    | inr fits ↦ rw fits
  ]

  roomy-room : (length (roomy s a n).str ≡ (roomy s a n).size) × (s.pos + n < (roomy s a n).size)
  roomy-room = elim (Bool-cases (is_tight s n)) [
    | inl tight ↦ rw tight (length-grown s a p _ roomy-size, omega arith)
    | inr fits ↦ rw fits (v.sized, ground (arith, v.room))
  ]

  roomy-pos : (roomy s a n).pos ≡ s.pos
  roomy-pos = elim (Bool-cases (is_tight s n)) [ inl tight ↦ rw tight | inr fits ↦ rw fits ]

  append-kept :
      (src : Bytes)
      → n ≤ length src
      → (s' : Buffer) × (append s src n ≡ some s')
        × (contents s' ≡ (if is_tight s n then kept s a else contents s) ++ take n src)
        × IsValid s'
  append-kept src l =
      let t = roomy s a n in
      let bytes = take n src in
      let e : length bytes ≡ n = omega (arith, length-take n src) in
      let (sized, room) = roomy-room in
      let room' : t.pos + n < t.size = omega (arith, roomy-pos) in
      (
        after t bytes n,
        append-store src l ∙ store-some t bytes n e sized room',
        after-contents t bytes n e sized room' ∙ ap (λ (z : Bytes). z ++ bytes) roomy-contents,
        after-IsValid t bytes n e sized room',
      )

-- From a well-formed buffer whose bytes hold no terminator, and while its sizes stay below 2 ^
-- 63, `append` of n bytes stays inside its blocks, adds exactly the first n bytes of the source
-- to the bytes held, and leaves a well-formed buffer.
pub append-contents :
    (s : Buffer) (src : Bytes) (n : ℕ)
    → IsValid s
    → NoNul (contents s)
    → s.size + n + 8 < 2 ^ 63
    → n ≤ length src
    → (s' : Buffer) × (append s src n ≡ some s')
      × (contents s' ≡ contents s ++ take n src)
      × IsValid s'
append-contents s src n v h small l =
    let e : length (contents s) ≡ s.pos = omega (arith, length-take s.pos s.str, v.sized, v.room) in
    let p : IsPrefix s (contents s) = record {
      no_nul = h;
      within = omega arith;
      cut = v.terminated;
    } in
    let (s', run, held, v') = append-kept s (contents s) n v p small src l in
    (s', run, held ∙ ap (λ (z : Bytes). z ++ take n src) (same (is_tight s n) e), v')
  where
    same :
        (t : Bool)
        → length (contents s) ≡ s.pos
        → (if t then kept s (contents s) else contents s) ≡ contents s
    same false e = refl
    same true e =
        let z : s.pos - length (contents s) ≡ 0 = omega arith in
        ap (λ k. contents s ++ replicate k 0) z ∙ append-nil (contents s)

-- From a well-formed buffer that holds a terminator among its bytes, at the end of a, an `append`
-- that has to reallocate (sizes below 2 ^ 63) loses what follows that terminator: those bytes are
-- zeros afterwards, and the source stands behind.
pub append_loses_bytes :
    (s : Buffer) (a b src : Bytes) (n : ℕ)
    → IsValid s
    → NoNul a
    → contents s ≡ a ++ (0 ∷ b)
    → is_tight s n ≡ true
    → s.size + n + 8 < 2 ^ 63
    → n ≤ length src
    → (s' : Buffer) × (append s src n ≡ some s')
      × (contents s' ≡ (a ++ replicate (suc (length b)) 0) ++ take n src)
append_loses_bytes s a b src n v h c tight small l =
    let e : s.pos ≡ length a + suc (length b) =
      omega
        (arith, length-take s.pos s.str, v.sized, v.room, ap length c, length-append a (0 ∷ b)) in
    let whole : s.str ≡ a ++ (0 ∷ (b ++ (0 ∷ v.terminated.0))) =
      v.terminated.1
      ∙ ap (λ (z : Bytes). z ++ (0 ∷ v.terminated.0)) c
      ∙ append_assoc a (0 ∷ b) (0 ∷ v.terminated.0) in
    let p : IsPrefix s a = record {
      no_nul = h;
      within = omega arith;
      cut = (b ++ (0 ∷ v.terminated.0), whole);
    } in
    let (s', run, held, v') = append-kept s a n v p small src l in
    let lost : s.pos - length a ≡ suc (length b) = omega arith in
    (s', run, held ∙ rw tight (ap (λ k. (a ++ replicate k 0) ++ take n src) lost))

-- `append_char` of a byte does what `append` of that one byte does, in every state, faults
-- included.
pub append_char-append : (s : Buffer) (c : ℕ) → append_char s c ≡ append s (c ∷ []) 1
unfolding append append_char read_range
append_char-append s c =
    ap
      (λ k. make_room s 1 k >>= λ t. write_range t.str t.pos (c ∷ []) >>= λ str.
        write_range str (t.pos + 1) (0 ∷ []) >>= λ str'.
        some (record t { str = str'; pos = t.pos + 1 }))
      (omega arith)

-- `reset` makes a well-formed buffer empty, keeps the size of its block and leaves it well-
-- formed.
pub reset-IsValid :
    (s : Buffer)
    → IsValid s
    → (s' : Buffer) × (reset s ≡ some s') × (contents s' ≡ []) × (s'.size ≡ s.size) × IsValid s'
unfolding reset
reset-IsValid s v = (
  record s { str = splice s.str 0 (0 ∷ []); pos = 0 },
  rw (write_range-some s.str (0 ∷ []) 0 (omega (arith, v.sized, v.room))),
  refl,
  refl,
  record {
    sized = length-splice s.str (0 ∷ []) 0 (omega (arith, v.sized, v.room)) ∙ v.sized;
    room = omega (arith, v.room);
    terminated = (drop 1 s.str, refl);
  },
)

-- A new buffer is well-formed.
create-IsValid : IsValid create
unfolding create
create-IsValid = record { sized = refl; room = omega arith; terminated = (alloc 63, refl) }
