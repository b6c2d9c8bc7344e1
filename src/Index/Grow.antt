-- ===== src/Index/Grow.antt =====
-- Growing the block of an index.
use libmowgli.Base.{
  ℕ, zero, suc, ◌+◌, ◌-◌, ◌*◌, ◌/◌, ◌^◌, ◌≤◌, ◌<◌, ◌≡◌, refl, ap, ◌∙◌, sym, List, [], ◌∷◌, Option,
  none, some, leb, ◌==◌, if◌then◌else◌, replicate, take, drop, ◌++◌, arith, length, Bool-cases, inl,
  inr, true, false, length-take, length-replicate, take-replicate, le→leb, leb→le, take-nil,
}
use native.Mathlib.Nat.{pow-suc}
use libmowgli.Memory.{splice, length-splice, read_range-some, write_range-some}
use libmowgli.Index.{Ptr, Index, double_until, copy_old, allocate}

-- The pointers held.
abbrev pub contents_of : Option (List Ptr) → ℕ → List Ptr
contents_of none n = []
contents_of (some cells) n = take n cells

abbrev pub contents : Index → List Ptr
contents i = contents_of i.cells i.count

-- No block yet, or a block of the stated size with room for what is held.
abbrev pub IsValid : Index → Type 0
IsValid i = elim i.cells [
  | none ↦ (i.size ≡ 0) × (i.count ≡ 0)
  | some cells ↦ (length cells ≡ i.size) × (i.count ≤ i.size) × (0 < i.size)
]

pub double_step :
    (k size cur : ℕ)
    → leb size cur ≡ false
    → size ≤ 2 ^ 30
    → double_until (suc k) size cur ≡ double_until k size (cur * 2)
unfolding double_until
double_step k size cur more s = let low : leb (2 ^ 30) cur ≡ false = ground arith in rw (more, low)

pub double_done : (k size cur : ℕ) → leb size cur ≡ true → double_until (suc k) size cur ≡ some cur
unfolding double_until
double_done k size cur enough = rw enough

-- The loop ends by its test within `k` rounds, at least at the wanted size.
pub double_until_lem :
    (k size cur : ℕ)
    → 0 < cur
    → size ≤ 2 ^ 30
    → size ≤ cur * 2 ^ k
    → (n : ℕ) × (double_until (suc k) size cur ≡ some n) × (size ≤ n) × (cur ≤ n)
double_until_lem zero size cur p s h =
    let enough : size ≤ cur = omega arith in
    (cur, double_done zero size cur (le→leb size cur enough), enough, omega arith)
double_until_lem (suc k) size cur p s h = elim (Bool-cases (leb size cur)) [
  | inl enough ↦ (cur, double_done (suc k) size cur enough, leb→le size cur enough, omega arith)
  | inr more ↦
      let h' : size ≤ cur * (2 ^ k * 2) = rw pow-suc at h in
      let (n, run, wanted, grew) =
        double_until_lem k size (cur * 2) (omega arith) s (omega arith) in
      (n, double_step (suc k) size cur more s ∙ run, wanted, omega arith)
]

pub overlay :
    (k c m : ℕ) (old : List Ptr)
    → c ≤ m
    → c ≤ length old
    → take c (take k old ++ drop (length (take k old)) (replicate m 0))
      ≡ take k (take c old) ++ replicate (c - k) 0
overlay k zero m old h l = let e : 0 - k ≡ 0 = omega arith in rw (e, take-nil) refl
overlay zero (suc c) m old h l =
    let e : suc c ≡ suc c - 0 = omega arith in
    take-replicate {A = ℕ} (suc c) m 0 h ∙ ap (λ n. replicate {A = ℕ} n 0) e
overlay (suc k) (suc c) m [] h l = elim l [ ]
overlay (suc k) (suc c) zero (x ∷ old) h l = elim h [ ]
overlay (suc k) (suc c) (suc m) (x ∷ old) h l =
    let e : c - k ≡ suc c - suc k = omega arith in
    ap (◌∷◌ x) (
      overlay k c m old (omega arith) (omega arith)
      ∙ ap (λ n. take k (take c old) ++ replicate n 0) e)

-- What is left of the pointers held when the index is asked for `n` cells: all of them if it has
-- as many; after a reallocation the first eighth of the old size, with NULL in place of the others.
abbrev pub survivors : Index → ℕ → List Ptr
survivors i n =
    if leb n i.size
    then contents i
    else take (i.size / 8) (contents i) ++ replicate (i.count - i.size / 8) 0

-- The block that `allocate` leaves.
pub record Allocated (i : Index) (n : ℕ) : Type 0 where
  pub cells : List Ptr
  pub size : ℕ
  pub run : allocate i n ≡ some (record { cells = some cells; count = i.count; size = size })
  pub sized : length cells ≡ size
  pub enough : n ≤ size
  pub kept : take i.count cells ≡ survivors i n

abbrev pub index : Option (List Ptr) → ℕ → ℕ → Index
index cells count size = record { cells = cells; count = count; size = size }

pub count-le-size : (i : Index) → IsValid i → i.count ≤ i.size
count-le-size i v = go i.cells i.count i.size v
  where
    go : (cells : Option (List Ptr)) (c n : ℕ) → IsValid (index cells c n) → c ≤ n
    go none c n v = omega arith
    go (some d) c n v = v.1

pub length-contents : (i : Index) → IsValid i → length (contents i) ≡ i.count
length-contents i v = go i.cells i.count i.size v
  where
    go :
        (cells : Option (List Ptr)) (c n : ℕ)
        → IsValid (index cells c n)
        → length (contents_of cells c) ≡ c
    go none c n (e, f) = sym f
    go (some d) c n (l, h, p) = omega (arith, length-take c d)

-- The first block.
pub allocate_first : (n : ℕ) → 0 < n → n ≤ 2 ^ 30 → Allocated (index none 0 0) n
unfolding allocate copy_old
allocate_first n p s =
    let (size, run, wanted, grew) = double_until_lem 31 n 64 (omega arith) s (omega arith) in
    let more : leb n 0 ≡ false = ground arith in
    record {
      cells = replicate size 0;
      size = size;
      run = rw (more, run) refl;
      sized = length-replicate {A = ℕ} size 0;
      enough = wanted;
      kept = rw more refl;
    }

module _ (old : List Ptr) (count size n : ℕ) (l : length old ≡ size) (c : count ≤ size)
    (p : 0 < size) where
  pub allocate_has : n ≤ size → Allocated (index (some old) count size) n
  unfolding allocate
  allocate_has h = record {
    cells = old;
    size = size;
    run = rw (le→leb n size h) refl;
    sized = l;
    enough = h;
    kept = rw (le→leb n size h) refl;
  }

  pub allocate_grow :
      leb n size ≡ false → n ≤ 2 ^ 30 → count ≤ n → Allocated (index (some old) count size) n
  unfolding allocate copy_old
  allocate_grow more s cn =
      let (m, run, wanted, grew) = double_until_lem 31 n size p s (omega arith) in
      let moved = take (size / 8) old in
      let zeros : List Ptr = replicate m 0 in
      let fits : 0 + length moved ≤ length zeros =
        omega (arith, length-take (size / 8) old, length-replicate {A = ℕ} m 0) in
      let z : 0 + length moved ≡ length moved = omega arith in
      let pos : (size == 0) ≡ false = ground arith in
      record {
        cells = splice zeros 0 moved;
        size = m;
        run =
            rw (more, pos, run, read_range-some old 0 (size / 8) (omega arith))
              (rw (write_range-some zeros moved 0 fits) refl);
        sized = length-splice zeros moved 0 fits ∙ length-replicate {A = ℕ} m 0;
        enough = wanted;
        kept = rw more (
            ap (λ j. take count (moved ++ drop j zeros)) z
            ∙ overlay (size / 8) count m old (omega arith) (omega arith));
      }

pub allocate_lem :
    (i : Index) (n : ℕ) → IsValid i → 0 < n → n ≤ 2 ^ 30 → i.count ≤ n → Allocated i n
allocate_lem i n v p s c = go i.cells i.count i.size v c
  where
    go :
        (cells : Option (List Ptr)) (count size : ℕ)
        → IsValid (index cells count size)
        → count ≤ n
        → Allocated (index cells count size) n
    go none count size (e, f) c = rw (e, f) (allocate_first n p s)
    go (some old) count size (l, h, q) c = elim (Bool-cases (leb n size)) [
      | inl has ↦ allocate_has old count size n l h q (leb→le n size has)
      | inr more ↦ allocate_grow old count size n l h q more s c
    ]
