-- ===== src/Pool/Free.antt =====
-- Giving an element back to a pool.
use libmowgli.Base.{
  ℕ, ◌+◌, ◌-◌, ◌<◌, ◌≡◌, ◌≢◌, refl, ap, sym, subst, List, ◌∷◌, ◌++◌, Option, none, some, true,
  false, ◌==◌, All, All-append, All-left, All-right, length, arith, Bool-cases, inl, inr,
}
use libmowgli.Nodes.{Ref, update}
use libmowgli.Nodes.Chain.{Apart, Distinct-remove, update_same, update_other}
use libmowgli.Pool.{Block, Pool, without, shrink, settle_free, free}
use libmowgli.Pool.Valid.{
  Store, free_sum, IsBlock, IsUsed, spare, IsPool, Same, Same-update, Same-Ordered, Same-free_sum,
  Same-IsUsed, Ordered-remove, free_sum-append,
}
use libmowgli.Pool.Take.{pool}
use libmowgli.Pool.Change.{without-remove, Ordered-change, IsEmpty-kept, IsEmpty-moved}

abbrev given : Store → Ref → ℕ → Block
given s b i = record { first_free = i ∷ (s b).first_free; num_allocated = (s b).num_allocated - 1 }

-- The outcome of giving back the element `i` of the block `b`: a well-formed pool in which it is
-- free, and all other elements are as before.
pub record Given (p : Pool) (b : Ref) (i : ℕ) (run : Option Pool) : Type 0 where
  pub after : Pool
  pub runs : run ≡ some after
  pub valid : IsPool after
  pub is_free : (after.store b).first_free ≡ i ∷ (p.store b).first_free
  pub others : (c : Ref) → c ≢ b → after.store c ≡ p.store c

module _ (n f : ℕ) (xs ys : List Ref) (e : Option Ref) (s : Store) (b : Ref) (i : ℕ)
    (v : IsPool (pool n f (xs ++ (b ∷ ys)) e s)) (out : Apart i (s b).first_free) where
  abbrev rest : List Ref
  rest = xs ++ ys

  abbrev whole : List Ref
  whole = xs ++ (b ∷ ys)

  abbrev next : Store
  next = update s b (given s b i)

  apart : Apart b rest
  apart = (Distinct-remove b xs ys v.distinct).1

  used : IsUsed n s b
  used = (All-right (IsUsed n s) xs (b ∷ ys) v.used).0

  block_is : next b ≡ given s b i
  block_is = update_same s b (given s b i)

  next-IsBlock : IsBlock n (next b)
  next-IsBlock = subst (IsBlock n) (sym block_is) (omega (arith, used.0.0, used.1), (out, used.0.1))

  same : Same s next rest
  same = Same-update s b (given s b i) rest apart

  -- The free elements, with those of the block apart.
  sum_before : free_sum s whole ≡ free_sum s rest + length (s b).first_free
  sum_before = omega (arith, free_sum-append s xs (b ∷ ys), free_sum-append s xs ys)

  sum_after : free_sum next rest ≡ free_sum s rest
  sum_after = Same-free_sum s next rest same

  size_after : length (next b).first_free ≡ length (s b).first_free + 1
  size_after = omega (arith, ap (λ (z : Block). length z.first_free) block_is)

  count_after : (next b).num_allocated ≡ (s b).num_allocated - 1
  count_after = ap (λ (z : Block). z.num_allocated) block_is

  rest-IsUsed : All (IsUsed n s) rest
  rest-IsUsed =
      All-append (IsUsed n s) xs ys (All-left (IsUsed n s) xs (b ∷ ys) v.used)
        (All-right (IsUsed n s) xs (b ∷ ys) v.used).1

  -- The last allocated element of the block was given back.
  emptied :
      (f' : ℕ)
      → (s b).num_allocated ≡ 1
      → f' + spare n e ≡ f + 1
      → IsPool (pool n f' rest (some b) next)
  emptied f' one c = record {
    sized = v.sized;
    distinct = (Distinct-remove b xs ys v.distinct).0;
    used = Same-IsUsed n s next rest same rest-IsUsed;
    empty = (apart, next-IsBlock, omega (arith, count_after, one));
    ordered = Same-Ordered s next rest same (Ordered-remove s xs ys b v.ordered);
    counted = omega (arith, v.counted, c, one, used.0.0, sum_before, sum_after);
  }

  -- The block was full.
  reopened : 1 < (s b).num_allocated → IsPool (pool n (f + 1) (b ∷ rest) e next)
  reopened more = record {
    sized = v.sized;
    distinct = (apart, (Distinct-remove b xs ys v.distinct).0);
    used = ((next-IsBlock, omega (arith, count_after)), Same-IsUsed n s next rest same rest-IsUsed);
    empty = IsEmpty-moved n s b (given s b i) xs ys e v.empty;
    ordered = (
      (λ g. absurd (omega (arith, ap length g, size_after))),
      Same-Ordered s next rest same (Ordered-remove s xs ys b v.ordered),
    );
    counted = omega (arith, v.counted, sum_before, sum_after, size_after);
  }

  -- The block stays where it is.
  kept : 1 < (s b).num_allocated → (s b).num_allocated < n → IsPool (pool n (f + 1) whole e next)
  kept more less =
      let left = All-left (λ c. c ≢ b) xs ys apart in
      let right = All-right (λ c. c ≢ b) xs ys apart in
      record {
        sized = v.sized;
        distinct = v.distinct;
        used =
            All-append (IsUsed n next) xs (b ∷ ys)
              (Same-IsUsed n s next xs (Same-update s b (given s b i) xs left)
                (All-left (IsUsed n s) xs (b ∷ ys) v.used))
              (
                (next-IsBlock, omega (arith, count_after)),
                Same-IsUsed n s next ys (Same-update s b (given s b i) ys right)
                    (All-right (IsUsed n s) xs (b ∷ ys) v.used).1,
              );
        empty = IsEmpty-kept n s b (given s b i) xs ys e v.empty;
        ordered =
            Ordered-change s b (given s b i) xs ys left right (omega (arith, used.0.0))
              (omega arith) v.ordered;
        counted = omega (
          arith,
          v.counted,
          sum_before,
          sum_after,
          size_after,
          free_sum-append next xs (b ∷ ys),
          free_sum-append next xs ys,
        );
      }

  removed : without b whole ≡ rest
  removed = without-remove b xs ys (All-left (λ c. c ≢ b) xs ys apart)

  others_kept : (c : Ref) → c ≢ b → next c ≡ s c
  others_kept c h = update_other s b (given s b i) c h

  free_block : (next b).first_free ≡ i ∷ (s b).first_free
  free_block = ap (λ (z : Block). z.first_free) block_is

-- The block becomes the empty block, and an old empty block goes back to the system.
free_last :
    (n f : ℕ) (xs ys : List Ref) (e : Option Ref) (s : Store) (b : Ref) (i : ℕ)
    → IsPool (pool n f (xs ++ (b ∷ ys)) e s)
    → Apart i (s b).first_free
    → (s b).num_allocated ≡ 1
    → Given (pool n f (xs ++ (b ∷ ys)) e s) b i (free b i (pool n f (xs ++ (b ∷ ys)) e s))
unfolding free shrink
free_last n f xs ys none s b i v out one = record {
  after = pool n (f + 1) (xs ++ ys) (some b) (next n f xs ys none s b i v out);
  runs =
      let some_left : ((s b).num_allocated == 0) ≡ false = ground arith in
      let z : ((s b).num_allocated - 1 == 0) ≡ true = ground arith in
      rw (some_left, z, removed n f xs ys none s b i v out) refl;
  valid = emptied n f xs ys none s b i v out (f + 1) one (omega arith);
  is_free = free_block n f xs ys none s b i v out;
  others = others_kept n f xs ys none s b i v out;
}
free_last n f xs ys (some c) s b i v out one = record {
  after = pool n (f + 1 - n) (xs ++ ys) (some b) (next n f xs ys (some c) s b i v out);
  runs =
      let some_left : ((s b).num_allocated == 0) ≡ false = ground arith in
      let z : ((s b).num_allocated - 1 == 0) ≡ true = ground arith in
      let self : (c == c) ≡ true = ground arith in
      rw (some_left, z, self, removed n f xs ys (some c) s b i v out) refl;
  valid = emptied n f xs ys (some c) s b i v out (f + 1 - n) one (omega (arith, v.counted));
  is_free = free_block n f xs ys (some c) s b i v out;
  others = others_kept n f xs ys (some c) s b i v out;
}

free_at :
    (n f : ℕ) (xs ys : List Ref) (e : Option Ref) (s : Store) (b : Ref) (i : ℕ)
    → IsPool (pool n f (xs ++ (b ∷ ys)) e s)
    → Apart i (s b).first_free
    → Given (pool n f (xs ++ (b ∷ ys)) e s) b i (free b i (pool n f (xs ++ (b ∷ ys)) e s))
unfolding free settle_free
free_at n f xs ys e s b i v out =
    let u = used n f xs ys e s b i v out in
    let some_left : ((s b).num_allocated == 0) ≡ false = ground (arith, u.1) in
    elim (Bool-cases ((s b).num_allocated - 1 == 0)) [
      | inl z ↦ free_last n f xs ys e s b i v out (ground (arith, u.1))
      | inr nz ↦ elim (Bool-cases ((s b).num_allocated - 1 == n - 1)) [
        | inl full ↦ record {
          after = pool n (f + 1) (b ∷ (xs ++ ys)) e (next n f xs ys e s b i v out);
          runs = rw (some_left, nz, full, removed n f xs ys e s b i v out) refl;
          valid = reopened n f xs ys e s b i v out (ground arith);
          is_free = free_block n f xs ys e s b i v out;
          others = others_kept n f xs ys e s b i v out;
        }
        | inr not_full ↦ record {
          after = pool n (f + 1) (xs ++ (b ∷ ys)) e (next n f xs ys e s b i v out);
          runs = rw (some_left, nz, not_full) refl;
          valid = kept n f xs ys e s b i v out (ground arith) (ground (arith, u.0.0));
          is_free = free_block n f xs ys e s b i v out;
          others = others_kept n f xs ys e s b i v out;
        }
      ]
    ]

-- `mowgli_heap_free` of an element that is not free, of a block on the list of a well-formed
-- pool, ends with a well-formed pool in which the element is the first free one of its block.
-- Whether the block becomes the empty block, moves to the front or stays, all other blocks hold
-- what they held.
pub free-Given :
    (p : Pool) (xs ys : List Ref) (b : Ref) (i : ℕ)
    → IsPool p
    → p.blocks ≡ xs ++ (b ∷ ys)
    → Apart i (p.store b).first_free
    → Given p b i (free b i p)
free-Given p xs ys b i v e out =
    let same : p ≡ pool p.elems p.free_elems (xs ++ (b ∷ ys)) p.empty_block p.store =
      ap (λ bs. pool p.elems p.free_elems bs p.empty_block p.store) e in
    subst (λ q. Given q b i (free b i q)) (sym same)
      (free_at p.elems p.free_elems xs ys p.empty_block p.store b i (subst IsPool same v) out)
