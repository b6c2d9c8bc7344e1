-- ===== src/Pool/Tests.antt =====
-- A pool of two blocks.
use libmowgli.Base.{refl, [], ◌∷◌, none, ◌==◌, if◌then◌else◌, arith}
use libmowgli.Pool.{Pool, alloc, free}
use libmowgli.Pool.Valid.{IsPool}
use libmowgli.Pool.Take.{Taken}
use libmowgli.Pool.Alloc.{expanded, alloc-Taken}
use libmowgli.Pool.Free.{Given, free-Given}

-- The block 1 has one of its three elements allocated, the block 2 is full.
abbrev two : Pool
two = record {
  elems = 3;
  free_elems = 2;
  blocks = 1 ∷ 2 ∷ [];
  empty_block = none;
  store = λ b.
      if b == 1
      then record { first_free = 1 ∷ 0 ∷ []; num_allocated = 1 }
      else record { first_free = []; num_allocated = 3 };
}

two-IsPool : IsPool two
two-IsPool = record {
  sized = omega arith;
  distinct = (((λ e. omega arith), tt), (tt, tt));
  used = (
    ((refl, (((λ e. omega arith), tt), (tt, tt))), omega arith),
    (((refl, tt), omega arith), tt),
  );
  empty = tt;
  ordered = ((λ g. (refl, tt)), ((λ g. tt), tt));
  counted = refl;
}

alloc-Taken_example : Taken (expanded 7 two) (alloc 7 two)
alloc-Taken_example = alloc-Taken 7 two two-IsPool ((λ e. omega arith), ((λ e. omega arith), tt))

free-Given_example : Given two 2 1 (free 2 1 two)
free-Given_example = free-Given two (1 ∷ []) [] 2 1 two-IsPool refl tt
