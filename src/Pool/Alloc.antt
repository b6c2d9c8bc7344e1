-- ===== src/Pool/Alloc.antt =====
-- Allocation from a pool.
use libmowgli.Base.{
  All-map, ℕ, ◌+◌, ◌-◌, ◌<◌, ◌≡◌, refl, ap, ◌∙◌, sym, subst, List, [], ◌∷◌, Option, none, some,
  true, false, ◌==◌, if◌then◌else◌, length, arith, Bool-cases, inl, inr,
}
use libmowgli.Nodes.{Ref, update}
use libmowgli.Nodes.Chain.{Apart, Distinct, update_same, update_other}
use libmowgli.Pool.{Block, Pool, chain, expand, pick, take_from, take_picked, alloc_ready, alloc}
use libmowgli.Pool.Valid.{
  Store, free_sum, IsBlock, IsPool, Same-update, Same-Ordered, Same-free_sum, Same-IsUsed,
  free_sum-Full, chain-IsBlock,
}
use libmowgli.Pool.Take.{
  Listed, same_stay, Taken, pool, cut, taken, taken-IsBlock, taken-positive, taken-free, from_head,
}

module _ (n f : ℕ) (bs : List Ref) (b : Ref) (s : Store) (i : ℕ)
    (v : IsPool (pool n f bs (some b) s)) where
  from_empty :
      (rest : List ℕ)
      → (s b).first_free ≡ i ∷ rest
      → Taken (pool n f bs (some b) s) (take_from (pool n f bs (some b) s) b (i ∷ rest))
  unfolding take_from
  from_empty rest k =
      let t = taken s b rest in
      let same = Same-update s b (cut s b rest) bs v.empty.0 in
      let free = taken-free n s b i rest k in
      let first : ((s b).num_allocated + 1 == 1) ≡ true = ground (arith, v.empty.2) in
      record {
        pool = pool n (f - 1) (b ∷ bs) none t;
        block = b;
        item = i;
        runs = rw first refl;
        valid = record {
          sized = v.sized;
          distinct = (v.empty.0, v.distinct);
          used = (
            (taken-IsBlock n s b i rest k v.empty.1, taken-positive n s b i rest k),
            Same-IsUsed n s t bs same v.used,
          );
          empty = tt;
          ordered = (
            (λ g. absurd (
                omega
                  (arith, ap length (sym free ∙ g), ap length k, v.empty.1.0, v.empty.2, v.sized))),
            Same-Ordered s t bs same v.ordered,
          );
          counted = omega (
            arith,
            v.counted,
            ap length free,
            ap length k,
            Same-free_sum s t bs same,
            v.empty.1.0,
            v.empty.2,
            v.sized,
          );
        };
        was_free = k ∙ ap (◌∷◌ i) (sym free);
        not_free = subst (Apart i) (sym free) (subst Distinct k v.empty.1.1).0;
        listed = inl refl;
        stay = All-map (λ c. Listed c bs) (λ c. Listed c (b ∷ bs)) bs (λ c. inr) (same_stay bs);
        others = λ c h. update_other s b (cut s b rest) c h;
      }

-- With no free element on the list, the empty block is there.
from_spare :
    (n f : ℕ) (bs : List Ref) (e : Option Ref) (s : Store)
    → IsPool (pool n f bs e s)
    → 0 < f
    → free_sum s bs ≡ 0
    → Taken (pool n f bs e s) (take_picked (pool n f bs e s) e)
from_spare n f bs none s v p z = absurd (omega (arith, v.counted))
from_spare n f bs (some b) s v p z = at (s b).first_free refl
  where
    at :
        (free : List ℕ)
        → (s b).first_free ≡ free
        → Taken (pool n f bs (some b) s) (take_from (pool n f bs (some b) s) b free)
    at [] k = absurd (omega (arith, ap length k, v.empty.1.0, v.empty.2, v.sized))
    at (i ∷ rest) k = from_empty n f bs b s i v rest k

alloc_ready-Taken :
    (n f : ℕ) (bs : List Ref) (e : Option Ref) (s : Store)
    → IsPool (pool n f bs e s)
    → 0 < f
    → Taken (pool n f bs e s) (alloc_ready (pool n f bs e s))
unfolding alloc_ready pick
alloc_ready-Taken n f [] e s v p = from_spare n f [] e s v p refl
alloc_ready-Taken n f (b ∷ bs) e s v p = at (s b).first_free refl
  where
    at :
        (free : List ℕ)
        → (s b).first_free ≡ free
        → Taken
            (pool n f (b ∷ bs) e s)
            (take_picked (pool n f (b ∷ bs) e s) (elim free [ [] ↦ e | _ ∷ _ ↦ some b ]))
    at [] k =
        from_spare n f (b ∷ bs) e s v p
          (omega (arith, ap length k, free_sum-Full s bs (v.ordered.0 k)))
    at (i ∷ rest) k =
        subst (λ l. Taken (pool n f (b ∷ bs) e s) (take_from (pool n f (b ∷ bs) e s) b l)) (sym k)
          (from_head n f bs e s b i v rest k)

expand-IsPool :
    (n f : ℕ) (bs : List Ref) (new : Ref) (s : Store)
    → IsPool (pool n f bs none s)
    → Apart new bs
    → IsPool (expand new (pool n f bs none s))
unfolding expand
expand-IsPool n f bs new s v a =
    let block : Block = record { first_free = chain n; num_allocated = 0 } in
    let t = update s new block in
    let same = Same-update s new block bs a in
    record {
      sized = v.sized;
      distinct = v.distinct;
      used = Same-IsUsed n s t bs same v.used;
      empty =
          subst (λ (z : Block). Apart new bs × IsBlock n z × (z.num_allocated ≡ 0))
            (sym (update_same s new block)) (a, chain-IsBlock n, refl);
      ordered = Same-Ordered s t bs same v.ordered;
      counted = omega (arith, v.counted, Same-free_sum s t bs same);
    }

-- The pool that an allocation takes its element from.
unfoldable pub expanded : Ref → Pool → Pool
expanded new p = if p.free_elems == 0 then expand new p else p

alloc_at :
    (new : Ref) (n f : ℕ) (bs : List Ref) (e : Option Ref) (s : Store)
    → IsPool (pool n f bs e s)
    → Apart new bs
    → Taken (expanded new (pool n f bs e s)) (alloc new (pool n f bs e s))
unfolding alloc expand expanded
alloc_at new n f bs (some b) s v a =
    let ready : (f == 0) ≡ false = ground (arith, v.counted, v.sized) in
    rw ready (alloc_ready-Taken n f bs (some b) s v (omega (arith, v.counted, v.sized)))
alloc_at new n f bs none s v a = elim (Bool-cases (f == 0)) [
  | inr ready ↦ rw ready (alloc_ready-Taken n f bs none s v (ground arith))
  | inl z ↦
      let more : (f + n == 0) ≡ false = ground (arith, v.sized) in
      let t = update s new (record { first_free = chain n; num_allocated = 0 }) in
      rw (z, more)
        (alloc_ready-Taken n (f + n) bs (some new) t (expand-IsPool n f bs new s v a)
          (omega (arith, v.sized)))
]

-- From a well-formed pool (full blocks stand last, and the free elements of every block and of
-- the pool are counted rightly), with a new block at a fresh address if the pool has no free
-- element, `mowgli_heap_alloc` ends with an element. It was free, also in a block just added, and
-- is not any more; its block and all that were on the list of blocks are on that list, all other
-- blocks are as before, and the pool is well-formed.
pub alloc-Taken :
    (new : Ref) (p : Pool) → IsPool p → Apart new p.blocks → Taken (expanded new p) (alloc new p)
alloc-Taken new p v a = alloc_at new p.elems p.free_elems p.blocks p.empty_block p.store v a
