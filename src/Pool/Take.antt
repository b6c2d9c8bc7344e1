-- ===== src/Pool/Take.antt =====
-- Taking an element from the first block of the list.
use libmowgli.Base.{
  ℕ, ◌+◌, ◌-◌, ◌<◌, ◌≡◌, ◌≢◌, refl, ap, ◌∙◌, sym, subst, List, [], ◌∷◌, ◌++◌, Option, none, some,
  true, false, ◌==◌, All-append, All, All-map, ◌⊎◌, inl, inr, length, arith, append-nil,
}
use libmowgli.Nodes.{Ref, update}
use libmowgli.Nodes.Chain.{Apart, Distinct, Distinct-insert, update_same, update_other}
use libmowgli.Pool.{Block, Pool, take_from}
use libmowgli.Pool.Valid.{
  Store, IsBlock, IsUsed, IsEmpty, IsPool, Same-update, Same-Ordered, Same-free_sum, Same-IsUsed,
  Ordered-snoc, free_sum-append,
}

-- A block is on the list.
abbrev pub Listed : Ref → List Ref → Type 0
Listed c [] = ⊥
Listed c (b ∷ bs) = (c ≡ b) ⊎ Listed c bs

pub each_stays : (bs cs : List Ref) → All (λ c. Listed c (bs ++ cs)) bs
each_stays [] cs = tt
each_stays (b ∷ bs) cs = (
  inl refl,
  All-map (λ c. Listed c (bs ++ cs)) (λ c. Listed c (b ∷ (bs ++ cs))) bs (λ c. inr)
      (each_stays bs cs),
)

pub last_stays : (bs : List Ref) (b : Ref) → Listed b (bs ++ (b ∷ []))
last_stays [] b = inl refl
last_stays (c ∷ bs) b = inr (last_stays bs b)

pub same_stay : (bs : List Ref) → All (λ c. Listed c bs) bs
same_stay [] = tt
same_stay (b ∷ bs) =
    (inl refl, All-map (λ c. Listed c bs) (λ c. Listed c (b ∷ bs)) bs (λ c. inr) (same_stay bs))

-- The outcome of an allocation from the pool `p`: an element that was free, and is not any more.
-- Its block and all that were on the list are on the list. All other elements are free as before,
-- and the pool is well-formed.
pub record Taken (p : Pool) (run : Option (Pool × Ref × ℕ)) : Type 0 where
  pub pool : Pool
  pub block : Ref
  pub item : ℕ
  pub runs : run ≡ some (pool, block, item)
  pub valid : IsPool pool
  pub was_free : (p.store block).first_free ≡ item ∷ (pool.store block).first_free
  pub not_free : Apart item (pool.store block).first_free
  pub listed : Listed block pool.blocks
  pub stay : All (λ c. Listed c pool.blocks) p.blocks
  pub others : (c : Ref) → c ≢ block → pool.store c ≡ p.store c

abbrev pub pool : ℕ → ℕ → List Ref → Option Ref → Store → Pool
pool n f bs e s = record { elems = n; free_elems = f; blocks = bs; empty_block = e; store = s }

-- The block of a pool with its first free element taken.
abbrev pub cut : Store → Ref → List ℕ → Block
cut s b rest = record { first_free = rest; num_allocated = (s b).num_allocated + 1 }

abbrev pub taken : Store → Ref → List ℕ → Store
taken s b rest = update s b (cut s b rest)

module _ (n : ℕ) (s : Store) (b : Ref) (i : ℕ) (rest : List ℕ)
    (k : (s b).first_free ≡ i ∷ rest) where
  pub taken-IsBlock : IsBlock n (s b) → IsBlock n (taken s b rest b)
  taken-IsBlock u =
      let d = subst Distinct k u.1 in
      subst (IsBlock n) (sym (update_same s b (cut s b rest)))
        (omega (arith, ap length k, u.0), d.1)

  pub taken-positive : 0 < (taken s b rest b).num_allocated
  taken-positive =
      let e = ap (λ (z : Block). z.num_allocated) (update_same s b (cut s b rest)) in
      omega (arith, e)

  pub taken-free : (taken s b rest b).first_free ≡ rest
  taken-free = ap (λ (z : Block). z.first_free) (update_same s b (cut s b rest))

-- The empty block is untouched by a change to another block.
pub IsEmpty-update :
    (n : ℕ) (s : Store) (b : Ref) (v : Block) (bs : List Ref) (e : Option Ref)
    → IsEmpty n s (b ∷ bs) e
    → IsEmpty n (update s b v) (b ∷ bs) e
IsEmpty-update n s b v bs none h = tt
IsEmpty-update n s b v bs (some e) h =
    subst (λ (z : Block). Apart e (b ∷ bs) × IsBlock n z × (z.num_allocated ≡ 0))
      (sym (update_other s b v e (λ k. h.0.0 (sym k)))) h

pub IsEmpty-last :
    (n : ℕ) (s : Store) (b : Ref) (bs : List Ref) (e : Option Ref)
    → IsEmpty n s (b ∷ bs) e
    → IsEmpty n s (bs ++ (b ∷ [])) e
IsEmpty-last n s b bs none h = tt
IsEmpty-last n s b bs (some e) h = (All-append (λ c. c ≢ e) bs (b ∷ []) h.0.1 (h.0.0, tt), h.1, h.2)

module _ (n f : ℕ) (bs : List Ref) (e : Option Ref) (s : Store) (b : Ref) (i : ℕ)
    (v : IsPool (pool n f (b ∷ bs) e s)) where
  pub from_head :
      (rest : List ℕ)
      → (s b).first_free ≡ i ∷ rest
      → Taken (pool n f (b ∷ bs) e s) (take_from (pool n f (b ∷ bs) e s) b (i ∷ rest))
  unfolding take_from
  from_head [] k =
      let t = taken s b [] in
      let same = Same-update s b (cut s b []) bs v.distinct.0 in
      let free = taken-free n s b i [] k in
      let again : ((s b).num_allocated + 1 == 1) ≡ false = ground (arith, v.used.0.1) in
      let self : (b == b) ≡ true = ground arith in
      let whole = sym (append-nil bs) in
      record {
        pool = pool n (f - 1) (bs ++ (b ∷ [])) e t;
        block = b;
        item = i;
        runs = rw (again, self) refl;
        valid = record {
          sized = v.sized;
          distinct =
              Distinct-insert b bs [] (subst Distinct whole v.distinct.1)
                (subst (Apart b) whole v.distinct.0);
          used =
              All-append (IsUsed n t) bs (b ∷ []) (Same-IsUsed n s t bs same v.used.1)
                ((taken-IsBlock n s b i [] k v.used.0.0, taken-positive n s b i [] k), tt);
          empty = IsEmpty-last n t b bs e (IsEmpty-update n s b (cut s b []) bs e v.empty);
          ordered = Ordered-snoc t bs b (Same-Ordered s t bs same v.ordered.1) free;
          counted = omega (
            arith,
            v.counted,
            ap length free,
            ap length k,
            Same-free_sum s t bs same,
            free_sum-append t bs (b ∷ []),
          );
        };
        was_free = k ∙ ap (◌∷◌ i) (sym free);
        not_free = subst (Apart i) (sym free) (subst Distinct k v.used.0.0.1).0;
        listed = last_stays bs b;
        stay = (last_stays bs b, each_stays bs (b ∷ []));
        others = λ c h. update_other s b (cut s b []) c h;
      }
  from_head (j ∷ rest) k =
      let t = taken s b (j ∷ rest) in
      let same = Same-update s b (cut s b (j ∷ rest)) bs v.distinct.0 in
      let free = taken-free n s b i (j ∷ rest) k in
      let again : ((s b).num_allocated + 1 == 1) ≡ false = ground (arith, v.used.0.1) in
      record {
        pool = pool n (f - 1) (b ∷ bs) e t;
        block = b;
        item = i;
        runs = rw again refl;
        valid = record {
          sized = v.sized;
          distinct = v.distinct;
          used = (
            (taken-IsBlock n s b i (j ∷ rest) k v.used.0.0, taken-positive n s b i (j ∷ rest) k),
            Same-IsUsed n s t bs same v.used.1,
          );
          empty = IsEmpty-update n s b (cut s b (j ∷ rest)) bs e v.empty;
          ordered = (
            (λ g. absurd (omega (arith, ap length (sym free ∙ g)))),
            Same-Ordered s t bs same v.ordered.1,
          );
          counted =
              omega (arith, v.counted, ap length free, ap length k, Same-free_sum s t bs same);
        };
        was_free = k ∙ ap (◌∷◌ i) (sym free);
        not_free = subst (Apart i) (sym free) (subst Distinct k v.used.0.0.1).0;
        listed = inl refl;
        stay = same_stay (b ∷ bs);
        others = λ c h. update_other s b (cut s b (j ∷ rest)) c h;
      }
