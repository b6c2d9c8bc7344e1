-- ===== src/Dictionary/Lookup.antt =====
-- The dictionary as a map, its invariant, and `find` and `retrieve` on it.
use Prim.Native.Nat.{Ordering}
use libmowgli.Base.{
  ℕ, suc, ◌≡◌, refl, ap, ◌∙◌, sym, subst, List, [], ◌∷◌, inl, inr, ◌⊎◌, Option-cases, Option, some,
  none, false, length,
}
use libmowgli.Memory.{◌>>=◌}
use libmowgli.Dictionary.{
  Ref, Elem, Tree, leaf, node, Dict, retune_tree, retune, root_if, find, retrieve,
}
use libmowgli.Dictionary.Inorder.{inorder}
use libmowgli.Dictionary.Order.{IsOrder, Sorted, Sorted-right, Sorted-cross, above, below, beside}
use libmowgli.Dictionary.Map.{
  key_at, find_key, look, find_key_hit, find_key_skip, find_key_between, ne_of_gt,
}
use libmowgli.Dictionary.Search.{Nearest, retune_tree-Retuned}

module _ {K : Type 0} where
  -- The positions count the list from `i` on.
  abbrev pub Numbered : (Ref → Elem K) → ℕ → List Ref → Type 0
  Numbered store i [] = Unit
  Numbered store i (x ∷ xs) = ((store x).position ≡ i) × Numbered store (suc i) xs

module _ {K : Type 0} (cmp : K → K → Ordering) where
  -- Tree and list hold the same elements in the same sequence, sorted by strictly rising keys; the
  -- count is right, and the positions are while the dictionary is not marked as dirty.
  pub record IsValid (d : Dict K) : Type 0 where
    pub linked : inorder d.root ≡ d.order
    pub sorted : Sorted cmp (key_at d.store) d.order
    pub counted : d.count ≡ length d.order
    pub numbered : d.dirty ≡ false → Numbered d.store 0 d.order

module _ {K : Type 0} (cmp : K → K → Ordering) (o : IsOrder cmp) (store : Ref → Elem K)
    (key : K) where
  -- The root after a search has the key if any element has it.
  root_if-find_key :
      (l r : Tree) (x : Ref)
      → Sorted cmp (key_at store) (inorder (node l x r))
      → Nearest cmp o store key (node l x r)
      → root_if cmp store key (node l x r) ≡ find_key cmp (key_at store) key (inorder (node l x r))
  unfolding root_if
  root_if-find_key l r x s (inl e) =
      let (before, _) = beside cmp (key_at store) o key x (inorder l) (inorder r) e s in
      rw (e, root_if)
        (sym (
          find_key_skip cmp (key_at store) key (inorder l) (x ∷ inorder r)
            (ne_of_gt cmp (key_at store) key (inorder l) before)
          ∙ find_key_hit cmp (key_at store) key x (inorder r) e))
  root_if-find_key l r x s (inr (inl (e, h))) =
      let behind =
        above cmp (key_at store) o key x (inorder r) e
          (Sorted-right cmp (key_at store) (inorder l) (x ∷ inorder r) s) in
      rw (e, root_if)
        (sym (find_key_between cmp (key_at store) key x (inorder l) (inorder r) h behind (λ f. cc)))
  root_if-find_key l r x s (inr (inr (e, h))) =
      let before =
        below cmp (key_at store) o key x (inorder l) e
          (Sorted-cross cmp (key_at store) (inorder l) (inorder r) x s) in
      rw (e, root_if)
        (sym (find_key_between cmp (key_at store) key x (inorder l) (inorder r) before h (λ f. cc)))

  -- The outcome of a retuning: the same map, at a tree that the search has ended in.
  pub record Tuned (d : Dict K) (run : Option (Dict K)) : Type 0 where
    pub tree : Tree
    pub runs : run ≡ some (record d { root = tree })
    pub valid : IsValid cmp (record d { root = tree })
    pub root_is : root_if cmp store key tree ≡ find_key cmp (key_at store) key d.order
    pub nearest : (tree ≡ leaf) ⊎ Nearest cmp o store key tree

module _ {K : Type 0} (cmp : K → K → Ordering) (o : IsOrder cmp) (d : Dict K) (key : K)
    (v : IsValid cmp d) where
  Tuned-at :
      (t : Tree)
      → inorder t ≡ d.order
      → Nearest cmp o d.store key t
      → Tuned cmp o d.store key d (some (record d { root = t }))
  Tuned-at leaf e n = absurd n
  Tuned-at (node l x r) e n = record {
    tree = node l x r;
    runs = refl;
    valid = record { linked = e; sorted = v.sorted; counted = v.counted; numbered = v.numbered };
    root_is =
        root_if-find_key cmp o d.store key l r x
          (subst (Sorted cmp (key_at d.store)) (sym e) v.sorted) n
        ∙ ap (find_key cmp (key_at d.store) key) e;
    nearest = inr n;
  }

  retune_at :
      (t : Tree)
      → inorder t ≡ d.order
      → Tuned cmp o d.store key d
          (retune_tree cmp d.store key t >>= λ t'. some (record d { root = t' }))
  retune_at leaf e = record {
    tree = leaf;
    runs = unfold retune_tree in refl;
    valid = record { linked = e; sorted = v.sorted; counted = v.counted; numbered = v.numbered };
    root_is = rw (← e) (unfold root_if find_key in refl);
    nearest = inl refl;
  }
  retune_at (node l x r) e =
      let q =
        retune_tree-Retuned cmp o d.store key l r x
          (subst (Sorted cmp (key_at d.store)) (sym e) v.sorted) in
      rw q.runs (Tuned-at q.tree (q.elements ∙ e) q.nearest)

  -- For a comparator that orders the keys and a well-formed dictionary (tree and list hold the
  -- same elements, sorted, and count and positions are right): `retune` ends, whatever the
  -- shape of the tree. It changes only the tree, which keeps its elements in their sequence,
  -- and afterwards the root has the key if any element has it, and is else a neighbour of the
  -- key.
  pub retune-Tuned : Tuned cmp o d.store key d (retune cmp d key)
  unfolding retune
  retune-Tuned = retune_at d.root v.linked

  -- For a comparator that orders the keys and a well-formed dictionary (tree and list hold the
  -- same elements, sorted, and count and positions are right): `find` ends, gives the element
  -- with the key exactly if there is one, and keeps the elements, their sequence and the well-
  -- formedness.
  pub find-find_key :
      (t : Tree) × (find cmp d key
        ≡ some (record d { root = t }, find_key cmp (key_at d.store) key d.order))
      × IsValid cmp (record d { root = t })
  unfolding find
  find-find_key = let q = retune-Tuned in (q.tree, rw (q.runs, q.root_is) refl, q.valid)

  -- For a comparator that orders the keys and a well-formed dictionary (tree and list hold the
  -- same elements, sorted, and count and positions are right): `retrieve` ends, gives the value
  -- that the key has in the map, or NULL, and changes only the shape of the tree.
  pub retrieve-look :
      (t : Tree) × (retrieve cmp d key
        ≡ some (record d { root = t }, elim (look cmp d key) [ some w ↦ w | none ↦ 0 ]))
      × IsValid cmp (record d { root = t })
  unfolding retrieve
  retrieve-look =
      let (t, run, valid) = find-find_key in
      (
        t,
        elim (Option-cases (find_key cmp (key_at d.store) key d.order)) [
          | inl e ↦ rw (run, e) refl
          | inr (x, e) ↦ rw (run, e) refl
        ],
        valid,
      )
