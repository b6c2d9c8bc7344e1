-- ===== src/Dictionary/Link.antt =====
-- `link`: a new element in the tree and on the list.
use Prim.Native.Nat.{Ordering, lt, eq, gt}
use libmowgli.Base.{
  ◌+◌, ◌≡◌, ◌≢◌, refl, ap, ◌∙◌, sym, subst, List, [], ◌∷◌, ◌++◌, append_assoc, arith, inl, inr,
  Option, some, true, All, All-append, All-right,
}
use libmowgli.Dictionary.{
  Ref, Tree, leaf, node, Dict, retune, link_at, link_root, marked, insert_before, insert_after,
}
use libmowgli.Dictionary.Inorder.{inorder}
use libmowgli.Dictionary.Order.{
  IsOrder, Sorted, AllIs, Sorted-right, Sorted-cross, above, below, before_ne,
}
use libmowgli.Dictionary.Search.{Nearest, retune_tree-Retuned}
use libmowgli.Dictionary.Map.{key_at}

pub insert_before_lem :
    (x n : Ref) (xs ys : List Ref)
    → All (λ y. y ≢ x) xs
    → insert_before x n (xs ++ (x ∷ ys)) ≡ xs ++ (n ∷ x ∷ ys)
unfolding insert_before
insert_before_lem x n [] ys h = ground arith
insert_before_lem x n (y ∷ xs) ys h = ground (arith, insert_before_lem x n xs ys h.1)

pub insert_after_lem :
    (x n : Ref) (xs ys : List Ref)
    → All (λ y. y ≢ x) xs
    → insert_after x n (xs ++ (x ∷ ys)) ≡ xs ++ (x ∷ n ∷ ys)
unfolding insert_after
insert_after_lem x n [] ys h = ground arith
insert_after_lem x n (y ∷ xs) ys h = ground (arith, insert_after_lem x n xs ys h.1)

module _ {K : Type 0} (cmp : K → K → Ordering) where
  -- The new element stands between the smaller and the greater keys, in the tree and on the list.
  pub record Placed (d : Dict K) (new : Ref) (run : Option (Dict K)) : Type 0 where
    pub after : Dict K
    pub runs : run ≡ some after
    pub front : List Ref
    pub back : List Ref
    pub split : d.order ≡ front ++ back
    pub placed : after.order ≡ front ++ (new ∷ back)
    pub linked : inorder after.root ≡ after.order
    pub below_new : AllIs cmp (key_at d.store) gt (d.store new).key front
    pub above_new : AllIs cmp (key_at d.store) lt (d.store new).key back
    pub same : after.store ≡ d.store
    pub counted : after.count ≡ d.count + 1
    pub is_dirty : after.dirty ≡ true

module _ {K : Type 0} (cmp : K → K → Ordering) (o : IsOrder cmp) (d : Dict K) (new : Ref) where
  abbrev pub new_key : K
  new_key = (d.store new).key

  abbrev pub Absent : List Ref → Type 0
  Absent = All (λ y. cmp new_key (key_at d.store y) ≢ eq)

  pub link_at-Placed :
      (t : Tree)
      → inorder t ≡ d.order
      → Sorted cmp (key_at d.store) d.order
      → Absent d.order
      → Nearest cmp o d.store new_key t
      → Placed cmp d new (link_at cmp (record (marked d) { root = t }) new t)
  unfolding link_at
  link_at-Placed leaf e s a n = absurd n
  link_at-Placed (node l x r) e s a (inl h) = absurd (
      (All-right (λ y. cmp new_key (key_at d.store y) ≢ eq) (inorder l) (x ∷ inorder r)
          (subst Absent (sym e) a)).0
        h)
  link_at-Placed (node l x r) e s a (inr (inl (h, k))) =
      let s' = subst (Sorted cmp (key_at d.store)) (sym e) s in
      let s'' = Sorted-right cmp (key_at d.store) (inorder l) (x ∷ inorder r) s' in
      let apart = before_ne cmp (key_at d.store) o (inorder l) (inorder r) x s' in
      let spot =
        ap (insert_before x new) (sym e) ∙ insert_before_lem x new (inorder l) (inorder r) apart in
      rw (h, link_at)
        (record {
          after = record (marked d) {
            root = node l new (node leaf x r);
            order = insert_before x new d.order;
          };
          runs = refl;
          front = inorder l;
          back = x ∷ inorder r;
          split = sym e;
          placed = spot;
          linked = sym spot;
          below_new = k;
          above_new = (h, above cmp (key_at d.store) o new_key x (inorder r) h s'');
          same = refl;
          counted = refl;
          is_dirty = refl;
        })
  link_at-Placed (node l x r) e s a (inr (inr (h, k))) =
      let s' = subst (Sorted cmp (key_at d.store)) (sym e) s in
      let before =
        below cmp (key_at d.store) o new_key x (inorder l) h
          (Sorted-cross cmp (key_at d.store) (inorder l) (inorder r) x s') in
      let apart = before_ne cmp (key_at d.store) o (inorder l) (inorder r) x s' in
      let spot =
        ap (insert_after x new) (sym e)
        ∙ insert_after_lem x new (inorder l) (inorder r) apart
        ∙ sym (append_assoc (inorder l) (x ∷ []) (new ∷ inorder r)) in
      rw (h, link_at)
        (record {
          after = record (marked d) {
            root = node (node l x leaf) new r;
            order = insert_after x new d.order;
          };
          runs = refl;
          front = inorder l ++ (x ∷ []);
          back = inorder r;
          split = sym e ∙ sym (append_assoc (inorder l) (x ∷ []) (inorder r));
          placed = spot;
          linked = sym spot;
          below_new =
              All-append (λ y. cmp new_key (key_at d.store y) ≡ gt) (inorder l) (x ∷ []) before
                (h, tt);
          above_new = k;
          same = refl;
          counted = refl;
          is_dirty = refl;
        })

  pub link_root-Placed :
      (t : Tree)
      → inorder t ≡ d.order
      → Sorted cmp (key_at d.store) d.order
      → Absent d.order
      → Placed cmp d new (link_root cmp (record d { root = t }) new t)
  unfolding link_root retune
  link_root-Placed leaf e s a = record {
    after = record (marked d) { root = node leaf new leaf; order = new ∷ [] };
    runs = refl;
    front = [];
    back = [];
    split = sym e;
    placed = refl;
    linked = refl;
    below_new = tt;
    above_new = tt;
    same = refl;
    counted = refl;
    is_dirty = refl;
  }
  link_root-Placed (node l x r) e s a =
      let q =
        retune_tree-Retuned cmp o d.store new_key l r x
          (subst (Sorted cmp (key_at d.store)) (sym e) s) in
      rw q.runs (link_at-Placed q.tree (q.elements ∙ e) s a q.nearest)
