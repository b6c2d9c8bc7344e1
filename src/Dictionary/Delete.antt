-- ===== src/Dictionary/Delete.antt =====
-- `unlink_root` and `delete`: the tree without its root, and what the map is afterwards.
use Prim.Native.Nat.{Ordering, lt, eq, gt}
use libmowgli.Base.{
  ◌-◌, ◌≡◌, ◌≢◌, refl, ap, ◌∙◌, sym, subst, List, ◌∷◌, ◌++◌, arith, inl, inr, Ordering-cases,
  Option, some, none, true, All, All-map, length, length-append,
}
use libmowgli.Dictionary.{Ref, Tree, leaf, node, Dict, root_if, find, remove, unlink_root, delete}
use libmowgli.Dictionary.Inorder.{inorder}
use libmowgli.Dictionary.Order.{
  IsOrder, Sorted, Sorted-right, Sorted-remove, before_ne, beside, same_right,
}
use libmowgli.Dictionary.Lookup.{IsValid, retune-Tuned, find-find_key}
use libmowgli.Dictionary.Map.{
  key_at, find_key, look, look_in, find_key_without, find_key_skip, find_key_miss, ne_of_gt,
  ne_of_lt,
}
use libmowgli.Dictionary.Unlink.{
  leftmost, others, inorder-leftmost, remove_lem, unlink_tree-Unlinked,
}

module _ {K : Type 0} (cmp : K → K → Ordering) (o : IsOrder cmp) (d : Dict K) (key : K) where
  first_ne : (x : Ref) (xs : List Ref) → Sorted cmp (key_at d.store) (x ∷ xs) → All (λ z. z ≢ x) xs
  first_ne x xs s =
      All-map (λ y. cmp (key_at d.store x) (key_at d.store y) ≡ lt) (λ z. z ≢ x) xs
        (λ y h e. apart y h e) s.0
    where
      apart : (y : Ref) → cmp (key_at d.store x) (key_at d.store y) ≡ lt → y ≢ x
      apart y h e = cc (o.self (key_at d.store x))

  root_if-node :
      (t : Tree) (x : Ref)
      → root_if cmp d.store key t ≡ some x
      → (l r : Tree) × (t ≡ node l x r) × (cmp key (d.store x).key ≡ eq)
  unfolding root_if
  root_if-node leaf x h = cc
  root_if-node (node l y r) x h = elim (Ordering-cases (cmp key (d.store y).key)) [
    | inl e ↦ let f : none ≡ some x = rw (e, root_if) at h in cc
    | inr (inl e) ↦
        let f : some y ≡ some x = rw (e, root_if) at h in
        let q : y ≡ x = cc in
        (l, r, ap (λ z. node l z r) q, ap (λ z. cmp key (d.store z).key) (sym q) ∙ e)
    | inr (inr e) ↦ let f : none ≡ some x = rw (e, root_if) at h in cc
  ]

  -- The map without one element: nothing at its key, the same at all others.
  look_in_remove :
      (x : Ref) (xs ys : List Ref)
      → cmp key (d.store x).key ≡ eq
      → Sorted cmp (key_at d.store) (xs ++ (x ∷ ys))
      → (k : K)
      → look_in cmp d.store k (xs ++ ys) ≡ elim (cmp k key) [
        | eq ↦ none
        | lt ↦ look_in cmp d.store k (xs ++ (x ∷ ys))
        | gt ↦ look_in cmp d.store k (xs ++ (x ∷ ys))
      ]
  look_in_remove x xs ys h s k =
      let right = same_right cmp o key (d.store x).key k h in
      elim (Ordering-cases (cmp k key)) [
        | inl e ↦ rw e (kept (λ f. cc))
        | inr (inl e) ↦
            let (p, q) = beside cmp (key_at d.store) o k x xs ys (sym right ∙ e) s in
            let gone =
              find_key_skip cmp (key_at d.store) k xs ys (ne_of_gt cmp (key_at d.store) k xs p)
              ∙ find_key_miss cmp (key_at d.store) k ys (ne_of_lt cmp (key_at d.store) k ys q) in
            rw (e, gone) refl
        | inr (inr e) ↦ rw e (kept (λ f. cc))
      ]
    where
      kept :
          cmp k (d.store x).key ≢ eq
          → look_in cmp d.store k (xs ++ ys) ≡ look_in cmp d.store k (xs ++ (x ∷ ys))
      kept h = rw (find_key_without cmp (key_at d.store) k x xs ys h) refl

  -- The dictionary without its root.
  record Deleted (x : Ref) (run : Option (Dict K)) : Type 0 where
    after : Dict K
    runs : run ≡ some after
    valid : IsValid cmp after
    map_is :
        (k : K)
        → look cmp after k ≡ elim (cmp k key) [ eq ↦ none | lt ↦ look cmp d k | gt ↦ look cmp d k ]

  unlink_root-Deleted :
      (t : Tree) (x : Ref)
      → IsValid cmp (record d { root = t })
      → root_if cmp d.store key t ≡ some x
      → Deleted x (unlink_root (record d { root = t }))
  unfolding unlink_root
  unlink_root-Deleted t x v h =
      let (l, r, shape, found) = root_if-node t x h in
      let split : d.order ≡ inorder l ++ (x ∷ inorder r) = sym v.linked ∙ ap inorder shape in
      let s = subst (Sorted cmp (key_at d.store)) split v.sorted in
      let apart = before_ne cmp (key_at d.store) o (inorder l) (inorder r) x s in
      let s' = (Sorted-right cmp (key_at d.store) (inorder l) (x ∷ inorder r) s).1 in
      let q = unlink_tree-Unlinked d.order l r x split apart (λ a b y e.
        first_ne (leftmost a y) (others a y b)
          (subst (Sorted cmp (key_at d.store)) (ap inorder e ∙ inorder-leftmost a b y) s')) in
      let left : remove x d.order ≡ inorder l ++ inorder r =
        ap (remove x) split ∙ remove_lem (inorder l) (inorder r) x apart in
      rw (shape, q.runs)
        (record {
          after = record d {
            root = q.tree;
            order = remove x d.order;
            count = d.count - 1;
            dirty = true;
          };
          runs = refl;
          valid = record {
            linked = q.elements ∙ sym left;
            sorted =
                subst (Sorted cmp (key_at d.store)) (sym left)
                  (Sorted-remove cmp (key_at d.store) (inorder l) (inorder r) x s);
            counted = omega (
              arith,
              v.counted,
              ap length split,
              ap length left,
              length-append (inorder l) (inorder r),
              length-append (inorder l) (x ∷ inorder r),
            );
            numbered = λ e. cc;
          };
          map_is = λ k.
              ap (look_in cmp d.store k) left
              ∙ look_in_remove x (inorder l) (inorder r) found s k
              ∙ ap
                  (λ xs. elim (cmp k key) [
                    | eq ↦ none
                    | lt ↦ look_in cmp d.store k xs
                    | gt ↦ look_in cmp d.store k xs
                  ])
                  (sym split);
        })

  -- For a comparator that orders the keys and a well-formed dictionary (tree and list hold the
  -- same elements, sorted, and count and positions are right): `delete` of a key that is there
  -- ends with its value. The dictionary stays well-formed, and its map has nothing at that key
  -- and is else unchanged.
  pub delete-look :
      IsValid cmp d
      → (x : Ref) → find_key cmp (key_at d.store) key d.order ≡ some x
      → (d' : Dict K) × (delete cmp d key ≡ some (d', (d.store x).value))
        × IsValid cmp d'
        × ((k : K)
            → look cmp d' k
              ≡ elim (cmp k key) [ eq ↦ none | lt ↦ look cmp d k | gt ↦ look cmp d k ])
  unfolding delete find
  delete-look v x there =
      let t = retune-Tuned cmp o d key v in
      let q = unlink_root-Deleted t.tree x t.valid (t.root_is ∙ there) in
      (q.after, rw (t.runs, t.root_is, there, q.runs) refl, q.valid, q.map_is)

  -- For a comparator that orders the keys and a well-formed dictionary (tree and list hold the
  -- same elements, sorted, and count and positions are right): `delete` of a key that is not
  -- there gives NULL and changes only the shape of the tree.
  pub delete_absent :
      IsValid cmp d
      → find_key cmp (key_at d.store) key d.order ≡ none
      → (t : Tree) × (delete cmp d key ≡ some (record d { root = t }, 0))
        × IsValid cmp (record d { root = t })
  unfolding delete
  delete_absent v absent =
      let (t, found, w) = find-find_key cmp o d key v in (t, rw (found, absent) refl, w)
