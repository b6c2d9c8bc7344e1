-- ===== src/Dictionary/Search.antt =====
-- `retune` moves the wanted key, or a neighbour of its place, to the root.
use Prim.Native.Nat.{Ordering, lt, eq, gt}
use libmowgli.Base.{
  ℕ, zero, suc, ◌≤◌, ◌<◌, ◌≡◌, refl, ◌∙◌, sym, subst, List, [], ◌∷◌, ◌++◌, append_assoc, append-nil,
  arith, inl, inr, ◌⊎◌, Ordering-cases, Option, some, All-append,
}
use libmowgli.Dictionary.{
  Ref, Elem, Tree, leaf, node, Spine, Turn, stop, again, fill_left, fill_right, size, below_left,
  below_right, step_left, step_right, turn, retune_loop, retune_tree,
}
use libmowgli.Dictionary.Inorder.{
  inorder, in_left, in_right, whole, whole_of, inorder-fill_left, inorder-fill_right, inorder_stop,
  turn-whole, Falls, turn-Falls,
}
use libmowgli.Dictionary.Order.{IsOrder, Sorted, AllIs, Sorted-right, Sorted-cross, above, below}

module _ {K : Type 0} (cmp : K → K → Ordering) (o : IsOrder cmp) (store : Ref → Elem K)
    (key : K) where
  abbrev key_of : Ref → K
  key_of x = (store x).key

  -- The loop may end at this node: its key is the wanted one, or there is no nearer one.
  abbrev Ends : Tree → Ref → Tree → Type 0
  Ends l x r =
      (cmp key (key_of x) ≡ eq)
      ⊎ (((cmp key (key_of x) ≡ lt) × (l ≡ leaf)) ⊎ ((cmp key (key_of x) ≡ gt) × (r ≡ leaf)))

  -- All on the left spine is below the key, and all on the right one above it.
  abbrev Apart : Spine → Spine → Type 0
  Apart ls rs = AllIs cmp key_of gt key (in_left ls) × AllIs cmp key_of lt key (in_right rs)

  abbrev Good : Turn → Type 0
  Good (stop ls rs l x r) = Apart ls rs × Ends l x r
  Good (again ls rs t) = Apart ls rs

  abbrev SortedWhole : Spine → Spine → Tree → Type 0
  SortedWhole ls rs t = Sorted cmp key_of (whole ls rs t)

  regroup :
      (ls rs : Spine) (l r : Tree) (x : Ref)
      → whole ls rs (node l x r) ≡ (in_left ls ++ inorder l) ++ (x ∷ (inorder r ++ in_right rs))
  regroup ls rs l r x = simp append_assoc

  push_right :
      (ls rs : Spine) (l r : Tree) (x : Ref)
      → SortedWhole ls rs (node l x r)
      → cmp key (key_of x) ≡ lt
      → AllIs cmp key_of lt key (in_right ((x, r) ∷ rs))
  push_right ls rs l r x s h =
      let s' = subst (Sorted cmp key_of) (regroup ls rs l r x) s in
      (
        h,
        above cmp key_of o key x (inorder r ++ in_right rs) h
            (Sorted-right cmp key_of (in_left ls ++ inorder l) (x ∷ (inorder r ++ in_right rs)) s'),
      )

  push_left :
      (ls rs : Spine) (l r : Tree) (x : Ref)
      → SortedWhole ls rs (node l x r)
      → cmp key (key_of x) ≡ gt
      → AllIs cmp key_of gt key (in_left ((x, l) ∷ ls))
  push_left ls rs l r x s h =
      let s' = subst (Sorted cmp key_of) (regroup ls rs l r x) s in
      let before =
        below cmp key_of o key x (in_left ls ++ inorder l) h
          (Sorted-cross cmp key_of (in_left ls ++ inorder l) (inorder r ++ in_right rs) x s') in
      subst (AllIs cmp key_of gt key) (append_assoc (in_left ls) (inorder l) (x ∷ [])) (
        All-append (λ y. cmp key (key_of y) ≡ gt) (in_left ls ++ inorder l) (x ∷ []) before (h, tt))

  step_left-Good :
      (ls rs : Spine) (l r : Tree) (x : Ref)
      → SortedWhole ls rs (node l x r)
      → cmp key (key_of x) ≡ lt
      → Apart ls rs
      → Good (step_left cmp store key ls rs l x r)
  unfolding step_left below_left
  step_left-Good ls rs leaf r x s h a = (a, inr (inl (h, refl)))
  step_left-Good ls rs (node leaf y b) r x s h (p, q) =
      elim (Ordering-cases (cmp key (store y).key)) [
        | inl e ↦ rw (e, Good) ((p, q), inr (inl (e, refl)))
        | inr (inl e) ↦ rw (e, Good) (p, push_right ls rs (node leaf y b) r x s h)
        | inr (inr e) ↦ rw (e, Good) (p, push_right ls rs (node leaf y b) r x s h)
      ]
  step_left-Good ls rs (node (node a z c) y b) r x s h (p, q) =
      elim (Ordering-cases (cmp key (store y).key)) [
        | inl e ↦
            rw (e, Good)
              (
                p,
                push_right ls rs (node a z c) (node b x r) y
                    (subst (Sorted cmp key_of) (simp append_assoc) s) e,
              )
        | inr (inl e) ↦ rw (e, Good) (p, push_right ls rs (node (node a z c) y b) r x s h)
        | inr (inr e) ↦ rw (e, Good) (p, push_right ls rs (node (node a z c) y b) r x s h)
      ]

  step_right-Good :
      (ls rs : Spine) (l r : Tree) (x : Ref)
      → SortedWhole ls rs (node l x r)
      → cmp key (key_of x) ≡ gt
      → Apart ls rs
      → Good (step_right cmp store key ls rs l x r)
  unfolding step_right below_right
  step_right-Good ls rs l leaf x s h a = (a, inr (inr (h, refl)))
  step_right-Good ls rs l (node b y leaf) x s h (p, q) =
      elim (Ordering-cases (cmp key (store y).key)) [
        | inl e ↦ rw (e, Good) (push_left ls rs l (node b y leaf) x s h, q)
        | inr (inl e) ↦ rw (e, Good) (push_left ls rs l (node b y leaf) x s h, q)
        | inr (inr e) ↦ rw (e, Good) ((p, q), inr (inr (e, refl)))
      ]
  step_right-Good ls rs l (node b y (node a z c)) x s h (p, q) =
      elim (Ordering-cases (cmp key (store y).key)) [
        | inl e ↦ rw (e, Good) (push_left ls rs l (node b y (node a z c)) x s h, q)
        | inr (inl e) ↦ rw (e, Good) (push_left ls rs l (node b y (node a z c)) x s h, q)
        | inr (inr e) ↦
            rw (e, Good)
              (
                push_left ls rs (node l x b) (node a z c) y
                    (subst (Sorted cmp key_of) (simp append_assoc) s) e,
                q,
              )
      ]

  turn-Good :
      (ls rs : Spine) (l r : Tree) (x : Ref)
      → SortedWhole ls rs (node l x r)
      → Apart ls rs
      → Good (turn cmp store key ls rs l x r)
  unfolding turn
  turn-Good ls rs l r x s a = elim (Ordering-cases (cmp key (store x).key)) [
    | inl e ↦ rw (e, Good) (step_left-Good ls rs l r x s e a)
    | inr (inl e) ↦ rw (e, Good) (a, inl e)
    | inr (inr e) ↦ rw (e, Good) (step_right-Good ls rs l r x s e a)
  ]

  -- What the search finds out about the root of the new tree.
  abbrev pub Nearest : Tree → Type 0
  Nearest leaf = ⊥
  Nearest (node l x r) =
      (cmp key (key_of x) ≡ eq)
      ⊎ (((cmp key (key_of x) ≡ lt) × AllIs cmp key_of gt key (inorder l))
          ⊎ ((cmp key (key_of x) ≡ gt) × AllIs cmp key_of lt key (inorder r)))

  stop-Nearest :
      (ls rs : Spine) (l r : Tree) (x : Ref)
      → Apart ls rs
      → Ends l x r
      → Nearest (node (fill_left ls l) x (fill_right rs r))
  stop-Nearest ls rs l r x (p, q) (inl e) = inl e
  stop-Nearest ls rs l r x (p, q) (inr (inl (e, f))) = inr (
      inl (
        e,
        subst (AllIs cmp key_of gt key)
            (sym (inorder-fill_left ls l ∙ rw f (append-nil (in_left ls)))) p,
      ))
  stop-Nearest ls rs l r x (p, q) (inr (inr (e, f))) =
      inr (inr (e, subst (AllIs cmp key_of lt key) (sym (inorder-fill_right rs r ∙ rw f refl)) q))

  -- A tree with the elements `xs` that a search for the key has ended in.
  pub record Retuned (xs : List Ref) (run : Option Tree) : Type 0 where
    pub tree : Tree
    pub runs : run ≡ some tree
    pub elements : inorder tree ≡ xs
    pub nearest : Nearest tree

  stop-Retuned :
      (ls rs : Spine) (l r : Tree) (x : Ref)
      → Good (stop ls rs l x r)
      → Retuned (whole ls rs (node l x r)) (some (node (fill_left ls l) x (fill_right rs r)))
  stop-Retuned ls rs l r x (a, e) = record {
    tree = node (fill_left ls l) x (fill_right rs r);
    runs = refl;
    elements = inorder_stop ls rs l r x;
    nearest = stop-Nearest ls rs l r x a e;
  }

  abbrev Loops : ℕ → Type 0
  Loops fuel =
      (ls rs : Spine) (l r : Tree) (x : Ref)
      → size (node l x r) < fuel
      → SortedWhole ls rs (node l x r)
      → Apart ls rs
      → Retuned (whole ls rs (node l x r)) (retune_loop cmp fuel store key ls rs (node l x r))

  go_on :
      (fuel : ℕ) (t : Turn)
      → Loops fuel
      → Good t
      → Falls fuel t
      → Sorted cmp key_of (whole_of t)
      → Retuned (whole_of t) (elim t [
        | stop ls rs l x r ↦ some (node (fill_left ls l) x (fill_right rs r))
        | again ls rs t ↦ retune_loop cmp fuel store key ls rs t
      ])
  go_on fuel (stop ls rs l x r) ih g f s = stop-Retuned ls rs l r x g
  go_on fuel (again ls rs leaf) ih g f s = absurd f
  go_on fuel (again ls rs (node l x r)) ih g f s = ih ls rs l r x f s g

  Falls-mono : (n m : ℕ) (t : Turn) → n ≤ m → Falls n t → Falls m t
  Falls-mono n m (stop ls rs l x r) h f = tt
  Falls-mono n m (again ls rs leaf) h f = f
  Falls-mono n m (again ls rs (node l x r)) h f = omega arith

  retune_loop-Retuned : (fuel : ℕ) → Loops fuel
  unfolding retune_loop
  retune_loop-Retuned zero ls rs l r x f s a = elim f [ ]
  retune_loop-Retuned (suc fuel) ls rs l r x f s a =
      let t = turn cmp store key ls rs l x r in
      let same = turn-whole cmp store key ls rs l r x in
      subst (λ z. Retuned z (retune_loop cmp (suc fuel) store key ls rs (node l x r))) same
        (go_on fuel t (retune_loop-Retuned fuel) (turn-Good ls rs l r x s a)
          (Falls-mono (size (node l x r)) fuel t (omega arith)
            (turn-Falls cmp store key ls rs l r x))
          (subst (Sorted cmp key_of) (sym same) s))

  -- On a sorted tree that is not empty, the search ends within its fuel and keeps the elements and
  -- their sequence. The new root has the wanted key, or stands next to its place.
  pub retune_tree-Retuned :
      (l r : Tree) (x : Ref)
      → Sorted cmp key_of (inorder (node l x r))
      → Retuned (inorder (node l x r)) (retune_tree cmp store key (node l x r))
  unfolding retune_tree
  retune_tree-Retuned l r x s =
      let same = append-nil (inorder (node l x r)) in
      subst (λ z. Retuned z (retune_tree cmp store key (node l x r))) same
        (retune_loop-Retuned (suc (size (node l x r))) [] [] l r x (omega arith)
          (subst (Sorted cmp key_of) (sym same) s) (tt, tt))
