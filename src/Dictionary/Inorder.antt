-- ===== src/Dictionary/Inorder.antt =====
-- The elements of a tree from left to right, and what one turn of `retune` does to them: nothing.
use Prim.Native.Nat.{Ordering}
use libmowgli.Base.{
  ℕ, suc, ◌+◌, ◌<◌, ◌≡◌, refl, ◌∙◌, List, [], ◌∷◌, ◌++◌, append_assoc, append-nil, arith, inl, inr,
  Ordering-cases,
}
use libmowgli.Dictionary.{
  Ref, Elem, Tree, leaf, node, Spine, Turn, stop, again, fill_left, fill_right, size, below_left,
  below_right, step_left, step_right, turn,
}

abbrev pub inorder : Tree → List Ref
inorder leaf = []
inorder (node l x r) = inorder l ++ (x ∷ inorder r)

abbrev pub in_left : Spine → List Ref
in_left [] = []
in_left ((x, l) ∷ s) = in_left s ++ (inorder l ++ (x ∷ []))

abbrev pub in_right : Spine → List Ref
in_right [] = []
in_right ((x, r) ∷ s) = x ∷ (inorder r ++ in_right s)

-- All elements of a loop state.
abbrev pub whole : Spine → Spine → Tree → List Ref
whole ls rs t = in_left ls ++ (inorder t ++ in_right rs)

abbrev pub whole_of : Turn → List Ref
whole_of (stop ls rs l x r) = whole ls rs (node l x r)
whole_of (again ls rs t) = whole ls rs t

pub inorder-fill_left : (s : Spine) (t : Tree) → inorder (fill_left s t) ≡ in_left s ++ inorder t
unfolding fill_left
inorder-fill_left [] t = refl
inorder-fill_left ((x, l) ∷ s) t = inorder-fill_left s (node l x t) ∙ simp append_assoc

pub inorder-fill_right : (s : Spine) (t : Tree) → inorder (fill_right s t) ≡ inorder t ++ in_right s
unfolding fill_right
inorder-fill_right [] t = simp append-nil
inorder-fill_right ((x, r) ∷ s) t = inorder-fill_right s (node t x r) ∙ simp append_assoc

-- What `retune` leaves when its loop has stopped.
pub inorder_stop :
    (ls rs : Spine) (l r : Tree) (x : Ref)
    → inorder (node (fill_left ls l) x (fill_right rs r)) ≡ whole ls rs (node l x r)
inorder_stop ls rs l r x = simp (inorder-fill_left, inorder-fill_right, append_assoc)

-- A turn that goes on has a smaller tree left, and not an empty one.
abbrev pub Falls : ℕ → Turn → Type 0
Falls n (stop ls rs l x r) = Unit
Falls n (again ls rs leaf) = ⊥
Falls n (again ls rs (node l x r)) = size (node l x r) < n

module _ {K : Type 0} (cmp : K → K → Ordering) (store : Ref → Elem K) (key : K) where
  step_left-whole :
      (ls rs : Spine) (l r : Tree) (x : Ref)
      → whole_of (step_left cmp store key ls rs l x r) ≡ whole ls rs (node l x r)
  unfolding step_left below_left
  step_left-whole ls rs leaf r x = refl
  step_left-whole ls rs (node leaf y b) r x = elim (Ordering-cases (cmp key (store y).key)) [
    | inl e ↦ rw (e, whole_of) (simp append_assoc)
    | inr (inl e) ↦ rw (e, whole_of) (simp append_assoc)
    | inr (inr e) ↦ rw (e, whole_of) (simp append_assoc)
  ]
  step_left-whole ls rs (node (node a z c) y b) r x =
      elim (Ordering-cases (cmp key (store y).key)) [
        | inl e ↦ rw (e, whole_of) (simp append_assoc)
        | inr (inl e) ↦ rw (e, whole_of) (simp append_assoc)
        | inr (inr e) ↦ rw (e, whole_of) (simp append_assoc)
      ]

  step_right-whole :
      (ls rs : Spine) (l r : Tree) (x : Ref)
      → whole_of (step_right cmp store key ls rs l x r) ≡ whole ls rs (node l x r)
  unfolding step_right below_right
  step_right-whole ls rs l leaf x = refl
  step_right-whole ls rs l (node a y leaf) x = elim (Ordering-cases (cmp key (store y).key)) [
    | inl e ↦ rw (e, whole_of) (simp append_assoc)
    | inr (inl e) ↦ rw (e, whole_of) (simp append_assoc)
    | inr (inr e) ↦ rw (e, whole_of) (simp append_assoc)
  ]
  step_right-whole ls rs l (node a y (node b z c)) x =
      elim (Ordering-cases (cmp key (store y).key)) [
        | inl e ↦ rw (e, whole_of) (simp append_assoc)
        | inr (inl e) ↦ rw (e, whole_of) (simp append_assoc)
        | inr (inr e) ↦ rw (e, whole_of) (simp append_assoc)
      ]

  -- One turn keeps the elements and their sequence, whatever the comparator says.
  pub turn-whole :
      (ls rs : Spine) (l r : Tree) (x : Ref)
      → whole_of (turn cmp store key ls rs l x r) ≡ whole ls rs (node l x r)
  unfolding turn
  turn-whole ls rs l r x = elim (Ordering-cases (cmp key (store x).key)) [
    | inl e ↦ rw (e, whole_of) (step_left-whole ls rs l r x)
    | inr (inl e) ↦ rw (e, whole_of) refl
    | inr (inr e) ↦ rw (e, whole_of) (step_right-whole ls rs l r x)
  ]

  step_left-Falls :
      (n : ℕ) (ls rs : Spine) (l r : Tree) (x : Ref)
      → size l < n
      → Falls n (step_left cmp store key ls rs l x r)
  unfolding step_left below_left size
  step_left-Falls n ls rs leaf r x h = tt
  step_left-Falls n ls rs (node leaf y b) r x h = elim (Ordering-cases (cmp key (store y).key)) [
    | inl e ↦ rw (e, Falls) tt
    | inr (inl e) ↦ rw (e, Falls) h
    | inr (inr e) ↦ rw (e, Falls) h
  ]
  step_left-Falls n ls rs (node (node a z c) y b) r x h =
      elim (Ordering-cases (cmp key (store y).key)) [
        | inl e ↦ rw (e, Falls) (omega arith)
        | inr (inl e) ↦ rw (e, Falls) h
        | inr (inr e) ↦ rw (e, Falls) h
      ]

  step_right-Falls :
      (n : ℕ) (ls rs : Spine) (l r : Tree) (x : Ref)
      → size r < n
      → Falls n (step_right cmp store key ls rs l x r)
  unfolding step_right below_right size
  step_right-Falls n ls rs l leaf x h = tt
  step_right-Falls n ls rs l (node a y leaf) x h = elim (Ordering-cases (cmp key (store y).key)) [
    | inl e ↦ rw (e, Falls) h
    | inr (inl e) ↦ rw (e, Falls) h
    | inr (inr e) ↦ rw (e, Falls) tt
  ]
  step_right-Falls n ls rs l (node a y (node b z c)) x h =
      elim (Ordering-cases (cmp key (store y).key)) [
        | inl e ↦ rw (e, Falls) h
        | inr (inl e) ↦ rw (e, Falls) h
        | inr (inr e) ↦ rw (e, Falls) (omega arith)
      ]

  pub turn-Falls :
      (ls rs : Spine) (l r : Tree) (x : Ref)
      → Falls (size (node l x r)) (turn cmp store key ls rs l x r)
  unfolding turn size
  turn-Falls ls rs l r x = elim (Ordering-cases (cmp key (store x).key)) [
    | inl e ↦ rw (e, Falls) (step_left-Falls (suc (size l + size r)) ls rs l r x (omega arith))
    | inr (inl e) ↦ rw (e, Falls) tt
    | inr (inr e) ↦
        rw (e, Falls) (step_right-Falls (suc (size l + size r)) ls rs l r x (omega arith))
  ]
