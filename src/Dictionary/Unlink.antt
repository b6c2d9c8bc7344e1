-- ===== src/Dictionary/Unlink.antt =====
-- `unlink_root`: the root taken out of the tree and off the list.
use libmowgli.Base.{
  ◌≡◌, ◌≢◌, refl, ap, ◌∙◌, sym, List, [], ◌∷◌, ◌++◌, append-nil, arith, Option, some, false, true,
  ◌==◌, All, All-left, All-right,
}
use libmowgli.Memory.{◌>>=◌}
use libmowgli.Dictionary.{Ref, Tree, leaf, node, next_of, remove, detach, replace_root, unlink_tree}
use libmowgli.Dictionary.Inorder.{inorder}

-- The first element of `node l x r`, and the others in sequence.
abbrev pub leftmost : Tree → Ref → Ref
leftmost leaf x = x
leftmost (node a y b) x = leftmost a y

abbrev pub others : Tree → Ref → Tree → List Ref
others leaf x r = inorder r
others (node a y b) x r = others a y b ++ (x ∷ inorder r)

pub inorder-leftmost : (l r : Tree) (x : Ref) → inorder (node l x r) ≡ leftmost l x ∷ others l x r
inorder-leftmost leaf r x = refl
inorder-leftmost (node a y b) r x = ap (λ xs. xs ++ (x ∷ inorder r)) (inorder-leftmost a b y)

-- The tree without its first element.
pub record Detached (l r : Tree) (x : Ref) (run : Option Tree) : Type 0 where
  pub tree : Tree
  pub runs : run ≡ some tree
  pub elements : inorder tree ≡ others l x r

pub detach_step :
    (n y p : Ref) (a b c : Tree)
    → y ≢ n
    → detach n (node (node a y b) p c) ≡ (detach n (node a y b) >>= λ t. some (node t p c))
unfolding detach
detach_step n y p a b c h = let e : (y == n) ≡ false = ground arith in rw e refl

pub detach_here : (y p : Ref) (b c : Tree) → detach y (node (node leaf y b) p c) ≡ some (node b p c)
unfolding detach
detach_here y p b c = let e : (y == y) ≡ true = ground arith in rw e refl

pub detach_lem :
    (a b c : Tree) (y p : Ref)
    → All (λ z. z ≢ leftmost a y) (others (node a y b) p c)
    → Detached (node a y b) c p (detach (leftmost a y) (node (node a y b) p c))
detach_lem leaf b c y p h = record {
  tree = node b p c;
  runs = detach_here y p b c;
  elements = refl;
}
detach_lem (node d z e) b c y p h =
    let n = leftmost d z in
    let inner = All-left (λ w. w ≢ n) (others (node d z e) y b) (p ∷ inorder c) h in
    let q = detach_lem d e b z y inner in
    let apart = (All-right (λ w. w ≢ n) (others d z e) (y ∷ inorder b) inner).0 in
    record {
      tree = node q.tree p c;
      runs = detach_step n y p (node d z e) b c apart ∙ rw q.runs refl;
      elements = ap (λ xs. xs ++ (p ∷ inorder c)) q.elements;
    }

pub next_of_lem :
    (xs ys : List Ref) (x n : Ref) → All (λ y. y ≢ x) xs → next_of (xs ++ (x ∷ n ∷ ys)) x ≡ some n
unfolding next_of
next_of_lem [] ys x n h = ground arith
next_of_lem (y ∷ []) ys x n h = ground arith
next_of_lem (y ∷ z ∷ xs) ys x n h = ground (arith, next_of_lem (z ∷ xs) ys x n h.1)

pub remove_lem :
    (xs ys : List Ref) (x : Ref) → All (λ y. y ≢ x) xs → remove x (xs ++ (x ∷ ys)) ≡ xs ++ ys
unfolding remove
remove_lem [] ys x h = ground arith
remove_lem (y ∷ xs) ys x h = ground (arith, remove_lem xs ys x h.1)

-- The tree without its root, as a tree with the same other elements in sequence.
pub record Unlinked (l r : Tree) (run : Option Tree) : Type 0 where
  pub tree : Tree
  pub runs : run ≡ some tree
  pub elements : inorder tree ≡ inorder l ++ inorder r

pub replace_root-Unlinked :
    (l a b : Tree) (y : Ref)
    → All (λ z. z ≢ leftmost a y) (others a y b)
    → Unlinked l (node a y b) (replace_root l (leftmost a y) (node a y b))
unfolding replace_root
replace_root-Unlinked l leaf b y h =
    let e : (y == y) ≡ true = ground arith in
    rw e (record { tree = node l y b; runs = refl; elements = refl })
replace_root-Unlinked l (node d z e) b y h =
    let n = leftmost d z in
    let q = detach_lem d e b z y h in
    let differ = (All-right (λ w. w ≢ n) (others d z e) (y ∷ inorder b) h).0 in
    let apart : (y == n) ≡ false = ground arith in
    rw (apart, q.runs)
      (record {
        tree = node l n q.tree;
        runs = refl;
        elements =
            ap (λ xs. inorder l ++ xs)
              (ap (◌∷◌ n) q.elements ∙ sym (inorder-leftmost (node d z e) b y));
      })

pub unlink_tree-Unlinked :
    (order : List Ref) (l r : Tree) (x : Ref)
    → order ≡ inorder (node l x r)
    → All (λ y. y ≢ x) (inorder l)
    → ((a b : Tree) (y : Ref) → r ≡ node a y b → All (λ z. z ≢ leftmost a y) (others a y b))
    → Unlinked l r (unlink_tree order l x r)
unfolding unlink_tree
unlink_tree-Unlinked order leaf r x e h k = record { tree = r; runs = refl; elements = refl }
unlink_tree-Unlinked order (node a b c) leaf x e h k = record {
  tree = node a b c;
  runs = refl;
  elements = sym (append-nil (inorder (node a b c)));
}
unlink_tree-Unlinked order (node a b c) (node d y f) x e h k =
    let next : next_of order x ≡ some (leftmost d y) =
      ap (λ xs. next_of xs x)
        (e ∙ ap (λ xs. inorder (node a b c) ++ (x ∷ xs)) (inorder-leftmost d f y))
      ∙ next_of_lem (inorder (node a b c)) (others d y f) x (leftmost d y) h in
    rw next (replace_root-Unlinked (node a b c) d f y (k d f y refl))
