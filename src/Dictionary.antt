-- ===== src/Dictionary.antt =====
-- src/libmowgli/container/dictionary.c: a splay tree whose elements are also on a sorted list.
-- An element is named by its address, and `store` holds what stands there. The `left` and `right`
-- links make the tree `root`, and the `next` and `prev` links the list `order`, head to tail.
-- A result `none` is a fault: a read through NULL, a failed `soft_assert`, or fuel that ran out.
mod Tests
pub mod Inorder
pub mod Order
pub mod Search
pub mod Map
pub mod Lookup
pub mod Link
pub mod Add
pub mod Unlink
pub mod Delete
pub mod Iterate
pub mod Linear
use Prim.Native.Nat.{Ordering, lt, eq, gt}
use libmowgli.Base.{
  ℕ, zero, suc, ◌+◌, ◌-◌, List, [], ◌∷◌, ◌++◌, Option, none, some, Bool, true, false, leb, ltb,
  ◌==◌, if◌then◌else◌, length,
}
use libmowgli.Memory.{◌>>=◌}

-- The address of an element.
abbrev pub Ref : Type 0
Ref = ℕ

-- `mowgli_dictionary_elem_t` without its links; a NULL `value` is 0.
pub record Elem (K : Type 0) : Type 0 where
  pub key : K
  pub value : ℕ
  pub position : ℕ

pub data Tree : Type 0 where
  leaf : Tree
  node : Tree → Ref → Tree → Tree

-- The chain under the temporary `n` of `retune`, the end that grows first: on the left elements
-- with their left subtrees, on the right elements with their right subtrees.
abbrev pub Spine : Type 0
Spine = List (Ref × Tree)

-- `mowgli_dictionary_t`, less its name and its comparator.
pub record Dict (K : Type 0) : Type 0 where
  pub root : Tree
  pub order : List Ref
  pub count : ℕ
  pub dirty : Bool
  pub store : Ref → Elem K

-- What one turn of the loop of `retune` ends in.
pub data Turn : Type 0 where
  stop : Spine → Spine → Tree → Ref → Tree → Turn
  again : Spine → Spine → Tree → Turn

-- `left->right = t`, and the whole left tree.
pub fill_left : Spine → Tree → Tree
fill_left [] t = t
fill_left ((x, l) ∷ s) t = fill_left s (node l x t)

-- `right->left = t`, and the whole right tree.
pub fill_right : Spine → Tree → Tree
fill_right [] t = t
fill_right ((x, r) ∷ s) t = fill_right s (node t x r)

pub size : Tree → ℕ
size leaf = 0
size (node l x r) = suc (size l + size r)

-- Behind the rotation on the left: `if (node->left == NULL) break;`, then a step down.
pub below_left : Spine → Spine → Tree → Ref → Tree → Turn
below_left ls rs leaf y t = stop ls rs leaf y t
below_left ls rs (node a b c) y t = again ls ((y, t) ∷ rs) (node a b c)

pub below_right : Spine → Spine → Tree → Ref → Tree → Turn
below_right ls rs t y leaf = stop ls rs t y leaf
below_right ls rs t y (node a b c) = again ((y, t) ∷ ls) rs (node a b c)

-- `next` and `prev` of an element on the list.
pub next_of : List Ref → Ref → Option Ref
next_of [] x = none
next_of (y ∷ []) x = none
next_of (y ∷ z ∷ ys) x = if y == x then some z else next_of (z ∷ ys) x

pub insert_before : Ref → Ref → List Ref → List Ref
insert_before x new [] = []
insert_before x new (y ∷ ys) = if y == x then new ∷ y ∷ ys else y ∷ insert_before x new ys

pub insert_after : Ref → Ref → List Ref → List Ref
insert_after x new [] = []
insert_after x new (y ∷ ys) = if y == x then y ∷ new ∷ ys else y ∷ insert_after x new ys

pub remove : Ref → List Ref → List Ref
remove x [] = []
remove x (y ∷ ys) = if y == x then ys else y ∷ remove x ys

-- The walk down from `parentofnext`, which ends at the parent of `next`, and the two assignments
-- behind it: `next` is replaced by its right subtree. The soft assertions are checked.
pub detach : Ref → Tree → Option Tree
detach next leaf = none
detach next (node leaf p c) = none
detach next (node (node a y b) p c) =
    let deeper = detach next (node a y b) >>= λ t. some (node t p c) in
    if y == next then elim a [ leaf ↦ some (node b p c) | node _ _ _ ↦ none ] else deeper

-- Both children are there, `next` is the element behind the root, and `r` is the right child.
pub replace_root : Tree → Ref → Tree → Option Tree
unfolding detach
replace_root l next leaf = none
replace_root l next (node leaf y c) = if y == next then some (node l next c) else none
replace_root l next (node (node a b c) y d) =
    if y == next then none else (detach next (node (node a b c) y d) >>= λ t. some (node l next t))

pub unlink_tree : List Ref → Tree → Ref → Tree → Option Tree
unfolding replace_root next_of
unlink_tree order leaf x r = some r
unlink_tree order (node a b c) x leaf = some (node a b c)
unlink_tree order (node a b c) x (node d e f) =
    next_of order x >>= λ next. replace_root (node a b c) next (node d e f)

module _ {K : Type 0} where
  abbrev pub update : (Ref → Elem K) → Ref → Elem K → Ref → Elem K
  update store x e y = if y == x then e else store y

  unfoldable pub create : (Ref → Elem K) → Dict K
  create store = record { root = leaf; order = []; count = 0; dirty = false; store = store }

  pub unlink_at : Dict K → Tree → Option (Dict K)
  unfolding unlink_tree remove
  unlink_at d leaf = some (record d { dirty = true })
  unlink_at d (node l x r) = do
    t ← unlink_tree d.order l x r
    some (record d { root = t; order = remove x d.order; count = d.count - 1; dirty = true })

  unfoldable pub unlink_root : Dict K → Option (Dict K)
  unfolding unlink_at
  unlink_root d = unlink_at d d.root

  -- What `link` does first.
  abbrev pub marked : Dict K → Dict K
  marked d = record d { dirty = true; count = d.count + 1 }

  -- `for (delem = dict->head, i = 0; ...) delem->position = i`
  pub renumber : (Ref → Elem K) → ℕ → List Ref → Ref → Elem K
  renumber store i [] = store
  renumber store i (x ∷ xs) =
      renumber (update store x (record (store x) { position = i })) (i + 1) xs

-- `cmp key k` is the sign of `compare_cb (key, k)`.
module _ {K : Type 0} (cmp : K → K → Ordering) where
  pub step_left : (Ref → Elem K) → K → Spine → Spine → Tree → Ref → Tree → Turn
  unfolding below_left
  step_left store key ls rs leaf x r = stop ls rs leaf x r
  step_left store key ls rs (node a y b) x r = elim (cmp key (store y).key) [
    | lt ↦ below_left ls rs a y (node b x r)
    | eq ↦ again ls ((x, r) ∷ rs) (node a y b)
    | gt ↦ again ls ((x, r) ∷ rs) (node a y b)
  ]

  pub step_right : (Ref → Elem K) → K → Spine → Spine → Tree → Ref → Tree → Turn
  unfolding below_right
  step_right store key ls rs l x leaf = stop ls rs l x leaf
  step_right store key ls rs l x (node a y b) = elim (cmp key (store y).key) [
    | lt ↦ again ((x, l) ∷ ls) rs (node a y b)
    | eq ↦ again ((x, l) ∷ ls) rs (node a y b)
    | gt ↦ below_right ls rs (node l x a) y b
  ]

  -- One turn of the `for (;;)` of `retune`, at the node `x` with its subtrees.
  pub turn : (Ref → Elem K) → K → Spine → Spine → Tree → Ref → Tree → Turn
  unfolding step_left step_right
  turn store key ls rs l x r = elim (cmp key (store x).key) [
    | lt ↦ step_left store key ls rs l x r
    | eq ↦ stop ls rs l x r
    | gt ↦ step_right store key ls rs l x r
  ]

  -- The loop, with fuel, and the assignments behind it.
  pub retune_loop : ℕ → (Ref → Elem K) → K → Spine → Spine → Tree → Option Tree
  unfolding fill_left fill_right turn
  retune_loop zero store key ls rs t = none
  retune_loop (suc fuel) store key ls rs leaf = none
  retune_loop (suc fuel) store key ls rs (node l x r) = elim (turn store key ls rs l x r) [
    | stop ls' rs' l' x' r' ↦ some (node (fill_left ls' l') x' (fill_right rs' r'))
    | again ls' rs' t ↦ retune_loop fuel store key ls' rs' t
  ]

  pub retune_tree : (Ref → Elem K) → K → Tree → Option Tree
  unfolding retune_loop size
  retune_tree store key leaf = some leaf
  retune_tree store key (node l x r) =
      retune_loop (suc (size (node l x r))) store key [] [] (node l x r)

  unfoldable pub retune : Dict K → K → Option (Dict K)
  unfolding retune_tree
  retune d key = retune_tree d.store key d.root >>= λ t. some (record d { root = t })

  -- `link` behind the call of `retune`, by the root that it has found. The count and the dirty
  -- mark are set before; in the last case the new element is freed.
  pub link_at : Dict K → Ref → Tree → Option (Dict K)
  unfolding insert_before insert_after
  link_at d new leaf = none
  link_at d new (node l x r) = elim (cmp (d.store new).key (d.store x).key) [
    | lt ↦
        some (record d { root = node l new (node leaf x r); order = insert_before x new d.order })
    | gt ↦ some (record d { root = node (node l x leaf) new r; order = insert_after x new d.order })
    | eq ↦ some (record d {
      count = d.count - 1;
      store =
          update d.store x
            (record (d.store x) { key = (d.store new).key; value = (d.store new).value });
    })
  ]

  pub link_root : Dict K → Ref → Tree → Option (Dict K)
  unfolding link_at retune
  link_root d new leaf = some (record (marked d) { root = node leaf new leaf; order = new ∷ [] })
  link_root d new (node l x r) = retune (marked d) (d.store new).key >>= λ t. link_at t new t.root

  unfoldable pub link : Dict K → Ref → Option (Dict K)
  unfolding link_root
  link d new = link_root d new d.root

  -- The root, if its key is the wanted one.
  pub root_if : (Ref → Elem K) → K → Tree → Option Ref
  root_if store key leaf = none
  root_if store key (node l x r) = elim (cmp key (store x).key) [
    | eq ↦ some x
    | lt ↦ none
    | gt ↦ none
  ]

  unfoldable pub find : Dict K → K → Option (Dict K × Option Ref)
  unfolding retune root_if
  find d key = retune d key >>= λ t. some (t, root_if t.store key t.root)

  -- `fresh` is the element that the heap gives. A NULL value is refused, and so is a key that is
  -- there; the tree may then have been retuned.
  unfoldable pub add : Dict K → Ref → K → ℕ → Option (Dict K × Option Ref)
  unfolding find link
  add d fresh key value = if value == 0 then some (d, none) else (do
    found ← find d key
    elim found.1 [
      | some x ↦ some (found.0, none)
      | none ↦ do
        let e : Elem K = record { key = key; value = value; position = 0 }
        linked ← link (record found.0 { store = update found.0.store fresh e }) fresh
        some (linked, some fresh)
    ])

  unfoldable pub delete : Dict K → K → Option (Dict K × ℕ)
  unfolding find unlink_root
  delete d key = find d key >>= λ found. elim found.1 [
    | none ↦ some (found.0, 0)
    | some x ↦ unlink_root found.0 >>= λ t. some (t, (found.0.store x).value)
  ]

  unfoldable pub retrieve : Dict K → K → Option (Dict K × ℕ)
  unfolding find
  retrieve d key = find d key >>= λ found. elim found.1 [
    | none ↦ some (found.0, 0)
    | some x ↦ some (found.0, (found.0.store x).value)
  ]

  -- The position of the key's element on the list, or -1 (`none`).
  unfoldable pub get_linear_index : Dict K → K → Option (Dict K × Option ℕ)
  unfolding find renumber
  get_linear_index d key = find d key >>= λ found. elim found.1 [
    | none ↦ some (found.0, none)
    | some x ↦
        let store = renumber found.0.store 0 found.0.order in
        if found.0.dirty
        then some (record found.0 { store = store; dirty = false }, some (store x).position)
        else some (found.0, some (found.0.store x).position)
  ]
