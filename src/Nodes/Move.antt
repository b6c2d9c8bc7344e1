-- ===== src/Nodes/Move.antt =====
-- Moving a node from one list to the head of another.
use mathlib.Core.Path.{ap₂}
use libmowgli.Base.{
  ◌+◌, ◌≡◌, ◌≢◌, refl, ap, ◌∙◌, sym, List, [], ◌∷◌, ◌++◌, Option, none, some, All, All-append,
  All-left, All-right, All-map, All-zip,
}
use libmowgli.Nodes.{Ref, Mem, NodeList, update, set_next, set_prev, decrement, move, move_to}
use libmowgli.Nodes.Chain.{
  head_or, last_or, Apart, IsList, update_other, after_last, before_first, after_last_other,
  before_first_other,
}
use libmowgli.Nodes.Insert.{update_swap, insert-IsList}
use libmowgli.Nodes.Unlink.{IsList-cong, left_mem, left_list, left-IsList, move_runs, apart}

-- No node of the second list stands on the first.
abbrev pub Disjoint : List Ref → List Ref → Type 0
Disjoint xs zs = All (λ z. Apart z xs) zs

Disjoint-left : (xs ys zs : List Ref) → Disjoint (xs ++ ys) zs → Disjoint xs zs
Disjoint-left xs ys zs =
    All-map (λ z. Apart z (xs ++ ys)) (λ z. Apart z xs) zs (λ z. All-left (λ y. y ≢ z) xs ys)

Disjoint-right : (xs ys zs : List Ref) → Disjoint (xs ++ ys) zs → Disjoint ys zs
Disjoint-right xs ys zs =
    All-map (λ z. Apart z (xs ++ ys)) (λ z. Apart z ys) zs (λ z. All-right (λ y. y ≢ z) xs ys)

Disjoint-without :
    (xs ys zs : List Ref) (n : Ref) → Disjoint (xs ++ (n ∷ ys)) zs → Disjoint (xs ++ ys) zs
Disjoint-without xs ys zs n =
    All-map (λ z. Apart z (xs ++ (n ∷ ys))) (λ z. Apart z (xs ++ ys)) zs
      (λ z h.
        All-append (λ y. y ≢ z) xs ys (All-left (λ y. y ≢ z) xs (n ∷ ys) h)
          (All-right (λ y. y ≢ z) xs (n ∷ ys) h).1)

Disjoint-flip : (xs zs : List Ref) → Disjoint xs zs → All (λ y. All (λ z. y ≢ z) zs) xs
Disjoint-flip [] zs d = tt
Disjoint-flip (x ∷ xs) zs d = (
  All-map (λ z. Apart z (x ∷ xs)) (λ z. x ≢ z) zs (λ z h. h.0) d,
  Disjoint-flip xs zs (All-map (λ z. Apart z (x ∷ xs)) (λ z. Apart z xs) zs (λ z h. h.1) d),
)

abbrev Stays : Mem → Mem → Ref → Type 0
Stays m m' y = (m'.next y ≡ m.next y) × (m'.prev y ≡ m.prev y)

module _ (n : Ref) (m : Mem) (new : NodeList) where
  -- What `move_to` leaves, by the old head.
  abbrev moved_mem : Option Ref → Mem
  moved_mem none = set_next (set_prev m n none) n none
  moved_mem (some h) = set_prev (set_next (set_prev m n none) n (some h)) h (some n)

  moved_value : (h : Option Ref) → (moved_mem h).value ≡ m.value
  moved_value none = refl
  moved_value (some h) = refl

  moved_other :
      (zs : List Ref) (y : Ref)
      → y ≢ n
      → All (λ z. y ≢ z) zs
      → ((moved_mem (head_or zs none)).next y ≡ m.next y)
        × ((moved_mem (head_or zs none)).prev y ≡ m.prev y)
  moved_other [] y h k = (update_other m.next n none y h, update_other m.prev n none y h)
  moved_other (z ∷ zs) y h k = (
    update_other m.next n (some z) y h,
    update_other (update m.prev n none) z (some n) y k.0 ∙ update_other m.prev n none y h,
  )

  -- The node stands before the others of the new list.
  record Moved (zs : List Ref) : Type 0 where
    list : NodeList
    runs : move_to n m new ≡ (moved_mem (head_or zs none), list)
    valid : IsList (moved_mem (head_or zs none)) list (n ∷ zs)

  by_ends :
      (h t : Option Ref)
      → new.head ≡ h
      → new.tail ≡ t
      → move_to n m new ≡ move_to n m (record { head = h; tail = t; count = new.count })
  by_ends h t = ap₂ (λ a b. move_to n m (record { head = a; tail = b; count = new.count }))

  move_to-Moved : (zs : List Ref) → IsList m new zs → Apart n zs → Moved zs
  move_to-Moved [] i a =
      let l : NodeList = record { head = some n; tail = some n; count = new.count + 1 } in
      record {
        list = l;
        runs = by_ends none none i.head_is i.tail_is;
        valid = insert-IsList m new n [] [] i a (moved_mem none) l refl refl refl refl refl;
      }
  move_to-Moved (z ∷ zs) i a =
      let l : NodeList = record new { head = some n; count = new.count + 1 } in
      record {
        list = l;
        runs = by_ends (some z) new.tail i.head_is refl;
        valid =
            insert-IsList m new n [] (z ∷ zs) i a (moved_mem (some z)) l refl
              (update_swap m.prev n z none (some n) (λ e. a.0 (sym e))) refl i.tail_is refl;
      }

others_stay :
    (xs ys zs : List Ref) (n : Ref) (m : Mem) (new : NodeList)
    → Apart n (xs ++ ys)
    → Disjoint (xs ++ ys) zs
    → All (Stays m (moved_mem n m new (head_or zs none))) (xs ++ ys)
others_stay xs ys zs n m new a d =
    All-zip (λ y. y ≢ n) (λ y. All (λ z. y ≢ z) zs) (Stays m (moved_mem n m new (head_or zs none)))
      (xs ++ ys) (moved_other n m new zs) a (Disjoint-flip (xs ++ ys) zs d)

module _ (n : Ref) (m : Mem) (old new : NodeList) (xs ys zs : List Ref) where
  -- The nodes of the new list keep their links while the node is unlinked.
  others_kept :
      (i : IsList m old (xs ++ (n ∷ ys)))
      → IsList m new zs
      → Disjoint (xs ++ (n ∷ ys)) zs
      → IsList (left_mem n m old xs ys i) new zs
  others_kept i j d =
      IsList-cong m (left_mem n m old xs ys i) new zs
        (All-map (λ z. Apart z xs) (λ z. after_last m.next xs (head_or ys none) z ≡ m.next z) zs
          (λ z. after_last_other m.next xs (head_or ys none) z) (Disjoint-left xs (n ∷ ys) zs d))
        (All-map (λ z. Apart z (n ∷ ys))
          (λ z. before_first m.prev ys (last_or none xs) z ≡ m.prev z) zs
          (λ z h. before_first_other m.prev ys (last_or none xs) z h.1)
          (Disjoint-right xs (n ∷ ys) zs d))
        j

  -- `move` of a node from one well-formed list to another, when no node is on both: the first
  -- becomes the well-formed list of its other nodes, in order, and the second has the node
  -- before its own. No data changes.
  pub move-IsList :
      IsList m old (xs ++ (n ∷ ys))
      → IsList m new zs
      → Disjoint (xs ++ (n ∷ ys)) zs
      → (m' : Mem) × (old' new' : NodeList) × (move n m old new ≡ (m', old', new'))
        × IsList m' old' (xs ++ ys)
        × IsList m' new' (n ∷ zs)
        × (m'.value ≡ m.value)
  unfolding move
  move-IsList i j d =
      let left = left_mem n m old xs ys i in
      let own =
        All-map (λ z. Apart z (n ∷ ys)) (λ z. z ≢ n) zs (λ z h e. h.0 (sym e))
          (Disjoint-right xs (n ∷ ys) zs d) in
      let q = move_to-Moved n left new zs (others_kept i j d) own in
      let target = moved_mem n left new (head_or zs none) in
      let run : move n m old new ≡ (target, left_list n m old xs ys i, q.list) =
        ap
          (λ (b : Mem × NodeList). (
            (move_to n b.0 new).0,
            record b.1 { count = decrement b.1.count },
            (move_to n b.0 new).1,
          ))
          (move_runs n m old xs ys i)
        ∙ ap (λ (c : Mem × NodeList). (c.0, left_list n m old xs ys i, c.1)) q.runs in
      let others =
        others_stay xs ys zs n left new (apart n m old xs ys i) (Disjoint-without xs ys zs n d) in
      (
        target,
        left_list n m old xs ys i,
        q.list,
        run,
        IsList-cong left target (left_list n m old xs ys i) (xs ++ ys)
            (All-map (λ y. Stays left target y) (λ y. target.next y ≡ left.next y) (xs ++ ys)
              (λ y h. h.0) others)
            (All-map (λ y. Stays left target y) (λ y. target.prev y ≡ left.prev y) (xs ++ ys)
              (λ y h. h.1) others)
            (left-IsList n m old xs ys i),
        q.valid,
        moved_value n left new (head_or zs none),
      )
