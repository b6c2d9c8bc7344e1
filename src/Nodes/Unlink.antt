-- ===== src/Nodes/Unlink.antt =====
-- Taking a node off its list, and moving it to another list.
use libmowgli.Base.{
  suc, ◌≡◌, ◌≢◌, refl, ap, ◌∙◌, sym, subst, List, [], ◌∷◌, ◌++◌, Option, none, some, All, All-left,
  All-right, length, length-append, arith,
}
use libmowgli.Nodes.{
  Ref, Mem, NodeList, update, set_next, set_prev, decrement, unlink_prev, unlink_next, delete,
}
use libmowgli.Nodes.Chain.{
  head_or, last_or, Forward, Backward, Apart, IsList, last_or-append, Forward-left, Forward-right,
  Backward-left, Backward-right, after_last, before_first, after_last_other, before_first_other,
  Forward-join, Backward-join, Distinct-remove,
}
use libmowgli.Nodes.Insert.{last_or-some}

pub Forward-cong :
    (f g : Ref → Option Ref) (xs : List Ref) (q : Option Ref)
    → All (λ y. g y ≡ f y) xs
    → Forward f xs q
    → Forward g xs q
Forward-cong f g [] q e c = tt
Forward-cong f g (x ∷ xs) q e c = (e.0 ∙ c.0, Forward-cong f g xs q e.1 c.1)

pub Backward-cong :
    (f g : Ref → Option Ref) (p : Option Ref) (xs : List Ref)
    → All (λ y. g y ≡ f y) xs
    → Backward f p xs
    → Backward g p xs
Backward-cong f g p [] e c = tt
Backward-cong f g p (x ∷ xs) e c = (e.0 ∙ c.0, Backward-cong f g (some x) xs e.1 c.1)

-- A list stays a list when the links of its nodes stay.
pub IsList-cong :
    (m m' : Mem) (l : NodeList) (xs : List Ref)
    → All (λ y. m'.next y ≡ m.next y) xs
    → All (λ y. m'.prev y ≡ m.prev y) xs
    → IsList m l xs
    → IsList m' l xs
IsList-cong m m' l xs e f i = record {
  head_is = i.head_is;
  tail_is = i.tail_is;
  counted = i.counted;
  distinct = i.distinct;
  forward = Forward-cong m.next m'.next xs none e i.forward;
  backward = Backward-cong m.prev m'.prev none xs f i.backward;
}

-- Each half of the unlinking, by what the node's link holds.
split_prev :
    (m : Mem) (l : NodeList) (v o : Option Ref)
    → elim o as (λ _. Mem × NodeList) [
      | none ↦ (m, record l { head = v })
      | some p ↦ (set_next m p v, l)
    ]
      ≡ (
        record m { next = elim o [ none ↦ m.next | some p ↦ update m.next p v ] },
        record l { head = elim o [ none ↦ v | some _ ↦ l.head ] },
      )
split_prev m l v none = refl
split_prev m l v (some p) = refl

split_next :
    (m : Mem) (l : NodeList) (v o : Option Ref)
    → elim o as (λ _. Mem × NodeList) [
      | none ↦ (m, record l { tail = v })
      | some x ↦ (set_prev m x v, l)
    ]
      ≡ (
        record m { prev = elim o [ none ↦ m.prev | some x ↦ update m.prev x v ] },
        record l { tail = elim o [ none ↦ v | some _ ↦ l.tail ] },
      )
split_next m l v none = refl
split_next m l v (some x) = refl

module _ (n : Ref) (m : Mem) (l : NodeList) (p q : Option Ref) (h : m.prev n ≡ p)
    (k : m.next n ≡ q) where
  abbrev without_prev : Mem × NodeList
  without_prev = (
    record m { next = elim p [ none ↦ m.next | some x ↦ update m.next x q ] },
    record l { head = elim p [ none ↦ q | some _ ↦ l.head ] },
  )

  abbrev without_next : Mem × NodeList
  without_next = (
    record m { prev = elim q [ none ↦ m.prev | some x ↦ update m.prev x p ] },
    record l { tail = elim q [ none ↦ p | some _ ↦ l.tail ] },
  )

  unlink_prev_lem : unlink_prev n m l ≡ without_prev
  unlink_prev_lem =
      ap
        (λ (o : Option Ref). elim o as (λ _. Mem × NodeList) [
          | none ↦ (m, record l { head = m.next n })
          | some x ↦ (set_next m x (m.next n), l)
        ])
        h
      ∙ ap
          (λ v. elim p as (λ _. Mem × NodeList) [
            | none ↦ (m, record l { head = v })
            | some x ↦ (set_next m x v, l)
          ])
          k
      ∙ split_prev m l q p

  unlink_next_lem : unlink_next n m l ≡ without_next
  unlink_next_lem =
      ap
        (λ (o : Option Ref). elim o as (λ _. Mem × NodeList) [
          | none ↦ (m, record l { tail = m.prev n })
          | some x ↦ (set_prev m x (m.prev n), l)
        ])
        k
      ∙ ap
          (λ v. elim q as (λ _. Mem × NodeList) [
            | none ↦ (m, record l { tail = v })
            | some x ↦ (set_prev m x v, l)
          ])
          h
      ∙ split_next m l p q

module _ (n : Ref) (m : Mem) (l : NodeList) (xs ys : List Ref)
    (i : IsList m l (xs ++ (n ∷ ys))) where
  -- The memory and the list record without the node.
  abbrev pub left_mem : Mem
  left_mem = record m {
    next = after_last m.next xs (head_or ys none);
    prev = before_first m.prev ys (last_or none xs);
  }

  abbrev pub left_list : NodeList
  left_list = record {
    head = elim (last_or none xs) [ none ↦ head_or ys none | some _ ↦ l.head ];
    tail = elim (head_or ys none) [ none ↦ last_or none xs | some _ ↦ l.tail ];
    count = decrement l.count;
  }

  prev_is : m.prev n ≡ last_or none xs
  prev_is = (Backward-right m.prev none xs (n ∷ ys) i.backward).0

  next_is : m.next n ≡ head_or ys none
  next_is = (Forward-right m.next xs (n ∷ ys) none i.forward).0

  pub apart : Apart n (xs ++ ys)
  apart = (Distinct-remove n xs ys i.distinct).1

  delete_runs : delete n m l ≡ (left_mem, left_list)
  unfolding delete
  delete_runs =
      let p = last_or none xs in
      let q = head_or ys none in
      let a = without_prev n m l p q prev_is next_is in
      let still = after_last_other m.next xs q n (All-left (λ y. y ≢ n) xs ys apart) ∙ next_is in
      ap
        (λ (r : Mem × NodeList). (
          (unlink_next n r.0 r.1).0,
          record (unlink_next n r.0 r.1).1 { count = decrement (unlink_next n r.0 r.1).1.count },
        ))
        (unlink_prev_lem n m l p q prev_is next_is)
      ∙ ap (λ (r : Mem × NodeList). (r.0, record r.1 { count = decrement r.1.count }))
          (unlink_next_lem n a.0 a.1 p q prev_is still)

  pub move_runs :
      unlink_prev n (unlink_next n m l).0 (unlink_next n m l).1
      ≡ (left_mem, record left_list { count = l.count })
  move_runs =
      let p = last_or none xs in
      let q = head_or ys none in
      let a = without_next n m l p q prev_is next_is in
      let still = before_first_other m.prev ys p n (All-right (λ y. y ≢ n) xs ys apart) ∙ prev_is in
      ap (λ (r : Mem × NodeList). unlink_prev n r.0 r.1) (unlink_next_lem n m l p q prev_is next_is)
      ∙ unlink_prev_lem n a.0 a.1 p q still next_is

  head_left :
      (xs : List Ref) (h : Option Ref)
      → h ≡ head_or (xs ++ (n ∷ ys)) none
      → elim (last_or none xs) as (λ _. Option Ref) [ none ↦ head_or ys none | some _ ↦ h ]
        ≡ head_or (xs ++ ys) none
  head_left [] h e = refl
  head_left (x ∷ xs) h e =
      let (t, k) = last_or-some x xs in
      ap (λ (o : Option Ref). elim o as (λ _. Option Ref) [ none ↦ head_or ys none | some _ ↦ h ]) k
      ∙ e

  tail_left :
      (ys : List Ref) (h : Option Ref)
      → h ≡ last_or none (xs ++ (n ∷ ys))
      → elim (head_or ys none) as (λ _. Option Ref) [ none ↦ last_or none xs | some _ ↦ h ]
        ≡ last_or none (xs ++ ys)
  tail_left [] h e = sym (last_or-append none xs [])
  tail_left (y ∷ ys) h e =
      e ∙ last_or-append none xs (n ∷ y ∷ ys) ∙ sym (last_or-append none xs (y ∷ ys))

  pub left-IsList : IsList left_mem left_list (xs ++ ys)
  left-IsList =
      let d = (Distinct-remove n xs ys i.distinct).0 in
      record {
        head_is = head_left xs l.head i.head_is;
        tail_is = tail_left ys l.tail i.tail_is;
        counted =
            let c : l.count ≡ suc (length (xs ++ ys)) =
              omega (arith, i.counted, length-append xs (n ∷ ys), length-append xs ys) in
            ap decrement c;
        distinct = d;
        forward =
            Forward-join m.next xs ys (some n) none d
              (Forward-left m.next xs (n ∷ ys) none i.forward)
              (Forward-right m.next xs (n ∷ ys) none i.forward).1;
        backward =
            Backward-join m.prev xs ys none (some n) d
              (Backward-left m.prev none xs (n ∷ ys) i.backward)
              (Backward-right m.prev none xs (n ∷ ys) i.backward).1;
      }

  -- `delete` of a node of a well-formed list leaves the well-formed list of the others, in
  -- order. No data changes.
  pub delete-IsList :
      IsList (delete n m l).0 (delete n m l).1 (xs ++ ys) × ((delete n m l).0.value ≡ m.value)
  delete-IsList =
      subst (λ (r : Mem × NodeList). IsList r.0 r.1 (xs ++ ys) × (r.0.value ≡ m.value))
        (sym delete_runs) (left-IsList, refl)
