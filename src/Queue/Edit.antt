-- ===== src/Queue/Edit.antt =====
-- Removing and pushing elements of a queue.
use mathlib.Core.Path.{ap₂}
use libmowgli.Base.{
  ℕ, ◌≡◌, ◌≢◌, refl, ap, ◌∙◌, sym, subst, List, [], ◌∷◌, ◌++◌, Option, none, some, All-left,
  All-right, append-nil, append_assoc,
}
use libmowgli.Nodes.{Ref, Mem, update, set_next, set_prev}
use libmowgli.Nodes.Chain.{
  head_or, last_or, Forward, Backward, Apart, Distinct, update_same, last_or-append, Forward-left,
  Forward-right, Backward-left, Backward-right, Forward-update, Backward-update, after_last,
  before_first, after_last_other, before_first_other, Forward-join, Backward-join, Distinct-remove,
  Distinct-insert,
}
use libmowgli.Nodes.Insert.{update_twice}
use libmowgli.Queue.{skip_forward, skip_backward, remove, push, pop_head, pop_tail}

-- The elements `xs`, each once, linked both ways.
pub record IsQueue (m : Mem) (xs : List Ref) : Type 0 where
  pub distinct : Distinct xs
  pub forward : Forward m.next xs none
  pub backward : Backward m.prev none xs

skip_forward-is :
    (h : Ref) (m : Mem) (p q : Option Ref)
    → m.prev h ≡ p
    → m.next h ≡ q
    → skip_forward h m ≡ record m { next = elim p [ none ↦ m.next | some x ↦ update m.next x q ] }
skip_forward-is h m p q e f =
    ap (λ (o : Option Ref). elim o as (λ _. Mem) [ none ↦ m | some x ↦ set_next m x (m.next h) ]) e
    ∙ ap (λ v. elim p as (λ _. Mem) [ none ↦ m | some x ↦ set_next m x v ]) f
    ∙ split p
  where
    split :
        (p : Option Ref)
        → elim p as (λ _. Mem) [ none ↦ m | some x ↦ set_next m x q ]
          ≡ record m { next = elim p [ none ↦ m.next | some x ↦ update m.next x q ] }
    split none = refl
    split (some x) = refl

skip_backward-is :
    (h : Ref) (m : Mem) (p q : Option Ref)
    → m.prev h ≡ p
    → m.next h ≡ q
    → skip_backward h m ≡ record m { prev = elim q [ none ↦ m.prev | some x ↦ update m.prev x p ] }
skip_backward-is h m p q e f =
    ap (λ (o : Option Ref). elim o as (λ _. Mem) [ none ↦ m | some x ↦ set_prev m x (m.prev h) ]) f
    ∙ ap (λ v. elim q as (λ _. Mem) [ none ↦ m | some x ↦ set_prev m x v ]) e
    ∙ split q
  where
    split :
        (q : Option Ref)
        → elim q as (λ _. Mem) [ none ↦ m | some x ↦ set_prev m x p ]
          ≡ record m { prev = elim q [ none ↦ m.prev | some x ↦ update m.prev x p ] }
    split none = refl
    split (some x) = refl

Distinct-left : (xs ys : List Ref) → Distinct (xs ++ ys) → Distinct xs
Distinct-left [] ys d = tt
Distinct-left (x ∷ xs) ys d = (All-left (λ y. y ≢ x) xs ys d.0, Distinct-left xs ys d.1)

-- The neighbour that `remove` returns.
abbrev pub neighbour : List Ref → List Ref → Option Ref
neighbour xs ys = elim (last_or none xs) [ none ↦ head_or ys none | some p ↦ some p ]

module _ (m : Mem) (n : Ref) (xs ys : List Ref) (i : IsQueue m (xs ++ (n ∷ ys))) where
  abbrev left_mem : Mem
  left_mem = record m {
    next = after_last m.next xs (head_or ys none);
    prev = before_first m.prev ys (last_or none xs);
  }

  prev_is : m.prev n ≡ last_or none xs
  prev_is = (Backward-right m.prev none xs (n ∷ ys) i.backward).0

  next_is : m.next n ≡ head_or ys none
  next_is = (Forward-right m.next xs (n ∷ ys) none i.forward).0

  left-IsQueue : IsQueue left_mem (xs ++ ys)
  left-IsQueue =
      let d = (Distinct-remove n xs ys i.distinct).0 in
      record {
        distinct = d;
        forward =
            Forward-join m.next xs ys (some n) none d
              (Forward-left m.next xs (n ∷ ys) none i.forward)
              (Forward-right m.next xs (n ∷ ys) none i.forward).1;
        backward =
            Backward-join m.prev xs ys none (some n) d
              (Backward-left m.prev none xs (n ∷ ys) i.backward)
              (Backward-right m.prev none xs (n ∷ ys) i.backward).1;
      }

  remove_runs : remove n m ≡ (left_mem, neighbour xs ys)
  unfolding remove
  remove_runs =
      let p = last_or none xs in
      let q = head_or ys none in
      let a = (Distinct-remove n xs ys i.distinct).1 in
      let m1 : Mem = record m { next = after_last m.next xs q } in
      let still = after_last_other m.next xs q n (All-left (λ y. y ≢ n) xs ys a) ∙ next_is in
      let still_prev =
        before_first_other m.prev ys p n (All-right (λ y. y ≢ n) xs ys a) ∙ prev_is in
      let w : skip_backward n (skip_forward n m) ≡ left_mem =
        ap (skip_backward n) (skip_forward-is n m p q prev_is next_is)
        ∙ skip_backward-is n m1 p q prev_is still in
      ap
        (λ (r : Mem).
          (r, elim (r.prev n) as (λ _. Option Ref) [ none ↦ r.next n | some z ↦ some z ]))
        w
      ∙ ap₂ (λ a b. (left_mem, elim a as (λ _. Option Ref) [ none ↦ b | some z ↦ some z ]))
          still_prev still

  -- `remove` of an element of a well-formed queue leaves the well-formed queue of the others,
  -- in order, and returns the element before it, or the one behind it if it was the first. No
  -- data changes.
  pub remove-IsQueue :
      IsQueue (remove n m).0 (xs ++ ys)
      × ((remove n m).1 ≡ neighbour xs ys)
      × ((remove n m).0.value ≡ m.value)
  remove-IsQueue =
      subst
        (λ (r : Mem × Option Ref).
          IsQueue r.0 (xs ++ ys) × (r.1 ≡ neighbour xs ys) × (r.0.value ≡ m.value))
        (sym remove_runs) (left-IsQueue, refl, refl)

module _ (m : Mem) (n : Ref) (ys : List Ref) (i : IsQueue m (n ∷ ys)) where
  -- `pop_head` at the first element of a well-formed queue gives its datum and the element
  -- behind it, and leaves the well-formed queue of the others, in order. No data changes.
  pub pop_head-IsQueue :
      IsQueue (pop_head n m).0 ys
      × ((pop_head n m).1 ≡ m.value n)
      × ((pop_head n m).2 ≡ head_or ys none)
      × ((pop_head n m).0.value ≡ m.value)
  unfolding pop_head
  pop_head-IsQueue = let (q, _, v) = remove-IsQueue m n [] ys i in (q, refl, next_is m n [] ys i, v)

module _ (m : Mem) (n : Ref) (xs : List Ref) (i : IsQueue m (xs ++ (n ∷ []))) where
  pub pop_tail-IsQueue :
      IsQueue (pop_tail n m).0 xs
      × ((pop_tail n m).1 ≡ m.value n)
      × ((pop_tail n m).2 ≡ last_or none xs)
      × ((pop_tail n m).0.value ≡ m.value)
  unfolding pop_tail
  pop_tail-IsQueue =
      let (q, _, v) = remove-IsQueue m n xs [] i in
      (subst (IsQueue (pop_tail n m).0) (append-nil xs) q, refl, prev_is m n xs [] i, v)

module _ (m : Mem) (t out value : ℕ) (xs ys : List Ref) (i : IsQueue m (xs ++ (t ∷ ys)))
    (a : Apart out (xs ++ (t ∷ ys))) where
  -- `push` of a new element behind an element of a well-formed queue leaves a well-formed queue
  -- that ends with the new element: what stood behind that element is no longer on it. The
  -- other elements keep their data.
  pub push-IsQueue :
      IsQueue (push t value out m) (xs ++ (t ∷ out ∷ []))
      × ((push t value out m).value ≡ update m.value out value)
  unfolding push
  push-IsQueue =
      let us = xs ++ (t ∷ []) in
      let split = sym (append_assoc xs (t ∷ []) ys) in
      let last : last_or none us ≡ some t = last_or-append none xs (t ∷ []) in
      let apart = All-left (λ y. y ≢ out) us ys (subst (Apart out) split a) in
      let d = Distinct-left us ys (subst Distinct split i.distinct) in
      let whole = sym (append-nil us) in
      let d' = Distinct-insert out us [] (subst Distinct whole d) (subst (Apart out) whole apart) in
      let f = update m.next out none in
      let g = update m.prev out none in
      let c =
        Forward-left m.next us ys none (subst (λ zs. Forward m.next zs none) split i.forward) in
      let b = Backward-left m.prev none us ys (subst (Backward m.prev none) split i.backward) in
      (
        subst (IsQueue (push t value out m)) (append_assoc xs (t ∷ []) (out ∷ [])) (record {
          distinct = d';
          forward =
              subst
                (λ (o : Option Ref).
                  Forward
                    (elim o as (λ _. Ref → Option Ref) [
                      | none ↦ f
                      | some p ↦ update f p (some out)
                    ])
                    (us ++ (out ∷ [])) none)
                last
                (Forward-join f us (out ∷ []) (head_or ys none) none d'
                  (Forward-update m.next out none us (head_or ys none) apart c)
                  (update_same m.next out none, tt));
          backward =
              subst (λ (o : Option Ref). Backward (update g out o) none (us ++ (out ∷ []))) last
                (Backward-join g us (out ∷ []) none (g out) d'
                  (Backward-update m.prev out none none us apart b) (refl, tt));
        }),
        update_twice m.value out 0 value,
      )
