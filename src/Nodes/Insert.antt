-- ===== src/Nodes/Insert.antt =====
-- Putting a node on a list: at its end, at its head, before and after a node.
use mathlib.Core.Path.{fun_ext}
use libmowgli.Base.{
  ℕ, ◌+◌, ◌≡◌, ◌≢◌, refl, ap, ◌∙◌, sym, subst, List, [], ◌∷◌, ◌++◌, Option, none, some, All-left,
  All-right, length-append, arith, append-nil,
}
use libmowgli.Nodes.{Ref, Mem, NodeList, update, initialise, single, add, add_head}
use libmowgli.Nodes.Chain.{
  head_or, last_or, Forward, Backward, Apart, Distinct, IsList, update_same, last_or-append,
  Forward-left, Forward-right, Backward-left, Backward-right, Forward-update, Backward-update,
  after_last, before_first, Forward-join, Backward-join, Distinct-insert, Distinct-remove,
}

module _ {ℓ} {A : Type ℓ} where
  pub update_twice : (f : Ref → A) (x : Ref) (u v : A) → update (update f x u) x v ≡ update f x v
  update_twice f x u v = fun_ext (λ y. ground arith)

  pub update_swap :
      (f : Ref → A) (x y : Ref) (u v : A)
      → x ≢ y
      → update (update f x u) y v ≡ update (update f y v) x u
  update_swap f x y u v h = fun_ext (λ z. ground arith)

pub last_or-some : (x : Ref) (xs : List Ref) → (t : Ref) × (last_or (some x) xs ≡ some t)
last_or-some x [] = (x, refl)
last_or-some x (y ∷ xs) = last_or-some y xs

-- The links that an insertion between two chains is to leave.
abbrev pub linked_next : (Ref → Option Ref) → Ref → List Ref → List Ref → Ref → Option Ref
linked_next f n xs ys = after_last (update f n (head_or ys none)) xs (some n)

abbrev pub linked_prev : (Ref → Option Ref) → Ref → List Ref → List Ref → Ref → Option Ref
linked_prev g n xs ys = update (before_first g ys (some n)) n (last_or none xs)

Forward-insert :
    (f : Ref → Option Ref) (n : Ref) (xs ys : List Ref)
    → Distinct (xs ++ ys)
    → Apart n (xs ++ ys)
    → Forward f (xs ++ ys) none
    → Forward (linked_next f n xs ys) (xs ++ (n ∷ ys)) none
Forward-insert f n xs ys d a c =
    let h = head_or ys none in
    Forward-join (update f n h) xs (n ∷ ys) h none (Distinct-insert n xs ys d a)
      (Forward-update f n h xs h (All-left (λ y. y ≢ n) xs ys a) (Forward-left f xs ys none c))
      (
        update_same f n h,
        Forward-update f n h ys none (All-right (λ y. y ≢ n) xs ys a)
            (Forward-right f xs ys none c),
      )

-- The write to the first node behind `xs`.
Backward-before_first :
    (g : Ref → Option Ref) (v p : Option Ref) (xs ys : List Ref)
    → Distinct (xs ++ ys)
    → Backward g p xs
    → Backward (before_first g ys v) p xs
Backward-before_first g v p xs [] d c = c
Backward-before_first g v p xs (y ∷ ys) d c =
    let (_, a) = Distinct-remove y xs ys d in
    Backward-update g y v p xs (All-left (λ z. z ≢ y) xs ys a) c

before_first-Backward :
    (g : Ref → Option Ref) (v p : Option Ref) (ys : List Ref)
    → Distinct ys
    → Backward g p ys
    → Backward (before_first g ys v) v ys
before_first-Backward g v p [] d c = tt
before_first-Backward g v p (y ∷ ys) d c =
    (update_same g y v, Backward-update g y v (some y) ys d.0 c.1)

Distinct-right : (xs ys : List Ref) → Distinct (xs ++ ys) → Distinct ys
Distinct-right [] ys d = d
Distinct-right (x ∷ xs) ys d = Distinct-right xs ys d.1

Backward-insert :
    (g : Ref → Option Ref) (n : Ref) (xs ys : List Ref)
    → Distinct (xs ++ ys)
    → Apart n (xs ++ ys)
    → Backward g none (xs ++ ys)
    → Backward (linked_prev g n xs ys) none (xs ++ (n ∷ ys))
Backward-insert g n xs ys d a c =
    let g' = before_first g ys (some n) in
    Backward-join g' xs (n ∷ ys) none (g' n) (Distinct-insert n xs ys d a)
      (Backward-before_first g (some n) none xs ys d (Backward-left g none xs ys c))
      (
        refl,
        before_first-Backward g (some n) (last_or none xs) ys (Distinct-right xs ys d)
            (Backward-right g none xs ys c),
      )

-- The outcome of an operation: the list that it leaves, and what the nodes hold.
pub record Became (run : Option (Mem × NodeList)) (xs : List Ref) (values : Ref → ℕ) : Type 0 where
  pub mem : Mem
  pub list : NodeList
  pub runs : run ≡ some (mem, list)
  pub valid : IsList mem list xs
  pub values_are : mem.value ≡ values

module _ (m : Mem) (l : NodeList) (n : Ref) (xs ys : List Ref) (i : IsList m l (xs ++ ys))
    (a : Apart n (xs ++ ys)) where
  pub insert-IsList :
      (m' : Mem) (l' : NodeList)
      → m'.next ≡ linked_next m.next n xs ys
      → m'.prev ≡ linked_prev m.prev n xs ys
      → l'.head ≡ head_or (xs ++ (n ∷ ys)) none
      → l'.tail ≡ last_or none (xs ++ (n ∷ ys))
      → l'.count ≡ l.count + 1
      → IsList m' l' (xs ++ (n ∷ ys))
  insert-IsList m' l' e f h t c = record {
    head_is = h;
    tail_is = t;
    counted = omega (arith, c, i.counted, length-append xs ys, length-append xs (n ∷ ys));
    distinct = Distinct-insert n xs ys i.distinct a;
    forward =
        subst (λ g. Forward g (xs ++ (n ∷ ys)) none) (sym e)
          (Forward-insert m.next n xs ys i.distinct a i.forward);
    backward =
        subst (λ g. Backward g none (xs ++ (n ∷ ys))) (sym f)
          (Backward-insert m.prev n xs ys i.distinct a i.backward);
  }

module _ (value : ℕ) (n : Ref) (m : Mem) (l : NodeList) where
  single-IsList : IsList (initialise value n m) (single n) (n ∷ [])
  single-IsList = record {
    head_is = refl;
    tail_is = refl;
    counted = refl;
    distinct = (tt, tt);
    forward = (update_same m.next n none, tt);
    backward = (update_same m.prev n none, tt);
  }

  -- `add` puts a node that is not on the list behind all others, with its data. The other nodes
  -- keep their data.
  pub add-Became :
      (xs : List Ref)
      → IsList m l xs
      → Apart n xs
      → Became (add value n m l) (xs ++ (n ∷ [])) (update m.value n value)
  unfolding add
  add-Became [] i a = record {
    mem = initialise value n m;
    list = single n;
    runs = rw i.head_is refl;
    valid = single-IsList;
    values_are = refl;
  }
  add-Became (x ∷ xs) i a =
      let (t, e) = last_or-some x xs in
      let f = update m.next n none in
      let m' : Mem = record {
        next = update f t (some n);
        prev = update (update m.prev n none) n (some t);
        value = update m.value n value;
      } in
      let l' : NodeList = record l { tail = some n; count = l.count + 1 } in
      let whole = sym (append-nil (x ∷ xs)) in
      record {
        mem = m';
        list = l';
        runs = rw (i.head_is, i.tail_is, e) refl;
        valid =
            insert-IsList m l n (x ∷ xs) [] (subst (IsList m l) whole i) (subst (Apart n) whole a)
              m' l'
              (ap
                (λ (o : Option Ref). elim o as (λ _. Ref → Option Ref) [
                  | none ↦ f
                  | some p ↦ update f p (some n)
                ])
                (sym e))
              (update_twice m.prev n none (some t) ∙ ap (update m.prev n) (sym e)) i.head_is
              (sym (last_or-append none (x ∷ xs) (n ∷ []))) refl;
        values_are = refl;
      }

  -- `add_head` puts it before all others.
  pub add_head-IsList :
      (xs : List Ref)
      → IsList m l xs
      → Apart n xs
      → IsList (add_head value n m l).0 (add_head value n m l).1 (n ∷ xs)
        × ((add_head value n m l).0.value ≡ update m.value n value)
  unfolding add_head
  add_head-IsList [] i a = rw i.head_is (single-IsList, refl)
  add_head-IsList (x ∷ xs) i a =
      let m' : Mem = record {
        next = update (update m.next n none) n (some x);
        prev = update (update m.prev n none) x (some n);
        value = update m.value n value;
      } in
      let l' : NodeList = record l { head = some n; count = l.count + 1 } in
      rw i.head_is (
        insert-IsList m l n [] (x ∷ xs) i a m' l' (update_twice m.next n none (some x))
            (update_swap m.prev n x none (some n) (λ e. a.0 (sym e))) refl i.tail_is refl,
        refl,
      )
