-- ===== src/Nodes/Whole.antt =====
-- Whole lists: `concat` and `reverse`.
use libmowgli.Base.{
  ℕ, zero, suc, ◌+◌, ◌<◌, ◌≡◌, ◌≢◌, refl, ap, ◌∙◌, sym, subst, List, [], ◌∷◌, ◌++◌, Option, none,
  some, All, All-append, length, length-append, arith, append-nil,
}
use mathlib.Core.Path.{ap₂}
use libmowgli.Memory.{◌>>=◌}
use libmowgli.Nodes.{
  Ref, Mem, NodeList, empty, update, add, join, concat, swap, reverse_loop, reverse,
}
use libmowgli.Nodes.Chain.{
  head_or, last_or, Forward, Backward, Apart, Distinct, IsList, update_same, update_other,
  head_or-append, last_or-append, Forward-update, Backward-update, Forward-join, Backward-join,
  Distinct-insert,
}
use libmowgli.Nodes.Insert.{last_or-some, Became}

module _ (m : Mem) (l l2 : NodeList) where
  -- The outcome of a concatenation: one list with all nodes, and an empty one.
  pub record Joined (xs : List Ref) : Type 0 where
    pub mem : Mem
    pub list : NodeList
    pub runs : concat m l l2 ≡ (mem, list, empty)
    pub valid : IsList mem list xs
    pub values_are : mem.value ≡ m.value

  by_ends :
      (h t h2 : Option Ref)
      → l.head ≡ h
      → l.tail ≡ t
      → l2.head ≡ h2
      → concat m l l2 ≡ (
        join m t h2,
        record {
          head = elim h as (λ _. Option Ref) [ none ↦ h2 | some x ↦ some x ];
          tail = l2.tail;
          count = l.count + l2.count;
        },
        empty,
      )
  unfolding concat
  by_ends h t h2 e f g =
      ap
        (λ a. (
          join m l.tail a,
          record {
            head = elim l.head as (λ _. Option Ref) [ none ↦ a | some x ↦ some x ];
            tail = l2.tail;
            count = l.count + l2.count;
          },
          empty,
        ))
        g
      ∙ ap₂
          (λ a b. (
            join m b h2,
            record {
              head = elim a as (λ _. Option Ref) [ none ↦ h2 | some x ↦ some x ];
              tail = l2.tail;
              count = l.count + l2.count;
            },
            empty,
          ))
          e f

  -- `concat` of a well-formed list with a second one that is not empty, when no node is on
  -- both, leaves the nodes of the first and behind them those of the second as one well-formed
  -- list. No data changes, and the second list is empty.
  pub concat-Joined :
      (xs ys : List Ref) (y : Ref)
      → IsList m l xs
      → IsList m l2 (y ∷ ys)
      → Distinct (xs ++ (y ∷ ys))
      → Joined (xs ++ (y ∷ ys))
  concat-Joined [] ys y i j d = record {
    mem = m;
    list = record { head = some y; tail = l2.tail; count = l.count + l2.count };
    runs = by_ends none none (some y) i.head_is i.tail_is j.head_is;
    valid = record {
      head_is = refl;
      tail_is = j.tail_is;
      counted = omega (arith, i.counted, j.counted);
      distinct = j.distinct;
      forward = j.forward;
      backward = j.backward;
    };
    values_are = refl;
  }
  concat-Joined (x ∷ xs) ys y i j d =
      let (t, e) = last_or-some x xs in
      record {
        mem = record m { next = update m.next t (some y); prev = update m.prev y (some t) };
        list = record { head = some x; tail = l2.tail; count = l.count + l2.count };
        runs = by_ends (some x) (some t) (some y) i.head_is (i.tail_is ∙ e) j.head_is;
        valid = record {
          head_is = refl;
          tail_is = j.tail_is ∙ sym (last_or-append (some x) xs (y ∷ ys));
          counted = omega (arith, i.counted, j.counted, length-append (x ∷ xs) (y ∷ ys));
          distinct = d;
          forward =
              subst
                (λ (o : Option Ref).
                  Forward
                    (elim o as (λ _. Ref → Option Ref) [
                      | none ↦ m.next
                      | some p ↦ update m.next p (some y)
                    ])
                    (x ∷ (xs ++ (y ∷ ys))) none)
                e (Forward-join m.next (x ∷ xs) (y ∷ ys) none none d i.forward j.forward);
          backward =
              subst (λ (o : Option Ref). Backward (update m.prev y o) none (x ∷ (xs ++ (y ∷ ys)))) e
                (Backward-join m.prev (x ∷ xs) (y ∷ ys) none none d i.backward j.backward);
        };
        values_are = refl;
      }

  -- `concat` of a well-formed list that is not empty with an empty one loses the tail: an `add`
  -- to the result then reads through NULL.
  pub concat_empty-add :
      (value : ℕ) (n x : Ref) (xs : List Ref)
      → IsList m l (x ∷ xs)
      → IsList m l2 []
      → add value n (concat m l l2).0 (concat m l l2).1 ≡ none
  unfolding add
  concat_empty-add value n x xs i j =
      ap (λ (r : Mem × NodeList × NodeList). add value n r.0 r.1)
        (by_ends (some x) l.tail none i.head_is refl j.head_is)
      ∙ ap
          (λ (o : Option Ref).
            add value n (join m l.tail none)
              (record { head = some x; tail = o; count = l.count + l2.count }))
          j.tail_is

-- The list from its end.
abbrev pub backwards : List Ref → List Ref
backwards [] = []
backwards (x ∷ xs) = backwards xs ++ (x ∷ [])

head_or-backwards : (xs : List Ref) (q : Option Ref) → head_or (backwards xs) q ≡ last_or q xs
head_or-backwards [] q = refl
head_or-backwards (x ∷ xs) q =
    head_or-append (backwards xs) (x ∷ []) q ∙ head_or-backwards xs (some x)

last_or-backwards : (xs : List Ref) (q : Option Ref) → last_or q (backwards xs) ≡ head_or xs q
last_or-backwards [] q = refl
last_or-backwards (x ∷ xs) q = last_or-append q (backwards xs) (x ∷ [])

length-backwards : (xs : List Ref) → length (backwards xs) ≡ length xs
length-backwards [] = refl
length-backwards (x ∷ xs) =
    omega (arith, length-append (backwards xs) (x ∷ []), length-backwards xs)

All-backwards : (P : Ref → Type 0) (xs : List Ref) → All P xs → All P (backwards xs)
All-backwards P [] h = tt
All-backwards P (x ∷ xs) h = All-append P (backwards xs) (x ∷ []) (All-backwards P xs h.1) (h.0, tt)

Distinct-backwards : (xs : List Ref) → Distinct xs → Distinct (backwards xs)
Distinct-backwards [] d = tt
Distinct-backwards (x ∷ xs) d =
    let whole = sym (append-nil (backwards xs)) in
    Distinct-insert x (backwards xs) [] (subst Distinct whole (Distinct-backwards xs d.1))
      (subst (Apart x) whole (All-backwards (λ y. y ≢ x) xs d.0))

Forward-append :
    (f : Ref → Option Ref) (xs ys : List Ref) (q : Option Ref)
    → Forward f xs (head_or ys q)
    → Forward f ys q
    → Forward f (xs ++ ys) q
Forward-append f [] ys q b c = c
Forward-append f (x ∷ xs) ys q b c =
    (b.0 ∙ sym (head_or-append xs ys q), Forward-append f xs ys q b.1 c)

Backward-append :
    (g : Ref → Option Ref) (p : Option Ref) (xs ys : List Ref)
    → Backward g p xs
    → Backward g (last_or p xs) ys
    → Backward g p (xs ++ ys)
Backward-append g p [] ys b c = c
Backward-append g p (x ∷ xs) ys b c = (b.0, Backward-append g (some x) xs ys b.1 c)

-- Every node of `xs` with its links swapped.
abbrev swap_all : Mem → List Ref → Mem
swap_all m [] = m
swap_all m (x ∷ xs) = swap_all (swap m x) xs

swap_all_other :
    (m : Mem) (xs : List Ref) (y : Ref)
    → Apart y xs
    → ((swap_all m xs).next y ≡ m.next y) × ((swap_all m xs).prev y ≡ m.prev y)
swap_all_other m [] y a = (refl, refl)
swap_all_other m (x ∷ xs) y a =
    let (e, f) = swap_all_other (swap m x) xs y a.1 in
    let ne : y ≢ x = λ k. a.0 (sym k) in
    (e ∙ update_other m.next x (m.prev x) y ne, f ∙ update_other m.prev x (m.next x) y ne)

swap_all-value : (m : Mem) (xs : List Ref) → (swap_all m xs).value ≡ m.value
swap_all-value m [] = refl
swap_all-value m (x ∷ xs) = swap_all-value (swap m x) xs

reverse_loop-swap_all :
    (fuel : ℕ) (m : Mem) (xs : List Ref)
    → Forward m.next xs none
    → Distinct xs
    → length xs < fuel
    → reverse_loop fuel m (head_or xs none) ≡ some (swap_all m xs)
unfolding reverse_loop
reverse_loop-swap_all zero m xs c d l = absurd (omega arith)
reverse_loop-swap_all (suc fuel) m [] c d l = refl
reverse_loop-swap_all (suc fuel) m (x ∷ xs) c d l =
    ap (reverse_loop fuel (swap m x)) c.0
    ∙ reverse_loop-swap_all fuel (swap m x) xs (Forward-update m.next x (m.prev x) xs none d.0 c.1)
        d.1 (omega arith)

swap_all-links :
    (m : Mem) (xs : List Ref) (p q : Option Ref)
    → Forward m.next xs q
    → Backward m.prev p xs
    → Distinct xs
    → Forward (swap_all m xs).next (backwards xs) p × Backward (swap_all m xs).prev q (backwards xs)
swap_all-links m [] p q b c d = (tt, tt)
swap_all-links m (x ∷ xs) p q b c d =
    let m1 = swap m x in
    let s = swap_all m1 xs in
    let (f, g) =
      swap_all-links m1 xs (some x) q (Forward-update m.next x (m.prev x) xs q d.0 b.1)
        (Backward-update m.prev x (m.next x) (some x) xs d.0 c.1) d.1 in
    let (here, there) = swap_all_other m1 xs x d.0 in
    (
      Forward-append s.next (backwards xs) (x ∷ []) p f
          (here ∙ update_same m.next x (m.prev x) ∙ c.0, tt),
      Backward-append s.prev q (backwards xs) (x ∷ []) g
          (there ∙ update_same m.prev x (m.next x) ∙ b.0 ∙ sym (last_or-backwards xs q), tt),
    )

-- `reverse` of a well-formed list, with more fuel than nodes, ends with the well-formed list of
-- the same nodes in the opposite order. No data changes.
pub reverse-backwards :
    (fuel : ℕ) (m : Mem) (l : NodeList) (xs : List Ref)
    → IsList m l xs
    → length xs < fuel
    → Became (reverse fuel m l) (backwards xs) m.value
unfolding reverse
reverse-backwards fuel m l xs i enough =
    let s = swap_all m xs in
    let l' : NodeList = record l { head = l.tail; tail = l.head } in
    let (f, g) = swap_all-links m xs none none i.forward i.backward i.distinct in
    record {
      mem = s;
      list = l';
      runs =
          ap (λ o. o >>= λ m'. some (m', l'))
            (ap (reverse_loop fuel m) i.head_is
              ∙ reverse_loop-swap_all fuel m xs i.forward i.distinct enough);
      valid = record {
        head_is = i.tail_is ∙ sym (head_or-backwards xs none);
        tail_is = i.head_is ∙ sym (last_or-backwards xs none);
        counted = i.counted ∙ sym (length-backwards xs);
        distinct = Distinct-backwards xs i.distinct;
        forward = f;
        backward = g;
      };
      values_are = swap_all-value m xs;
    }
