-- ===== src/Nodes/Between.antt =====
-- Putting a node on a list before or after one that is there.
use libmowgli.Base.{
  ℕ, ◌+◌, ◌≡◌, ◌≢◌, refl, ap, ◌∙◌, sym, subst, List, [], ◌∷◌, ◌++◌, Option, none, some, true, false,
  ◌==◌, if◌then◌else◌, All-right, arith, append_assoc,
}
use libmowgli.Memory.{◌>>=◌}
use libmowgli.Nodes.{
  Ref, Mem, NodeList, update, add, add_head, add_before, add_after, before_middle, after_middle,
  set_next, set_prev, is,
}
use libmowgli.Nodes.Chain.{
  head_or, last_or, Apart, IsList, update_same, update_other, last_or-append, Forward-right,
  Backward-right,
}
use libmowgli.Nodes.Insert.{
  update_swap, last_or-some, insert-IsList, Became, add-Became, add_head-IsList,
}

eq_false : (a b : ℕ) → a ≢ b → (a == b) ≡ false
eq_false a b h = ground arith

eq_self : (a : ℕ) → (a == a) ≡ true
eq_self a = ground arith

module _ (value : ℕ) (n : Ref) (m : Mem) (b : Ref) (h : n ≢ b) where
  before_middle-some :
      (t : Ref)
      → m.prev b ≡ some t
      → before_middle value n m b ≡ record {
        next = update (update m.next n (some b)) t (some n);
        prev = update (update m.prev n (some t)) b (some n);
        value = update m.value n value;
      }
  before_middle-some t e =
      let whole : Mem = record {
        next = update m.next n (some b);
        prev = update (update m.prev n (m.prev b)) b (some n);
        value = update m.value n value;
      } in
      let kept =
        update_other (update m.prev n (m.prev b)) b (some n) n h
        ∙ update_same m.prev n (m.prev b) in
      ap
        (λ (o : Option Ref). elim o as (λ _. Mem) [
          | none ↦ whole
          | some p ↦ set_next whole p (some n)
        ])
        (kept ∙ e)
      ∙ ap
          (λ v. record {
            next = update (update m.next n (some b)) t (some n);
            prev = update (update m.prev n v) b (some n);
            value = update m.value n value;
          })
          e

  after_middle-some :
      (y : Ref)
      → m.next b ≡ some y
      → after_middle value n m b
        ≡ some (record {
          next = update (update m.next n (some y)) b (some n);
          prev = update (update m.prev n (some b)) y (some n);
          value = update m.value n value;
        })
  after_middle-some y e =
      let whole : Mem = record {
        next = update (update m.next n (m.next b)) b (some n);
        prev = update m.prev n (some b);
        value = update m.value n value;
      } in
      let kept =
        update_other (update m.next n (m.next b)) b (some n) n h
        ∙ update_same m.next n (m.next b) in
      ap (λ (o : Option Ref). o >>= λ x. some (set_prev whole x (some n))) (kept ∙ e)
      ∙ ap
          (λ v. some (record {
            next = update (update m.next n v) b (some n);
            prev = update (update m.prev n (some b)) y (some n);
            value = update m.value n value;
          }))
          e

module _ (value : ℕ) (n : Ref) (m : Mem) (l : NodeList) (b x : Ref) (e : l.head ≡ some x) where
  run_before : add_before value n m l (some b) ≡ (
      if x == b
      then some (add_head value n m l)
      else some (before_middle value n m b, record l { count = l.count + 1 }))
  unfolding add_before
  run_before =
      ap
        (λ o.
          if is o b
          then some (add_head value n m l)
          else some (before_middle value n m b, record l { count = l.count + 1 }))
        e

module _ (value : ℕ) (n : Ref) (m : Mem) (l : NodeList) (b : Ref) where
  -- `add_before` a node of a well-formed list puts a new node directly before it. The list
  -- stays well-formed, and the other nodes keep their data.
  pub add_before-Became :
      (xs ys : List Ref)
      → IsList m l (xs ++ (b ∷ ys))
      → Apart n (xs ++ (b ∷ ys))
      → Became (add_before value n m l (some b)) (xs ++ (n ∷ b ∷ ys)) (update m.value n value)
  unfolding add_before
  add_before-Became [] ys i a =
      let (v, w) = add_head-IsList value n m l (b ∷ ys) i a in
      record {
        mem = (add_head value n m l).0;
        list = (add_head value n m l).1;
        runs = run_before value n m l b b i.head_is ∙ rw (eq_self b) refl;
        valid = v;
        values_are = w;
      }
  add_before-Became (x ∷ xs) ys i a =
      let (t, e) = last_or-some x xs in
      let apart = (All-right (λ y. y ≢ n) xs (b ∷ ys) a.1).0 in
      let x_ne : x ≢ b = λ k. (All-right (λ y. y ≢ x) xs (b ∷ ys) i.distinct.0).0 (sym k) in
      let before : m.prev b ≡ some t =
        (Backward-right m.prev none (x ∷ xs) (b ∷ ys) i.backward).0 ∙ e in
      let m' : Mem = record {
        next = update (update m.next n (some b)) t (some n);
        prev = update (update m.prev n (some t)) b (some n);
        value = update m.value n value;
      } in
      let l' : NodeList = record l { count = l.count + 1 } in
      record {
        mem = m';
        list = l';
        runs =
            run_before value n m l b x i.head_is
            ∙ rw (eq_false x b x_ne) (
                ap (λ k. some (k, l'))
                  (before_middle-some value n m b (λ k. apart (sym k)) t before));
        valid =
            insert-IsList m l n (x ∷ xs) (b ∷ ys) i a m' l'
              (ap
                (λ (o : Option Ref). elim o as (λ _. Ref → Option Ref) [
                  | none ↦ update m.next n (some b)
                  | some p ↦ update (update m.next n (some b)) p (some n)
                ])
                (sym e))
              (update_swap m.prev n b (some t) (some n) (λ k. apart (sym k))
                ∙ ap (update (update m.prev b (some n)) n) (sym e))
              i.head_is
              (i.tail_is
                ∙ last_or-append none (x ∷ xs) (b ∷ ys)
                ∙ sym (last_or-append none (x ∷ xs) (n ∷ b ∷ ys)))
              refl;
        values_are = refl;
      }

  abbrev after_at : Option Ref → Option (Mem × NodeList)
  after_at o = elim o [
    | none ↦ add value n m l
    | some _ ↦ after_middle value n m b >>= λ m'. some (m', record l { count = l.count + 1 })
  ]

  after_last-Became :
      (xs : List Ref)
      → IsList m l (xs ++ (b ∷ []))
      → Apart n (xs ++ (b ∷ []))
      → Became (add_after value n m l (some b)) (xs ++ (b ∷ n ∷ [])) (update m.value n value)
  unfolding add_after
  after_last-Became xs i a =
      let behind : m.next b ≡ none = (Forward-right m.next xs (b ∷ []) none i.forward).0 in
      let run : add_after value n m l (some b) ≡ add value n m l =
        ap (λ (o : Option Ref). after_at o) behind in
      subst (λ r. Became r (xs ++ (b ∷ n ∷ [])) (update m.value n value)) (sym run)
        (subst (λ zs. Became (add value n m l) zs (update m.value n value))
          (append_assoc xs (b ∷ []) (n ∷ [])) (add-Became value n m l (xs ++ (b ∷ [])) i a))

  same_head :
      (xs ys zs : List Ref)
      → head_or ((xs ++ (b ∷ [])) ++ ys) none ≡ head_or ((xs ++ (b ∷ [])) ++ zs) none
  same_head [] ys zs = refl
  same_head (x ∷ xs) ys zs = refl

  -- `add_after` a node of a well-formed list puts a new node directly behind it. The list stays
  -- well-formed, and the other nodes keep their data.
  pub add_after-Became :
      (xs ys : List Ref)
      → IsList m l (xs ++ (b ∷ ys))
      → Apart n (xs ++ (b ∷ ys))
      → Became (add_after value n m l (some b)) (xs ++ (b ∷ n ∷ ys)) (update m.value n value)
  unfolding add_after
  add_after-Became xs [] i a = after_last-Became xs i a
  add_after-Became xs (y ∷ ys) i a =
      let split = append_assoc xs (b ∷ []) (y ∷ ys) in
      let i' = subst (IsList m l) (sym split) i in
      let a' = subst (Apart n) (sym split) a in
      let last : last_or none (xs ++ (b ∷ [])) ≡ some b = last_or-append none xs (b ∷ []) in
      let tail = All-right (λ z. z ≢ n) xs (b ∷ y ∷ ys) a in
      let behind : m.next b ≡ some y = (Forward-right m.next xs (b ∷ y ∷ ys) none i.forward).0 in
      let m' : Mem = record {
        next = update (update m.next n (some y)) b (some n);
        prev = update (update m.prev n (some b)) y (some n);
        value = update m.value n value;
      } in
      let l' : NodeList = record l { count = l.count + 1 } in
      record {
        mem = m';
        list = l';
        runs =
            ap (λ (o : Option Ref). after_at o) behind
            ∙ ap (λ o. o >>= λ m'. some (m', record l { count = l.count + 1 }))
                (after_middle-some value n m b (λ k. tail.0 (sym k)) y behind);
        valid = subst (IsList m' l') (append_assoc xs (b ∷ []) (n ∷ y ∷ ys)) (
            insert-IsList m l n (xs ++ (b ∷ [])) (y ∷ ys) i' a' m' l'
              (ap
                (λ (o : Option Ref). elim o as (λ _. Ref → Option Ref) [
                  | none ↦ update m.next n (some y)
                  | some p ↦ update (update m.next n (some y)) p (some n)
                ])
                (sym last))
              (update_swap m.prev n y (some b) (some n) (λ k. tail.1.0 (sym k))
                ∙ ap (update (update m.prev y (some n)) n) (sym last))
              (i'.head_is ∙ same_head xs (y ∷ ys) (n ∷ y ∷ ys))
              (i'.tail_is
                ∙ last_or-append none (xs ++ (b ∷ [])) (y ∷ ys)
                ∙ sym (last_or-append none (xs ++ (b ∷ [])) (n ∷ y ∷ ys)))
              refl);
        values_are = refl;
      }
