-- ===== src/Dictionary/Linear.antt =====
-- `get_linear_index`: the position of a key's element.
use Prim.Native.Nat.{Ordering, lt, eq, gt}
use mathlib.Core.Path.{fun_ext, ap₂}
use libmowgli.Base.{
  ℕ, suc, ◌+◌, ◌≡◌, ◌≢◌, refl, ap, ◌∙◌, sym, subst, List, [], ◌∷◌, ◌++◌, arith, inl, inr,
  Ordering-cases, Bool-cases, some, none, false, true, ◌==◌, All, All-map, length,
}
use libmowgli.Memory.{◌>>=◌}
use libmowgli.Dictionary.{Ref, Elem, Tree, Dict, find, renumber, update, get_linear_index}
use libmowgli.Dictionary.Order.{IsOrder, Sorted, AllIs, beside}
use libmowgli.Dictionary.Lookup.{Numbered, IsValid, find-find_key}
use libmowgli.Dictionary.Map.{key_at, find_key, look, find_key-cons, find_key_hit}

abbrev Distinct : List Ref → Type 0
Distinct [] = Unit
Distinct (x ∷ xs) = All (λ y. y ≢ x) xs × Distinct xs

module _ {K : Type 0} where
  abbrev placed : (Ref → Elem K) → Ref → ℕ → Ref → Elem K
  placed store x i = update store x (record (store x) { position = i })

  renumber_outside :
      (xs : List Ref) (store : Ref → Elem K) (i : ℕ) (y : Ref)
      → All (λ x. x ≢ y) xs
      → renumber store i xs y ≡ store y
  unfolding renumber
  renumber_outside [] store i y h = refl
  renumber_outside (x ∷ xs) store i y h =
      let e : (y == x) ≡ false = ground arith in
      renumber_outside xs (placed store x i) (i + 1) y h.1 ∙ rw e refl

  renumber-key :
      (xs : List Ref) (store : Ref → Elem K) (i : ℕ) (y : Ref)
      → (renumber store i xs y).key ≡ (store y).key
  unfolding renumber
  renumber-key [] store i y = refl
  renumber-key (x ∷ xs) store i y = renumber-key xs (placed store x i) (i + 1) y ∙ ground arith

  renumber-value :
      (xs : List Ref) (store : Ref → Elem K) (i : ℕ) (y : Ref)
      → (renumber store i xs y).value ≡ (store y).value
  unfolding renumber
  renumber-value [] store i y = refl
  renumber-value (x ∷ xs) store i y = renumber-value xs (placed store x i) (i + 1) y ∙ ground arith

  Numbered-renumber :
      (xs : List Ref) (store : Ref → Elem K) (i : ℕ)
      → Distinct xs
      → Numbered (renumber store i xs) i xs
  unfolding renumber
  Numbered-renumber [] store i h = tt
  Numbered-renumber (x ∷ xs) store i h = (
    ap (λ (e : Elem K). e.position) (renumber_outside xs (placed store x i) (i + 1) x h.0)
        ∙ ground arith,
    let e : i + 1 ≡ suc i = omega arith in
        subst (λ k. Numbered (renumber store i (x ∷ xs)) k xs) e
          (Numbered-renumber xs (placed store x i) (i + 1) h.1),
  )

  Numbered-at :
      (store : Ref → Elem K) (xs ys : List Ref) (x : Ref) (i : ℕ)
      → Numbered store i (xs ++ (x ∷ ys))
      → (store x).position ≡ i + length xs
  Numbered-at store [] ys x i h = omega (arith, h.0)
  Numbered-at store (y ∷ xs) ys x i h = omega (arith, Numbered-at store xs ys x (suc i) h.1)

module _ {K : Type 0} (cmp : K → K → Ordering) (o : IsOrder cmp) where
  Sorted-Distinct : (key_of : Ref → K) (xs : List Ref) → Sorted cmp key_of xs → Distinct xs
  Sorted-Distinct key_of [] s = tt
  Sorted-Distinct key_of (x ∷ xs) s = (
    All-map (λ y. cmp (key_of x) (key_of y) ≡ lt) (λ y. y ≢ x) xs (λ y h e. apart y h e) s.0,
    Sorted-Distinct key_of xs s.1,
  )
    where
      apart : (y : Ref) → cmp (key_of x) (key_of y) ≡ lt → y ≢ x
      apart y h e = cc (o.self (key_of x))

  -- Where the key stands on a list.
  record Found (key_of : Ref → K) (key : K) (x : Ref) (xs : List Ref) : Type 0 where
    front : List Ref
    back : List Ref
    split : xs ≡ front ++ (x ∷ back)
    equal : cmp key (key_of x) ≡ eq

  Found-later :
      (key_of : Ref → K) (key : K) (x y : Ref) (xs : List Ref)
      → Found key_of key x xs
      → Found key_of key x (y ∷ xs)
  Found-later key_of key x y xs f = record {
    front = y ∷ f.front;
    back = f.back;
    split = ap (◌∷◌ y) f.split;
    equal = f.equal;
  }

  find_key-Found :
      (key_of : Ref → K) (key : K) (x : Ref) (xs : List Ref)
      → find_key cmp key_of key xs ≡ some x
      → Found key_of key x xs
  find_key-Found key_of key x [] h = let e : none ≡ some x = unfold find_key in h in cc
  find_key-Found key_of key x (y ∷ xs) h = elim (Ordering-cases (cmp key (key_of y))) [
    | inl e ↦
        Found-later key_of key x y xs
          (find_key-Found key_of key x xs (sym (find_key-cons cmp key_of key y xs (λ k. cc)) ∙ h))
    | inr (inl e) ↦
        let f : some y ≡ some x = sym (find_key_hit cmp key_of key y xs e) ∙ h in
        let q : y ≡ x = cc in
        record {
          front = [];
          back = xs;
          split = ap (λ z. z ∷ xs) q;
          equal = ap (λ z. cmp key (key_of z)) (sym q) ∙ e;
        }
    | inr (inr e) ↦
        Found-later key_of key x y xs
          (find_key-Found key_of key x xs (sym (find_key-cons cmp key_of key y xs (λ k. cc)) ∙ h))
  ]

  module _ (d : Dict K) (key : K) (v : IsValid cmp d) where
    abbrev fresh_store : Ref → Elem K
    fresh_store = renumber d.store 0 d.order

    fresh_keys : key_at fresh_store ≡ key_at d.store
    fresh_keys = fun_ext (renumber-key d.order d.store 0)

    fresh_values : ◌≡◌ {A = Ref → ℕ} (λ y. (fresh_store y).value) (λ y. (d.store y).value)
    fresh_values = fun_ext (renumber-value d.order d.store 0)

    fresh-Numbered : Numbered fresh_store 0 d.order
    fresh-Numbered =
        Numbered-renumber d.order d.store 0 (Sorted-Distinct (key_at d.store) d.order v.sorted)

    run_dirty :
        (t : Tree) (x : Ref)
        → find cmp d key ≡ some (record d { root = t }, some x)
        → d.dirty ≡ true
        → get_linear_index cmp d key
          ≡ some (
            record d { root = t; store = fresh_store; dirty = false },
            some (fresh_store x).position,
          )
    unfolding get_linear_index
    run_dirty t x found dirty = rw (found, dirty) refl

    run_clean :
        (t : Tree) (x : Ref)
        → find cmp d key ≡ some (record d { root = t }, some x)
        → d.dirty ≡ false
        → get_linear_index cmp d key ≡ some (record d { root = t }, some (d.store x).position)
    unfolding get_linear_index
    run_clean t x found clean = rw (found, clean) refl

    -- For a comparator that orders the keys and a well-formed dictionary (tree and list hold
    -- the same elements, sorted, and count and positions are right): `get_linear_index` of a
    -- key that is there ends with the number of elements whose keys are smaller, whether it
    -- has to renumber the list or not. Afterwards the dictionary is well-formed and not
    -- dirty, and its map is the same.
    pub linear_index-position :
        (x : Ref)
        → find_key cmp (key_at d.store) key d.order ≡ some x
        → (d' : Dict K) × (front : List Ref) × (back : List Ref) × (get_linear_index cmp d key
            ≡ some (d', some (length front)))
          × (d.order ≡ front ++ (x ∷ back))
          × AllIs cmp (key_at d.store) gt key front
          × AllIs cmp (key_at d.store) lt key back
          × IsValid cmp d'
          × (d'.dirty ≡ false)
          × ((k : K) → look cmp d' k ≡ look cmp d k)
    linear_index-position x there =
        let f = find_key-Found (key_at d.store) key x d.order there in
        let s = subst (Sorted cmp (key_at d.store)) f.split v.sorted in
        let (p, q) = beside cmp (key_at d.store) o key x f.front f.back f.equal s in
        let (t, found, w) = find-find_key cmp o d key v in
        elim (Bool-cases d.dirty) [
          | inl dirty ↦
              let spot : (fresh_store x).position ≡ length f.front = omega (
                arith,
                Numbered-at fresh_store f.front f.back x 0
                    (subst (Numbered fresh_store 0) f.split fresh-Numbered),
              ) in
              (
                record d { root = t; store = fresh_store; dirty = false },
                f.front,
                f.back,
                run_dirty t x (found ∙ rw there refl) dirty
                    ∙ (ap
                        (λ (i : ℕ).
                          some (record d { root = t; store = fresh_store; dirty = false }, some i))
                        spot),
                f.split,
                p,
                q,
                record {
                  linked = w.linked;
                  sorted = subst (λ g. Sorted cmp g d.order) (sym fresh_keys) v.sorted;
                  counted = v.counted;
                  numbered = λ e. fresh-Numbered;
                },
                refl,
                λ k.
                    ap₂
                      (λ (g : Ref → K) (h : Ref → ℕ). find_key cmp g k d.order >>= λ y. some (h y))
                      fresh_keys fresh_values,
              )
          | inr clean ↦
              let spot : (d.store x).position ≡ length f.front = omega (
                arith,
                Numbered-at d.store f.front f.back x 0
                    (subst (Numbered d.store 0) f.split (v.numbered clean)),
              ) in
              (
                record d { root = t },
                f.front,
                f.back,
                run_clean t x (found ∙ rw there refl) clean
                    ∙ (ap (λ (i : ℕ). some (record d { root = t }, some i)) spot),
                f.split,
                p,
                q,
                w,
                clean,
                λ k. refl,
              )
        ]
