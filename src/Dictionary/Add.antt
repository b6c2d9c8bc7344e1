-- ===== src/Dictionary/Add.antt =====
-- `link` and `add`: where a new element goes, and what the map is afterwards.
use Prim.Native.Nat.{Ordering, lt, eq, gt}
use mathlib.Core.Path.{ap₂}
use libmowgli.Base.{
  ℕ, ◌≡◌, ◌≢◌, refl, ap, ◌∙◌, sym, subst, List, [], ◌∷◌, arith, inl, inr, ◌⊎◌, Ordering-cases,
  Bool-cases, Option, some, none, false, ◌==◌, All, All-map, All-zip, length, length-append,
}
use libmowgli.Dictionary.{Ref, Elem, Tree, Dict, link, add, update}
use libmowgli.Dictionary.Order.{IsOrder, Sorted, Sorted-insert, Sorted-cong}
use libmowgli.Dictionary.Lookup.{IsValid, find-find_key}
use libmowgli.Dictionary.Map.{
  key_at, find_key, look, look_in, look_in_cong, look_in_insert, find_key_hit,
}
use libmowgli.Dictionary.Link.{Placed, link_root-Placed}

module _ {K : Type 0} (cmp : K → K → Ordering) (o : IsOrder cmp) where
  -- The dictionary after an insertion is well-formed again.
  Placed-IsValid :
      (d : Dict K) (new : Ref) {run : Option (Dict K)} (p : Placed cmp d new run)
      → Sorted cmp (key_at d.store) d.order
      → d.count ≡ length d.order
      → IsValid cmp p.after
  Placed-IsValid d new p s c = record {
    linked = p.linked;
    sorted =
        subst (λ f. Sorted cmp (key_at f) p.after.order) (sym p.same)
          (subst (Sorted cmp (key_at d.store)) (sym p.placed) (
            Sorted-insert cmp (key_at d.store) o p.front p.back new
              (subst (Sorted cmp (key_at d.store)) p.split s) p.below_new p.above_new));
    counted = omega (
      arith,
      p.counted,
      ap length p.split,
      ap length p.placed,
      length-append p.front p.back,
      length-append p.front (new ∷ p.back),
    );
    numbered = λ e. cc (p.is_dirty);
  }

  Placed-look :
      (d : Dict K) (new : Ref) {run : Option (Dict K)} (p : Placed cmp d new run) (key : K)
      → look cmp p.after key ≡ elim (cmp key (d.store new).key) [
        | eq ↦ some (d.store new).value
        | lt ↦ look cmp d key
        | gt ↦ look cmp d key
      ]
  Placed-look d new p key =
      ap (λ f. look_in cmp f key p.after.order) p.same
      ∙ ap (look_in cmp d.store key) p.placed
      ∙ look_in_insert cmp o d.store new key p.front p.back p.below_new
      ∙ ap
          (λ xs. elim (cmp key (d.store new).key) [
            | eq ↦ some (d.store new).value
            | lt ↦ look_in cmp d.store key xs
            | gt ↦ look_in cmp d.store key xs
          ])
          (sym p.split)

  update_ne : (store : Ref → Elem K) (x y : Ref) (e : Elem K) → y ≢ x → update store x e y ≡ store y
  update_ne store x y e h = ground arith

  update_self : (store : Ref → Elem K) (x : Ref) (e : Elem K) → update store x e x ≡ e
  update_self store x e = ground arith

  absent-All :
      (key_of : Ref → K) (key : K) (xs : List Ref)
      → find_key cmp key_of key xs ≡ none
      → All (λ y. cmp key (key_of y) ≢ eq) xs
  unfolding find_key
  absent-All key_of key [] h = tt
  absent-All key_of key (x ∷ xs) h = elim (Ordering-cases (cmp key (key_of x))) [
    | inl e ↦ (λ k. cc, absent-All key_of key xs (rw (e, find_key) at h))
    | inr (inl e) ↦ absurd (cc (find_key_hit cmp key_of key x xs e))
    | inr (inr e) ↦ (λ k. cc, absent-All key_of key xs (rw (e, find_key) at h))
  ]

  module _ (d : Dict K) (fresh : Ref) (key : K) (value : ℕ) (v : IsValid cmp d)
      (apart : All (λ y. y ≢ fresh) d.order) where
    abbrev elem : Elem K
    elem = record { key = key; value = value; position = 0 }

    abbrev stored : Ref → Elem K
    stored = update d.store fresh elem

    stored_same : All (λ y. stored y ≡ d.store y) d.order
    stored_same =
        All-map (λ y. y ≢ fresh) (λ y. stored y ≡ d.store y) d.order
          (λ y h. update_ne d.store fresh y elem h) apart

    stored-Sorted : Sorted cmp (key_at stored) d.order
    stored-Sorted =
        Sorted-cong cmp (key_at d.store) (key_at stored) d.order
          (All-map (λ y. stored y ≡ d.store y) (λ y. key_at d.store y ≡ key_at stored y) d.order
            (λ y h. ap (λ (e : Elem K). e.key) (sym h)) stored_same)
          v.sorted

    stored-Absent :
        find_key cmp (key_at d.store) key d.order ≡ none
        → All (λ y. cmp (stored fresh).key (key_at stored y) ≢ eq) d.order
    stored-Absent absent =
        All-zip (λ y. stored y ≡ d.store y) (λ y. cmp key (key_at d.store y) ≢ eq)
          (λ y. cmp (stored fresh).key (key_at stored y) ≢ eq) d.order
          (λ y h k e. k (
            ap₂ cmp (ap (λ (z : Elem K). z.key) (sym (update_self d.store fresh elem)))
              (ap (λ (z : Elem K). z.key) (sym h))
            ∙ e))
          stored_same (absent-All (key_at d.store) key d.order absent)

    stored-look :
        (k : K) (t : Tree) {run : Option (Dict K)}
        (p : Placed cmp (record d { root = t; store = stored }) fresh run)
        → look cmp p.after k
          ≡ elim (cmp k key) [ eq ↦ some value | lt ↦ look cmp d k | gt ↦ look cmp d k ]
    stored-look k t p =
        Placed-look (record d { root = t; store = stored }) fresh p k
        ∙ ap
            (λ (z : Elem K). elim (cmp k z.key) [
              | eq ↦ some z.value
              | lt ↦ look_in cmp stored k d.order
              | gt ↦ look_in cmp stored k d.order
            ])
            (update_self d.store fresh elem)
        ∙ ap (λ (z : Option ℕ). elim (cmp k key) [ eq ↦ some value | lt ↦ z | gt ↦ z ])
            (look_in_cong cmp stored d.store k d.order stored_same)

  -- For a comparator that orders the keys and a well-formed dictionary (tree and list hold the
  -- same elements, sorted, and count and positions are right): `add` of a key that is not
  -- there, with a value that is not NULL and an element at a fresh address, ends with the new
  -- element. The dictionary stays well-formed, and its map has the value at that key and is
  -- else unchanged.
  pub add-look :
      (d : Dict K) (fresh : Ref) (key : K) (value : ℕ)
      → IsValid cmp d
      → All (λ y. y ≢ fresh) d.order
      → value ≢ 0
      → find_key cmp (key_at d.store) key d.order ≡ none
      → (d' : Dict K) × (add cmp d fresh key value ≡ some (d', some fresh))
        × IsValid cmp d'
        × ((k : K)
            → look cmp d' k
              ≡ elim (cmp k key) [ eq ↦ some value | lt ↦ look cmp d k | gt ↦ look cmp d k ])
  unfolding add link
  add-look d fresh key value v apart nz absent =
      let (t, found, w) = find-find_key cmp o d key v in
      let d2 : Dict K = record d { root = t; store = stored d fresh key value v apart } in
      let p =
        link_root-Placed cmp o d2 fresh t w.linked (stored-Sorted d fresh key value v apart)
          (stored-Absent d fresh key value v apart absent) in
      let set : (value == 0) ≡ false = ground arith in
      (
        p.after,
        rw (set, found, absent) (rw (p.runs) refl),
        Placed-IsValid d2 fresh p (stored-Sorted d fresh key value v apart) v.counted,
        λ k. stored-look d fresh key value v apart k t p,
      )

  -- For a comparator that orders the keys and a well-formed dictionary (tree and list hold the
  -- same elements, sorted, and count and positions are right): `add` of a key that is there, or
  -- of a NULL value, gives NULL and changes only the shape of the tree.
  pub add_refused :
      (d : Dict K) (fresh : Ref) (key : K) (value : ℕ)
      → IsValid cmp d
      → (value ≡ 0) ⊎ ((x : Ref) × (find_key cmp (key_at d.store) key d.order ≡ some x))
      → (t : Tree) × (add cmp d fresh key value ≡ some (record d { root = t }, none))
        × IsValid cmp (record d { root = t })
  unfolding add
  add_refused d fresh key value v (inl z) = (d.root, rw z refl, v)
  add_refused d fresh key value v (inr (x, there)) = elim (Bool-cases (value == 0)) [
    | inl z ↦ (d.root, rw z refl, v)
    | inr nz ↦ let (t, found, w) = find-find_key cmp o d key v in (t, rw (nz, found, there) refl, w)
  ]
