-- ===== src/Dictionary/Map.antt =====
-- The map that a list of elements stands for.
use Prim.Native.Nat.{Ordering, lt, eq, gt}
use libmowgli.Base.{
  ℕ, ◌≡◌, ◌≢◌, refl, ap, ◌∙◌, sym, List, [], ◌∷◌, ◌++◌, append-nil, inl, inr, Ordering-cases,
  Option, some, none, All, All-map,
}
use libmowgli.Memory.{◌>>=◌}
use libmowgli.Dictionary.{Ref, Elem, Dict}
use libmowgli.Dictionary.Order.{IsOrder, AllIs}

module _ {K : Type 0} where
  abbrev pub key_at : (Ref → Elem K) → Ref → K
  key_at store x = (store x).key

module _ {K : Type 0} (cmp : K → K → Ordering) where
  -- The element on a list that has the key: what `find` is to give.
  unfoldable pub find_key : (Ref → K) → K → List Ref → Option Ref
  find_key key_of key [] = none
  find_key key_of key (x ∷ xs) = elim (cmp key (key_of x)) [
    | eq ↦ some x
    | lt ↦ find_key key_of key xs
    | gt ↦ find_key key_of key xs
  ]

  abbrev pub look_in : (Ref → Elem K) → K → List Ref → Option ℕ
  look_in store key xs = find_key (key_at store) key xs >>= λ x. some (store x).value

  -- The map that a dictionary stands for.
  abbrev pub look : Dict K → K → Option ℕ
  look d key = look_in d.store key d.order

module _ {K : Type 0} (cmp : K → K → Ordering) (key_of : Ref → K) (key : K) where
  pub find_key-cons :
      (x : Ref) (xs : List Ref)
      → cmp key (key_of x) ≢ eq
      → find_key cmp key_of key (x ∷ xs) ≡ find_key cmp key_of key xs
  unfolding find_key
  find_key-cons x xs h = elim (Ordering-cases (cmp key (key_of x))) [
    | inl e ↦ rw (e, find_key) refl
    | inr (inl e) ↦ absurd (h e)
    | inr (inr e) ↦ rw (e, find_key) refl
  ]

  pub find_key_hit :
      (x : Ref) (xs : List Ref)
      → cmp key (key_of x) ≡ eq
      → find_key cmp key_of key (x ∷ xs) ≡ some x
  unfolding find_key
  find_key_hit x xs h = rw (h, find_key) refl

  pub find_key_skip :
      (xs ys : List Ref)
      → All (λ y. cmp key (key_of y) ≢ eq) xs
      → find_key cmp key_of key (xs ++ ys) ≡ find_key cmp key_of key ys
  find_key_skip [] ys h = refl
  find_key_skip (x ∷ xs) ys h = find_key-cons x (xs ++ ys) h.0 ∙ find_key_skip xs ys h.1

  pub find_key_miss :
      (xs : List Ref) → All (λ y. cmp key (key_of y) ≢ eq) xs → find_key cmp key_of key xs ≡ none
  find_key_miss xs h =
      ap (find_key cmp key_of key) (sym (append-nil xs))
      ∙ find_key_skip xs [] h
      ∙ unfold find_key in refl

  pub ne_of_lt :
      (xs : List Ref) → AllIs cmp key_of lt key xs → All (λ y. cmp key (key_of y) ≢ eq) xs
  ne_of_lt xs =
      All-map (λ y. cmp key (key_of y) ≡ lt) (λ y. cmp key (key_of y) ≢ eq) xs (λ y h e. cc)

  pub ne_of_gt :
      (xs : List Ref) → AllIs cmp key_of gt key xs → All (λ y. cmp key (key_of y) ≢ eq) xs
  ne_of_gt xs =
      All-map (λ y. cmp key (key_of y) ≡ gt) (λ y. cmp key (key_of y) ≢ eq) xs (λ y h e. cc)

  pub find_key_without :
      (x : Ref) (xs ys : List Ref)
      → cmp key (key_of x) ≢ eq
      → find_key cmp key_of key (xs ++ (x ∷ ys)) ≡ find_key cmp key_of key (xs ++ ys)
  find_key_without x [] ys h = find_key-cons x ys h
  find_key_without x (y ∷ xs) ys h = elim (Ordering-cases (cmp key (key_of y))) [
    | inl e ↦
        find_key-cons y (xs ++ (x ∷ ys)) (λ f. cc)
        ∙ find_key_without x xs ys h
        ∙ sym (find_key-cons y (xs ++ ys) (λ f. cc))
    | inr (inl e) ↦ find_key_hit y (xs ++ (x ∷ ys)) e ∙ sym (find_key_hit y (xs ++ ys) e)
    | inr (inr e) ↦
        find_key-cons y (xs ++ (x ∷ ys)) (λ f. cc)
        ∙ find_key_without x xs ys h
        ∙ sym (find_key-cons y (xs ++ ys) (λ f. cc))
  ]

  pub find_key_between :
      (x : Ref) (xs ys : List Ref)
      → AllIs cmp key_of gt key xs
      → AllIs cmp key_of lt key ys
      → cmp key (key_of x) ≢ eq
      → find_key cmp key_of key (xs ++ (x ∷ ys)) ≡ none
  find_key_between x xs ys h k e =
      find_key_skip xs (x ∷ ys) (ne_of_gt xs h)
      ∙ find_key-cons x ys e
      ∙ find_key_miss ys (ne_of_lt ys k)

module _ {K : Type 0} (cmp : K → K → Ordering) where
  look_in_hit :
      (f : Ref → Elem K) (key : K) (x : Ref) (xs : List Ref)
      → cmp key (f x).key ≡ eq
      → look_in cmp f key (x ∷ xs) ≡ some (f x).value
  look_in_hit f key x xs h = rw (find_key_hit cmp (key_at f) key x xs h) refl

  look_in-cons :
      (f : Ref → Elem K) (key : K) (x : Ref) (xs : List Ref)
      → cmp key (f x).key ≢ eq
      → look_in cmp f key (x ∷ xs) ≡ look_in cmp f key xs
  look_in-cons f key x xs h = rw (find_key-cons cmp (key_at f) key x xs h) refl

  -- Only the elements on the list matter to the map.
  pub look_in_cong :
      (f g : Ref → Elem K) (key : K) (xs : List Ref)
      → All (λ y. f y ≡ g y) xs
      → look_in cmp f key xs ≡ look_in cmp g key xs
  look_in_cong f g key [] e = unfold find_key in refl
  look_in_cong f g key (x ∷ xs) e = elim (Ordering-cases (cmp key (f x).key)) [
    | inl h ↦ step (look_in_cong f g key xs e.1) (λ k. cc)
    | inr (inl h) ↦
        look_in_hit f key x xs h
        ∙ ap (λ (r : Elem K). some r.value) e.0
        ∙ sym (look_in_hit g key x xs (ap (λ (r : Elem K). cmp key r.key) (sym e.0) ∙ h))
    | inr (inr h) ↦ step (look_in_cong f g key xs e.1) (λ k. cc)
  ]
    where
      step :
          look_in cmp f key xs ≡ look_in cmp g key xs
          → cmp key (f x).key ≢ eq
          → look_in cmp f key (x ∷ xs) ≡ look_in cmp g key (x ∷ xs)
      step ih h =
          look_in-cons f key x xs h
          ∙ ih
          ∙ sym (look_in-cons g key x xs (λ k. h (ap (λ (r : Elem K). cmp key r.key) e.0 ∙ k)))

  -- The map with one element more, behind smaller ones.
  pub look_in_insert :
      (o : IsOrder cmp) (store : Ref → Elem K) (new : Ref) (key : K) (xs ys : List Ref)
      → AllIs cmp (key_at store) gt (store new).key xs
      → look_in cmp store key (xs ++ (new ∷ ys)) ≡ elim (cmp key (store new).key) [
        | eq ↦ some (store new).value
        | lt ↦ look_in cmp store key (xs ++ ys)
        | gt ↦ look_in cmp store key (xs ++ ys)
      ]
  look_in_insert o store new key xs ys h = elim (Ordering-cases (cmp key (store new).key)) [
    | inl e ↦ rw e (rw (find_key_without cmp (key_at store) key new xs ys (λ k. cc)) refl)
    | inr (inl e) ↦
        let skipped =
          All-map (λ y. cmp (store new).key (store y).key ≡ gt) (λ y. cmp key (store y).key ≡ gt) xs
            (λ y k. o.same key (store new).key (store y).key e ∙ k) h in
        rw e (
          rw
            (find_key_skip cmp (key_at store) key xs (new ∷ ys)
              (ne_of_gt cmp (key_at store) key xs skipped))
            (look_in_hit store key new ys e))
    | inr (inr e) ↦ rw e (rw (find_key_without cmp (key_at store) key new xs ys (λ k. cc)) refl)
  ]
