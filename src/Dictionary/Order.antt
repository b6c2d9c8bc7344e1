-- ===== src/Dictionary/Order.antt =====
-- What the dictionary relies on in its comparator, and sorted lists of elements.
use Prim.Native.Nat.{Ordering, lt, eq, gt}
use mathlib.Core.Path.{ap₂}
use libmowgli.Base.{
  ◌≡◌, ◌≢◌, All-zip, inl, inr, Ordering-cases, sym, ◌∙◌, List, [], ◌∷◌, ◌++◌, All, All-append,
  All-map, All-left, All-right,
}
use libmowgli.Dictionary.{Ref}

-- The comparator orders the keys totally, up to keys that it calls equal.
pub record IsOrder {K : Type 0} (cmp : K → K → Ordering) : Type 0 where
  pub self : (a : K) → cmp a a ≡ eq
  pub flip_lt : (a b : K) → cmp a b ≡ lt → cmp b a ≡ gt
  pub flip_gt : (a b : K) → cmp a b ≡ gt → cmp b a ≡ lt
  pub trans : (a b c : K) → cmp a b ≡ lt → cmp b c ≡ lt → cmp a c ≡ lt
  pub same : (a b c : K) → cmp a b ≡ eq → cmp a c ≡ cmp b c

module _ {K : Type 0} (cmp : K → K → Ordering) (key_of : Ref → K) where
  -- Every key is below all those behind it.
  abbrev pub Sorted : List Ref → Type 0
  Sorted [] = Unit
  Sorted (x ∷ xs) = All (λ y. cmp (key_of x) (key_of y) ≡ lt) xs × Sorted xs

  abbrev pub AllIs : Ordering → K → List Ref → Type 0
  AllIs o key = All (λ y. cmp key (key_of y) ≡ o)

  pub Sorted-right : (xs ys : List Ref) → Sorted (xs ++ ys) → Sorted ys
  Sorted-right [] ys s = s
  Sorted-right (x ∷ xs) ys s = Sorted-right xs ys s.1

  pub Sorted-left : (xs ys : List Ref) → Sorted (xs ++ ys) → Sorted xs
  Sorted-left [] ys s = tt
  Sorted-left (x ∷ xs) ys s =
      (All-left (λ y. cmp (key_of x) (key_of y) ≡ lt) xs ys s.0, Sorted-left xs ys s.1)

  pub Sorted-cross :
      (xs ys : List Ref) (y : Ref)
      → Sorted (xs ++ (y ∷ ys))
      → All (λ x. cmp (key_of x) (key_of y) ≡ lt) xs
  Sorted-cross [] ys y s = tt
  Sorted-cross (x ∷ xs) ys y s = (
    (All-right (λ z. cmp (key_of x) (key_of z) ≡ lt) xs (y ∷ ys) s.0).0,
    Sorted-cross xs ys y s.1,
  )

  -- Putting an element between two parts.
  pub Sorted-insert :
      (o : IsOrder cmp) (xs ys : List Ref) (n : Ref)
      → Sorted (xs ++ ys)
      → AllIs gt (key_of n) xs
      → AllIs lt (key_of n) ys
      → Sorted (xs ++ (n ∷ ys))
  Sorted-insert o [] ys n s h k = (k, s)
  Sorted-insert o (x ∷ xs) ys n s h k = (
    All-append (λ y. cmp (key_of x) (key_of y) ≡ lt) xs (n ∷ ys)
        (All-left (λ y. cmp (key_of x) (key_of y) ≡ lt) xs ys s.0)
        (
          o.flip_gt (key_of n) (key_of x) h.0,
          All-right (λ y. cmp (key_of x) (key_of y) ≡ lt) xs ys s.0,
        ),
    Sorted-insert o xs ys n s.1 h.1 k,
  )

  pub Sorted-remove : (xs ys : List Ref) (n : Ref) → Sorted (xs ++ (n ∷ ys)) → Sorted (xs ++ ys)
  Sorted-remove [] ys n s = s.1
  Sorted-remove (x ∷ xs) ys n s = (
    All-append (λ y. cmp (key_of x) (key_of y) ≡ lt) xs ys
        (All-left (λ y. cmp (key_of x) (key_of y) ≡ lt) xs (n ∷ ys) s.0)
        (All-right (λ y. cmp (key_of x) (key_of y) ≡ lt) xs (n ∷ ys) s.0).1,
    Sorted-remove xs ys n s.1,
  )

  pub above :
      (o : IsOrder cmp) (key : K) (x : Ref) (xs : List Ref)
      → cmp key (key_of x) ≡ lt
      → Sorted (x ∷ xs)
      → AllIs lt key xs
  above o key x xs h s =
      All-map (λ y. cmp (key_of x) (key_of y) ≡ lt) (λ y. cmp key (key_of y) ≡ lt) xs
        (λ y k. o.trans key (key_of x) (key_of y) h k) s.0

  pub below :
      (o : IsOrder cmp) (key : K) (x : Ref) (xs : List Ref)
      → cmp key (key_of x) ≡ gt
      → All (λ y. cmp (key_of y) (key_of x) ≡ lt) xs
      → AllIs gt key xs
  below o key x xs h =
      All-map (λ y. cmp (key_of y) (key_of x) ≡ lt) (λ y. cmp key (key_of y) ≡ gt) xs
        (λ y k.
          o.flip_lt (key_of y) key
            (o.trans (key_of y) (key_of x) key k (o.flip_gt key (key_of x) h)))

  -- A key that equals that of `x` stands to the others as `x` does.
  pub beside :
      (o : IsOrder cmp) (key : K) (x : Ref) (xs ys : List Ref)
      → cmp key (key_of x) ≡ eq
      → Sorted (xs ++ (x ∷ ys))
      → AllIs gt key xs × AllIs lt key ys
  beside o key x xs ys h s = (
    All-map (λ y. cmp (key_of y) (key_of x) ≡ lt) (λ y. cmp key (key_of y) ≡ gt) xs
        (λ y k. o.same key (key_of x) (key_of y) h ∙ o.flip_lt (key_of y) (key_of x) k)
        (Sorted-cross xs ys x s),
    All-map (λ y. cmp (key_of x) (key_of y) ≡ lt) (λ y. cmp key (key_of y) ≡ lt) ys
        (λ y k. o.same key (key_of x) (key_of y) h ∙ k) (Sorted-right xs (x ∷ ys) s).0,
  )

  -- An element that stands before another is another.
  pub before_ne :
      (o : IsOrder cmp) (xs ys : List Ref) (x : Ref) → Sorted (xs ++ (x ∷ ys)) → All (λ y. y ≢ x) xs
  before_ne o xs ys x s =
      All-map (λ y. cmp (key_of y) (key_of x) ≡ lt) (λ y. y ≢ x) xs (λ y h e. lt_irrefl y h e)
        (Sorted-cross xs ys x s)
    where
      lt_irrefl : (y : Ref) → cmp (key_of y) (key_of x) ≡ lt → y ≢ x
      lt_irrefl y h e = cc (o.self (key_of x))

-- Only the keys of the elements on the list matter.
pub Sorted-cong :
    {K : Type 0} (cmp : K → K → Ordering) (f g : Ref → K) (xs : List Ref)
    → All (λ y. f y ≡ g y) xs
    → Sorted cmp f xs
    → Sorted cmp g xs
Sorted-cong cmp f g [] e s = tt
Sorted-cong cmp f g (x ∷ xs) e s = (
  All-zip (λ y. f y ≡ g y) (λ y. cmp (f x) (f y) ≡ lt) (λ y. cmp (g x) (g y) ≡ lt) xs
      (λ y h k. sym (ap₂ cmp e.0 h) ∙ k) e.1 s.0,
  Sorted-cong cmp f g xs e.1 s.1,
)

-- Equal keys stand alike to any third one, also on the right.
pub same_right :
    {K : Type 0} (cmp : K → K → Ordering) (o : IsOrder cmp) (a b k : K)
    → cmp a b ≡ eq
    → cmp k a ≡ cmp k b
same_right cmp o a b k h = elim (Ordering-cases (cmp k a)) [
  | inl e ↦ e ∙ sym (o.flip_gt b k (sym (o.same a b k h) ∙ o.flip_lt k a e))
  | inr (inl e) ↦ e ∙ sym (o.same k a b e ∙ h)
  | inr (inr e) ↦ e ∙ sym (o.flip_lt b k (sym (o.same a b k h) ∙ o.flip_gt k a e))
]
