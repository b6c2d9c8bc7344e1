-- ===== src/Nodes/Chain.antt =====
-- Chains of nodes: what the links of a well-formed list are, and how two chains are joined.
use libmowgli.Base.{
  ◌≡◌, ◌≢◌, refl, ◌∙◌, sym, List, [], ◌∷◌, ◌++◌, Option, none, some, All, All-append, All-left,
  All-right, All-map, length, arith,
}
use libmowgli.Nodes.{Ref, Mem, NodeList, update}

-- The first node, or what stands behind; the last node, or what stands before.
abbrev pub head_or : List Ref → Option Ref → Option Ref
head_or [] q = q
head_or (x ∷ xs) q = some x

abbrev pub last_or : Option Ref → List Ref → Option Ref
last_or p [] = p
last_or p (x ∷ xs) = last_or (some x) xs

-- The `next` links lead through `xs` to `q`, and the `prev` links back to `p`.
abbrev pub Forward : (Ref → Option Ref) → List Ref → Option Ref → Type 0
Forward f [] q = Unit
Forward f (x ∷ xs) q = (f x ≡ head_or xs q) × Forward f xs q

abbrev pub Backward : (Ref → Option Ref) → Option Ref → List Ref → Type 0
Backward g p [] = Unit
Backward g p (x ∷ xs) = (g x ≡ p) × Backward g (some x) xs

abbrev pub Apart : Ref → List Ref → Type 0
Apart n = All (λ y. y ≢ n)

abbrev pub Distinct : List Ref → Type 0
Distinct [] = Unit
Distinct (x ∷ xs) = Apart x xs × Distinct xs

-- The list record and the links both stand for the sequence `xs` of nodes.
pub record IsList (m : Mem) (l : NodeList) (xs : List Ref) : Type 0 where
  pub head_is : l.head ≡ head_or xs none
  pub tail_is : l.tail ≡ last_or none xs
  pub counted : l.count ≡ length xs
  pub distinct : Distinct xs
  pub forward : Forward m.next xs none
  pub backward : Backward m.prev none xs

module _ {ℓ} {A : Type ℓ} where
  pub update_same : (f : Ref → A) (x : Ref) (v : A) → update f x v x ≡ v
  update_same f x v = ground arith

  pub update_other : (f : Ref → A) (x : Ref) (v : A) (y : Ref) → y ≢ x → update f x v y ≡ f y
  update_other f x v y h = ground arith

pub Apart-sym : (x : Ref) (xs : List Ref) → Apart x xs → All (λ y. x ≢ y) xs
Apart-sym x xs = All-map (λ y. y ≢ x) (λ y. x ≢ y) xs (λ y h e. h (sym e))

pub head_or-append :
    (xs ys : List Ref) (q : Option Ref) → head_or (xs ++ ys) q ≡ head_or xs (head_or ys q)
head_or-append [] ys q = refl
head_or-append (x ∷ xs) ys q = refl

pub last_or-append :
    (p : Option Ref) (xs ys : List Ref) → last_or p (xs ++ ys) ≡ last_or (last_or p xs) ys
last_or-append p [] ys = refl
last_or-append p (x ∷ xs) ys = last_or-append (some x) xs ys

-- Splitting chains.
pub Forward-left :
    (f : Ref → Option Ref) (xs ys : List Ref) (q : Option Ref)
    → Forward f (xs ++ ys) q
    → Forward f xs (head_or ys q)
Forward-left f [] ys q c = tt
Forward-left f (x ∷ xs) ys q c = (c.0 ∙ head_or-append xs ys q, Forward-left f xs ys q c.1)

pub Forward-right :
    (f : Ref → Option Ref) (xs ys : List Ref) (q : Option Ref)
    → Forward f (xs ++ ys) q
    → Forward f ys q
Forward-right f [] ys q c = c
Forward-right f (x ∷ xs) ys q c = Forward-right f xs ys q c.1

pub Backward-left :
    (g : Ref → Option Ref) (p : Option Ref) (xs ys : List Ref)
    → Backward g p (xs ++ ys)
    → Backward g p xs
Backward-left g p [] ys c = tt
Backward-left g p (x ∷ xs) ys c = (c.0, Backward-left g (some x) xs ys c.1)

pub Backward-right :
    (g : Ref → Option Ref) (p : Option Ref) (xs ys : List Ref)
    → Backward g p (xs ++ ys)
    → Backward g (last_or p xs) ys
Backward-right g p [] ys c = c
Backward-right g p (x ∷ xs) ys c = Backward-right g (some x) xs ys c.1

-- A write beside a chain.
pub Forward-update :
    (f : Ref → Option Ref) (n : Ref) (v : Option Ref) (xs : List Ref) (q : Option Ref)
    → Apart n xs
    → Forward f xs q
    → Forward (update f n v) xs q
Forward-update f n v [] q a c = tt
Forward-update f n v (x ∷ xs) q a c =
    (update_other f n v x a.0 ∙ c.0, Forward-update f n v xs q a.1 c.1)

pub Backward-update :
    (g : Ref → Option Ref) (n : Ref) (v p : Option Ref) (xs : List Ref)
    → Apart n xs
    → Backward g p xs
    → Backward (update g n v) p xs
Backward-update g n v p [] a c = tt
Backward-update g n v p (x ∷ xs) a c =
    (update_other g n v x a.0 ∙ c.0, Backward-update g n v (some x) xs a.1 c.1)

-- The write to the last node of `xs`, and that to the first node of `ys`, if there is one.
abbrev pub after_last : (Ref → Option Ref) → List Ref → Option Ref → Ref → Option Ref
after_last f xs v = elim (last_or none xs) [ none ↦ f | some p ↦ update f p v ]

abbrev pub before_first : (Ref → Option Ref) → List Ref → Option Ref → Ref → Option Ref
before_first g ys v = elim (head_or ys none) [ none ↦ g | some x ↦ update g x v ]

pub after_last_other :
    (f : Ref → Option Ref) (xs : List Ref) (v : Option Ref) (y : Ref)
    → Apart y xs
    → after_last f xs v y ≡ f y
after_last_other f [] v y a = refl
after_last_other f (x ∷ []) v y a = update_other f x v y (λ e. a.0 (sym e))
after_last_other f (x ∷ x' ∷ xs) v y a = after_last_other f (x' ∷ xs) v y a.1

pub before_first_other :
    (g : Ref → Option Ref) (ys : List Ref) (v : Option Ref) (x : Ref)
    → Apart x ys
    → before_first g ys v x ≡ g x
before_first_other g [] v x a = refl
before_first_other g (y ∷ ys) v x a = update_other g y v x (λ e. a.0 (sym e))

-- Joining two chains.
pub Forward-join :
    (f : Ref → Option Ref) (xs ys : List Ref) (a q : Option Ref)
    → Distinct (xs ++ ys)
    → Forward f xs a
    → Forward f ys q
    → Forward (after_last f xs (head_or ys q)) (xs ++ ys) q
Forward-join f [] ys a q d b c = c
Forward-join f (x ∷ []) ys a q d b c =
    (update_same f x (head_or ys q), Forward-update f x (head_or ys q) ys q d.0 c)
Forward-join f (x ∷ x' ∷ xs) ys a q d b c = (
  after_last_other f (x' ∷ xs) (head_or ys q) x (All-left (λ y. y ≢ x) (x' ∷ xs) ys d.0) ∙ b.0,
  Forward-join f (x' ∷ xs) ys a q d.1 b.1 c,
)

pub Backward-join :
    (g : Ref → Option Ref) (xs ys : List Ref) (p a : Option Ref)
    → Distinct (xs ++ ys)
    → Backward g p xs
    → Backward g a ys
    → Backward (before_first g ys (last_or p xs)) p (xs ++ ys)
Backward-join g [] [] p a d b c = tt
Backward-join g [] (y ∷ ys) p a d b c =
    (update_same g y p, Backward-update g y p (some y) ys d.0 c.1)
Backward-join g (x ∷ xs) ys p a d b c = (
  before_first_other g ys (last_or (some x) xs) x (All-right (λ y. y ≢ x) xs ys d.0) ∙ b.0,
  Backward-join g xs ys (some x) a d.1 b.1 c,
)

-- Distinct nodes.
pub Distinct-insert :
    (n : Ref) (xs ys : List Ref)
    → Distinct (xs ++ ys)
    → Apart n (xs ++ ys)
    → Distinct (xs ++ (n ∷ ys))
Distinct-insert n [] ys d a = (a, d)
Distinct-insert n (x ∷ xs) ys d a = (
  All-append (λ y. y ≢ x) xs (n ∷ ys) (All-left (λ y. y ≢ x) xs ys d.0)
      ((λ e. a.0 (sym e)), All-right (λ y. y ≢ x) xs ys d.0),
  Distinct-insert n xs ys d.1 a.1,
)

pub Distinct-remove :
    (n : Ref) (xs ys : List Ref)
    → Distinct (xs ++ (n ∷ ys))
    → Distinct (xs ++ ys) × Apart n (xs ++ ys)
Distinct-remove n [] ys d = (d.1, d.0)
Distinct-remove n (x ∷ xs) ys d =
    let r = Distinct-remove n xs ys d.1 in
    let behind = All-right (λ y. y ≢ x) xs (n ∷ ys) d.0 in
    (
      (All-append (λ y. y ≢ x) xs ys (All-left (λ y. y ≢ x) xs (n ∷ ys) d.0) behind.1, r.0),
      ((λ e. behind.0 (sym e)), r.1),
    )
