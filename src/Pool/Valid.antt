-- ===== src/Pool/Valid.antt =====
-- What a well-formed pool is.
use libmowgli.Base.{
  ℕ, zero, suc, ◌+◌, ◌≤◌, ◌<◌, ◌≡◌, ◌≢◌, refl, ap, ◌∙◌, sym, subst, List, [], ◌∷◌, ◌++◌, Option,
  none, some, All, All-append, All-left, All-right, All-map, length, arith,
}
use libmowgli.Nodes.{Ref, update}
use libmowgli.Nodes.Chain.{Apart, Distinct, update_other}
use libmowgli.Pool.{Block, Pool, chain}

abbrev pub Store : Type 0
Store = Ref → Block

abbrev pub Full : Store → Ref → Type 0
Full s b = (s b).first_free ≡ []

-- The full blocks stand behind the others.
abbrev pub Ordered : Store → List Ref → Type 0
Ordered s [] = Unit
Ordered s (b ∷ bs) = (Full s b → All (Full s) bs) × Ordered s bs

abbrev pub free_sum : Store → List Ref → ℕ
free_sum s [] = 0
free_sum s (b ∷ bs) = length (s b).first_free + free_sum s bs

-- Every element of a block is free, at one place of its chain, or counted as allocated.
abbrev pub IsBlock : ℕ → Block → Type 0
IsBlock n b = (length b.first_free + b.num_allocated ≡ n) × Distinct b.first_free

abbrev pub IsUsed : ℕ → Store → Ref → Type 0
IsUsed n s b = IsBlock n (s b) × (0 < (s b).num_allocated)

-- The empty block is not on the list, and nothing in it is allocated.
abbrev pub IsEmpty : ℕ → Store → List Ref → Option Ref → Type 0
IsEmpty n s bs none = Unit
IsEmpty n s bs (some e) = Apart e bs × IsBlock n (s e) × ((s e).num_allocated ≡ 0)

abbrev pub spare : ℕ → Option Ref → ℕ
spare n none = 0
spare n (some e) = n

pub record IsPool (p : Pool) : Type 0 where
  pub sized : 2 ≤ p.elems
  pub distinct : Distinct p.blocks
  pub used : All (IsUsed p.elems p.store) p.blocks
  pub empty : IsEmpty p.elems p.store p.blocks p.empty_block
  pub ordered : Ordered p.store p.blocks
  pub counted : p.free_elems ≡ free_sum p.store p.blocks + spare p.elems p.empty_block

abbrev pub Same : Store → Store → List Ref → Type 0
Same s t = All (λ b. t b ≡ s b)

pub Same-update :
    (s : Store) (b : Ref) (v : Block) (bs : List Ref) → Apart b bs → Same s (update s b v) bs
Same-update s b v bs =
    All-map (λ c. c ≢ b) (λ c. update s b v c ≡ s c) bs (λ c h. update_other s b v c h)

pub Same-Full : (s t : Store) (bs : List Ref) → Same s t bs → All (Full s) bs → All (Full t) bs
Same-Full s t [] e f = tt
Same-Full s t (b ∷ bs) e f = (ap (λ (z : Block). z.first_free) e.0 ∙ f.0, Same-Full s t bs e.1 f.1)

pub Same-flip : (s t : Store) (bs : List Ref) → Same s t bs → Same t s bs
Same-flip s t bs = All-map (λ b. t b ≡ s b) (λ b. s b ≡ t b) bs (λ b. sym)

pub Same-Ordered : (s t : Store) (bs : List Ref) → Same s t bs → Ordered s bs → Ordered t bs
Same-Ordered s t [] e o = tt
Same-Ordered s t (b ∷ bs) e o = (
  (λ f. Same-Full s t bs e.1 (o.0 (ap (λ (z : Block). z.first_free) (sym e.0) ∙ f))),
  Same-Ordered s t bs e.1 o.1,
)

pub Same-free_sum : (s t : Store) (bs : List Ref) → Same s t bs → free_sum t bs ≡ free_sum s bs
Same-free_sum s t [] e = refl
Same-free_sum s t (b ∷ bs) e =
    omega (arith, ap (λ (z : Block). length z.first_free) e.0, Same-free_sum s t bs e.1)

pub Same-IsUsed :
    (n : ℕ) (s t : Store) (bs : List Ref) → Same s t bs → All (IsUsed n s) bs → All (IsUsed n t) bs
Same-IsUsed n s t [] e u = tt
Same-IsUsed n s t (b ∷ bs) e u = (
  subst (λ (z : Block). IsBlock n z × (0 < z.num_allocated)) (sym e.0) u.0,
  Same-IsUsed n s t bs e.1 u.1,
)

pub Ordered-snoc :
    (s : Store) (bs : List Ref) (b : Ref) → Ordered s bs → Full s b → Ordered s (bs ++ (b ∷ []))
Ordered-snoc s [] b o f = ((λ _. tt), tt)
Ordered-snoc s (c ∷ bs) b o f =
    ((λ g. All-append (Full s) bs (b ∷ []) (o.0 g) (f, tt)), Ordered-snoc s bs b o.1 f)

pub Ordered-remove :
    (s : Store) (xs ys : List Ref) (b : Ref) → Ordered s (xs ++ (b ∷ ys)) → Ordered s (xs ++ ys)
Ordered-remove s [] ys b o = o.1
Ordered-remove s (x ∷ xs) ys b o = (
  (λ f.
      All-append (Full s) xs ys (All-left (Full s) xs (b ∷ ys) (o.0 f))
        (All-right (Full s) xs (b ∷ ys) (o.0 f)).1),
  Ordered-remove s xs ys b o.1,
)

pub free_sum-append :
    (s : Store) (xs ys : List Ref) → free_sum s (xs ++ ys) ≡ free_sum s xs + free_sum s ys
free_sum-append s [] ys = omega arith
free_sum-append s (x ∷ xs) ys = omega (arith, free_sum-append s xs ys)

pub free_sum-Full : (s : Store) (bs : List Ref) → All (Full s) bs → free_sum s bs ≡ 0
free_sum-Full s [] f = refl
free_sum-Full s (b ∷ bs) f = omega (arith, ap length f.0, free_sum-Full s bs f.1)

pub chain-IsBlock : (n : ℕ) → IsBlock n (record { first_free = chain n; num_allocated = 0 })
chain-IsBlock n = (omega (arith, size n), distinct n n (omega arith))
  where
    size : (n : ℕ) → length (chain n) ≡ n
    size zero = refl
    size (suc n) = ap suc (size n)

    apart : (n k : ℕ) → n ≤ k → Apart k (chain n)
    apart zero k h = tt
    apart (suc n) k h = ((λ e. omega arith), apart n k (omega arith))

    distinct : (n k : ℕ) → n ≤ k → Distinct (chain n)
    distinct zero k h = tt
    distinct (suc n) k h = (apart n n (omega arith), distinct n k (omega arith))
