-- ===== src/Pool/Change.antt =====
-- What a change to one block of a pool leaves as it was.
use libmowgli.Base.{
  ℕ, ◌<◌, ◌≡◌, ◌≢◌, ap, ◌∙◌, sym, subst, List, [], ◌∷◌, ◌++◌, Option, none, some, false, ◌==◌,
  All-append, All-left, All-right, length, arith,
}
use libmowgli.Nodes.{Ref, update}
use libmowgli.Nodes.Chain.{Apart, update_same, update_other}
use libmowgli.Pool.{Block, without}
use libmowgli.Pool.Valid.{Store, Full, Ordered, IsBlock, IsEmpty, Same-update, Same-Ordered}

pub without-remove :
    (b : Ref) (xs ys : List Ref) → Apart b xs → without b (xs ++ (b ∷ ys)) ≡ xs ++ ys
without-remove b [] ys a = ground arith
without-remove b (x ∷ xs) ys a =
    let e : (x == b) ≡ false = ground arith in rw e (ap (◌∷◌ x) (without-remove b xs ys a.1))

-- A change to a block that is full neither before nor after keeps the order.
pub Ordered-change :
    (s : Store) (b : Ref) (v : Block) (xs ys : List Ref)
    → Apart b xs
    → Apart b ys
    → 0 < length (s b).first_free
    → 0 < length v.first_free
    → Ordered s (xs ++ (b ∷ ys))
    → Ordered (update s b v) (xs ++ (b ∷ ys))
Ordered-change s b v [] ys ax ay h k o = (
  (λ g.
      absurd
        (omega (arith, ap length g, ap (λ (z : Block). length z.first_free) (update_same s b v)))),
  Same-Ordered s (update s b v) ys (Same-update s b v ys ay) o.1,
)
Ordered-change s b v (x ∷ xs) ys ax ay h k o = (
  (λ g.
      let full : Full s x =
        ap (λ (z : Block). z.first_free) (sym (update_other s b v x ax.0)) ∙ g in
      absurd (omega (arith, ap length (All-right (Full s) xs (b ∷ ys) (o.0 full)).0))),
  Ordered-change s b v xs ys ax.1 ay h k o.1,
)

module _ (n : ℕ) (s : Store) (b : Ref) (v : Block) (xs ys : List Ref) where
  pub IsEmpty-kept :
      (e : Option Ref)
      → IsEmpty n s (xs ++ (b ∷ ys)) e
      → IsEmpty n (update s b v) (xs ++ (b ∷ ys)) e
  IsEmpty-kept none h = tt
  IsEmpty-kept (some e) h =
      let ne = (All-right (λ c. c ≢ e) xs (b ∷ ys) h.0).0 in
      subst (λ (z : Block). Apart e (xs ++ (b ∷ ys)) × IsBlock n z × (z.num_allocated ≡ 0))
        (sym (update_other s b v e (λ k. ne (sym k)))) h

  pub IsEmpty-moved :
      (e : Option Ref)
      → IsEmpty n s (xs ++ (b ∷ ys)) e
      → IsEmpty n (update s b v) (b ∷ (xs ++ ys)) e
  IsEmpty-moved none h = tt
  IsEmpty-moved (some e) h =
      let q = IsEmpty-kept (some e) h in
      let r = All-right (λ c. c ≢ e) xs (b ∷ ys) q.0 in
      ((r.0, All-append (λ c. c ≢ e) xs ys (All-left (λ c. c ≢ e) xs (b ∷ ys) q.0) r.1), q.1, q.2)
