-- ===== src/Bitvector/Bounds.antt =====
-- The word that `set` and `get` address.
use libmowgli.Base.{
  ℕ, zero, suc, ◌/◌, ◌≡◌, refl, List, [], ◌∷◌, none, Bool, leb, length, get_elem?, length-replicate,
  arith, Bool-cases, inl, inr,
}
use libmowgli.Bitvector.{Bitvector, create, set, get}

-- The vector has as many words as `create` asks for.
abbrev pub IsSized : Bitvector → Type 0
IsSized bv = length bv.vector ≡ bv.bits / bv.divisor

pub create-IsSized : (bits : ℕ) → IsSized (create bits)
unfolding create
create-IsSized bits = length-replicate {A = ℕ} (bits / 4) 0

get_elem?_end : (v : List ℕ) (k : ℕ) → length v ≡ k → get_elem? v k ≡ none
get_elem?_end [] k h = refl
get_elem?_end (x ∷ v) zero h = absurd (omega arith)
get_elem?_end (x ∷ v) (suc k) h = get_elem?_end v k (omega arith)

-- On a vector of as many words as `create` asks for, `set` and `get` of any slot access a word
-- outside the vector, or shift too far.
pub set_outside :
    (bv : Bitvector) (slot : ℕ) (val : Bool)
    → IsSized bv
    → (set bv slot val ≡ none) × (get bv slot ≡ none)
unfolding set get
set_outside bv slot val h = go bv.bits bv.divisor bv.vector h
  where
    go :
        (bits divisor : ℕ) (v : List ℕ)
        → length v ≡ bits / divisor
        → (set (record { bits = bits; divisor = divisor; vector = v }) slot val ≡ none)
          × (get (record { bits = bits; divisor = divisor; vector = v }) slot ≡ none)
    go bits divisor v h =
        let e = get_elem?_end v (bits / divisor) h in
        elim (Bool-cases (leb 31 slot)) [
          | inl f ↦ (rw f refl, rw f refl)
          | inr f ↦ (rw (f, e) refl, rw (f, e) refl)
        ]
