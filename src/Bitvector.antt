-- ===== src/Bitvector.antt =====
-- src/libmowgli/base/bitvector.c: vectors of bits, as written there.
-- A result `none` is an access outside the vector, or a shift that is undefined on `int`.
mod Tests
pub mod Bounds
use Prim.Native.Nat.{bit_and, bit_or}
use libmowgli.Base.{
  ℕ, zero, suc, ◌-◌, ◌/◌, ◌^◌, List, [], ◌∷◌, Option, none, some, Bool, true, false, ltb, leb, ◌==◌,
  not, if◌then◌else◌, replicate, get_elem?,
}
use libmowgli.Memory.{◌>>=◌, write_range}

-- `mowgli_bitvector_t`, less its object header.
pub record Bitvector : Type 0 where
  pub bits : ℕ
  pub divisor : ℕ
  pub vector : List ℕ

-- `sizeof (int)` is 4, and `mowgli_alloc_array` clears.
unfoldable pub create : ℕ → Bitvector
create bits = record { bits = bits; divisor = 4; vector = replicate (bits / 4) 0 }

abbrev complement : ℕ → ℕ
complement v = 2 ^ 32 - 1 - v

unfoldable pub set : Bitvector → ℕ → Bool → Option Bitvector
unfolding write_range
set bv slot val = if leb 31 slot then none else (do
  word ← get_elem? bv.vector (bv.bits / bv.divisor)
  let new = if val then bit_or word (2 ^ slot) else bit_and word (complement (2 ^ slot))
  vector ← write_range bv.vector (bv.bits / bv.divisor) (new ∷ [])
  some (record bv { vector = vector }))

unfoldable pub get : Bitvector → ℕ → Option Bool
get bv slot = if leb 31 slot then none else (do
  word ← get_elem? bv.vector (bv.bits / bv.divisor)
  some (not (bit_and word (2 ^ slot) == 0)))

-- The larger width.
abbrev width : Bitvector → Bitvector → ℕ
width bv1 bv2 = if ltb bv2.bits bv1.bits then bv1.bits else bv2.bits

-- The loop of `mowgli_bitvector_combine`, with the words still to do.
pub combine_words : ℕ → List ℕ → List ℕ → List ℕ → Option (List ℕ)
combine_words zero out v1 v2 = some out
combine_words (suc k) [] v1 v2 = none
combine_words (suc k) (o ∷ out) [] v2 = none
combine_words (suc k) (o ∷ out) (a ∷ v1) [] = none
combine_words (suc k) (o ∷ out) (a ∷ v1) (b ∷ v2) =
    combine_words k out v1 v2 >>= λ rest. some (bit_or (bit_or o a) b ∷ rest)

unfoldable pub combine : Bitvector → Bitvector → Option Bitvector
unfolding create combine_words
combine bv1 bv2 =
    let out = create (width bv1 bv2) in
    combine_words (out.bits / out.divisor) out.vector bv1.vector bv2.vector >>= λ v.
    some (record out { vector = v })

-- The loop of `mowgli_bitvector_xor`, which clears the bits of the second vector.
pub xor_words : ℕ → List ℕ → List ℕ → List ℕ → Option (List ℕ)
xor_words zero out v1 v2 = some out
xor_words (suc k) [] v1 v2 = none
xor_words (suc k) (o ∷ out) [] v2 = none
xor_words (suc k) (o ∷ out) (a ∷ v1) [] = none
xor_words (suc k) (o ∷ out) (a ∷ v1) (b ∷ v2) =
    xor_words k out v1 v2 >>= λ rest. some (bit_and a (complement b) ∷ rest)

unfoldable pub xor : Bitvector → Bitvector → Option Bitvector
unfolding create xor_words
xor bv1 bv2 =
    let out = create (width bv1 bv2) in
    xor_words (out.bits / out.divisor) out.vector bv1.vector bv2.vector >>= λ v.
    some (record out { vector = v })

-- The loop of `mowgli_bitvector_compare`.
pub compare_words : ℕ → Bool → List ℕ → List ℕ → Option Bool
compare_words zero ret v1 v2 = some ret
compare_words (suc k) ret [] v2 = none
compare_words (suc k) ret (a ∷ v1) [] = none
compare_words (suc k) ret (a ∷ v1) (b ∷ v2) =
    compare_words k (if bit_and a b == 0 then false else ret) v1 v2

unfoldable pub compare : Bitvector → Bitvector → Option Bool
unfolding compare_words
compare bv1 bv2 = compare_words (bv1.bits / bv1.divisor) true bv1.vector bv2.vector
