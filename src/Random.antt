-- ===== src/Random.antt =====
-- src/libmowgli/base/random.c: the Mersenne Twister.
-- The array of `unsigned int` words is a function of the index, read below 624 only. An `int` is
-- its residue modulo 2 ^ 32.
mod Tests
pub mod Ranged
use Prim.Native.Nat.{bit_and, bit_or, bit_xor}
use libmowgli.Base.{
  ℕ, zero, suc, ◌+◌, ◌-◌, ◌*◌, ◌/◌, ◌%◌, ◌^◌, Option, none, some, Bool, leb, ltb, ◌==◌,
  if◌then◌else◌,
}
use libmowgli.Memory.{◌>>=◌}

abbrev pub word_mod : ℕ
word_mod = 2 ^ 32

-- `mowgli_random_t`
pub record Random : Type 0 where
  pub mt : ℕ → ℕ
  pub mti : ℕ

abbrev pub store : (ℕ → ℕ) → ℕ → ℕ → ℕ → ℕ
store mt t v i = if i == t then v else mt i

-- The loop of `mowgli_random_reseed`, with the number of words still to fill.
pub fill : ℕ → ℕ → (ℕ → ℕ) → ℕ → ℕ
fill zero i mt = mt
fill (suc k) i mt =
    let last = mt (i - 1) in
    fill k (i + 1) (store mt i ((1812433253 * bit_xor last (last / 2 ^ 30) + i) % word_mod))

unfoldable pub reseed : ℕ → Random
unfolding fill
reseed seed = record { mt = fill 623 1 (λ i. seed % word_mod); mti = 624 }

-- `y`, and the new word made from it.
abbrev pub joined : ℕ → ℕ → ℕ
joined high low = bit_or (bit_and high 0x80000000) (bit_and low 0x7fffffff)

abbrev pub twist : ℕ → ℕ → ℕ
twist word y = bit_xor (bit_xor word (y / 2)) (if bit_and y 1 == 0 then 0 else 0x9908b0df)

abbrev pub renew : (ℕ → ℕ) → ℕ → ℕ → ℕ → ℕ
renew mt t from = store mt t (twist (mt from) (joined (mt t) (mt (t + 1))))

pub renew_low : ℕ → ℕ → (ℕ → ℕ) → ℕ → ℕ
renew_low zero t mt = mt
renew_low (suc k) t mt = renew_low k (t + 1) (renew mt t (t + 397))

pub renew_high : ℕ → ℕ → (ℕ → ℕ) → ℕ → ℕ
renew_high zero t mt = mt
renew_high (suc k) t mt = renew_high k (t + 1) (renew mt t (t - 227))

-- The two loops, of 227 and 396 words, and the last word.
unfoldable pub renew_all : (ℕ → ℕ) → ℕ → ℕ
unfolding renew_low renew_high
renew_all mt =
    let b = renew_high 396 227 (renew_low 227 0 mt) in
    store b 623 (twist (b 396) (joined (b 623) (b 0)))

unfoldable pub temper : ℕ → ℕ
temper y =
    let y1 = bit_xor y (y / 2 ^ 11) in
    let y2 = bit_xor y1 (bit_and ((y1 * 2 ^ 7) % word_mod) 0x9d2c5680) in
    let y3 = bit_xor y2 (bit_and ((y2 * 2 ^ 15) % word_mod) 0xefc60000) in bit_xor y3 (y3 / 2 ^ 18)

unfoldable pub random_int : Random → Random × ℕ
unfolding renew_all temper
random_int r =
    let s : Random = if leb 624 r.mti then record { mt = renew_all r.mt; mti = 0 } else r in
    (record s { mti = s.mti + 1 }, temper (s.mt s.mti))

-- The greatest number that `mowgli_random_int_ranged` does not draw again.
unfoldable pub max_draw : ℕ → ℕ
max_draw dist =
    let remain = (2 ^ 31 % dist) * 2 in
    if leb dist (2 ^ 31)
    then word_mod - 1 - (if leb dist remain then remain - dist else remain)
    else dist - 1

pub draw_until : ℕ → ℕ → Random → Option (Random × ℕ)
unfolding random_int
draw_until zero max r = none
draw_until (suc fuel) max r =
    let rest = draw_until fuel max (random_int r).0 in
    if ltb max (random_int r).1 then rest else some (random_int r)

-- A distance of 0 is a division by zero.
unfoldable pub random_int_ranged : ℕ → Random → ℕ → ℕ → Option (Random × ℕ)
unfolding max_draw draw_until
random_int_ranged fuel r begin end =
    let dist = (end + word_mod - begin) % word_mod in
    let drawn = draw_until fuel (max_draw dist) r in
    if dist == 0 then none else (drawn >>= λ q. some (q.0, (begin + q.1 % dist) % word_mod))
