-- ===== src/Random/Ranged.antt =====
-- `mowgli_random_int_ranged`: no residue is preferred, and the result lies in the range.
use native.Mathlib.Nat.{div-add-mod', mod-lt, add-mul}
use libmowgli.Base.{
  ℕ, zero, suc, ◌+◌, ◌-◌, ◌*◌, ◌/◌, ◌%◌, ◌^◌, ◌≤◌, ◌<◌, ◌≡◌, ap, ◌∙◌, Option, none, some, Bool,
  false, leb, ltb, ◌==◌, if◌then◌else◌, arith, Bool-cases, inl, inr, lt→ltb,
}
use libmowgli.Memory.{◌>>=◌}
use libmowgli.Random.{Random, word_mod, random_int, max_draw, draw_until, random_int_ranged}

-- For a distance above 0 and below 2 ^ 32, the numbers that `mowgli_random_int_ranged` accepts
-- are as many as a multiple of the distance, so that no residue is preferred, and they are at
-- least half of all words.
pub max_draw-multiple :
    (dist : ℕ)
    → 0 < dist
    → dist < 2 ^ 32
    → (k : ℕ) × (suc (max_draw dist) ≡ k * dist)
      × (2 ^ 31 ≤ suc (max_draw dist))
      × (max_draw dist < 2 ^ 32)
unfolding max_draw
max_draw-multiple dist p s =
    let q = 2 ^ 31 / dist in
    let d = div-add-mod' (2 ^ 31) dist in
    let r : 2 ^ 31 % dist < dist = mod-lt (2 ^ 31) p in
    let twice : (q + q) * dist ≡ q * dist + q * dist = add-mul q q dist in
    elim (Bool-cases (leb dist (2 ^ 31))) [
      | inr e ↦ (1, ground arith, ground arith, ground arith)
      | inl e ↦ elim (Bool-cases (leb dist ((2 ^ 31 % dist) * 2))) [
        | inl f ↦ (q + q + 1, ground arith, ground arith, ground arith)
        | inr f ↦ (q + q, ground arith, ground arith, ground arith)
      ]
    ]

-- The generator after a number of draws, and the number that the next draw gives.
abbrev pub after : ℕ → Random → Random
after zero r = r
after (suc k) r = after k (random_int r).0

abbrev pub drawn : ℕ → Random → ℕ
drawn k r = (random_int (after k r)).1

not_below : (a b : ℕ) → a ≤ b → ltb b a ≡ false
not_below a b h = ground arith

draw_until-drawn :
    (k fuel max : ℕ) (r : Random)
    → k < fuel
    → ((j : ℕ) → j < k → max < drawn j r)
    → drawn k r ≤ max
    → draw_until fuel max r ≡ some (random_int (after k r))
unfolding draw_until
draw_until-drawn k zero max r l h e = absurd (omega arith)
draw_until-drawn zero (suc fuel) max r l h e =
    ap (λ (b : Bool). if b then draw_until fuel max (random_int r).0 else some (random_int r))
      (not_below (random_int r).1 max e)
draw_until-drawn (suc k) (suc fuel) max r l h e =
    ap (λ (b : Bool). if b then draw_until fuel max (random_int r).0 else some (random_int r))
      (lt→ltb max (random_int r).1 (h 0 (omega arith)))
    ∙ draw_until-drawn k fuel max (random_int r).0 (omega arith) (λ j m. h (suc j) (omega arith)) e

-- For 0 <= begin < end < 2 ^ 32: if draw number k is the first that is accepted, and the fuel is
-- greater than k, `mowgli_random_int_ranged` ends after that draw, with a result from begin up to
-- below end, at the residue of the drawn number.
pub ranged-within :
    (begin end k fuel : ℕ) (r : Random)
    → begin < end
    → end < 2 ^ 32
    → k < fuel
    → ((j : ℕ) → j < k → max_draw (end - begin) < drawn j r)
    → drawn k r ≤ max_draw (end - begin)
    → (x : ℕ) × (random_int_ranged fuel r begin end ≡ some ((random_int (after k r)).0, x))
      × (begin ≤ x)
      × (x < end)
      × (x - begin ≡ drawn k r % (end - begin))
unfolding random_int_ranged
ranged-within begin end k fuel r p s l h e =
    let dist : (end + word_mod - begin) % word_mod ≡ end - begin = omega arith in
    let nonzero : ((end - begin) == 0) ≡ false = ground arith in
    let small = mod-lt (drawn k r) {m = end - begin} (omega arith) in
    let sum : (begin + drawn k r % (end - begin)) % word_mod ≡ begin + drawn k r % (end - begin) =
      omega arith in
    let finish : ℕ → Option (Random × ℕ) → Option (Random × ℕ) =
      λ d o. o >>= λ q. some (q.0, (begin + q.1 % d) % word_mod) in
    let run =
      ap (λ d. if d == 0 then none else finish d (draw_until fuel (max_draw d) r)) dist
      ∙ ap
          (λ (b : Bool).
            if b then none else finish (end - begin) (draw_until fuel (max_draw (end - begin)) r))
          nonzero
      ∙ ap (finish (end - begin)) (draw_until-drawn k fuel (max_draw (end - begin)) r l h e)
      ∙ ap (λ v. some ((random_int (after k r)).0, v)) sum in
    (begin + drawn k r % (end - begin), run, omega arith, omega arith, omega arith)
