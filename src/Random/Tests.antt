-- ===== src/Random/Tests.antt =====
-- The generator at a concrete state.
use libmowgli.Base.{ℕ, ◌-◌, ◌*◌, ◌%◌, ◌^◌, ◌≤◌, ◌<◌, ◌≡◌, refl, suc, some, arith, leb→le}
use libmowgli.Random.{Random, random_int, max_draw, random_int_ranged}
use libmowgli.Random.Ranged.{after, drawn, max_draw-multiple, ranged-within}

abbrev state : Random
state = record { mt = λ i. i; mti = 5 }

max_draw-multiple_example :
    (k : ℕ) × (suc (max_draw 10) ≡ k * 10) × (2 ^ 31 ≤ suc (max_draw 10)) × (max_draw 10 < 2 ^ 32)
max_draw-multiple_example = max_draw-multiple 10 (omega arith) (omega arith)

ranged-within_example :
    (x : ℕ) × (random_int_ranged 1 state 20 30 ≡ some ((random_int (after 0 state)).0, x))
    × (20 ≤ x)
    × (x < 30)
    × (x - 20 ≡ drawn 0 state % (30 - 20))
unfolding random_int max_draw
ranged-within_example =
    ranged-within 20 30 0 1 state (omega arith) (omega arith) (omega arith)
      (λ j m. absurd (omega arith)) (leb→le (drawn 0 state) (max_draw 10) refl)
