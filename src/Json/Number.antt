-- ===== src/Json/Number.antt =====
-- src/libmowgli/ext/json.c: an integer, written in decimal and read back by `strtol`.
use libmowgli.Base.{
  ℕ, zero, suc, ◌+◌, ◌-◌, ◌*◌, ◌/◌, ◌%◌, ◌^◌, ◌<◌, ◌≤◌, min, ◌≡◌, refl, ap, sym, ◌∙◌, subst, [],
  ◌∷◌, ◌++◌, true, false, ◌||◌, ◌&&◌, ltb, ◌==◌, if◌then◌else◌, All, Bool-cases, ◌⊎◌, inl, inr,
  arith, lt→ltb, ltb→lt,
}
use native.Mathlib.Nat.{pow-succ'}
use libmowgli.Json.{Bytes}
use libmowgli.Json.Text.{isspace, digit_value, digits_value, magnitude, skip_space, strtol, to_bits}
use libmowgli.Json.Print.{decimal, serialize_int}

abbrev pub IsDigit : ℕ → Type 0
IsDigit c = (48 ≤ c) × (c ≤ 57)

All-append : (xs : Bytes) (c : ℕ) → All IsDigit xs → IsDigit c → All IsDigit (xs ++ (c ∷ []))
All-append [] c h k = (k, tt)
All-append (x ∷ xs) c h k = (h.0, All-append xs c h.1 k)

digit_value-digit : (c : ℕ) → IsDigit c → digit_value c ≡ c - 48
digit_value-digit c h = ground arith

digits_value-append :
    (acc : ℕ) (xs : Bytes) (c : ℕ)
    → All IsDigit xs
    → IsDigit c
    → digits_value 10 acc (xs ++ (c ∷ [])) ≡ digits_value 10 acc xs * 10 + (c - 48)
unfolding digits_value
digits_value-append acc [] c h k = ground (arith, digit_value-digit c k)
digits_value-append acc (x ∷ xs) c h k =
    ground
      (arith, digit_value-digit x h.0, digits_value-append (acc * 10 + digit_value x) xs c h.1 k)

pub decimal_small : (k n : ℕ) → n < 10 → decimal (suc k) n ≡ (48 + n) ∷ []
unfolding decimal
decimal_small k n h =
    ap (λ b. if b then (48 + n) ∷ [] else decimal k (n / 10) ++ ((48 + n % 10) ∷ []))
      (lt→ltb n 10 h)

pub decimal_large :
    (k n : ℕ) → 10 ≤ n → decimal (suc k) n ≡ decimal k (n / 10) ++ ((48 + n % 10) ∷ [])
unfolding decimal
decimal_large k n h =
    let e : ltb n 10 ≡ false = ground arith in
    ap (λ b. if b then (48 + n) ∷ [] else decimal k (n / 10) ++ ((48 + n % 10) ∷ [])) e

pub small_or_large : (n : ℕ) → (n < 10) ⊎ (10 ≤ n)
small_or_large n = ground arith

pub decimal-IsDigit : (k n : ℕ) → All IsDigit (decimal k n)
unfolding decimal
decimal-IsDigit zero n = tt
decimal-IsDigit (suc k) n =
    let rest = decimal-IsDigit k (n / 10) in
    elim (small_or_large n) [
      | inl l ↦ subst (All IsDigit) (sym (decimal_small k n l)) ((omega arith, omega arith), tt)
      | inr l ↦
          subst (All IsDigit) (sym (decimal_large k n l))
            (All-append (decimal k (n / 10)) (48 + n % 10) rest (omega arith, omega arith))
    ]

tenth : (k n : ℕ) → n < 10 ^ suc k → n / 10 < 10 ^ k
tenth k n h = let e = pow-succ' 10 k in omega (arith, e)

digits_value-decimal : (k n : ℕ) → n < 10 ^ k → digits_value 10 0 (decimal k n) ≡ n
unfolding digits_value decimal
digits_value-decimal zero n h = omega arith
digits_value-decimal (suc k) n h =
    let rest = digits_value-decimal k (n / 10) (tenth k n h) in
    elim (small_or_large n) [
      | inl l ↦
          ap (digits_value 10 0) (decimal_small k n l)
          ∙ ground (arith, digit_value-digit (48 + n) (omega arith, omega arith))
      | inr l ↦
          ap (digits_value 10 0) (decimal_large k n l)
          ∙ (digits_value-append 0 (decimal k (n / 10)) (48 + n % 10) (decimal-IsDigit k (n / 10))
                (omega arith, omega arith)
              ∙ omega (arith, rest))
    ]

-- Texts that do not read as octal: one digit, or a first digit other than 0.
abbrev Leads : Bytes → Type 0
Leads [] = false ≡ true
Leads (c ∷ s) = 49 ≤ c

Leads-append : (s t : Bytes) → Leads s → Leads (s ++ t)
Leads-append [] t h = absurd (ground arith)
Leads-append (c ∷ s) t h = h

decimal-Leads : (k n : ℕ) → 0 < n → n < 10 ^ k → Leads (decimal k n)
decimal-Leads zero n h l = absurd (omega arith)
decimal-Leads (suc k) n h l =
    let small : n < 10 → Leads (decimal (suc k) n) =
      (λ m. subst Leads (sym (decimal_small k n m)) (omega arith)) in
    elim (small_or_large n) [
      | inl m ↦ small m
      | inr m ↦ subst Leads (sym (decimal_large k n m)) (
          Leads-append (decimal k (n / 10)) ((48 + n % 10) ∷ [])
            (decimal-Leads k (n / 10) (omega arith) (tenth k n l)))
    ]

magnitude-Leads : (s : Bytes) → Leads s → magnitude 0 s ≡ digits_value 10 0 s
unfolding magnitude
magnitude-Leads [] h = absurd (ground arith)
magnitude-Leads (c ∷ []) h = refl
magnitude-Leads (c ∷ x ∷ s) h =
    let e : (c == 48) ≡ false = ground arith in
    ap
      (λ b.
        if b && (((x == 120) || (x == 88)) && true)
        then digits_value 16 0 s
        else digits_value (if b then 8 else 10) 0 (c ∷ x ∷ s))
      e

magnitude-decimal : (k n : ℕ) → n < 10 ^ suc k → magnitude 0 (decimal (suc k) n) ≡ n
unfolding magnitude
magnitude-decimal k n h = elim (small_or_large n) [
  | inl l ↦
      ap (magnitude 0) (decimal_small k n l)
      ∙ (ap (digits_value 10 0) (sym (decimal_small k n l)) ∙ digits_value-decimal (suc k) n h)
  | inr l ↦
      magnitude-Leads (decimal (suc k) n) (decimal-Leads (suc k) n (omega arith) h)
      ∙ digits_value-decimal (suc k) n h
]

-- Without a sign in front.
strtol_digits :
    (s : Bytes) → All IsDigit s → strtol 32 0 s ≡ min (magnitude 0 s) (2 ^ 63 - 1) % 2 ^ 32
unfolding strtol
strtol_digits [] h = refl
strtol_digits (c ∷ s) h =
    let space : isspace c ≡ false = ground arith in
    let minus : (c == 45) ≡ false = ground arith in
    let plus : (c == 43) ≡ false = ground arith in
    ap (λ b. signed (if b then skip_space s else c ∷ s)) space
    ∙ (ap
          (λ b.
            if b
            then to_bits 32 true (min (magnitude 0 s) (2 ^ 63))
            else to_bits 32 false (min (magnitude 0 (if c == 43 then s else c ∷ s)) (2 ^ 63 - 1)))
          minus
        ∙ ap (λ b. to_bits 32 false (min (magnitude 0 (if b then s else c ∷ s)) (2 ^ 63 - 1))) plus)
  where
    signed : Bytes → ℕ
    signed r = elim r [
      | [] ↦ 0
      | d ∷ t ↦
          if d == 45
          then to_bits 32 true (min (magnitude 0 t) (2 ^ 63))
          else to_bits 32 false (min (magnitude 0 (if d == 43 then t else d ∷ t)) (2 ^ 63 - 1))
    ]

not_less : (a b : ℕ) → ltb a b ≡ false → b ≤ a
not_less a b e = ground arith

-- For an integer of 32 bits, `strtol` with base 0 reads the decimal text that the serializer
-- writes for it as that integer.
pub strtol-serialize_int : (n : ℕ) → n < 2 ^ 32 → strtol 32 0 (serialize_int n) ≡ n
unfolding serialize_int strtol
strtol-serialize_int n h = elim (Bool-cases (ltb n (2 ^ 31))) [
  | inl e ↦
      let l = ltb→lt n (2 ^ 31) e in
      let m = magnitude-decimal 9 n (omega (arith, l)) in
      ap (λ b. strtol 32 0 (if b then decimal 10 n else 45 ∷ decimal 10 (2 ^ 32 - n))) e
      ∙ (strtol_digits (decimal 10 n) (decimal-IsDigit 10 n) ∙ omega (arith, m, l))
  | inr e ↦
      let l = not_less n (2 ^ 31) e in
      let m = magnitude-decimal 9 (2 ^ 32 - n) (omega (arith, l)) in
      ap (λ b. strtol 32 0 (if b then decimal 10 n else 45 ∷ decimal 10 (2 ^ 32 - n))) e
      ∙ omega (arith, m, l)
]
