-- ===== src/Json/Literals.antt =====
-- src/libmowgli/ext/json.c: runs of the parser over numbers, identifiers and strings.
use libmowgli.Base.{
  length, ◌+◌, ℕ, zero, suc, ◌+◌, ◌-◌, ◌/◌, ◌%◌, ◌^◌, ◌<◌, ◌≡◌, refl, ap, sym, ◌∙◌, subst, List, [],
  ◌∷◌, ◌++◌, Bool, true, false, some, ltb, ◌==◌, ◌||◌, if◌then◌else◌, All, Bool-cases, ◌⊎◌, inl,
  inr, arith,
}
use libmowgli.Json.{
  Bytes, Json, null, boolean, integer, float, string, Sym, name_sep, number_token, value, obj_tail,
  Item, built, Parse,
}
use libmowgli.Json.Grammar.{ll_parse}
use libmowgli.Json.Text.{strchr, strtol}
use libmowgli.Json.Lexer.{
  token, lex_in, lex_limbo, lex_char, lex_word, starts_number, number_value, identifier_value,
  true_text, false_text,
}
use libmowgli.Json.Stream.{lex_again, parse_char, parse_data}
use libmowgli.Json.Print.{decimal, serialize_int, serialize_string_data, null_text, colon}
use libmowgli.Json.Scan.{IsChar}
use libmowgli.Json.Number.{
  IsDigit, decimal-IsDigit, strtol-serialize_int, small_or_large, decimal_small, decimal_large,
}
use libmowgli.Json.Letters.{clean}
use libmowgli.Json.Words.{IsNumberChar, number_text, identifier_text, string_text}
use libmowgli.Json.Space.{Has}
use libmowgli.Json.Steps.{step}
use libmowgli.Json.Tokens.{easy}
use libmowgli.Json.Lexer.{easy_sym}
use libmowgli.Json.Slots.{easy-Reads, Reads, Ends, Slot, KeySlot}

-- A text that the lexer reads as the number `j`.
abbrev pub IsNumberText : (Bytes → ℕ) → Json → Bytes → Type 0
IsNumberText strtod j t =
    (c : ℕ) × (s : Bytes) × (t ≡ c ∷ s)
    × (starts_number c ≡ true)
    × All IsNumberChar s
    × (number_value strtod t ≡ j)

-- A minus sign or a digit.
abbrev IsSigned : ℕ → Type 0
IsSigned c = (c ≡ 45) ⊎ IsDigit c

IsSigned-starts : (c : ℕ) → IsSigned c → starts_number c ≡ true
IsSigned-starts c h = ground arith

digits-IsSigned : (s : Bytes) → All IsDigit s → All IsSigned s
digits-IsSigned [] h = tt
digits-IsSigned (c ∷ s) h = (inr h.0, digits-IsSigned s h.1)

signed_number_chars : (s : Bytes) → All IsSigned s → All IsNumberChar s
signed_number_chars [] h = tt
signed_number_chars (c ∷ s) h =
    (ap (λ b. b || ((c == 69) || (c == 101))) (IsSigned-starts c h.0), signed_number_chars s h.1)

strchr_signed : (s : Bytes) (d : ℕ) → (d ≡ 46) ⊎ (d ≡ 101) → All IsSigned s → strchr s d ≡ false
unfolding strchr
strchr_signed [] d e h = ground arith
strchr_signed (c ∷ s) d e h =
    let differs : (c == d) ≡ false = not_the_dot c d e h.0 in
    let zero : (c == 0) ≡ false = not_zero c h.0 in
    ap (λ b. if b then true else if c == 0 then false else strchr s d) differs
    ∙ (ap (λ b. if b then false else strchr s d) zero ∙ strchr_signed s d e h.1)
  where
    not_the_dot : (c d : ℕ) → (d ≡ 46) ⊎ (d ≡ 101) → IsSigned c → (c == d) ≡ false
    not_the_dot c d e h = ground arith

    not_zero : (c : ℕ) → IsSigned c → (c == 0) ≡ false
    not_zero c h = ground arith

decimal_cons : (k n : ℕ) → (c : ℕ) × (s : Bytes) × (decimal (suc k) n ≡ c ∷ s)
decimal_cons k n = elim (small_or_large n) [
  | inl l ↦ (48 + n, [], decimal_small k n l)
  | inr l ↦ let r = cons (decimal k (n / 10)) (48 + n % 10) in (r.0, r.1, decimal_large k n l ∙ r.2)
]
  where
    cons : (xs : Bytes) (x : ℕ) → (c : ℕ) × (s : Bytes) × (xs ++ (x ∷ []) ≡ c ∷ s)
    cons [] x = (x, [], refl)
    cons (y ∷ xs) x = (y, xs ++ (x ∷ []), refl)

-- A text of digits, perhaps signed, with what `strtol` makes of it.
signed_text :
    (strtod : Bytes → ℕ) (n c : ℕ) (s t : Bytes)
    → t ≡ c ∷ s
    → All IsSigned t
    → strtol 32 0 t ≡ n
    → IsNumberText strtod (integer n) t
unfolding number_value
signed_text strtod n c s t e h v =
    let k = subst (All IsSigned) e h in
    (
      c,
      s,
      e,
      IsSigned-starts c k.0,
      signed_number_chars s k.1,
      ap (λ b. if b || strchr t 101 then float (strtod t) else integer (strtol 32 0 t))
            (strchr_signed t 46 (inl refl) h)
          ∙ (ap (λ b. if b then float (strtod t) else integer (strtol 32 0 t))
                (strchr_signed t 101 (inr refl) h)
              ∙ ap integer v),
    )

pub int_text :
    (strtod : Bytes → ℕ) (n : ℕ) → n < 2 ^ 32 → IsNumberText strtod (integer n) (serialize_int n)
unfolding serialize_int
int_text strtod n h =
    let value = strtol-serialize_int n h in
    let a = decimal_cons 9 n in
    let all : All IsSigned (serialize_int n) = signed n in
    elim (Bool-cases (ltb n (2 ^ 31))) [
      | inl e ↦ signed_text strtod n a.0 a.1 (serialize_int n) (ap (int_by n) e ∙ a.2) all value
      | inr e ↦
          signed_text strtod n 45 (decimal 10 (2 ^ 32 - n)) (serialize_int n) (ap (int_by n) e) all
            value
    ]
  where
    int_by : ℕ → Bool → Bytes
    int_by n b = if b then decimal 10 n else 45 ∷ decimal 10 (2 ^ 32 - n)

    signed_by : (n : ℕ) (b : Bool) → All IsSigned (int_by n b)
    signed_by n true = digits-IsSigned (decimal 10 n) (decimal-IsDigit 10 n)
    signed_by n false =
        (inl refl, digits-IsSigned (decimal 10 (2 ^ 32 - n)) (decimal-IsDigit 10 (2 ^ 32 - n)))

    signed : (n : ℕ) → All IsSigned (serialize_int n)
    signed n = signed_by n (ltb n (2 ^ 31))

module _ (strtod : Bytes → ℕ) (p : Parse) (x : Sym) (st' st : List Sym)
    (slot : Slot strtod x st' st) (b : List Item)
    (room : Has p.stack_size (length (x ∷ st') + 10)) where
  pub number-Reads :
      (j : Json) (t y : Bytes)
      → IsNumberText strtod j t
      → Ends strtod y
      → Reads strtod (clean p (x ∷ st') b) (t ++ y) (clean p st (built j ∷ b)) y
  number-Reads j t [] h e = absurd (ground arith)
  number-Reads j t (d ∷ y) (c, s, e, f, g, k) h = λ u. (
    u,
    ap (λ t. parse_data strtod (clean p (x ∷ st') b u) (t ++ (d ∷ y))) e
        ∙ number_text strtod p (x ∷ st') b s c d u y st (built j ∷ b) f g h (
            ap (λ j. ll_parse (token number_token (some j)) (clean p (x ∷ st') b u))
              (ap (number_value strtod) (sym e) ∙ k)
            ∙ ((slot p b u room).0 j).1),
  )

  pub null-Reads :
      (y : Bytes)
      → Ends strtod y
      → Reads strtod (clean p (x ∷ st') b) (null_text ++ y) (clean p st (built null ∷ b)) y
  unfolding parse_data parse_char lex_again lex_char lex_in lex_limbo lex_word identifier_value
  null-Reads [] h = absurd (ground arith)
  null-Reads (d ∷ y) h = λ u. (
    u,
    identifier_text strtod p (x ∷ st') b null_text d u y st (built null ∷ b) h
        (((slot p b u room).0 null).2),
  )

  pub boolean-Reads :
      (a : Bool) (y : Bytes)
      → Ends strtod y
      → Reads strtod
          (clean p (x ∷ st') b)
          ((if a then true_text else false_text) ++ y)
          (clean p st (built (boolean a) ∷ b))
          y
  unfolding parse_data parse_char lex_again lex_char lex_in lex_limbo lex_word identifier_value
  boolean-Reads a [] h = absurd (ground arith)
  boolean-Reads true (d ∷ y) h = λ u. (
    u,
    identifier_text strtod p (x ∷ st') b true_text d u y st (built (boolean true) ∷ b) h
        (((slot p b u room).0 (boolean true)).2),
  )
  boolean-Reads false (d ∷ y) h = λ u. (
    u,
    identifier_text strtod p (x ∷ st') b false_text d u y st (built (boolean false) ∷ b) h
        (((slot p b u room).0 (boolean false)).2),
  )

  pub string-Reads :
      (s y : Bytes)
      → All IsChar s
      → Reads strtod
          (clean p (x ∷ st') b)
          (serialize_string_data s ++ y)
          (clean p st (built (string s) ∷ b))
          y
  string-Reads s y h = λ u.
      string_text strtod p (x ∷ st') b s y u st (built (string s) ∷ b) h
        (λ v. ((slot p b v room).0 (string s)).0)

pub key-Reads :
    (strtod : Bytes → ℕ) (p : Parse) (x : Sym) (st' st : List Sym) (b : List Item) (k y : Bytes)
    → KeySlot strtod x st' st
    → Has p.stack_size (length (x ∷ st') + 10)
    → All IsChar k
    → Reads strtod
        (clean p (x ∷ st') b)
        (serialize_string_data k ++ y)
        (clean p (name_sep ∷ value ∷ obj_tail ∷ st) (built (string k) ∷ b))
        y
key-Reads strtod p x st' st b k y slot room h = λ u.
    string_text strtod p (x ∷ st') b k y u (name_sep ∷ value ∷ obj_tail ∷ st) (built (string k) ∷ b)
      h (λ v. slot p b v (string k) room)

-- The colon behind it, with a space if the text is indented.
pub colon-Reads :
    (strtod : Bytes → ℕ) (p : Parse) (n : ℕ) (y : Bytes) (st : List Sym) (b : List Item)
    → Has p.stack_size (length (name_sep ∷ value ∷ obj_tail ∷ st) + 10)
    → Reads strtod
        (clean p (name_sep ∷ value ∷ obj_tail ∷ st) b)
        (colon n ++ y)
        (clean p (value ∷ obj_tail ∷ st) b)
        y
unfolding ll_parse parse_data parse_char lex_again lex_char lex_in lex_limbo easy_sym
colon-Reads strtod p zero y st b h =
    easy-Reads strtod p 58 name_sep y (name_sep ∷ value ∷ obj_tail ∷ st) b
      (clean p (value ∷ obj_tail ∷ st) b) refl
      (λ u.
        step (easy name_sep) (clean p [] [] u) (name_sep ∷ value ∷ obj_tail ∷ st)
          (value ∷ obj_tail ∷ st) b b h refl)
colon-Reads strtod p (suc n) y st b h = λ u.
    (let r =
        easy-Reads strtod p 58 name_sep (32 ∷ y) (name_sep ∷ value ∷ obj_tail ∷ st) b
          (clean p (value ∷ obj_tail ∷ st) b) refl
          (λ u.
            step (easy name_sep) (clean p [] [] u) (name_sep ∷ value ∷ obj_tail ∷ st)
              (value ∷ obj_tail ∷ st) b b h refl)
          u in
      (r.0, r.1))
