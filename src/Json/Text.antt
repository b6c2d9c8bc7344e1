-- ===== src/Json/Text.antt =====
-- src/libmowgli/ext/json.c: the text of tokens, with what it uses of the C library.
use libmowgli.Base.{
  ℕ, ◌+◌, ◌-◌, ◌*◌, ◌%◌, ◌^◌, min, [], ◌∷◌, ◌++◌, Bool, true, false, ◌&&◌, ◌||◌, ltb, leb, ◌==◌,
  if◌then◌else◌,
}
use libmowgli.Json.{Bytes}

-- The classes of <ctype.h>, in the C locale.
abbrev pub isdigit : ℕ → Bool
isdigit c = leb 48 c && leb c 57

abbrev pub isalpha : ℕ → Bool
isalpha c = (leb 65 c && leb c 90) || (leb 97 c && leb c 122)

abbrev pub isspace : ℕ → Bool
isspace c = (leb 9 c && leb c 13) || (c == 32)

-- Whether `strchr` finds a byte; a search for NUL finds the terminator.
unfoldable pub strchr : Bytes → ℕ → Bool
strchr [] c = c == 0
strchr (x ∷ s) c = if x == c then true else if x == 0 then false else strchr s c

abbrev pub digit_value : ℕ → ℕ
digit_value c =
    if isdigit c
    then c - 48
    else if leb 97 c && leb c 122
    then c - 87
    else if leb 65 c && leb c 90
    then c - 55
    else 36

-- The digits of `strtol`, up to a byte that is none.
unfoldable pub digits_value : ℕ → ℕ → Bytes → ℕ
digits_value base acc [] = acc
digits_value base acc (c ∷ s) =
    if ltb (digit_value c) base then digits_value base (acc * base + digit_value c) s else acc

unfoldable pub skip_space : Bytes → Bytes
skip_space [] = []
skip_space (c ∷ s) = if isspace c then skip_space s else c ∷ s

-- The magnitude: base 0 reads a leading 0 as octal and 0x as hexadecimal.
unfoldable pub magnitude : ℕ → Bytes → ℕ
unfolding digits_value
magnitude base [] = 0
magnitude base (c ∷ []) = digits_value (if base == 0 then 10 else base) 0 (c ∷ [])
magnitude base (c ∷ x ∷ s) =
    if (c == 48) && (((x == 120) || (x == 88)) && ((base == 0) || (base == 16)))
    then digits_value 16 0 s
    else digits_value (if base == 0 then (if c == 48 then 8 else 10) else base) 0 (c ∷ x ∷ s)

-- A number below `2 ^ w` for a signed one of `w` bits.
abbrev pub to_bits : ℕ → Bool → ℕ → ℕ
to_bits w negative m = if negative then (2 ^ w - m % 2 ^ w) % 2 ^ w else m % 2 ^ w

-- `strtol`, converted to `w` bits; a `long` has 64 of them, and the result stays in its range.
unfoldable pub strtol : ℕ → ℕ → Bytes → ℕ
unfolding skip_space magnitude
strtol w base s = elim (skip_space s) [
  | [] ↦ 0
  | c ∷ t ↦
      if c == 45
      then to_bits w true (min (magnitude base t) (2 ^ 63))
      else to_bits w false (min (magnitude base (if c == 43 then t else c ∷ t)) (2 ^ 63 - 1))
]

-- What an escape other than `\u` stands for.
abbrev pub unescape : ℕ → Bytes
unescape c =
    if (c == 34) || ((c == 92) || (c == 47))
    then c ∷ []
    else if c == 98
    then 8 ∷ []
    else if c == 102
    then 12 ∷ []
    else if c == 110
    then 10 ∷ []
    else if c == 114
    then 13 ∷ []
    else if c == 116
    then 9 ∷ []
    else []

-- `lex_string_scan`: in a string, behind a backslash and behind `\u`.
unfoldable mutual
  unfolding strtol

  pub lex_string_scan : Bytes → Bytes
  lex_string_scan [] = []
  lex_string_scan (c ∷ s) = if c == 92 then scan_escape s else c ∷ lex_string_scan s

  pub scan_escape : Bytes → Bytes
  scan_escape [] = []
  scan_escape (c ∷ s) = if c == 117 then scan_u s else unescape c ++ lex_string_scan s

  pub scan_u : Bytes → Bytes
  scan_u [] = []
  scan_u (a ∷ []) = []
  scan_u (a ∷ b ∷ []) = []
  scan_u (a ∷ b ∷ c ∷ []) = []
  scan_u (a ∷ b ∷ c ∷ d ∷ s) = strtol 8 16 (a ∷ b ∷ c ∷ d ∷ []) ∷ lex_string_scan s
