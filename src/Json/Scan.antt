-- ===== src/Json/Scan.antt =====
-- src/libmowgli/ext/json.c: the text of strings and numbers, written and read back.
use libmowgli.Base.{
  ℕ, ◌+◌, ◌-◌, ◌*◌, ◌/◌, ◌%◌, ◌^◌, ◌<◌, min, ◌≡◌, refl, ap, sym, subst, ◌⊎◌, ◌∙◌, [], ◌∷◌, ◌++◌,
  Bool, true, false, ◌||◌, ltb, ◌==◌, if◌then◌else◌, All, Bool-cases, inl, inr, arith,
}
use libmowgli.Json.{Bytes}
use libmowgli.Json.Text.{
  digit_value, strtol, strchr, unescape, lex_string_scan, scan_escape, scan_u,
}
use libmowgli.Json.Print.{
  serialize_escape, escape_letter, hex_digit, serialize_char, serialize_chars,
}

abbrev pub IsChar : ℕ → Type 0
IsChar c = (0 < c) × (c < 256)

digit_value-hex_digit : (d : ℕ) → d < 16 → digit_value (hex_digit d) ≡ d
digit_value-hex_digit d h = ground arith

hex_pair :
    (a b : ℕ)
    → a < 16
    → b < 16
    → (min (if ltb a 16 then (if ltb b 16 then (0 + a) * 16 + b else 0 + a) else 0) (2 ^ 63 - 1)
        % 2 ^ 8)
      ≡ a * 16 + b
hex_pair a b p q = ground arith

strtol_hex :
    (h l : ℕ)
    → h < 16
    → l < 16
    → strtol 8 16 (48 ∷ 48 ∷ hex_digit h ∷ hex_digit l ∷ []) ≡ h * 16 + l
unfolding strtol
strtol_hex h l p q = rw (digit_value-hex_digit h p, digit_value-hex_digit l q) (hex_pair h l p q)

-- How a character is written: as itself, by a letter, or by its digits.
abbrev pub Plain : ℕ → Type 0
Plain c = (serialize_char c ≡ c ∷ []) × ((c == 92) ≡ false) × ((c == 34) ≡ false)

abbrev pub Lettered : ℕ → Type 0
Lettered c =
    (e : ℕ) × (serialize_char c ≡ 92 ∷ e ∷ []) × ((e == 117) ≡ false) × (unescape e ≡ c ∷ [])

abbrev pub Digits : ℕ → Type 0
Digits c = serialize_char c ≡ 92 ∷ 117 ∷ 48 ∷ 48 ∷ hex_digit (c / 16 % 16) ∷ hex_digit (c % 16) ∷ []

escape_cases :
    (c : ℕ)
    → 0 < c
    → strchr serialize_escape c ≡ true
    → (c ≡ 34) ⊎ ((c ≡ 92) ⊎ ((c ≡ 8) ⊎ ((c ≡ 12) ⊎ ((c ≡ 10) ⊎ ((c ≡ 13) ⊎ (c ≡ 9))))))
unfolding strchr
escape_cases c h e = ground arith

no_escape : (c : ℕ) → strchr serialize_escape c ≡ false → ((c == 92) ≡ false) × ((c == 34) ≡ false)
unfolding strchr
no_escape c e = ground arith

escaped-Lettered :
    (c : ℕ)
    → (c ≡ 34) ⊎ ((c ≡ 92) ⊎ ((c ≡ 8) ⊎ ((c ≡ 12) ⊎ ((c ≡ 10) ⊎ ((c ≡ 13) ⊎ (c ≡ 9))))))
    → Lettered c
unfolding serialize_char
escaped-Lettered c (inl e) = subst Lettered (sym e) (34, refl, refl, refl)
escaped-Lettered c (inr (inl e)) = subst Lettered (sym e) (92, refl, refl, refl)
escaped-Lettered c (inr (inr (inl e))) = subst Lettered (sym e) (98, refl, refl, refl)
escaped-Lettered c (inr (inr (inr (inl e)))) = subst Lettered (sym e) (102, refl, refl, refl)
escaped-Lettered c (inr (inr (inr (inr (inl e))))) = subst Lettered (sym e) (110, refl, refl, refl)
escaped-Lettered c (inr (inr (inr (inr (inr (inl e)))))) =
    subst Lettered (sym e) (114, refl, refl, refl)
escaped-Lettered c (inr (inr (inr (inr (inr (inr e)))))) =
    subst Lettered (sym e) (116, refl, refl, refl)

char_text : ℕ → Bool → Bool → Bytes
char_text c escaped control =
    if escaped
    then 92 ∷ escape_letter c ∷ []
    else if control
    then 92 ∷ 117 ∷ 48 ∷ 48 ∷ hex_digit (c / 16 % 16) ∷ hex_digit (c % 16) ∷ []
    else c ∷ []

pub serialize_char-cases : (c : ℕ) → IsChar c → Plain c ⊎ (Lettered c ⊎ Digits c)
unfolding serialize_char char_text
serialize_char-cases c h = elim (Bool-cases (strchr serialize_escape c)) [
  | inl e ↦ inr (inl (escaped-Lettered c (escape_cases c h.0 e)))
  | inr e ↦ elim (Bool-cases (ltb c 32 || ltb 127 c)) [
    | inl f ↦
        inr (inr (ap (λ b. char_text c b (ltb c 32 || ltb 127 c)) e ∙ ap (char_text c false) f))
    | inr f ↦ inl (
      ap (λ b. char_text c b (ltb c 32 || ltb 127 c)) e ∙ ap (char_text c false) f,
      (no_escape c e).0,
      (no_escape c e).1,
    )
  ]
]

-- What the scanner makes of one character's text.
scan_char :
    (c : ℕ) (s : Bytes) → IsChar c → lex_string_scan (serialize_char c ++ s) ≡ c ∷ lex_string_scan s
unfolding lex_string_scan
scan_char c s h = elim (serialize_char-cases c h) [
  | inl (e, f, g) ↦
      ap (λ t. lex_string_scan (t ++ s)) e
      ∙ ap (λ b. if b then scan_escape s else c ∷ lex_string_scan s) f
  | inr (inl (l, e, f, g)) ↦
      ap (λ t. lex_string_scan (t ++ s)) e
      ∙ (ap (λ b. if b then scan_u s else unescape l ++ lex_string_scan s) f
          ∙ ap (λ t. t ++ lex_string_scan s) g)
  | inr (inr e) ↦
      ap (λ t. lex_string_scan (t ++ s)) e
      ∙ (ap (λ d. d ∷ lex_string_scan s)
            (strtol_hex (c / 16 % 16) (c % 16) (omega arith) (omega arith))
          ∙ ap (λ d. d ∷ lex_string_scan s) (omega (arith, h)))
]

-- For a string of bytes other than NUL, the scan of the text between the quotes that the
-- serializer writes gives back the string.
pub scan-serialize_chars : (s : Bytes) → All IsChar s → lex_string_scan (serialize_chars s) ≡ s
unfolding lex_string_scan
scan-serialize_chars [] h = refl
scan-serialize_chars (c ∷ s) h =
    scan_char c (serialize_chars s) h.0 ∙ ap (◌∷◌ c) (scan-serialize_chars s h.1)
