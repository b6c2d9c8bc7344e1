-- ===== src/Json/Words.antt =====
-- src/libmowgli/ext/json.c: the words and the strings of a text turn into their tokens.
use libmowgli.Base.{
  ℕ, ◌/◌, ◌%◌, ◌≡◌, refl, ap, sym, ◌∙◌, subst, List, [], ◌∷◌, ◌++◌, append_assoc, append-nil, true,
  false, some, ◌==◌, ◌||◌, if◌then◌else◌, All, inl, inr,
}
use libmowgli.Json.{
  Bytes, string, Sym, string_token, number_token, identifier_token, Item, in_string, in_string_esc,
  in_string_esc_u, in_number, in_identifier, Parse,
}
use libmowgli.Json.Grammar.{ll_parse}
use libmowgli.Json.Text.{isalpha}
use libmowgli.Json.Lexer.{
  token, token_of, lex_tokenize, lex_append, easy_sym, starts_number, goes_on_number, once,
  lex_limbo, lex_quoted, lex_word, lex_in, lex_char, number_value, identifier_value,
}
use libmowgli.Json.Stream.{lex_again, parse_char, parse_data}
use libmowgli.Json.Chars.{stops, goes, in_state}
use libmowgli.Json.Print.{serialize_char, serialize_chars, serialize_string_data, hex_digit}
use libmowgli.Json.Scan.{IsChar, serialize_char-cases, scan-serialize_chars}
use libmowgli.Json.Letters.{clean, within, IsEnd, one, word_more, word_end, limbo_number}

-- A character of a number, as `strtod` and `strtol` read it.
abbrev pub IsNumberChar : ℕ → Type 0
IsNumberChar c = goes_on_number c ≡ true

module _ (strtod : Bytes → ℕ) (p : Parse) (st : List Sym) (b : List Item) where
  number_rest :
      (s rest buf : Bytes) (u : ℕ)
      → All IsNumberChar s
      → parse_data strtod (within in_number buf p st b u) (s ++ rest)
        ≡ parse_data strtod (within in_number (buf ++ s) p st b u) rest
  unfolding lex_in
  number_rest [] rest buf u h =
      ap (λ t. parse_data strtod (within in_number t p st b u) rest) (sym (append-nil buf))
  number_rest (c ∷ s) rest buf u h =
      let q = within in_number buf p st b u in
      one strtod q (within in_number (buf ++ (c ∷ [])) p st b u) c (s ++ rest) refl
        (word_more strtod q (goes_on_number c) c (in_state strtod c in_number q refl) h.0)
      ∙ (number_rest s rest (buf ++ (c ∷ [])) u h.1
          ∙ ap (λ t. parse_data strtod (within in_number t p st b u) rest)
              (append_assoc buf (c ∷ []) s))

  number_first :
      (c : ℕ) (rest : Bytes) (u : ℕ)
      → starts_number c ≡ true
      → parse_data strtod (clean p st b u) (c ∷ rest)
        ≡ parse_data strtod (within in_number (c ∷ []) p st b u) rest
  unfolding parse_char lex_in lex_limbo lex_word
  number_first c rest u h =
      let q = clean p st b u in
      let r = within in_number [] p st b u in
      one strtod q (within in_number (c ∷ []) p st b u) c rest refl (
        goes strtod c 2 q r (limbo_number strtod q c refl h)
        ∙ stops strtod c 1 r (within in_number (c ∷ []) p st b u) (
            in_state strtod c in_number r refl
            ∙ ap (λ b. lex_word strtod b r c) (ap (λ b. b || ((c == 69) || (c == 101))) h)))

  -- A number in front of the end of it is its token.
  pub number_text :
      (s : Bytes) (c d u : ℕ) (rest : Bytes) (st' : List Sym) (b' : List Item)
      → starts_number c ≡ true
      → All IsNumberChar s
      → IsEnd strtod d
      → (ll_parse (token number_token (some (number_value strtod (c ∷ s)))) (clean p st b u)
          ≡ some (clean p st' b' u))
      → parse_data strtod (clean p st b u) (c ∷ (s ++ (d ∷ rest)))
        ≡ parse_data strtod (clean p st' b' u) (d ∷ rest)
  unfolding lex_in lex_tokenize token_of
  number_text s c d u rest st' b' h hs he e =
      number_first c (s ++ (d ∷ rest)) u h
      ∙ (number_rest s (d ∷ rest) (c ∷ []) u hs
          ∙ word_end strtod (within in_number (c ∷ s) p st b u) (clean p st' b' u)
              (goes_on_number d) d rest refl refl refl he
              (in_state strtod d in_number (within in_number (c ∷ s) p st b u) refl) he.0 e)

  -- An identifier whose first character is read.
  pub identifier_text :
      (s : Bytes) (d u : ℕ) (rest : Bytes) (st' : List Sym) (b' : List Item)
      → IsEnd strtod d
      → (ll_parse (token identifier_token (some (identifier_value s))) (clean p st b u)
          ≡ some (clean p st' b' u))
      → parse_data strtod (within in_identifier s p st b u) (d ∷ rest)
        ≡ parse_data strtod (clean p st' b' u) (d ∷ rest)
  unfolding lex_in lex_tokenize token_of
  identifier_text s d u rest st' b' he e =
      word_end strtod (within in_identifier s p st b u) (clean p st' b' u) (isalpha d) d rest refl
        refl refl he (in_state strtod d in_identifier (within in_identifier s p st b u) refl) he.1 e

  -- In a string, a text is taken into the buffer.
  abbrev Taken : Bytes → Bytes → ℕ → Bytes → Type 0
  Taken buf rest u t =
      (v : ℕ) × (parse_data strtod (within in_string buf p st b u) (t ++ rest)
        ≡ parse_data strtod (within in_string (buf ++ t) p st b v) rest)

  plain-Taken :
      (c u : ℕ) (buf rest : Bytes)
      → ((c == 92) ≡ false)
      → ((c == 34) ≡ false)
      → Taken buf rest u (c ∷ [])
  unfolding lex_in lex_quoted parse_char
  plain-Taken c u buf rest f g =
      let q = within in_string buf p st b u in
      (
        u,
        one strtod q (lex_append c q) c rest refl (
            stops strtod c 2 q (lex_append c q) (
              in_state strtod c in_string q refl
              ∙ (ap
                    (λ x.
                      if x
                      then some (record (lex_append c q) { lex = in_string_esc }, false)
                      else if c == 34
                      then once (lex_tokenize strtod q)
                      else some (lex_append c q, false))
                    f
                  ∙ ap
                      (λ x.
                        if x then once (lex_tokenize strtod q) else some (lex_append c q, false))
                      g))),
      )

  letter-Taken :
      (l u : ℕ) (buf rest : Bytes) → ((l == 117) ≡ false) → Taken buf rest u (92 ∷ l ∷ [])
  unfolding lex_in lex_quoted parse_char lex_again lex_char
  letter-Taken l u buf rest f =
      let q = within in_string buf p st b u in
      let r = within in_string_esc (buf ++ (92 ∷ [])) p st b u in
      let t = within in_string ((buf ++ (92 ∷ [])) ++ (l ∷ [])) p st b u in
      (
        u,
        one strtod q r 92 (l ∷ rest) refl refl
            ∙ (one strtod r t l rest refl (
                  stops strtod l 2 r t (
                    in_state strtod l in_string_esc r refl
                    ∙ ap
                        (λ x.
                          if x
                          then some
                              (record (lex_append l r) { lex_u = 0; lex = in_string_esc_u }, false)
                          else some (record (lex_append l r) { lex = in_string }, false))
                        f))
                ∙ ap (λ t. parse_data strtod (within in_string t p st b u) rest)
                    (append_assoc buf (92 ∷ []) (l ∷ []))),
      )

  digits-Taken : (h l u : ℕ) (buf rest : Bytes) → Taken buf rest u (92 ∷ 117 ∷ 48 ∷ 48 ∷ h ∷ l ∷ [])
  unfolding lex_in lex_quoted parse_data parse_char lex_again lex_char
  digits-Taken h l u buf rest =
      (4, ap (λ t. parse_data strtod (within in_string t p st b 4) rest) (snoc buf))
    where
      snoc :
          (buf : Bytes)
          → (((((buf ++ (92 ∷ [])) ++ (117 ∷ [])) ++ (48 ∷ [])) ++ (48 ∷ [])) ++ (h ∷ []))
              ++ (l ∷ [])
            ≡ buf ++ (92 ∷ 117 ∷ 48 ∷ 48 ∷ h ∷ l ∷ [])
      snoc [] = refl
      snoc (x ∷ xs) = ap (◌∷◌ x) (snoc xs)

  char-Taken : (c u : ℕ) (buf rest : Bytes) → IsChar c → Taken buf rest u (serialize_char c)
  char-Taken c u buf rest h = elim (serialize_char-cases c h) [
    | inl (e, f, g) ↦ subst (Taken buf rest u) (sym e) (plain-Taken c u buf rest f g)
    | inr (inl (l, e, f, g)) ↦ subst (Taken buf rest u) (sym e) (letter-Taken l u buf rest f)
    | inr (inr e) ↦
        subst (Taken buf rest u) (sym e)
          (digits-Taken (hex_digit (c / 16 % 16)) (hex_digit (c % 16)) u buf rest)
  ]

  chars-Taken :
      (s : Bytes) (u : ℕ) (buf rest : Bytes) → All IsChar s → Taken buf rest u (serialize_chars s)
  chars-Taken [] u buf rest h =
      (u, ap (λ t. parse_data strtod (within in_string t p st b u) rest) (sym (append-nil buf)))
  chars-Taken (c ∷ s) u buf rest h =
      let x = char-Taken c u buf (serialize_chars s ++ rest) h.0 in
      let y = chars-Taken s x.0 (buf ++ serialize_char c) rest h.1 in
      (
        y.0,
        ap (parse_data strtod (within in_string buf p st b u))
              (append_assoc (serialize_char c) (serialize_chars s) rest)
            ∙ (x.1
                ∙ (y.1
                    ∙ ap (λ t. parse_data strtod (within in_string t p st b y.0) rest)
                        (append_assoc buf (serialize_char c) (serialize_chars s)))),
      )

  -- A string of non-zero bytes, written by the serializer, is its token.
  pub string_text :
      (s rest : Bytes) (u : ℕ) (st' : List Sym) (b' : List Item)
      → All IsChar s
      → ((v : ℕ)
          → ll_parse (token string_token (some (string s))) (clean p st b v)
            ≡ some (clean p st' b' v))
      → (v : ℕ) × (parse_data strtod (clean p st b u) (serialize_string_data s ++ rest)
          ≡ parse_data strtod (clean p st' b' v) rest)
  unfolding lex_in lex_quoted lex_tokenize token_of parse_char lex_again lex_char lex_limbo easy_sym
  string_text s rest u st' b' h e =
      let x = chars-Taken s u [] (34 ∷ rest) h in
      let text = serialize_chars s in
      let q = within in_string text p st b x.0 in
      (
        x.0,
        ap (λ t. parse_data strtod (clean p st b u) (34 ∷ t)) (append_assoc text (34 ∷ []) rest)
            ∙ (one strtod (clean p st b u) (within in_string [] p st b u) 34 (text ++ (34 ∷ rest))
                  refl refl
                ∙ (x.1
                    ∙ one strtod q (clean p st' b' x.0) 34 rest refl (
                        stops strtod 34 2 q (clean p st' b' x.0) (
                          in_state strtod 34 in_string q refl
                          ∙ ap once (
                              ap
                                (λ t.
                                  ll_parse (token string_token (some (string t)))
                                    (clean p st b x.0))
                                (scan-serialize_chars s h)
                              ∙ e x.0))))),
      )
