-- ===== src/Json/Letters.antt =====
-- src/libmowgli/ext/json.c: the lexer on the texts that the serializer writes.
use libmowgli.Base.{
  ℕ, ◌≡◌, refl, ap, sym, ◌∙◌, List, [], ◌∷◌, Bool, true, false, Option, none, some, ◌==◌,
  if◌then◌else◌, arith,
}
use libmowgli.Memory.{◌>>=◌}
use libmowgli.Json.{
  Bytes, Message, cannot_process, Sym, value_sep, end_array, end_object, Item, Lex, limbo,
  in_string, in_number, in_identifier, Parse,
}
use libmowgli.Json.Grammar.{parse_error}
use libmowgli.Json.Text.{isalpha, isspace}
use libmowgli.Json.Lexer.{
  lex_tokenize, lex_easy, lex_append, easy_sym, starts_number, goes_on_number, once, resend,
  lex_limbo, lex_word, lex_in, lex_char, Lexed,
}
use libmowgli.Json.Stream.{lex_again, parse_char, parse_data}
use libmowgli.Json.Chars.{stops, goes, in_state}

-- Between two tokens, and in one.
abbrev pub clean : Parse → List Sym → List Item → ℕ → Parse
clean p st b u = record p { error = none; stack = st; build = b; buf = []; lex = limbo; lex_u = u }

abbrev pub within : Lex → Bytes → Parse → List Sym → List Item → ℕ → Parse
within l buf p st b u = record p {
  error = none;
  stack = st;
  build = b;
  buf = buf;
  lex = l;
  lex_u = u;
}

module _ (strtod : Bytes → ℕ) where
  -- A byte that ends numbers and identifiers, and is then read as from the start.
  abbrev pub IsEnd : ℕ → Type 0
  IsEnd d =
      (goes_on_number d ≡ false)
      × (isalpha d ≡ false)
      × ((q : Parse) → q.lex ≡ limbo → lex_again 2 strtod q d ≡ lex_again 3 strtod q d)

  again_of : ℕ → ℕ → Lexed → Option Parse
  again_of n d o = elim o [
    | none ↦ none
    | some (q, again) ↦ elim again [ false ↦ some q | true ↦ lex_again n strtod q d ]
  ]

  again_once : (n d : ℕ) (o : Option Parse) → again_of n d (once o) ≡ o
  unfolding again_of
  again_once n d (some r) = refl
  again_once n d none = refl

  easy_end :
      (d : ℕ) (s : Sym) (q : Parse)
      → lex_char strtod q d ≡ once (lex_easy q s)
      → lex_again 2 strtod q d ≡ lex_again 3 strtod q d
  unfolding lex_again again_of
  easy_end d s q g =
      (ap (again_of 1 d) g ∙ again_once 1 d (lex_easy q s))
      ∙ sym (ap (again_of 2 d) g ∙ again_once 2 d (lex_easy q s))

  pub comma-IsEnd : IsEnd 44
  unfolding lex_in lex_limbo
  comma-IsEnd = (refl, refl, λ q e. easy_end 44 value_sep q (in_state strtod 44 limbo q e))

  pub bracket-IsEnd : IsEnd 93
  unfolding lex_in lex_limbo
  bracket-IsEnd = (refl, refl, λ q e. easy_end 93 end_array q (in_state strtod 93 limbo q e))

  pub brace-IsEnd : IsEnd 125
  unfolding lex_in lex_limbo
  brace-IsEnd = (refl, refl, λ q e. easy_end 125 end_object q (in_state strtod 125 limbo q e))

  pub newline-IsEnd : IsEnd 10
  unfolding lex_in lex_limbo
  newline-IsEnd = (
    refl,
    refl,
    λ q e.
        stops strtod 10 1 q q (in_state strtod 10 limbo q e)
        ∙ sym (stops strtod 10 2 q q (in_state strtod 10 limbo q e)),
  )

  -- One character that is taken into the buffer, or ends nothing.
  pub one :
      (p q : Parse) (c : ℕ) (rest : Bytes)
      → p.error ≡ none
      → parse_char strtod p c ≡ some q
      → parse_data strtod p (c ∷ rest) ≡ parse_data strtod q rest
  unfolding parse_data
  one p q c rest e f =
      ap
        (λ o. elim o as (λ _. Option Parse) [
          | some m ↦ some p
          | none ↦ parse_char strtod p c >>= λ q. parse_data strtod q rest
        ])
        e
      ∙ ap (λ o. o >>= λ q. parse_data strtod q rest) f

  -- A word goes on.
  pub word_more :
      (p : Parse) (b : Bool) (c : ℕ)
      → lex_char strtod p c ≡ lex_word strtod b p c
      → b ≡ true
      → parse_char strtod p c ≡ some (lex_append c p)
  unfolding parse_char lex_word
  word_more p b c e f = stops strtod c 2 p (lex_append c p) (e ∙ ap (λ b. lex_word strtod b p c) f)

  -- A word ends in front of `d`, and its token leads to `q`.
  pub word_end :
      (p q : Parse) (b : Bool) (d : ℕ) (rest : Bytes)
      → p.error ≡ none
      → q.error ≡ none
      → q.lex ≡ limbo
      → IsEnd d
      → lex_char strtod p d ≡ lex_word strtod b p d
      → b ≡ false
      → lex_tokenize strtod p ≡ some q
      → parse_data strtod p (d ∷ rest) ≡ parse_data strtod q (d ∷ rest)
  unfolding parse_char lex_word parse_data
  word_end p q b d rest ep eq l h e f g =
      let k : lex_char strtod p d ≡ some (q, true) =
        e ∙ (ap (λ b. lex_word strtod b p d) f ∙ ap resend g) in
      ap (skip_error p d rest) ep
      ∙ (ap (λ o. o >>= λ q. parse_data strtod q rest) (goes strtod d 2 p q k ∙ h.2 q l)
          ∙ sym (ap (skip_error q d rest) eq))
    where
      skip_error : Parse → ℕ → Bytes → Option Message → Option Parse
      skip_error p d rest o = elim o [
        | some m ↦ some p
        | none ↦ parse_char strtod p d >>= λ q. parse_data strtod q rest
      ]

  -- A character that starts a number goes through again.
  pub limbo_number :
      (p : Parse) (c : ℕ)
      → p.lex ≡ limbo
      → starts_number c ≡ true
      → lex_char strtod p c ≡ some (record p { lex = in_number }, true)
  unfolding lex_in lex_limbo easy_sym
  limbo_number p c e h =
      in_state strtod c limbo p e
      ∙ (ap
            (λ o. elim o as (λ _. Lexed) [
              | some s ↦ once (lex_easy p s)
              | none ↦
                  if starts_number c
                  then some (record p { lex = in_number }, true)
                  else if isalpha c
                  then some (record p { lex = in_identifier }, true)
                  else if c == 34
                  then some (record p { lex = in_string }, false)
                  else if isspace c
                  then some (p, false)
                  else some (parse_error (cannot_process c) p, false)
            ])
            (no_easy c h)
          ∙ ap
              (λ b.
                if b
                then some (record p { lex = in_number }, true)
                else if isalpha c
                then some (record p { lex = in_identifier }, true)
                else if c == 34
                then some (record p { lex = in_string }, false)
                else if isspace c
                then some (p, false)
                else some (parse_error (cannot_process c) p, false))
              h)
    where
      no_easy : (c : ℕ) → starts_number c ≡ true → easy_sym c ≡ none
      no_easy c h = ground arith
