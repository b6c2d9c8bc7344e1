-- ===== src/Json/Lexer.antt =====
-- src/libmowgli/ext/json.c: the lexer. `strtod` of the C library is a parameter, with the result's
-- bit pattern.
use libmowgli.Base.{
  ℕ, suc, [], ◌∷◌, ◌++◌, Option, none, some, Bool, true, false, ◌&&◌, ◌||◌, leb, ◌==◌,
  if◌then◌else◌,
}
use libmowgli.Memory.{◌>>=◌}
use libmowgli.Json.{
  Bytes, Json, null, boolean, integer, float, string, Sym, sym_none, begin_object, end_object,
  begin_array, end_array, name_sep, value_sep, string_token, number_token, identifier_token, Token,
  cannot_process, Lex, limbo, in_string, in_string_esc, in_string_esc_u, in_number, in_identifier,
  Parse,
}
use libmowgli.Json.Grammar.{parse_error, ll_parse}
use libmowgli.Json.Text.{isdigit, isalpha, isspace, strchr, strtol, lex_string_scan}

abbrev pub token : Sym → Option Json → Token
token s v = record { sym = s; val = v }

unfoldable pub lex_easy : Parse → Sym → Option Parse
unfolding ll_parse
lex_easy p s = ll_parse (token s none) p

abbrev pub lex_append : ℕ → Parse → Parse
lex_append c p = record p { buf = p.buf ++ (c ∷ []) }

abbrev same : Bytes → Bytes → Bool
same [] [] = true
same [] (d ∷ t) = false
same (c ∷ s) [] = false
same (c ∷ s) (d ∷ t) = (c == d) && same s t

abbrev pub true_text : Bytes
true_text = 116 ∷ 114 ∷ 117 ∷ 101 ∷ []

abbrev pub false_text : Bytes
false_text = 102 ∷ 97 ∷ 108 ∷ 115 ∷ 101 ∷ []

-- An unknown identifier is null, as `null` is.
unfoldable pub identifier_value : Bytes → Json
identifier_value s =
    if same s true_text then boolean true else if same s false_text then boolean false else null

-- A text with neither a point nor a small e is an integer.
unfoldable pub number_value : (Bytes → ℕ) → Bytes → Json
unfolding strchr strtol
number_value strtod s =
    if strchr s 46 || strchr s 101 then float (strtod s) else integer (strtol 32 0 s)

-- The token that `lex_tokenize` sends on.
unfoldable pub token_of : (Bytes → ℕ) → Lex → Bytes → Token
unfolding lex_string_scan number_value identifier_value
token_of strtod in_string s = token string_token (some (string (lex_string_scan s)))
token_of strtod in_number s = token number_token (some (number_value strtod s))
token_of strtod in_identifier s = token identifier_token (some (identifier_value s))
token_of strtod lex s = token sym_none none

unfoldable pub lex_tokenize : (Bytes → ℕ) → Parse → Option Parse
unfolding token_of ll_parse
lex_tokenize strtod p = ll_parse (token_of strtod p.lex p.buf) (record p { buf = []; lex = limbo })

-- The characters that are tokens.
unfoldable pub easy_sym : ℕ → Option Sym
easy_sym c =
    if c == 123
    then some begin_object
    else if c == 125
    then some end_object
    else if c == 91
    then some begin_array
    else if c == 93
    then some end_array
    else if c == 58
    then some name_sep
    else if c == 44
    then some value_sep
    else none

abbrev pub starts_number : ℕ → Bool
starts_number c = (c == 45) || ((c == 46) || isdigit c)

abbrev pub goes_on_number : ℕ → Bool
goes_on_number c = starts_number c || ((c == 69) || (c == 101))

-- What the state becomes, and whether the character goes through again.
abbrev pub Lexed : Type 0
Lexed = Option (Parse × Bool)

abbrev pub once : Option Parse → Lexed
once o = o >>= λ p. some (p, false)

abbrev pub resend : Option Parse → Lexed
resend o = o >>= λ p. some (p, true)

unfoldable pub lex_limbo : Parse → ℕ → Lexed
unfolding easy_sym lex_easy
lex_limbo p c = elim (easy_sym c) [
  | some s ↦ once (lex_easy p s)
  | none ↦
      if starts_number c
      then some (record p { lex = in_number }, true)
      else if isalpha c
      then some (record p { lex = in_identifier }, true)
      else if c == 34
      then some (record p { lex = in_string }, false)
      else if isspace c
      then some (p, false)
      else some (parse_error (cannot_process c) p, false)
]

-- In a string, behind a backslash and in the digits behind `\u`.
unfoldable pub lex_quoted : (Bytes → ℕ) → Parse → ℕ → Lexed
unfolding lex_tokenize
lex_quoted strtod p c =
    if c == 92
    then some (record (lex_append c p) { lex = in_string_esc }, false)
    else if c == 34
    then once (lex_tokenize strtod p)
    else some (lex_append c p, false)

abbrev pub lex_escape : Parse → ℕ → Lexed
lex_escape p c =
    if c == 117
    then some (record (lex_append c p) { lex_u = 0; lex = in_string_esc_u }, false)
    else some (record (lex_append c p) { lex = in_string }, false)

abbrev pub lex_escape_u : Parse → ℕ → Lexed
lex_escape_u p c =
    let q = record (lex_append c p) { lex_u = suc p.lex_u } in
    some (if leb 4 q.lex_u then record q { lex = in_string } else q, false)

-- In a number or an identifier, with the test of the characters that go on with it.
unfoldable pub lex_word : (Bytes → ℕ) → Bool → Parse → ℕ → Lexed
unfolding lex_tokenize
lex_word strtod goes_on p c =
    if goes_on then some (lex_append c p, false) else resend (lex_tokenize strtod p)

-- `lex_char` by its states.
unfoldable pub lex_in : (Bytes → ℕ) → Lex → Parse → ℕ → Lexed
unfolding lex_limbo lex_quoted lex_word
lex_in strtod limbo p c = lex_limbo p c
lex_in strtod in_string p c = lex_quoted strtod p c
lex_in strtod in_string_esc p c = lex_escape p c
lex_in strtod in_string_esc_u p c = lex_escape_u p c
lex_in strtod in_number p c = lex_word strtod (goes_on_number c) p c
lex_in strtod in_identifier p c = lex_word strtod (isalpha c) p c

unfoldable pub lex_char : (Bytes → ℕ) → Parse → ℕ → Lexed
unfolding lex_in
lex_char strtod p c = lex_in strtod p.lex p c
