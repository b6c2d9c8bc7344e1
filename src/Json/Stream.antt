-- ===== src/Json/Stream.antt =====
-- src/libmowgli/ext/json.c: the parser on streams of bytes, and the interface for one document.
use libmowgli.Base.{ℕ, zero, suc, List, [], ◌∷◌, Option, none, some, Bool, true, false}
use libmowgli.Memory.{◌>>=◌}
use libmowgli.Json.{Bytes, Json, json_document, limbo, Parse}
use libmowgli.Json.Grammar.{c_string}
use libmowgli.Json.Lexer.{lex_char}

-- `LL_STACK_SIZE`
abbrev pub ll_stack_size : ℕ
ll_stack_size = 128

-- A push on the stack, which is empty.
unfoldable pub parse_create : Bool → Parse
parse_create multidoc = record {
  out = [];
  error = none;
  multidoc = multidoc;
  build = [];
  stack = json_document ∷ [];
  stack_size = some ll_stack_size;
  buf = [];
  lex = limbo;
  lex_u = 0;
}

unfoldable pub parse_reset : Bool → Parse → Parse
parse_reset multidoc p = record p {
  out = [];
  build = [];
  error = none;
  multidoc = multidoc;
  stack = json_document ∷ [];
  buf = [];
  lex = limbo;
}

-- `while (lex_char (parse, *data))`, with the calls that are left.
unfoldable pub lex_again : ℕ → (Bytes → ℕ) → Parse → ℕ → Option Parse
unfolding lex_char
lex_again zero strtod p c = none
lex_again (suc n) strtod p c = elim (lex_char strtod p c) [
  | none ↦ none
  | some (q, again) ↦ elim again [ false ↦ some q | true ↦ lex_again n strtod q c ]
]

-- A character goes through three times at most: it ends a word, and starts another.
unfoldable pub parse_char : (Bytes → ℕ) → Parse → ℕ → Option Parse
unfolding lex_again
parse_char strtod p c = lex_again 3 strtod p c

unfoldable pub parse_data : (Bytes → ℕ) → Parse → Bytes → Option Parse
unfolding parse_char
parse_data strtod p [] = some p
parse_data strtod p (c ∷ cs) = elim p.error [
  | some m ↦ some p
  | none ↦ parse_char strtod p c >>= λ q. parse_data strtod q cs
]

unfoldable pub parse_next : Parse → Option Json × Parse
parse_next p = elim p.out [ [] ↦ (none, p) | v ∷ vs ↦ (some v, record p { out = vs }) ]

-- The end of `mowgli_json_parse_file` and `mowgli_json_parse_string`: an error, or the document.
unfoldable pub take_result : Parse → Option Json × Parse
unfolding parse_next
take_result p = elim p.error [ some m ↦ (none, p) | none ↦ parse_next p ]

-- On the static parser: the characters of a string, up to its terminator.
unfoldable pub parse_string : (Bytes → ℕ) → Parse → Bytes → Option (Option Json × Parse)
unfolding parse_reset parse_data take_result c_string
parse_string strtod p s = do
  q ← parse_data strtod (parse_reset false p) (c_string s)
  some (take_result q)

-- The loop of `mowgli_json_parse_file` over the blocks that `fread` delivers.
unfoldable pub parse_blocks : (Bytes → ℕ) → Parse → List Bytes → Option Parse
unfolding parse_data
parse_blocks strtod p [] = some p
parse_blocks strtod p (b ∷ bs) = elim p.error [
  | some m ↦ some p
  | none ↦ parse_data strtod p b >>= λ q. parse_blocks strtod q bs
]

-- `none` for a file that does not open.
unfoldable pub parse_file : (Bytes → ℕ) → Parse → Option (List Bytes) → Option (Option Json × Parse)
unfolding parse_reset parse_blocks take_result
parse_file strtod p none = some (none, parse_reset false p)
parse_file strtod p (some bs) = do
  q ← parse_blocks strtod (parse_reset false p) bs
  some (take_result q)
