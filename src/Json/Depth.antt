-- ===== src/Json/Depth.antt =====
-- src/libmowgli/ext/json.c: the depth of the parser's stack, which has `LL_STACK_SIZE` entries.
use libmowgli.Base.{
  ℕ, zero, suc, ◌≤◌, ◌≡◌, refl, ap, ◌∷◌, ◌++◌, Bool, true, false, Option, none, some, replicate,
  length, length-replicate, ◌+◌, arith, ◌∙◌,
}
use libmowgli.Memory.{◌>>=◌}
use libmowgli.Json.{Bytes, begin_array, arr_marker, arr_body, arr_tail, Parse}
use libmowgli.Json.Space.{sized}
use libmowgli.Json.Room.{ll_parse-sized}
use libmowgli.Json.Tokens.{easy}
use libmowgli.Json.Lexer.{once}
use libmowgli.Json.Stream.{ll_stack_size, lex_again, parse_char, parse_data, parse_create}
use libmowgli.Json.Chunks.{parse_data-append}

-- `n + 1` arrays are open.
abbrev opened : Bool → ℕ → Parse
opened multidoc n = record (parse_create multidoc) {
  stack = arr_body ∷ replicate n arr_tail;
  build = replicate (suc n) arr_marker;
}

-- How the lexer goes on behind a token.
abbrev behind : (Bytes → ℕ) → Option Parse → Option Parse
behind strtod o = elim (once o) as (λ _. Option Parse) [
  | none ↦ none
  | some r ↦ elim r.1 as (λ _. Option Parse) [ false ↦ some r.0 | true ↦ lex_again 2 strtod r.0 91 ]
]

open_more :
    (strtod : Bytes → ℕ) (multidoc : Bool) (n : ℕ)
    → n + 11 ≤ ll_stack_size
    → parse_char strtod (opened multidoc n) 91 ≡ some (opened multidoc (suc n))
unfolding parse_char parse_create
open_more strtod multidoc n h = ap (behind strtod) (
    ll_parse-sized (easy begin_array) (opened multidoc n) (sized none (opened multidoc (suc n)))
      (omega (arith, length-replicate n arr_tail)) refl)

open_all :
    (strtod : Bytes → ℕ) (multidoc : Bool) (n k : ℕ)
    → n + k + 11 ≤ ll_stack_size
    → parse_data strtod (opened multidoc k) (replicate n 91) ≡ some (opened multidoc (n + k))
unfolding parse_data parse_create
open_all strtod multidoc zero k h = ap (λ m. some (opened multidoc m)) (omega arith)
open_all strtod multidoc (suc n) k h =
    ap (λ o. o >>= λ q. parse_data strtod q (replicate n 91))
      (open_more strtod multidoc k (omega arith))
    ∙ (open_all strtod multidoc n (suc k) (omega arith)
        ∙ ap (λ m. some (opened multidoc m)) (omega arith))

overrun :
    (strtod : Bytes → ℕ) (multidoc : Bool)
    → parse_data strtod (parse_create multidoc) (replicate ll_stack_size 91) ≡ none
unfolding parse_data parse_create
overrun strtod multidoc = refl

-- From a new parser, n + 1 opening brackets are taken without an error and leave n + 1 symbols on
-- the stack, if n + 11 is no more than `LL_STACK_SIZE`. In any text that starts with
-- `LL_STACK_SIZE` opening brackets, a symbol is pushed behind the end of the stack.
pub parse_data-depth :
    (strtod : Bytes → ℕ) (multidoc : Bool) (n : ℕ) (rest : Bytes)
    → n + 11 ≤ ll_stack_size
    → ((q : Parse) × (parse_data strtod (parse_create multidoc) (replicate (suc n) 91) ≡ some q)
        × (q.error ≡ none)
        × (length q.stack ≡ suc n))
      × (parse_data strtod (parse_create multidoc) (replicate ll_stack_size 91 ++ rest) ≡ none)
unfolding parse_data parse_create
parse_data-depth strtod multidoc n rest h = (
  (
    opened multidoc (n + 0),
    open_all strtod multidoc n 0 (omega arith),
    refl,
    ap suc (length-replicate (n + 0) arr_tail ∙ omega arith),
  ),
  parse_data-append strtod (parse_create multidoc) (replicate ll_stack_size 91) rest
      ∙ ap (λ o. o >>= λ q. parse_data strtod q rest) (overrun strtod multidoc),
)
