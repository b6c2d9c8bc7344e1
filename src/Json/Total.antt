-- ===== src/Json/Total.antt =====
-- src/libmowgli/ext/json.c: the parser returns from every text.
use libmowgli.Base.{
  length, suc, ◌+◌, ◌*◌, arith, ℕ, ◌≡◌, refl, ap, ◌∙◌, [], ◌∷◌, false, Option, none, some,
}
use libmowgli.Memory.{◌>>=◌}
use libmowgli.Json.{Bytes, Json, Message, Parse}
use libmowgli.Json.Stream.{parse_char, parse_data, parse_reset, parse_string, take_result}
use libmowgli.Json.Grammar.{c_string}
use libmowgli.Json.Space.{Has, Has-fewer}
use libmowgli.Json.Chars.{Agrees, Agrees-fewer, char-Ends}

pub parse_char-returns :
    (strtod : Bytes → ℕ) (k : ℕ) (p : Parse) (c : ℕ)
    → Agrees (suc (suc k)) p
    → (q : Parse) × (parse_char strtod p c ≡ some q) × Agrees k q
unfolding parse_char
parse_char-returns strtod k p c h = char-Ends strtod c k p.lex p refl h

-- One byte, and the rest by what is known of it.
data_step :
    (strtod : Bytes → ℕ) (k : ℕ) (p : Parse) (c : ℕ) (cs : Bytes) (e : Option Message)
    → Agrees (suc (suc k)) p
    → ((q : Parse) → Agrees k q → (r : Parse) × (parse_data strtod q cs ≡ some r) × Agrees 0 r)
    → (r : Parse) × ((elim e as (λ _. Option Parse) [
      | some m ↦ some p
      | none ↦ parse_char strtod p c >>= λ q. parse_data strtod q cs
    ])
        ≡ some r)
      × Agrees 0 r
data_step strtod k p c cs (some m) h f = (p, refl, Agrees-fewer (suc (suc k)) 0 p (omega arith) h)
data_step strtod k p c cs none h f =
    let r = parse_char-returns strtod k p c h in
    let t = f r.0 r.2 in (t.0, ap (λ o. o >>= λ q. parse_data strtod q cs) r.1 ∙ t.1, t.2)

-- If each closing action that the stack asks for has its marker on the build stack, in order, and
-- the stack is never full, or has 20 free entries for each character of the text, then
-- `mowgli_json_parse_data` returns for the text, also for a wrong one, and the markers still
-- agree with the stack.
pub parse_data-returns :
    (strtod : Bytes → ℕ) (p : Parse) (s : Bytes)
    → Agrees (2 * length s) p
    → (q : Parse) × (parse_data strtod p s ≡ some q) × Agrees 0 q
unfolding parse_data
parse_data-returns strtod p [] h = (p, refl, h)
parse_data-returns strtod p (c ∷ cs) h =
    data_step strtod (2 * length cs) p c cs p.error
      (Agrees-fewer (2 * length (c ∷ cs)) (suc (suc (2 * length cs))) p (omega arith) h)
      (λ q k. parse_data-returns strtod q cs k)

-- On a stack that is never full, or has one entry and 20 more for each character of the text,
-- `mowgli_json_parse_string` returns, for every text, from every state of the static parser: the
-- loops of the table, of the closing actions and of the lexer all end, no action reads through
-- NULL, and no push is behind the end of the stack.
pub parse_string-returns :
    (strtod : Bytes → ℕ) (p : Parse) (s : Bytes)
    → Has p.stack_size (1 + 20 * length (c_string s))
    → (r : Option Json × Parse) × (parse_string strtod p s ≡ some r)
unfolding parse_string parse_reset
parse_string-returns strtod p s h =
    let r = parse_data-returns strtod (parse_reset false p) (c_string s) (
      tt,
      Has-fewer p.stack_size (1 + 20 * length (c_string s)) (1 + 10 * (2 * length (c_string s)))
          (omega arith) h,
    ) in
    (take_result r.0, ap (λ o. o >>= λ q. some (take_result q)) r.1)
