-- ===== src/Json/Tests.antt =====
-- The JSON parser at concrete texts.
use libmowgli.Base.{
  ℕ, suc, ◌-◌, ◌^◌, ◌≡◌, refl, [], ◌∷◌, ◌++◌, Option, none, some, true, false, replicate, length,
  arith,
}
use libmowgli.Memory.{◌>>=◌}
use libmowgli.Json.{
  Bytes, Json, null, boolean, integer, string, array, object, empty, element, no_members, member,
  begin_array, json_document, Parse,
}
use libmowgli.Json.Grammar.{key_compare, c_string}
use libmowgli.Json.Stream.{ll_stack_size, parse_create, parse_data, parse_string, parse_file}
use libmowgli.Json.Chars.{Agrees}
use libmowgli.Json.Total.{parse_data-returns, parse_string-returns}
use libmowgli.Json.Chunks.{concat, parse_file-parse_string}
use libmowgli.Json.Depth.{parse_data-depth}
use libmowgli.Json.Tokens.{IsWithin, easy, tokens, canonical, feed}
use libmowgli.Json.Accept.{delivered, feed-tokens}
use libmowgli.Json.Print.{serialize}
use libmowgli.Json.Brackets.{IsWritable}
use libmowgli.Json.RoundTrip.{IsOrdered, parse_string-serialize}

abbrev strtod : Bytes → ℕ
strtod s = 0

-- {"a":[1,true],"b":"x\u0041"}
abbrev text : Bytes
text =
    123 ∷ 34 ∷ 97 ∷ 34 ∷ 58 ∷ 91 ∷ 49 ∷ 44 ∷ 116 ∷ 114 ∷ 117 ∷ 101 ∷ 93 ∷ 44 ∷ 34 ∷ 98 ∷ 34 ∷ 58
    ∷ 34 ∷ 120 ∷ 92 ∷ 117 ∷ 48 ∷ 48 ∷ 52 ∷ 49 ∷ 34 ∷ 125 ∷ []

parse_text :
    (parse_string strtod (parse_create false) text >>= λ r. r.0)
    ≡ some (
        object (
          member
            (97 ∷ [])
            (array (element (integer 1) (element (boolean true) empty)))
            (member (98 ∷ []) (string (120 ∷ 65 ∷ [])) no_members)))
unfolding parse_string parse_create
parse_text = refl

-- No double is printed here.
abbrev format_g : ℕ → Bytes
format_g x = []

-- {"a": [-5, null], "b": "\n"}
abbrev document : Json
document = object (
    member (97 ∷ []) (array (element (integer (2 ^ 32 - 5)) (element null empty)))
      (member (98 ∷ []) (string (10 ∷ [])) no_members))

document-IsWritable : IsWritable format_g strtod document
document-IsWritable = (
  ((omega arith, omega arith), tt),
  (omega arith, (tt, tt)),
  (((omega arith, omega arith), tt), ((omega arith, omega arith), tt), tt),
)

document-IsOrdered : IsOrdered document
unfolding key_compare
document-IsOrdered = (refl, (tt, (tt, tt)), tt)

document-IsWithin : IsWithin (ll_stack_size - 13) document
document-IsWithin = (omega arith, ((omega arith, (tt, (tt, tt))), (tt, tt)))

parse_string-serialize_example :
    (q : Parse) × (parse_string strtod (parse_create false) (serialize format_g document 1)
      ≡ some (some document, q))
unfolding parse_create
parse_string-serialize_example =
    parse_string-serialize format_g strtod document tt document-IsWritable document-IsOrdered
      document-IsWithin 1 (parse_create false) refl

-- A parser with a stack that is never full.
abbrev endless : Parse
unfolding parse_create
endless = record (parse_create true) { stack_size = none }

-- [1,} ends with an error.
parse_string-returns_example :
    (r : Option Json × Parse) × (parse_string strtod (parse_create false) (91 ∷ 49 ∷ 44 ∷ 125 ∷ [])
      ≡ some r)
unfolding parse_create c_string
parse_string-returns_example =
    parse_string-returns strtod (parse_create false) (91 ∷ 49 ∷ 44 ∷ 125 ∷ []) (omega arith)

-- [1}] gives an error in the middle of an array.
parse_data-returns_example :
    (q : Parse) × (parse_data strtod (parse_create true) (91 ∷ 49 ∷ 125 ∷ 93 ∷ []) ≡ some q)
    × Agrees 0 q
unfolding parse_create
parse_data-returns_example =
    parse_data-returns strtod (parse_create true) (91 ∷ 49 ∷ 125 ∷ 93 ∷ []) (tt, omega arith)

feed-tokens_example :
    feed
      (tokens document ++ (easy begin_array ∷ []))
      (record (parse_create true) { stack = json_document ∷ []; build = [] })
    ≡ feed (easy begin_array ∷ []) (delivered (parse_create true) (canonical document))
unfolding parse_create
feed-tokens_example =
    feed-tokens document 115 128 (easy begin_array ∷ []) (parse_create true) tt document-IsWithin
      refl (omega arith)

-- [1] in two blocks.
parse_file-parse_string_example :
    parse_file strtod (parse_create false) (some ((91 ∷ []) ∷ (49 ∷ 93 ∷ []) ∷ []))
    ≡ parse_string strtod (parse_create false) (concat ((91 ∷ []) ∷ (49 ∷ 93 ∷ []) ∷ []))
parse_file-parse_string_example =
    parse_file-parse_string strtod (parse_create false) ((91 ∷ []) ∷ (49 ∷ 93 ∷ []) ∷ [])
      (omega arith, (omega arith, (omega arith, tt)))

parse_data-depth_example :
    ((q : Parse) × (parse_data strtod (parse_create false) (replicate (suc 3) 91) ≡ some q)
      × (q.error ≡ none)
      × (length q.stack ≡ suc 3))
    × (parse_data strtod (parse_create false) (replicate ll_stack_size 91 ++ (93 ∷ [])) ≡ none)
parse_data-depth_example = parse_data-depth strtod false 3 (93 ∷ []) (omega arith)
