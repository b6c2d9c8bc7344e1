-- ===== src/Json/Print.antt =====
-- src/libmowgli/ext/json.c: the serializer, as the bytes that it appends to its output.
-- `snprintf` with "%g" is a parameter. A depth `pretty` is not negative.
use libmowgli.Base.{
  ℕ, zero, suc, ◌+◌, ◌-◌, ◌/◌, ◌%◌, ◌^◌, [], ◌∷◌, ◌++◌, ◌||◌, ltb, ◌==◌, if◌then◌else◌,
}
use libmowgli.Json.{
  Bytes, Json, null, boolean, integer, float, string, array, object, Elements, empty, element,
  Members, no_members, member,
}
use libmowgli.Json.Text.{strchr}
use libmowgli.Json.Lexer.{true_text, false_text}

-- `TAB_STRING`, for each level.
unfoldable pub serialize_pretty_indent : ℕ → Bytes
serialize_pretty_indent zero = []
serialize_pretty_indent (suc n) = 32 ∷ 32 ∷ 32 ∷ 32 ∷ serialize_pretty_indent n

unfoldable pub serialize_pretty_break : ℕ → Bytes
serialize_pretty_break zero = []
serialize_pretty_break (suc n) = 10 ∷ []

abbrev pub serialize_pretty_increment : ℕ → ℕ
serialize_pretty_increment zero = 0
serialize_pretty_increment (suc n) = suc (suc n)

-- "%d": the decimal digits, with as many of them at most as the first argument says.
unfoldable pub decimal : ℕ → ℕ → Bytes
decimal zero n = []
decimal (suc k) n =
    let rest = decimal k (n / 10) in
    if ltb n 10 then (48 + n) ∷ [] else rest ++ ((48 + n % 10) ∷ [])

-- An `int` is negative from 2 ^ 31 on; it has ten digits at most.
unfoldable pub serialize_int : ℕ → Bytes
unfolding decimal
serialize_int n = if ltb n (2 ^ 31) then decimal 10 n else 45 ∷ decimal 10 (2 ^ 32 - n)

abbrev pub serialize_escape : Bytes
serialize_escape = 34 ∷ 92 ∷ 8 ∷ 12 ∷ 10 ∷ 13 ∷ 9 ∷ []

-- The letter of an escape.
abbrev pub escape_letter : ℕ → ℕ
escape_letter c =
    if c == 8
    then 98
    else if c == 12
    then 102
    else if c == 10
    then 110
    else if c == 13
    then 114
    else if c == 9
    then 116
    else c

abbrev pub hex_digit : ℕ → ℕ
hex_digit d = if ltb d 10 then 48 + d else 87 + d

-- One character of a string.
unfoldable pub serialize_char : ℕ → Bytes
unfolding strchr
serialize_char c =
    if strchr serialize_escape c
    then 92 ∷ escape_letter c ∷ []
    else if ltb c 32 || ltb 127 c
    then 92 ∷ 117 ∷ 48 ∷ 48 ∷ hex_digit (c / 16 % 16) ∷ hex_digit (c % 16) ∷ []
    else c ∷ []

abbrev pub serialize_chars : Bytes → Bytes
serialize_chars [] = []
serialize_chars (c ∷ s) = serialize_char c ++ serialize_chars s

abbrev pub serialize_string_data : Bytes → Bytes
serialize_string_data s = 34 ∷ (serialize_chars s ++ (34 ∷ []))

abbrev pub null_text : Bytes
null_text = 110 ∷ 117 ∷ 108 ∷ 108 ∷ []

abbrev pub comma_element : Elements → Bytes
comma_element empty = []
comma_element (element v es) = 44 ∷ []

abbrev pub comma_member : Members → Bytes
comma_member no_members = []
comma_member (member k v ms) = 44 ∷ []

abbrev pub colon : ℕ → Bytes
colon zero = 58 ∷ []
colon (suc n) = 58 ∷ 32 ∷ []

-- `mowgli_json_serialize`, with the loops of `serialize_array` and `serialize_object`.
unfoldable mutual
  unfolding serialize_pretty_indent serialize_pretty_break serialize_int

  pub serialize : (ℕ → Bytes) → Json → ℕ → Bytes
  serialize format_g null pretty = null_text
  serialize format_g (boolean b) pretty = if b then true_text else false_text
  serialize format_g (integer n) pretty = serialize_int n
  serialize format_g (float x) pretty = format_g x
  serialize format_g (string s) pretty = serialize_string_data s
  serialize format_g (array es) pretty =
      91
      ∷ (serialize_pretty_break pretty
          ++ (serialize_elements format_g es pretty
              ++ (serialize_pretty_indent (pretty - 1) ++ (93 ∷ []))))
  serialize format_g (object ms) pretty =
      123
      ∷ (serialize_pretty_break pretty
          ++ (serialize_members format_g ms pretty
              ++ (serialize_pretty_indent (pretty - 1) ++ (125 ∷ []))))

  pub serialize_elements : (ℕ → Bytes) → Elements → ℕ → Bytes
  serialize_elements format_g empty pretty = []
  serialize_elements format_g (element v es) pretty =
      serialize_pretty_indent pretty
      ++ (serialize format_g v (serialize_pretty_increment pretty)
          ++ (comma_element es
              ++ (serialize_pretty_break pretty ++ serialize_elements format_g es pretty)))

  pub serialize_members : (ℕ → Bytes) → Members → ℕ → Bytes
  serialize_members format_g no_members pretty = []
  serialize_members format_g (member k v ms) pretty =
      serialize_pretty_indent pretty
      ++ (serialize_string_data k
          ++ (colon pretty
              ++ (serialize format_g v (serialize_pretty_increment pretty)
                  ++ (comma_member ms
                      ++ (serialize_pretty_break pretty ++ serialize_members format_g ms pretty)))))
