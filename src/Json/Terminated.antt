-- ===== src/Json/Terminated.antt =====
-- src/libmowgli/ext/json.c: no NUL is in a serialized document, so that it is a C string as a whole.
use libmowgli.Base.{
  ℕ, zero, suc, ◌-◌, ◌/◌, ◌%◌, ◌<◌, ◌≡◌, refl, ap, sym, subst, ◌∙◌, [], ◌∷◌, ◌++◌, Bool, true,
  false, ◌||◌, ltb, ◌==◌, if◌then◌else◌, All, All-append, All-map, arith,
}
use libmowgli.Json.{
  Bytes, Json, null, boolean, integer, float, string, array, object, Elements, empty, element,
  Members, no_members, member,
}
use libmowgli.Json.Words.{IsNumberChar}
use libmowgli.Json.Text.{strchr}
use libmowgli.Json.Grammar.{c_string}
use libmowgli.Json.Lexer.{true_text, false_text, starts_number, goes_on_number}
use libmowgli.Json.Scan.{IsChar}
use libmowgli.Json.Literals.{IsNumberText, int_text}
use libmowgli.Json.Brackets.{IsWritable, AreWritable, MembersAreWritable}
use libmowgli.Json.Print.{
  serialize, serialize_elements, serialize_members, serialize_pretty_break, serialize_pretty_indent,
  serialize_pretty_increment, serialize_char, serialize_chars, serialize_string_data, serialize_int,
  serialize_escape, escape_letter, hex_digit, colon, comma_element, comma_member,
}

abbrev pub HasNoNul : Bytes → Type 0
HasNoNul = All (λ c. 0 < c)

pub c_string-HasNoNul : (s : Bytes) → HasNoNul s → c_string s ≡ s
unfolding c_string
c_string-HasNoNul [] h = refl
c_string-HasNoNul (c ∷ s) h =
    let e : (c == 0) ≡ false = ground arith in
    ap (λ b. if b then [] else c ∷ c_string s) e ∙ ap (◌∷◌ c) (c_string-HasNoNul s h.1)

join : (a b : Bytes) → HasNoNul a → HasNoNul b → HasNoNul (a ++ b)
join a b = All-append (λ c. 0 < c) a b

escape-positive : (c : ℕ) → 0 < c → 0 < escape_letter c
escape-positive c h = ground arith

hex-positive : (d : ℕ) → 0 < hex_digit d
hex-positive d = ground arith

char_lem : (c : ℕ) → IsChar c → HasNoNul (serialize_char c)
unfolding serialize_char
char_lem c h = by_tests (strchr serialize_escape c) (ltb c 32 || ltb 127 c)
  where
    by_tests :
        (a b : Bool)
        → HasNoNul (
            if a
            then 92 ∷ escape_letter c ∷ []
            else if b
            then 92 ∷ 117 ∷ 48 ∷ 48 ∷ hex_digit (c / 16 % 16) ∷ hex_digit (c % 16) ∷ []
            else c ∷ [])
    by_tests true b = (omega arith, (escape-positive c (omega (arith, h)), tt))
    by_tests false true = (
      omega arith,
      (
        omega arith,
        (omega arith, (omega arith, (hex-positive (c / 16 % 16), (hex-positive (c % 16), tt)))),
      ),
    )
    by_tests false false = (omega (arith, h), tt)

chars_lem : (s : Bytes) → All IsChar s → HasNoNul (serialize_chars s)
chars_lem [] h = tt
chars_lem (c ∷ s) h = join (serialize_char c) (serialize_chars s) (char_lem c h.0) (chars_lem s h.1)

string_lem : (s : Bytes) → All IsChar s → HasNoNul (serialize_string_data s)
string_lem s h = (omega arith, join (serialize_chars s) (34 ∷ []) (chars_lem s h) (omega arith, tt))

starts-positive : (c : ℕ) → starts_number c ≡ true → 0 < c
starts-positive c h = ground arith

goes_on-positive : (c : ℕ) → goes_on_number c ≡ true → 0 < c
goes_on-positive c h = ground arith

number_char-positive : (c : ℕ) → IsNumberChar c → 0 < c
number_char-positive c h = goes_on-positive c h

number_lem : (strtod : Bytes → ℕ) (j : Json) (t : Bytes) → IsNumberText strtod j t → HasNoNul t
number_lem strtod j t (c, s, e, f, g, k) =
    subst HasNoNul (sym e)
      (starts-positive c f, All-map IsNumberChar (λ c. 0 < c) s number_char-positive g)

indent_lem : (n : ℕ) → HasNoNul (serialize_pretty_indent n)
unfolding serialize_pretty_indent
indent_lem zero = tt
indent_lem (suc n) = (omega arith, (omega arith, (omega arith, (omega arith, indent_lem n))))

break_lem : (n : ℕ) → HasNoNul (serialize_pretty_break n)
unfolding serialize_pretty_break
break_lem zero = tt
break_lem (suc n) = (omega arith, tt)

colon_lem : (n : ℕ) → HasNoNul (colon n)
colon_lem zero = (omega arith, tt)
colon_lem (suc n) = (omega arith, (omega arith, tt))

comma_element_lem : (es : Elements) → HasNoNul (comma_element es)
comma_element_lem empty = tt
comma_element_lem (element v es) = (omega arith, tt)

comma_member_lem : (ms : Members) → HasNoNul (comma_member ms)
comma_member_lem no_members = tt
comma_member_lem (member k v ms) = (omega arith, tt)

boolean_lem : (b : Bool) → HasNoNul (if b then true_text else false_text)
boolean_lem true = (omega arith, (omega arith, (omega arith, (omega arith, tt))))
boolean_lem false = (omega arith, (omega arith, (omega arith, (omega arith, (omega arith, tt)))))

closing_lem :
    (n d : ℕ) (t : Bytes)
    → 0 < d
    → HasNoNul t
    → HasNoNul (serialize_pretty_break n ++ (t ++ (serialize_pretty_indent (n - 1) ++ (d ∷ []))))
closing_lem n d t h k =
    join (serialize_pretty_break n) (t ++ (serialize_pretty_indent (n - 1) ++ (d ∷ [])))
      (break_lem n)
      (join t (serialize_pretty_indent (n - 1) ++ (d ∷ [])) k
        (join (serialize_pretty_indent (n - 1)) (d ∷ []) (indent_lem (n - 1)) (h, tt)))

module _ (format_g : ℕ → Bytes) (strtod : Bytes → ℕ) where
  mutual
    unfolding serialize

    pub serialize-HasNoNul :
        (v : Json) → IsWritable format_g strtod v → (n : ℕ) → HasNoNul (serialize format_g v n)
    serialize-HasNoNul null w n = (omega arith, (omega arith, (omega arith, (omega arith, tt))))
    serialize-HasNoNul (boolean b) w n = boolean_lem b
    serialize-HasNoNul (integer k) w n =
        number_lem strtod (integer k) (serialize_int k) (int_text strtod k w)
    serialize-HasNoNul (float x) w n = number_lem strtod (float x) (format_g x) w
    serialize-HasNoNul (string s) w n = string_lem s w
    serialize-HasNoNul (array es) w n = (
      omega arith,
      closing_lem n 93 (serialize_elements format_g es n) (omega arith) (elements_lem es w n),
    )
    serialize-HasNoNul (object ms) w n = (
      omega arith,
      closing_lem n 125 (serialize_members format_g ms n) (omega arith) (members_lem ms w n),
    )

    elements_lem :
        (es : Elements)
        → AreWritable format_g strtod es
        → (n : ℕ) → HasNoNul (serialize_elements format_g es n)
    elements_lem empty w n = tt
    elements_lem (element v es) w n =
        let i = serialize_pretty_increment n in
        join (serialize_pretty_indent n) _ (indent_lem n) (
          join (serialize format_g v i) _ (serialize-HasNoNul v w.0 i) (
            join (comma_element es) _ (comma_element_lem es) (
              join (serialize_pretty_break n) (serialize_elements format_g es n) (break_lem n)
                (elements_lem es w.1 n))))

    members_lem :
        (ms : Members)
        → MembersAreWritable format_g strtod ms
        → (n : ℕ) → HasNoNul (serialize_members format_g ms n)
    members_lem no_members w n = tt
    members_lem (member k v ms) w n =
        let i = serialize_pretty_increment n in
        join (serialize_pretty_indent n) _ (indent_lem n) (
          join (serialize_string_data k) _ (string_lem k w.0) (
            join (colon n) _ (colon_lem n) (
              join (serialize format_g v i) _ (serialize-HasNoNul v w.1 i) (
                join (comma_member ms) _ (comma_member_lem ms) (
                  join (serialize_pretty_break n) (serialize_members format_g ms n) (break_lem n)
                    (members_lem ms w.2 n))))))
