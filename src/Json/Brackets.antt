-- ===== src/Json/Brackets.antt =====
-- src/libmowgli/ext/json.c: the brackets of serialized arrays and objects, read back.
use libmowgli.Base.{
  length, ◌+◌, ℕ, zero, suc, ◌-◌, ◌^◌, ◌<◌, ◌≡◌, refl, ap, ◌∙◌, List, [], ◌∷◌, ◌++◌, append_assoc,
  true, false, All,
}
use libmowgli.Json.{
  Bytes, Json, null, boolean, integer, float, string, Sym, obj_body, arr_body, Item, built,
  obj_marker, arr_marker, Parse,
}
use libmowgli.Json.Grammar.{ll_parse}
use libmowgli.Json.Lexer.{easy_sym, easy_sym}
use libmowgli.Json.Stream.{parse_data}
use libmowgli.Json.Print.{serialize_pretty_indent, serialize_pretty_break}
use libmowgli.Json.Scan.{IsChar}
use libmowgli.Json.Letters.{clean, IsEnd, newline-IsEnd}
use libmowgli.Json.{
  array, object, Elements, empty, element, Members, no_members, member, end_array, end_object,
}
use libmowgli.Json.Grammar.{arr_end_loop, obj_end_loop}
use libmowgli.Json.Space.{Has}
use libmowgli.Json.Room.{done}
use libmowgli.Json.Steps.{arr_empty, obj_empty}
use libmowgli.Json.Tokens.{canonical_elements, canonical_members}
use libmowgli.Json.Print.{serialize, serialize_elements, serialize_members}
use libmowgli.Json.Slots.{Reads, easy-Reads, indent-Reads, break-Reads, Ends}
use libmowgli.Json.Literals.{IsNumberText}

-- What is written so that it can be read: strings without NUL bytes, integers of 32 bits, and
-- floats whose text the lexer takes for theirs.
abbrev mutual
  pub IsWritable : (ℕ → Bytes) → (Bytes → ℕ) → Json → Type 0
  IsWritable format_g strtod null = Unit
  IsWritable format_g strtod (boolean a) = Unit
  IsWritable format_g strtod (integer n) = n < 2 ^ 32
  IsWritable format_g strtod (float x) = IsNumberText strtod (float x) (format_g x)
  IsWritable format_g strtod (string s) = All IsChar s
  IsWritable format_g strtod (array es) = AreWritable format_g strtod es
  IsWritable format_g strtod (object ms) = MembersAreWritable format_g strtod ms

  pub AreWritable : (ℕ → Bytes) → (Bytes → ℕ) → Elements → Type 0
  AreWritable format_g strtod empty = Unit
  AreWritable format_g strtod (element v es) =
      IsWritable format_g strtod v × AreWritable format_g strtod es

  pub MembersAreWritable : (ℕ → Bytes) → (Bytes → ℕ) → Members → Type 0
  MembersAreWritable format_g strtod no_members = Unit
  MembersAreWritable format_g strtod (member k v ms) =
      All IsChar k × IsWritable format_g strtod v × MembersAreWritable format_g strtod ms

pub closed_text :
    (a b c y : Bytes) (d : ℕ) → (a ++ (b ++ (c ++ (d ∷ [])))) ++ y ≡ a ++ (b ++ (c ++ (d ∷ y)))
closed_text a b c y d = simp append_assoc

pub element_text :
    (a b c d e y : Bytes) → (a ++ (b ++ (c ++ (d ++ e)))) ++ y ≡ a ++ (b ++ (c ++ (d ++ (e ++ y))))
element_text a b c d e y = simp append_assoc

pub member_text :
    (a k l b c d e y : Bytes)
    → (a ++ (k ++ (l ++ (b ++ (c ++ (d ++ e)))))) ++ y
      ≡ a ++ (k ++ (l ++ (b ++ (c ++ (d ++ (e ++ y))))))
member_text a k l b c d e y = simp append_assoc

abbrev pub HasElement : Elements → Type 0
HasElement empty = false ≡ true
HasElement (element v es) = Unit

abbrev pub HasMember : Members → Type 0
HasMember no_members = false ≡ true
HasMember (member k v ms) = Unit

module _ (format_g : ℕ → Bytes) (strtod : Bytes → ℕ) where
  -- What follows the last value of an array or an object ends a word.
  pub close_Ends :
      (n d : ℕ) (y : Bytes)
      → IsEnd strtod d
      → Ends strtod (serialize_pretty_break n ++ (serialize_pretty_indent (n - 1) ++ (d ∷ y)))
  unfolding serialize_pretty_break serialize_pretty_indent
  close_Ends zero d y h = h
  close_Ends (suc n) d y h = newline-IsEnd strtod

module _ (format_g : ℕ → Bytes) (strtod : Bytes → ℕ) (p : Parse) where
  pub array-Reads :
      (es : Elements)
      → (n : ℕ) (st : List Sym) (b : List Item) (y : Bytes) → Has p.stack_size (length st + 11)
      → (HasElement es
          → Reads strtod
              (clean p (arr_body ∷ st) (arr_marker ∷ b))
              (serialize_elements format_g es n ++ (serialize_pretty_indent (n - 1) ++ (93 ∷ y)))
              (λ u. done st (clean p st (built (array (canonical_elements es)) ∷ b) u))
              y)
      → Reads strtod
          (clean p (arr_body ∷ st) (arr_marker ∷ b))
          ((serialize_pretty_break n
              ++ (serialize_elements format_g es n
                  ++ (serialize_pretty_indent (n - 1) ++ (93 ∷ []))))
            ++ y)
          (λ u. done st (clean p st (built (array (canonical_elements es)) ∷ b) u))
          y
  unfolding serialize ll_parse arr_end_loop easy_sym
  array-Reads empty n st b y room inner = λ u.
      (let b' = arr_marker ∷ b in
        let tail = serialize_pretty_indent (n - 1) ++ (93 ∷ y) in
        let e = closed_text (serialize_pretty_break n) [] (serialize_pretty_indent (n - 1)) y 93 in
        let i = break-Reads strtod p n tail (arr_body ∷ st) b' u in
        let j = indent-Reads strtod p (n - 1) (93 ∷ y) (arr_body ∷ st) b' i.0 in
        let k =
          easy-Reads strtod p 93 end_array y (arr_body ∷ st) b'
            (λ u. done st (clean p st (built (array empty) ∷ b) u)) refl
            (λ u. arr_empty (clean p st b u) st b room) j.0 in
        (k.0, ap (parse_data strtod (clean p (arr_body ∷ st) b' u)) e ∙ (i.1 ∙ (j.1 ∙ k.1))))
  array-Reads (element v es) n st b y room inner = λ u.
      (let b' = arr_marker ∷ b in
        let text = serialize_elements format_g (element v es) n in
        let tail = serialize_pretty_indent (n - 1) ++ (93 ∷ y) in
        let e =
          closed_text (serialize_pretty_break n) text (serialize_pretty_indent (n - 1)) y 93 in
        let i = break-Reads strtod p n (text ++ tail) (arr_body ∷ st) b' u in
        let j = inner tt i.0 in
        (j.0, ap (parse_data strtod (clean p (arr_body ∷ st) b' u)) e ∙ (i.1 ∙ j.1)))

  pub object-Reads :
      (ms : Members)
      → (n : ℕ) (st : List Sym) (b : List Item) (y : Bytes) → Has p.stack_size (length st + 11)
      → (HasMember ms
          → Reads strtod
              (clean p (obj_body ∷ st) (obj_marker ∷ b))
              (serialize_members format_g ms n ++ (serialize_pretty_indent (n - 1) ++ (125 ∷ y)))
              (λ u. done st (clean p st (built (object (canonical_members ms)) ∷ b) u))
              y)
      → Reads strtod
          (clean p (obj_body ∷ st) (obj_marker ∷ b))
          ((serialize_pretty_break n
              ++ (serialize_members format_g ms n
                  ++ (serialize_pretty_indent (n - 1) ++ (125 ∷ []))))
            ++ y)
          (λ u. done st (clean p st (built (object (canonical_members ms)) ∷ b) u))
          y
  unfolding serialize ll_parse obj_end_loop easy_sym
  object-Reads no_members n st b y room inner = λ u.
      (let b' = obj_marker ∷ b in
        let tail = serialize_pretty_indent (n - 1) ++ (125 ∷ y) in
        let e = closed_text (serialize_pretty_break n) [] (serialize_pretty_indent (n - 1)) y 125 in
        let i = break-Reads strtod p n tail (obj_body ∷ st) b' u in
        let j = indent-Reads strtod p (n - 1) (125 ∷ y) (obj_body ∷ st) b' i.0 in
        let l =
          easy-Reads strtod p 125 end_object y (obj_body ∷ st) b'
            (λ u. done st (clean p st (built (object no_members) ∷ b) u)) refl
            (λ u. obj_empty (clean p st b u) st b room) j.0 in
        (l.0, ap (parse_data strtod (clean p (obj_body ∷ st) b' u)) e ∙ (i.1 ∙ (j.1 ∙ l.1))))
  object-Reads (member k v ms) n st b y room inner = λ u.
      (let b' = obj_marker ∷ b in
        let text = serialize_members format_g (member k v ms) n in
        let tail = serialize_pretty_indent (n - 1) ++ (125 ∷ y) in
        let e =
          closed_text (serialize_pretty_break n) text (serialize_pretty_indent (n - 1)) y 125 in
        let i = break-Reads strtod p n (text ++ tail) (obj_body ∷ st) b' u in
        let j = inner tt i.0 in
        (j.0, ap (parse_data strtod (clean p (obj_body ∷ st) b' u)) e ∙ (i.1 ∙ j.1)))
