-- ===== src/Json.antt =====
-- src/libmowgli/ext/json.c: the values, the symbols of the grammar and the state of the parser.
-- A `char` is its byte, an `int` and a `double` the number of its bit pattern.
mod Tests
pub mod Table
pub mod Grammar
pub mod Text
pub mod Lexer
pub mod Stream
pub mod Space
pub mod Room
pub mod Steps
pub mod Rules
pub mod Markers
pub mod Expand
pub mod Returns
pub mod Chars
pub mod Total
pub mod Chunks
pub mod Depth
pub mod Tokens
pub mod Accept
pub mod Print
pub mod Scan
pub mod Number
pub mod Letters
pub mod Words
pub mod Slots
pub mod Literals
pub mod Brackets
pub mod Document
pub mod Terminated
pub mod RoundTrip
use libmowgli.Base.{ℕ, List, Option, Bool, ◌∷◌}

abbrev pub Bytes : Type 0
Bytes = List ℕ

-- `mowgli_json_t` as a tree. `NULL` prints and parses like the value null. The nodes of an array are
-- `Elements`; the trie of an object is the list of its `Members` in the order of its iteration.
mutual
  pub data Json : Type 0 where
    null : Json
    boolean : Bool → Json
    integer : ℕ → Json
    float : ℕ → Json
    string : Bytes → Json
    array : Elements → Json
    object : Members → Json

  pub data Elements : Type 0 where
    empty : Elements
    element : Json → Elements → Elements

  pub data Members : Type 0 where
    no_members : Members
    member : Bytes → Json → Members → Members

-- `enum ll_sym`.
pub data Sym : Type 0 where
  sym_none : Sym
  begin_object : Sym
  end_object : Sym
  begin_array : Sym
  end_array : Sym
  name_sep : Sym
  value_sep : Sym
  string_token : Sym
  number_token : Sym
  identifier_token : Sym
  json_document : Sym
  value : Sym
  obj_start : Sym
  obj_body : Sym
  obj_elems : Sym
  obj_tail : Sym
  obj_elem : Sym
  arr_start : Sym
  arr_body : Sym
  arr_elems : Sym
  arr_tail : Sym

-- `struct ll_token`; `val` is `none` for `NULL`.
pub record Token : Type 0 where
  pub sym : Sym
  pub val : Option Json

-- A node of the build stack: a value, `obj_start_marker` or `arr_start_marker`.
pub data Item : Type 0 where
  built : Json → Item
  obj_marker : Item
  arr_marker : Item

-- The message in the error buffer, by its format and arguments.
pub data Message : Type 0 where
  unexpected : Sym → Message
  expected : Sym → Sym → Message
  cannot_process : ℕ → Message

pub data Lex : Type 0 where
  limbo : Lex
  in_string : Lex
  in_string_esc : Lex
  in_string_esc_u : Lex
  in_number : Lex
  in_identifier : Lex

-- `struct _mowgli_json_parse_t`. `stack` and `build` have their tops first; `build` and `out` are
-- the data of the lists' nodes, `buf` is what the string buffer holds. `stack_size` is the number of
-- entries of the array `stack`, or `none` for a stack that is never full.
pub record Parse : Type 0 where
  pub out : List Json
  pub error : Option Message
  pub multidoc : Bool
  pub build : List Item
  pub stack : List Sym
  pub stack_size : Option ℕ
  pub buf : Bytes
  pub lex : Lex
  pub lex_u : ℕ
