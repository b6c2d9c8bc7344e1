-- ===== src/Json/Tokens.antt =====
-- The tokens of a JSON value, and the value that src/libmowgli/ext/json.c makes of them.
use libmowgli.Base.{ℕ, ◌-◌, ◌≤◌, List, [], ◌∷◌, ◌++◌, Option, none, some}
use libmowgli.Memory.{◌>>=◌}
use libmowgli.Json.{
  Json, null, boolean, integer, float, string, array, object, Elements, empty, element, Members,
  no_members, member, Sym, begin_object, end_object, begin_array, end_array, name_sep, value_sep,
  string_token, number_token, identifier_token, Token, Parse,
}
use libmowgli.Json.Grammar.{c_string, object_add, ll_parse}
use libmowgli.Json.Lexer.{token}

abbrev pub easy : Sym → Token
easy s = token s none

-- The grammar, from values to tokens.
abbrev mutual
  pub tokens : Json → List Token
  tokens null = token identifier_token (some null) ∷ []
  tokens (boolean b) = token identifier_token (some (boolean b)) ∷ []
  tokens (integer n) = token number_token (some (integer n)) ∷ []
  tokens (float x) = token number_token (some (float x)) ∷ []
  tokens (string s) = token string_token (some (string s)) ∷ []
  tokens (array es) = easy begin_array ∷ element_tokens es
  tokens (object ms) = easy begin_object ∷ member_tokens ms

  pub element_tokens : Elements → List Token
  element_tokens empty = easy end_array ∷ []
  element_tokens (element v es) = tokens v ++ more_elements es

  pub more_elements : Elements → List Token
  more_elements empty = easy end_array ∷ []
  more_elements (element v es) = easy value_sep ∷ (tokens v ++ more_elements es)

  pub member_tokens : Members → List Token
  member_tokens no_members = easy end_object ∷ []
  member_tokens (member k v ms) =
      token string_token (some (string k)) ∷ easy name_sep ∷ (tokens v ++ more_members ms)

  pub more_members : Members → List Token
  more_members no_members = easy end_object ∷ []
  more_members (member k v ms) =
      easy value_sep
      ∷ token string_token (some (string k))
      ∷ easy name_sep
      ∷ (tokens v ++ more_members ms)

-- The value with the members of its objects in the order of the trie, each key cut at its first
-- NUL, and the last of the values that the text gives to a key.
abbrev mutual
  pub canonical : Json → Json
  canonical (array es) = array (canonical_elements es)
  canonical (object ms) = object (canonical_members ms)
  canonical v = v

  pub canonical_elements : Elements → Elements
  canonical_elements empty = empty
  canonical_elements (element v es) = element (canonical v) (canonical_elements es)

  pub canonical_members : Members → Members
  canonical_members no_members = no_members
  canonical_members (member k v ms) = object_add (canonical_members ms) (c_string k) (canonical v)

-- The arrays and objects of the value are in one another at most as often as the number says.
abbrev mutual
  pub IsWithin : ℕ → Json → Type 0
  IsWithin k (array es) = (1 ≤ k) × AreWithin (k - 1) es
  IsWithin k (object ms) = (1 ≤ k) × MembersAreWithin (k - 1) ms
  IsWithin k v = Unit

  pub AreWithin : ℕ → Elements → Type 0
  AreWithin k empty = Unit
  AreWithin k (element v es) = IsWithin k v × AreWithin k es

  pub MembersAreWithin : ℕ → Members → Type 0
  MembersAreWithin k no_members = Unit
  MembersAreWithin k (member key v ms) = IsWithin k v × MembersAreWithin k ms

-- The parser on a list of tokens.
abbrev pub feed : List Token → Parse → Option Parse
feed [] p = some p
feed (t ∷ ts) p = ll_parse t p >>= feed ts
