-- ===== src/Json/Rules.antt =====
-- The table of the JSON parser in src/libmowgli/ext/json.c, against its rules.
use libmowgli.Base.{◌≡◌, Bool, true, false, arith}
use libmowgli.Json.{
  Sym, sym_none, begin_object, end_object, begin_array, end_array, name_sep, value_sep,
  string_token, number_token, identifier_token, json_document, value, obj_start, obj_body,
  obj_elems, obj_tail, obj_elem, arr_start, arr_body, arr_elems, arr_tail,
}
use libmowgli.Json.Table.{
  Rule, rule_0, rule_1, rule_2, rule_3, rule_4, rule_5, rule_6, rule_7, rule_8, rule_9, rule_10,
  rule_11, rule_12, rule_13, rule_14, rule_15, rule_16, rule_17, rule_18, rule_19, rule_20,
  ll_table,
}

-- The symbol that a rule expands.
abbrev pub lhs : Rule → Sym
lhs rule_0 = sym_none
lhs rule_1 = json_document
lhs rule_2 = json_document
lhs rule_3 = value
lhs rule_4 = value
lhs rule_5 = value
lhs rule_6 = value
lhs rule_7 = value
lhs rule_8 = obj_start
lhs rule_9 = obj_body
lhs rule_10 = obj_body
lhs rule_11 = obj_elems
lhs rule_12 = obj_tail
lhs rule_13 = obj_tail
lhs rule_14 = obj_elem
lhs rule_15 = arr_start
lhs rule_16 = arr_body
lhs rule_17 = arr_body
lhs rule_18 = arr_elems
lhs rule_19 = arr_tail
lhs rule_20 = arr_tail

-- The tokens that carry a value.
abbrev pub has_value : Sym → Bool
has_value string_token = true
has_value number_token = true
has_value identifier_token = true
has_value s = false

-- The rules that put the value of the token on the build stack.
abbrev pub echoes : Rule → Bool
echoes rule_5 = true
echoes rule_6 = true
echoes rule_7 = true
echoes rule_14 = true
echoes r = false

abbrev pub Suits : Sym → Sym → Rule → Type 0
Suits top sym rule_0 = Unit
Suits top sym r = (lhs r ≡ top) × ((echoes r ≡ true) → (has_value sym ≡ true))

-- An entry of the table names a rule of that symbol, and one that needs the token's value is in
-- front of tokens that carry one.
pub table_lem : (top sym : Sym) → Suits top sym (ll_table top sym)
unfolding ll_table
table_lem sym_none begin_object = ground arith
table_lem begin_object begin_object = ground arith
table_lem end_object begin_object = ground arith
table_lem begin_array begin_object = ground arith
table_lem end_array begin_object = ground arith
table_lem name_sep begin_object = ground arith
table_lem value_sep begin_object = ground arith
table_lem string_token begin_object = ground arith
table_lem number_token begin_object = ground arith
table_lem identifier_token begin_object = ground arith
table_lem json_document begin_object = ground arith
table_lem value begin_object = ground arith
table_lem obj_start begin_object = ground arith
table_lem obj_body begin_object = ground arith
table_lem obj_elems begin_object = ground arith
table_lem obj_tail begin_object = ground arith
table_lem obj_elem begin_object = ground arith
table_lem arr_start begin_object = ground arith
table_lem arr_body begin_object = ground arith
table_lem arr_elems begin_object = ground arith
table_lem arr_tail begin_object = ground arith
table_lem top sym = ground arith
