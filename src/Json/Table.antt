-- ===== src/Json/Table.antt =====
-- src/libmowgli/ext/json.c: the table and the rules of the LL(1) parser.
use libmowgli.Base.{List, [], ◌∷◌}
use libmowgli.Json.{
  Sym, begin_object, end_object, begin_array, end_array, name_sep, value_sep, string_token,
  number_token, identifier_token, json_document, value, obj_start, obj_body, obj_elems, obj_tail,
  obj_elem, arr_start, arr_body, arr_elems, arr_tail,
}

-- The numbers of the rules; `rule_0` is an error.
pub data Rule : Type 0 where
  rule_0 : Rule
  rule_1 : Rule
  rule_2 : Rule
  rule_3 : Rule
  rule_4 : Rule
  rule_5 : Rule
  rule_6 : Rule
  rule_7 : Rule
  rule_8 : Rule
  rule_9 : Rule
  rule_10 : Rule
  rule_11 : Rule
  rule_12 : Rule
  rule_13 : Rule
  rule_14 : Rule
  rule_15 : Rule
  rule_16 : Rule
  rule_17 : Rule
  rule_18 : Rule
  rule_19 : Rule
  rule_20 : Rule

-- The actions that the rules name; `no_action` is `NULL`.
pub data Action : Type 0 where
  no_action : Action
  act_echo : Action
  act_obj_start : Action
  act_obj_end : Action
  act_arr_start : Action
  act_arr_end : Action

-- The number of the rule that a symbol is expanded by in front of a token.
unfoldable pub ll_table : Sym → Sym → Rule
ll_table json_document begin_object = rule_1
ll_table json_document begin_array = rule_2
ll_table value begin_object = rule_3
ll_table value begin_array = rule_4
ll_table value string_token = rule_5
ll_table value number_token = rule_6
ll_table value identifier_token = rule_7
ll_table obj_start begin_object = rule_8
ll_table obj_body end_object = rule_9
ll_table obj_body string_token = rule_10
ll_table obj_elems string_token = rule_11
ll_table obj_tail end_object = rule_13
ll_table obj_tail value_sep = rule_12
ll_table obj_elem string_token = rule_14
ll_table arr_start begin_array = rule_15
ll_table arr_body begin_object = rule_17
ll_table arr_body begin_array = rule_17
ll_table arr_body end_array = rule_16
ll_table arr_body string_token = rule_17
ll_table arr_body number_token = rule_17
ll_table arr_body identifier_token = rule_17
ll_table arr_elems begin_object = rule_18
ll_table arr_elems begin_array = rule_18
ll_table arr_elems string_token = rule_18
ll_table arr_elems number_token = rule_18
ll_table arr_elems identifier_token = rule_18
ll_table arr_tail end_array = rule_20
ll_table arr_tail value_sep = rule_19
ll_table top sym = rule_0

unfoldable pub ll_rules : Rule → List Sym
ll_rules rule_0 = []
ll_rules rule_1 = obj_start ∷ []
ll_rules rule_2 = arr_start ∷ []
ll_rules rule_3 = obj_start ∷ []
ll_rules rule_4 = arr_start ∷ []
ll_rules rule_5 = string_token ∷ []
ll_rules rule_6 = number_token ∷ []
ll_rules rule_7 = identifier_token ∷ []
ll_rules rule_8 = begin_object ∷ obj_body ∷ []
ll_rules rule_9 = end_object ∷ []
ll_rules rule_10 = obj_elems ∷ []
ll_rules rule_11 = obj_elem ∷ obj_tail ∷ []
ll_rules rule_12 = value_sep ∷ obj_elems ∷ []
ll_rules rule_13 = end_object ∷ []
ll_rules rule_14 = string_token ∷ name_sep ∷ value ∷ []
ll_rules rule_15 = begin_array ∷ arr_body ∷ []
ll_rules rule_16 = end_array ∷ []
ll_rules rule_17 = arr_elems ∷ []
ll_rules rule_18 = value ∷ arr_tail ∷ []
ll_rules rule_19 = value_sep ∷ arr_elems ∷ []
ll_rules rule_20 = end_array ∷ []

unfoldable pub ll_action : Rule → Action
ll_action rule_5 = act_echo
ll_action rule_6 = act_echo
ll_action rule_7 = act_echo
ll_action rule_8 = act_obj_start
ll_action rule_9 = act_obj_end
ll_action rule_13 = act_obj_end
ll_action rule_14 = act_echo
ll_action rule_15 = act_arr_start
ll_action rule_16 = act_arr_end
ll_action rule_20 = act_arr_end
ll_action n = no_action
