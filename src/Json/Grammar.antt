-- ===== src/Json/Grammar.antt =====
-- src/libmowgli/ext/json.c: the parser on tokens, with the values it builds.
-- A result `none` is a loop that does not end, an access through `NULL` or a push behind the end of
-- the stack.
use Prim.Native.Nat.{compare, Ordering}
use libmowgli.Base.{
  ℕ, zero, suc, List, [], ◌∷◌, ◌++◌, Option, none, some, ◌==◌, if◌then◌else◌, Bool, false, leb,
  length,
}
use libmowgli.Memory.{◌>>=◌}
use libmowgli.Json.{
  Bytes, Json, null, string, array, object, Elements, empty, element, Members, no_members, member,
  Sym, sym_none, begin_object, end_object, begin_array, end_array, name_sep, value_sep,
  string_token, number_token, identifier_token, json_document, value, obj_start, obj_body,
  obj_elems, obj_tail, obj_elem, arr_start, arr_body, arr_elems, arr_tail, Token, Item, built,
  obj_marker, arr_marker, Message, unexpected, expected, Parse,
}
use libmowgli.Json.Table.{
  Rule, rule_0, ll_table, ll_rules, ll_action, Action, no_action, act_echo, act_obj_start,
  act_obj_end, act_arr_start, act_arr_end,
}

-- The values of the enumeration.
abbrev pub sym_code : Sym → ℕ
sym_code sym_none = 0
sym_code begin_object = 1
sym_code end_object = 2
sym_code begin_array = 3
sym_code end_array = 4
sym_code name_sep = 5
sym_code value_sep = 6
sym_code string_token = 7
sym_code number_token = 8
sym_code identifier_token = 9
sym_code json_document = 10
sym_code value = 11
sym_code obj_start = 12
sym_code obj_body = 13
sym_code obj_elems = 14
sym_code obj_tail = 15
sym_code obj_elem = 16
sym_code arr_start = 17
sym_code arr_body = 18
sym_code arr_elems = 19
sym_code arr_tail = 20

-- The part of a string buffer in front of its first NUL.
unfoldable pub c_string : Bytes → Bytes
c_string [] = []
c_string (c ∷ s) = if c == 0 then [] else c ∷ c_string s

-- The order in which a trie iterates over its keys, by their half bytes, the high half first.
unfoldable pub key_compare : Bytes → Bytes → Ordering
key_compare [] [] = Ordering.eq
key_compare [] (d ∷ t) = Ordering.lt
key_compare (c ∷ s) [] = Ordering.gt
key_compare (c ∷ s) (d ∷ t) = elim (compare c d) [
  | Ordering.lt ↦ Ordering.lt
  | Ordering.eq ↦ key_compare s t
  | Ordering.gt ↦ Ordering.gt
]

-- `mowgli_json_object_add`, on the members that the trie stands for: a key that is present keeps
-- its value. The trie itself is not modelled.
unfoldable pub object_add : Members → Bytes → Json → Members
unfolding key_compare
object_add no_members key v = member key v no_members
object_add (member k w ms) key v = elim (key_compare key k) [
  | Ordering.lt ↦ member key v (member k w ms)
  | Ordering.eq ↦ member k w ms
  | Ordering.gt ↦ member k w (object_add ms key v)
]

abbrev pub parse_error : Message → Parse → Parse
parse_error m p = record p { error = some m }

abbrev pub ll_build_push : Item → Parse → Parse
ll_build_push i p = record p { build = i ∷ p.build }

abbrev pub is_full : Option ℕ → ℕ → Bool
is_full none n = false
is_full (some m) n = leb m n

abbrev pub ll_push : Sym → Parse → Option Parse
ll_push s p =
    if is_full p.stack_size (length p.stack) then none else some (record p { stack = s ∷ p.stack })

abbrev pub parse_out_enqueue : Json → Parse → Parse
parse_out_enqueue v p = record p { out = p.out ++ (v ∷ []) }

-- A marker in the place of a value has the tag of null.
abbrev pub item_value : Item → Json
item_value (built v) = v
item_value obj_marker = null
item_value arr_marker = null

-- The loop of `ll_act_obj_end`: pairs are popped, the value first.
unfoldable pub obj_end_loop : Members → List Item → Option (Members × List Item)
unfolding object_add c_string
obj_end_loop obj [] = none
obj_end_loop obj (obj_marker ∷ b) = some (obj, b)
obj_end_loop obj (val ∷ []) = none
obj_end_loop obj (val ∷ obj_marker ∷ b) = some (obj, b)
obj_end_loop obj (val ∷ built (string key) ∷ b) =
    obj_end_loop (object_add obj (c_string key) (item_value val)) b
obj_end_loop obj (val ∷ key ∷ b) = some (obj, b)

-- The loop of `ll_act_arr_end`.
unfoldable pub arr_end_loop : Elements → List Item → Option (Elements × List Item)
arr_end_loop arr [] = none
arr_end_loop arr (arr_marker ∷ b) = some (arr, b)
arr_end_loop arr (val ∷ b) = arr_end_loop (element (item_value val) arr) b

-- `ll_act_echo`, on a token with a value.
unfoldable pub ll_act_echo : Parse → Token → Option Parse
ll_act_echo p tok = do v ← tok.val; some (ll_build_push (built v) p)

unfoldable pub ll_act_obj_end : Parse → Option Parse
unfolding obj_end_loop
ll_act_obj_end p = do
  r ← obj_end_loop no_members p.build
  some (ll_build_push (built (object r.0)) (record p { build = r.1 }))

unfoldable pub ll_act_arr_end : Parse → Option Parse
unfolding arr_end_loop
ll_act_arr_end p = do
  r ← arr_end_loop empty p.build
  some (ll_build_push (built (array r.0)) (record p { build = r.1 }))

unfoldable pub run_action : Action → Token → Parse → Option Parse
unfolding ll_act_echo ll_act_obj_end ll_act_arr_end
run_action no_action tok p = some p
run_action act_echo tok p = ll_act_echo p tok
run_action act_obj_start tok p = some (ll_build_push obj_marker p)
run_action act_obj_end tok p = ll_act_obj_end p
run_action act_arr_start tok p = some (ll_build_push arr_marker p)
run_action act_arr_end tok p = ll_act_arr_end p

-- The document is done: the top of the build stack goes to the output, if there is one.
unfoldable pub ll_cycle : Parse → Option Parse
ll_cycle p =
    let q : Parse = elim p.build [
      | [] ↦ p
      | i ∷ b ↦ parse_out_enqueue (item_value i) (record p { build = b })
    ] in
    if q.multidoc then ll_push json_document q else some q

-- The symbols of a rule, pushed from the last to the first.
abbrev pub push_rule : List Sym → Parse → Option Parse
push_rule [] p = some p
push_rule (s ∷ ss) p = push_rule ss p >>= ll_push s

-- What one turn of the loop of `ll_parse` does: leave, go on, or not return.
pub data Turn : Type 0 where
  leave : Parse → Turn
  again : Parse → Turn
  stuck : Turn

unfoldable pub apply_rule : Rule → Token → Parse → Turn
unfolding run_action ll_rules ll_action
apply_rule r tok p = elim (run_action (ll_action r) tok p >>= push_rule (ll_rules r)) [
  | none ↦ stuck
  | some q ↦ again q
]

unfoldable pub by_rule : Rule → Sym → Token → Parse → Turn
unfolding apply_rule
by_rule rule_0 top tok p = leave (parse_error (expected top tok.sym) p)
by_rule r top tok p = apply_rule r tok p

-- A matched token with nothing left on the stack ends a document.
abbrev pub matched : List Sym → Parse → Option Parse
matched [] p = ll_cycle p
matched (s ∷ st) p = some p

-- The symbol `top` was popped.
unfoldable pub with_top : Sym → Token → Parse → Turn
unfolding ll_table by_rule ll_cycle
with_top top tok p =
    if sym_code top == sym_code tok.sym
    then (elim (matched p.stack p) [ none ↦ stuck | some q ↦ leave q ])
    else by_rule (ll_table top tok.sym) top tok p

unfoldable pub ll_turn : Token → Parse → Turn
unfolding with_top
ll_turn tok p = elim p.stack [
  | [] ↦ leave (parse_error (unexpected tok.sym) p)
  | top ∷ st ↦ with_top top tok (record p { stack = st })
]

-- The loop of `ll_parse`.
unfoldable pub ll_loop : ℕ → Token → Parse → Option Parse
unfolding ll_turn
ll_loop zero tok p = none
ll_loop (suc n) tok p = elim (ll_turn tok p) [
  | leave q ↦ some q
  | again q ↦ ll_loop n tok q
  | stuck ↦ none
]

-- No token is in front of more than four expansions.
unfoldable pub ll_parse : Token → Parse → Option Parse
unfolding ll_loop
ll_parse tok p = ll_loop 5 tok p
