-- ===== src/Json/Expand.antt =====
-- src/libmowgli/ext/json.c: expanding a symbol keeps the markers, and comes nearer to the token.
use libmowgli.Base.{
  ℕ, ◌<◌, ◌≡◌, refl, ap, sym, subst, List, [], ◌∷◌, ◌++◌, ◌+◌, ◌∙◌, length, true, false, none, some,
  arith,
}
use libmowgli.Memory.{◌>>=◌}
use libmowgli.Json.{
  Json, array, object, Elements, empty, Members, no_members, Sym, json_document, value, obj_start,
  obj_body, obj_elems, obj_tail, obj_elem, arr_start, arr_body, arr_elems, arr_tail, Token, Item,
  built, obj_marker, arr_marker, Parse, Lex,
}
use libmowgli.Json.Table.{
  Rule, rule_0, rule_1, rule_2, rule_3, rule_4, rule_5, rule_6, rule_7, rule_8, rule_9, rule_10,
  rule_11, rule_12, rule_13, rule_14, rule_15, rule_16, rule_17, rule_18, rule_19, rule_20,
  ll_rules, ll_action,
}
use libmowgli.Json.Grammar.{
  obj_end_loop, arr_end_loop, ll_build_push, ll_act_echo, ll_act_obj_end, ll_act_arr_end,
  run_action, push_rule, apply_rule, by_rule, Turn, leave, again, stuck,
}
use libmowgli.Json.Space.{Has, push_rule_lem}
use libmowgli.Json.Rules.{lhs, echoes}
use libmowgli.Json.Markers.{closers, Covers, Covers-more, arr_end_loop_lem, obj_end_loop_lem}

-- Every closing action that the stack still asks for finds its marker on the build stack;
-- the lexer is in the given state, and the stack is never full.
abbrev pub Holds : Lex → Parse → Type 0
Holds l p = Covers p.build (closers p.stack) × (p.lex ≡ l) × (p.stack_size ≡ none)

-- The stack with the symbols of a rule.
abbrev pub expanded : Rule → Parse → Parse
expanded r q = record q { stack = ll_rules r ++ q.stack }

-- The expansions that a symbol can need in front of a token, less one.
abbrev pub rank : Sym → ℕ
rank obj_start = 1
rank arr_start = 1
rank obj_tail = 1
rank arr_tail = 1
rank obj_elem = 1
rank value = 2
rank json_document = 2
rank obj_elems = 2
rank obj_body = 3
rank arr_elems = 3
rank arr_body = 4
rank s = 0

abbrev pub top_rank : List Sym → ℕ
top_rank [] = 0
top_rank (s ∷ st) = rank s

abbrev pub Good : Lex → ℕ → Turn → Type 0
Good l n (leave q) = Holds l q
Good l n (again q) = Holds l q × (top_rank q.stack < n)
Good l n stuck = false ≡ true

pub good :
    (l : Lex) (r : Rule) (tok : Token) (p q : Parse)
    → run_action (ll_action r) tok p ≡ some q
    → Holds l (expanded r q)
    → top_rank (expanded r q).stack < rank (lhs r)
    → Good l (rank (lhs r)) (apply_rule r tok p)
unfolding apply_rule
good l r tok p q e h k =
    subst (λ o. Good l (rank (lhs r)) (elim o as (λ _. Turn) [ none ↦ stuck | some q ↦ again q ]))
      (sym (
        ap (λ o. o >>= push_rule (ll_rules r)) e
        ∙ push_rule_lem (ll_rules r) q
            (subst (λ o. Has o (length (ll_rules r) + length q.stack)) (sym h.2) tt)))
      (h, k)

pub echo_lem :
    (tok : Token) (p : Parse) (v : Json)
    → tok.val ≡ some v
    → ll_act_echo p tok ≡ some (ll_build_push (built v) p)
unfolding ll_act_echo
echo_lem tok p v e = ap (λ o. o >>= λ w. some (ll_build_push (built w) p)) e

-- What the closing actions leave.
abbrev pub obj_ended : Parse → Members × List Item → Parse
obj_ended p r = ll_build_push (built (object r.0)) (record p { build = r.1 })

abbrev pub arr_ended : Parse → Elements × List Item → Parse
arr_ended p r = ll_build_push (built (array r.0)) (record p { build = r.1 })

pub obj_end_lem :
    (p : Parse) (r : Members × List Item)
    → obj_end_loop no_members p.build ≡ some r
    → ll_act_obj_end p ≡ some (obj_ended p r)
unfolding ll_act_obj_end
obj_end_lem p r e = ap (λ o. o >>= λ r. some (obj_ended p r)) e

pub arr_end_lem :
    (p : Parse) (r : Elements × List Item)
    → arr_end_loop empty p.build ≡ some r
    → ll_act_arr_end p ≡ some (arr_ended p r)
unfolding ll_act_arr_end
arr_end_lem p r e = ap (λ o. o >>= λ r. some (arr_ended p r)) e

-- Every rule, where its symbol was on the stack.
pub rule_lem :
    (l : Lex) (r : Rule) (tok : Token) (p : Parse)
    → Covers p.build (closers (lhs r ∷ p.stack))
    → (p.lex ≡ l)
    → (p.stack_size ≡ none)
    → ((echoes r ≡ true) → (v : Json) × (tok.val ≡ some v))
    → Good l (rank (lhs r)) (by_rule r (lhs r) tok p)
unfolding by_rule ll_rules ll_action run_action
rule_lem l rule_0 tok p h m z f = (h, m, z)
rule_lem l rule_1 tok p h m z f = good l rule_1 tok p p refl (h, m, z) (omega arith)
rule_lem l rule_2 tok p h m z f = good l rule_2 tok p p refl (h, m, z) (omega arith)
rule_lem l rule_3 tok p h m z f = good l rule_3 tok p p refl (h, m, z) (omega arith)
rule_lem l rule_4 tok p h m z f = good l rule_4 tok p p refl (h, m, z) (omega arith)
rule_lem l rule_5 tok p h m z f =
    let v = f refl in
    good l rule_5 tok p (ll_build_push (built v.0) p) (echo_lem tok p v.0 v.1)
      ((Covers-more (built v.0) p.build (closers p.stack) h), m, z) (omega arith)
rule_lem l rule_6 tok p h m z f =
    let v = f refl in
    good l rule_6 tok p (ll_build_push (built v.0) p) (echo_lem tok p v.0 v.1)
      ((Covers-more (built v.0) p.build (closers p.stack) h), m, z) (omega arith)
rule_lem l rule_7 tok p h m z f =
    let v = f refl in
    good l rule_7 tok p (ll_build_push (built v.0) p) (echo_lem tok p v.0 v.1)
      ((Covers-more (built v.0) p.build (closers p.stack) h), m, z) (omega arith)
rule_lem l rule_8 tok p h m z f =
    good l rule_8 tok p (ll_build_push obj_marker p) refl (h, m, z) (omega arith)
rule_lem l rule_9 tok p h m z f =
    let r = obj_end_loop_lem no_members p.build (closers p.stack) h in
    good l rule_9 tok p (obj_ended p r.0) (obj_end_lem p r.0 r.1)
      ((Covers-more (built (object r.0.0)) r.0.1 (closers p.stack) r.2), m, z) (omega arith)
rule_lem l rule_10 tok p h m z f = good l rule_10 tok p p refl (h, m, z) (omega arith)
rule_lem l rule_11 tok p h m z f = good l rule_11 tok p p refl (h, m, z) (omega arith)
rule_lem l rule_12 tok p h m z f = good l rule_12 tok p p refl (h, m, z) (omega arith)
rule_lem l rule_13 tok p h m z f =
    let r = obj_end_loop_lem no_members p.build (closers p.stack) h in
    good l rule_13 tok p (obj_ended p r.0) (obj_end_lem p r.0 r.1)
      ((Covers-more (built (object r.0.0)) r.0.1 (closers p.stack) r.2), m, z) (omega arith)
rule_lem l rule_14 tok p h m z f =
    let v = f refl in
    good l rule_14 tok p (ll_build_push (built v.0) p) (echo_lem tok p v.0 v.1)
      ((Covers-more (built v.0) p.build (closers p.stack) h), m, z) (omega arith)
rule_lem l rule_15 tok p h m z f =
    good l rule_15 tok p (ll_build_push arr_marker p) refl (h, m, z) (omega arith)
rule_lem l rule_16 tok p h m z f =
    let r = arr_end_loop_lem empty p.build (closers p.stack) h in
    good l rule_16 tok p (arr_ended p r.0) (arr_end_lem p r.0 r.1)
      ((Covers-more (built (array r.0.0)) r.0.1 (closers p.stack) r.2), m, z) (omega arith)
rule_lem l rule_17 tok p h m z f = good l rule_17 tok p p refl (h, m, z) (omega arith)
rule_lem l rule_18 tok p h m z f = good l rule_18 tok p p refl (h, m, z) (omega arith)
rule_lem l rule_19 tok p h m z f = good l rule_19 tok p p refl (h, m, z) (omega arith)
rule_lem l rule_20 tok p h m z f =
    let r = arr_end_loop_lem empty p.build (closers p.stack) h in
    good l rule_20 tok p (arr_ended p r.0) (arr_end_lem p r.0 r.1)
      ((Covers-more (built (array r.0.0)) r.0.1 (closers p.stack) r.2), m, z) (omega arith)
