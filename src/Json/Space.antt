-- ===== src/Json/Space.antt =====
-- src/libmowgli/ext/json.c: room on the stack, for what a rule pushes.
use libmowgli.Base.{
  ℕ, suc, ◌+◌, ◌≤◌, ◌≡◌, refl, ap, sym, ◌∙◌, List, [], ◌∷◌, ◌++◌, Option, none, some, false,
  if◌then◌else◌, length, length-append, arith, subst,
}
use libmowgli.Memory.{◌>>=◌}
use libmowgli.Json.{Json, array, object, empty, no_members, Sym, Token, Item, built, Parse}
use libmowgli.Json.Table.{
  Rule, rule_0, rule_1, rule_2, rule_3, rule_4, rule_5, rule_6, rule_7, rule_8, rule_9, rule_10,
  rule_11, rule_12, rule_13, rule_14, rule_15, rule_16, rule_17, rule_18, rule_19, rule_20,
  ll_rules, ll_action, Action, no_action, act_echo, act_obj_start, act_obj_end, act_arr_start,
  act_arr_end,
}
use libmowgli.Json.Grammar.{
  is_full, ll_push, push_rule, run_action, ll_act_echo, ll_act_obj_end, ll_act_arr_end,
  obj_end_loop, arr_end_loop, apply_rule, by_rule, Turn, leave, again, stuck,
}

-- A stack of the size has room for as many entries.
abbrev pub Has : Option ℕ → ℕ → Type 0
Has none n = Unit
Has (some m) n = n ≤ m

pub Has-fewer : (o : Option ℕ) (n k : ℕ) → k ≤ n → Has o n → Has o k
Has-fewer none n k h r = tt
Has-fewer (some m) n k h r = omega arith

abbrev pub sized : Option ℕ → Parse → Parse
sized o p = record p { stack_size = o }

abbrev pub restored : Option ℕ → Option Parse → Option Parse
restored o x = x >>= λ q. some (sized o q)

pub not_full : (o : Option ℕ) (n : ℕ) → Has o (suc n) → is_full o n ≡ false
not_full none n h = refl
not_full (some m) n h = ground arith

pub push_lem :
    (s : Sym) (p : Parse)
    → Has p.stack_size (suc (length p.stack))
    → ll_push s p ≡ some (record p { stack = s ∷ p.stack })
push_lem s p h =
    ap (λ b. if b then none else some (record p { stack = s ∷ p.stack }))
      (not_full p.stack_size (length p.stack) h)

pub push_rule_lem :
    (ss : List Sym) (p : Parse)
    → Has p.stack_size (length ss + length p.stack)
    → push_rule ss p ≡ some (record p { stack = ss ++ p.stack })
push_rule_lem [] p h = refl
push_rule_lem (s ∷ ss) p h =
    ap (λ o. o >>= ll_push s)
      (push_rule_lem ss p (
        Has-fewer p.stack_size (length (s ∷ ss) + length p.stack) (length ss + length p.stack)
          (omega arith) h))
    ∙ push_lem s (record p { stack = ss ++ p.stack })
        (Has-fewer p.stack_size (length (s ∷ ss) + length p.stack) (suc (length (ss ++ p.stack)))
          (omega (arith, length-append ss p.stack)) h)

pub rule_length : (r : Rule) → length (ll_rules r) ≤ 3
unfolding ll_rules
rule_length rule_0 = omega arith
rule_length rule_1 = omega arith
rule_length rule_2 = omega arith
rule_length rule_3 = omega arith
rule_length rule_4 = omega arith
rule_length rule_5 = omega arith
rule_length rule_6 = omega arith
rule_length rule_7 = omega arith
rule_length rule_8 = omega arith
rule_length rule_9 = omega arith
rule_length rule_10 = omega arith
rule_length rule_11 = omega arith
rule_length rule_12 = omega arith
rule_length rule_13 = omega arith
rule_length rule_14 = omega arith
rule_length rule_15 = omega arith
rule_length rule_16 = omega arith
rule_length rule_17 = omega arith
rule_length rule_18 = omega arith
rule_length rule_19 = omega arith
rule_length rule_20 = omega arith

-- An action only changes the build stack.
abbrev pub acted : Action → Token → Parse → Option (List Item)
acted a tok p = run_action a tok p >>= λ q. some q.build

abbrev pub Acts : Action → Token → Parse → Option ℕ → Type 0
Acts a tok p o =
    run_action a tok (sized o p)
    ≡ (acted a tok p >>= λ b. some (record p { build = b; stack_size = o }))

pub action_lem : (a : Action) (tok : Token) (p : Parse) (o : Option ℕ) → Acts a tok p o
unfolding run_action ll_act_echo ll_act_obj_end ll_act_arr_end
action_lem no_action tok p o = refl
action_lem act_echo tok p o = by_value tok.val
  where
    by_value :
        (x : Option Json)
        → (x >>= λ v. some (record p { build = built v ∷ p.build; stack_size = o })) ≡ (
            ((x >>= λ v. some (record p { build = built v ∷ p.build })) >>= λ q. some q.build)
            >>= λ b. some (record p { build = b; stack_size = o }))
    by_value none = refl
    by_value (some v) = refl
action_lem act_obj_start tok p o = refl
action_lem act_obj_end tok p o =
    elim (obj_end_loop no_members p.build)
      as (λ x. (x >>= λ r. some (record p { build = built (object r.0) ∷ r.1; stack_size = o })) ≡ (
        ((x >>= λ r. some (record p { build = built (object r.0) ∷ r.1 })) >>= λ q. some q.build)
        >>= λ b. some (record p { build = b; stack_size = o }))) [ none ↦ refl | some r ↦ refl ]
action_lem act_arr_start tok p o = refl
action_lem act_arr_end tok p o =
    elim (arr_end_loop empty p.build)
      as (λ x. (x >>= λ r. some (record p { build = built (array r.0) ∷ r.1; stack_size = o })) ≡ (
        ((x >>= λ r. some (record p { build = built (array r.0) ∷ r.1 })) >>= λ q. some q.build)
        >>= λ b. some (record p { build = b; stack_size = o }))) [ none ↦ refl | some r ↦ refl ]

-- A turn on a stack of a size, from a turn on one that is never full.
abbrev pub resized : Option ℕ → Turn → Turn
resized o (leave q) = leave (sized o q)
resized o (again q) = again (sized o q)
resized o stuck = stuck

-- A turn leaves or goes on with so many entries at most.
abbrev pub Grows : ℕ → Turn → Type 0
Grows n (leave q) = length q.stack ≤ n
Grows n (again q) = (length q.stack ≤ n) × (q.stack_size ≡ none)
Grows n stuck = Unit

-- The turns `t` and `u` on the two stacks.
abbrev pub Agree : Option ℕ → ℕ → Turn → Turn → Type 0
Agree o n t u = (t ≡ resized o u) × Grows n u

abbrev pub turn_of : Option Parse → Turn
turn_of x = elim x [ none ↦ stuck | some q ↦ again q ]

pub at_acted :
    (ss : List Sym) (x : Option (List Item)) (p : Parse) (o : Option ℕ)
    → length ss ≤ 3
    → Has o (3 + length p.stack)
    → Agree o
        (3 + length p.stack)
        (turn_of ((x >>= λ b. some (record p { build = b; stack_size = o })) >>= push_rule ss))
        (turn_of ((x >>= λ b. some (record p { build = b; stack_size = none })) >>= push_rule ss))
at_acted ss none p o k h = (refl, tt)
at_acted ss (some b) p o k h =
    let q = record p { build = b; stack_size = o } in
    let r = record p { build = b; stack_size = none } in
    subst (λ y. Agree o (3 + length p.stack) (turn_of y) (turn_of (push_rule ss r)))
      (sym (
        push_rule_lem ss q
          (Has-fewer o (3 + length p.stack) (length ss + length p.stack) (omega arith) h)))
      (subst
        (λ y.
          Agree o (3 + length p.stack) (turn_of (some (record q { stack = ss ++ p.stack })))
            (turn_of y))
        (sym (push_rule_lem ss r tt)) (refl, (omega (arith, length-append ss p.stack), refl)))

pub apply_lem :
    (r : Rule) (tok : Token) (p : Parse) (o : Option ℕ)
    → Has o (3 + length p.stack)
    → Agree o (3 + length p.stack) (apply_rule r tok (sized o p)) (apply_rule r tok (sized none p))
unfolding apply_rule
apply_lem r tok p o h =
    let n = 3 + length p.stack in
    let rest = push_rule (ll_rules r) in
    subst (λ x. Agree o n (turn_of (x >>= rest)) (apply_rule r tok (sized none p)))
      (sym (action_lem (ll_action r) tok p o))
      (subst
        (λ x.
          Agree o n
            (turn_of (
              (acted (ll_action r) tok p >>= λ b. some (record p { build = b; stack_size = o }))
              >>= rest))
            (turn_of (x >>= rest)))
        (sym (action_lem (ll_action r) tok p none))
        (at_acted (ll_rules r) (acted (ll_action r) tok p) p o (rule_length r) h))

pub rule_turn_lem :
    (r : Rule) (top : Sym) (tok : Token) (p : Parse) (o : Option ℕ)
    → Has o (3 + length p.stack)
    → Agree o
        (3 + length p.stack)
        (by_rule r top tok (sized o p))
        (by_rule r top tok (sized none p))
unfolding by_rule
rule_turn_lem rule_0 top tok p o h = (refl, omega arith)
rule_turn_lem r top tok p o h = apply_lem r tok p o h
