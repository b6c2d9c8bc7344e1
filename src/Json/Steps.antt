-- ===== src/Json/Steps.antt =====
-- src/libmowgli/ext/json.c: the tokens that open and close arrays and objects, on a stack with room.
use libmowgli.Base.{
  sym, ℕ, ◌+◌, ◌≤◌, length, ◌≡◌, refl, ap, ◌∙◌, List, ◌∷◌, ◌++◌, Option, none, some, arith,
}
use libmowgli.Memory.{◌>>=◌}
use libmowgli.Json.{
  Json, null, boolean, integer, float, string, array, object, Elements, empty, Members, no_members,
  Sym, end_object, end_array, value, obj_body, obj_tail, arr_body, arr_elems, arr_tail, Token, Item,
  built, begin_array, begin_object, string_token, number_token, identifier_token, obj_marker,
  arr_marker, Parse,
}
use libmowgli.Json.Table.{rule_13, rule_20, ll_rules}
use libmowgli.Json.Grammar.{
  obj_end_loop, arr_end_loop, ll_build_push, push_rule, matched, Turn, leave, again, stuck, ll_loop,
  ll_parse,
}
use libmowgli.Json.Space.{Has, Has-fewer, sized}
use libmowgli.Json.Room.{done, done_lem, done_sized, ll_parse-sized}
use libmowgli.Json.Lexer.{token}
use libmowgli.Json.Tokens.{easy, tokens, element_tokens, member_tokens, feed}

-- The parser with these stacks.
abbrev pub with_stacks : Parse → List Sym → List Item → Parse
with_stacks p st b = record p { stack = st; build = b }

-- The last token was taken: with nothing left on the stack, a document is done.
abbrev pub settle : Parse → List Sym → List Item → Parse
settle p st b = done st (with_stacks p st b)

-- The loop over the build stack ends with what `f` makes of its argument, and leaves `b`.
abbrev pub Collects : List Item → (Elements → Elements) → List Item → Type 0
Collects b' f b = (arr : Elements) → arr_end_loop arr b' ≡ some (f arr, b)

abbrev pub CollectsMembers : List Item → (Members → Members) → List Item → Type 0
CollectsMembers b' f b = (obj : Members) → obj_end_loop obj b' ≡ some (f obj, b)

-- Room for `k` levels above these symbols.
abbrev pub Roomy : Parse → ℕ → List Sym → Type 0
Roomy p k st = Has p.stack_size (k + length st + 12)

pub Roomy-fewer :
    (p : Parse) (k : ℕ) (st : List Sym) (n : ℕ)
    → n ≤ k + length st + 12
    → Roomy p k st
    → Has p.stack_size n
Roomy-fewer p k st n h r = Has-fewer p.stack_size (k + length st + 12) n h r

-- A token on a stack with room.
pub step :
    (tok : Token) (p : Parse) (st st' : List Sym) (b b' : List Item)
    → Has p.stack_size (length st + 10)
    → ll_parse tok (with_stacks (sized none p) st b) ≡ some (with_stacks (sized none p) st' b')
    → ll_parse tok (with_stacks p st b) ≡ some (with_stacks p st' b')
step tok p st st' b b' h e =
    ll_parse-sized tok (with_stacks p st b) (with_stacks (sized none p) st' b') h e

pub left : ℕ → Token → Option Parse → Option Parse
left n tok x =
    elim (elim x as (λ _. Turn) [ none ↦ stuck | some q ↦ leave q ]) as (λ _. Option Parse) [
      | leave q ↦ some q
      | again q ↦ ll_loop n tok q
      | stuck ↦ none
    ]

-- A token that ends an array or an object, on a stack with room.
pub closing :
    (tok : Token) (p : Parse) (st st' : List Sym) (b b' : List Item)
    → Has p.stack_size (length st + 10)
    → ll_parse tok (with_stacks (sized none p) st b)
      ≡ left 3 tok (matched st' (with_stacks (sized none p) st' b'))
    → ll_parse tok (with_stacks p st b) ≡ some (settle p st' b')
unfolding left
closing tok p st st' b b' h e =
    let q = with_stacks (sized none p) st' b' in
    ll_parse-sized tok (with_stacks p st b) (done st' q) h (e ∙ ap (left 3 tok) (done_lem st' q tt))
    ∙ ap some (done_sized st' (with_stacks p st' b') p.stack_size)

pub by_turn : Token → Turn → Option Parse
by_turn tok t = elim t [ leave q ↦ some q | again q ↦ ll_loop 4 tok q | stuck ↦ none ]

pub arr_close :
    (p : Parse) (st : List Sym) (b b' : List Item) (r : Elements)
    → Has p.stack_size (length st + 11)
    → arr_end_loop empty b' ≡ some (r, b)
    → ll_parse (easy end_array) (with_stacks p (arr_tail ∷ st) b')
      ≡ some (settle p st (built (array r) ∷ b))
unfolding ll_parse by_turn left
arr_close p st b b' r h e =
    closing (easy end_array) p (arr_tail ∷ st) st b' (built (array r) ∷ b)
      (Has-fewer p.stack_size (length st + 11) (length (arr_tail ∷ st) + 10) (omega arith) h)
      (ap
        (λ o.
          by_turn (easy end_array)
            (elim ((o >>= λ r.
                  some (ll_build_push (built (array r.0)) (with_stacks (sized none p) st r.1)))
                >>= push_rule (ll_rules rule_20))
              as (λ _. Turn) [ none ↦ stuck | some q ↦ again q ]))
        e)

pub obj_close :
    (p : Parse) (st : List Sym) (b b' : List Item) (r : Members)
    → Has p.stack_size (length st + 11)
    → obj_end_loop no_members b' ≡ some (r, b)
    → ll_parse (easy end_object) (with_stacks p (obj_tail ∷ st) b')
      ≡ some (settle p st (built (object r) ∷ b))
unfolding ll_parse by_turn left
obj_close p st b b' r h e =
    closing (easy end_object) p (obj_tail ∷ st) st b' (built (object r) ∷ b)
      (Has-fewer p.stack_size (length st + 11) (length (obj_tail ∷ st) + 10) (omega arith) h)
      (ap
        (λ o.
          by_turn (easy end_object)
            (elim ((o >>= λ r.
                  some (ll_build_push (built (object r.0)) (with_stacks (sized none p) st r.1)))
                >>= push_rule (ll_rules rule_13))
              as (λ _. Turn) [ none ↦ stuck | some q ↦ again q ]))
        e)

-- An empty array or object.
pub arr_empty :
    (p : Parse) (st : List Sym) (b : List Item)
    → Has p.stack_size (length st + 11)
    → ll_parse (easy end_array) (with_stacks p (arr_body ∷ st) (arr_marker ∷ b))
      ≡ some (settle p st (built (array empty) ∷ b))
unfolding ll_parse left arr_end_loop
arr_empty p st b h =
    closing (easy end_array) p (arr_body ∷ st) st (arr_marker ∷ b) (built (array empty) ∷ b)
      (Has-fewer p.stack_size (length st + 11) (length (arr_body ∷ st) + 10) (omega arith) h) refl

pub obj_empty :
    (p : Parse) (st : List Sym) (b : List Item)
    → Has p.stack_size (length st + 11)
    → ll_parse (easy end_object) (with_stacks p (obj_body ∷ st) (obj_marker ∷ b))
      ≡ some (settle p st (built (object no_members) ∷ b))
unfolding ll_parse left obj_end_loop
obj_empty p st b h =
    closing (easy end_object) p (obj_body ∷ st) st (obj_marker ∷ b) (built (object no_members) ∷ b)
      (Has-fewer p.stack_size (length st + 11) (length (obj_body ∷ st) + 10) (omega arith) h) refl

-- One token, and the rest behind it.
pub fed :
    (tok : Token) (ts : List Token) (p : Parse) (st st' : List Sym) (b b' : List Item)
    → Has p.stack_size (length st + 10)
    → ll_parse tok (with_stacks (sized none p) st b) ≡ some (with_stacks (sized none p) st' b')
    → feed (tok ∷ ts) (with_stacks p st b) ≡ feed ts (with_stacks p st' b')
fed tok ts p st st' b b' h e = ap (λ o. o >>= feed ts) (step tok p st st' b b' h e)

pub same_step :
    (tok : Token) (ts : List Token) (p : Parse) (st1 st2 st : List Sym) (b b' : List Item)
    → Has p.stack_size (length st1 + 10)
    → Has p.stack_size (length st2 + 10)
    → ll_parse tok (with_stacks (sized none p) st1 b) ≡ some (with_stacks (sized none p) st b')
    → ll_parse tok (with_stacks (sized none p) st2 b) ≡ some (with_stacks (sized none p) st b')
    → feed (tok ∷ ts) (with_stacks p st1 b) ≡ feed (tok ∷ ts) (with_stacks p st2 b)
same_step tok ts p st1 st2 st b b' h k e f =
    fed tok ts p st1 st b b' h e ∙ sym (fed tok ts p st2 st b b' k f)

-- In front of a value, the body of an array is a value and a tail.
pub first_element :
    (v : Json) (ts : List Token) (p : Parse) (st : List Sym) (b : List Item)
    → Has p.stack_size (length st + 12)
    → feed (tokens v ++ ts) (with_stacks p (arr_body ∷ st) b)
      ≡ feed (tokens v ++ ts) (with_stacks p (value ∷ arr_tail ∷ st) b)
unfolding ll_parse
first_element null ts p st b h =
    same_step (token identifier_token (some null)) ts p (arr_body ∷ st) (value ∷ arr_tail ∷ st)
      (arr_tail ∷ st) b (built null ∷ b)
      (Has-fewer p.stack_size (length st + 12) (length (arr_body ∷ st) + 10) (omega arith) h)
      (Has-fewer p.stack_size (length st + 12) (length (value ∷ arr_tail ∷ st) + 10) (omega arith)
        h)
      refl refl
first_element (boolean x) ts p st b h =
    same_step (token identifier_token (some (boolean x))) ts p (arr_body ∷ st)
      (value ∷ arr_tail ∷ st) (arr_tail ∷ st) b (built (boolean x) ∷ b)
      (Has-fewer p.stack_size (length st + 12) (length (arr_body ∷ st) + 10) (omega arith) h)
      (Has-fewer p.stack_size (length st + 12) (length (value ∷ arr_tail ∷ st) + 10) (omega arith)
        h)
      refl refl
first_element (integer n) ts p st b h =
    same_step (token number_token (some (integer n))) ts p (arr_body ∷ st) (value ∷ arr_tail ∷ st)
      (arr_tail ∷ st) b (built (integer n) ∷ b)
      (Has-fewer p.stack_size (length st + 12) (length (arr_body ∷ st) + 10) (omega arith) h)
      (Has-fewer p.stack_size (length st + 12) (length (value ∷ arr_tail ∷ st) + 10) (omega arith)
        h)
      refl refl
first_element (float x) ts p st b h =
    same_step (token number_token (some (float x))) ts p (arr_body ∷ st) (value ∷ arr_tail ∷ st)
      (arr_tail ∷ st) b (built (float x) ∷ b)
      (Has-fewer p.stack_size (length st + 12) (length (arr_body ∷ st) + 10) (omega arith) h)
      (Has-fewer p.stack_size (length st + 12) (length (value ∷ arr_tail ∷ st) + 10) (omega arith)
        h)
      refl refl
first_element (string s) ts p st b h =
    same_step (token string_token (some (string s))) ts p (arr_body ∷ st) (value ∷ arr_tail ∷ st)
      (arr_tail ∷ st) b (built (string s) ∷ b)
      (Has-fewer p.stack_size (length st + 12) (length (arr_body ∷ st) + 10) (omega arith) h)
      (Has-fewer p.stack_size (length st + 12) (length (value ∷ arr_tail ∷ st) + 10) (omega arith)
        h)
      refl refl
first_element (array es) ts p st b h =
    same_step (easy begin_array) (element_tokens es ++ ts) p (arr_body ∷ st) (value ∷ arr_tail ∷ st)
      (arr_body ∷ arr_tail ∷ st) b (arr_marker ∷ b)
      (Has-fewer p.stack_size (length st + 12) (length (arr_body ∷ st) + 10) (omega arith) h)
      (Has-fewer p.stack_size (length st + 12) (length (value ∷ arr_tail ∷ st) + 10) (omega arith)
        h)
      refl refl
first_element (object ms) ts p st b h =
    same_step (easy begin_object) (member_tokens ms ++ ts) p (arr_body ∷ st) (value ∷ arr_tail ∷ st)
      (obj_body ∷ arr_tail ∷ st) b (obj_marker ∷ b)
      (Has-fewer p.stack_size (length st + 12) (length (arr_body ∷ st) + 10) (omega arith) h)
      (Has-fewer p.stack_size (length st + 12) (length (value ∷ arr_tail ∷ st) + 10) (omega arith)
        h)
      refl refl

pub next_element :
    (v : Json) (ts : List Token) (p : Parse) (st : List Sym) (b : List Item)
    → Has p.stack_size (length st + 12)
    → feed (tokens v ++ ts) (with_stacks p (arr_elems ∷ st) b)
      ≡ feed (tokens v ++ ts) (with_stacks p (value ∷ arr_tail ∷ st) b)
unfolding ll_parse
next_element null ts p st b h =
    same_step (token identifier_token (some null)) ts p (arr_elems ∷ st) (value ∷ arr_tail ∷ st)
      (arr_tail ∷ st) b (built null ∷ b)
      (Has-fewer p.stack_size (length st + 12) (length (arr_elems ∷ st) + 10) (omega arith) h)
      (Has-fewer p.stack_size (length st + 12) (length (value ∷ arr_tail ∷ st) + 10) (omega arith)
        h)
      refl refl
next_element (boolean x) ts p st b h =
    same_step (token identifier_token (some (boolean x))) ts p (arr_elems ∷ st)
      (value ∷ arr_tail ∷ st) (arr_tail ∷ st) b (built (boolean x) ∷ b)
      (Has-fewer p.stack_size (length st + 12) (length (arr_elems ∷ st) + 10) (omega arith) h)
      (Has-fewer p.stack_size (length st + 12) (length (value ∷ arr_tail ∷ st) + 10) (omega arith)
        h)
      refl refl
next_element (integer n) ts p st b h =
    same_step (token number_token (some (integer n))) ts p (arr_elems ∷ st) (value ∷ arr_tail ∷ st)
      (arr_tail ∷ st) b (built (integer n) ∷ b)
      (Has-fewer p.stack_size (length st + 12) (length (arr_elems ∷ st) + 10) (omega arith) h)
      (Has-fewer p.stack_size (length st + 12) (length (value ∷ arr_tail ∷ st) + 10) (omega arith)
        h)
      refl refl
next_element (float x) ts p st b h =
    same_step (token number_token (some (float x))) ts p (arr_elems ∷ st) (value ∷ arr_tail ∷ st)
      (arr_tail ∷ st) b (built (float x) ∷ b)
      (Has-fewer p.stack_size (length st + 12) (length (arr_elems ∷ st) + 10) (omega arith) h)
      (Has-fewer p.stack_size (length st + 12) (length (value ∷ arr_tail ∷ st) + 10) (omega arith)
        h)
      refl refl
next_element (string s) ts p st b h =
    same_step (token string_token (some (string s))) ts p (arr_elems ∷ st) (value ∷ arr_tail ∷ st)
      (arr_tail ∷ st) b (built (string s) ∷ b)
      (Has-fewer p.stack_size (length st + 12) (length (arr_elems ∷ st) + 10) (omega arith) h)
      (Has-fewer p.stack_size (length st + 12) (length (value ∷ arr_tail ∷ st) + 10) (omega arith)
        h)
      refl refl
next_element (array es) ts p st b h =
    same_step (easy begin_array) (element_tokens es ++ ts) p (arr_elems ∷ st)
      (value ∷ arr_tail ∷ st) (arr_body ∷ arr_tail ∷ st) b (arr_marker ∷ b)
      (Has-fewer p.stack_size (length st + 12) (length (arr_elems ∷ st) + 10) (omega arith) h)
      (Has-fewer p.stack_size (length st + 12) (length (value ∷ arr_tail ∷ st) + 10) (omega arith)
        h)
      refl refl
next_element (object ms) ts p st b h =
    same_step (easy begin_object) (member_tokens ms ++ ts) p (arr_elems ∷ st)
      (value ∷ arr_tail ∷ st) (obj_body ∷ arr_tail ∷ st) b (obj_marker ∷ b)
      (Has-fewer p.stack_size (length st + 12) (length (arr_elems ∷ st) + 10) (omega arith) h)
      (Has-fewer p.stack_size (length st + 12) (length (value ∷ arr_tail ∷ st) + 10) (omega arith)
        h)
      refl refl
