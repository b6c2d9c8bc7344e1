-- ===== src/Json/Room.antt =====
-- src/libmowgli/ext/json.c: with room on the stack, the parser does what it does on a stack that is
-- never full.
use libmowgli.Base.{
  ℕ, zero, suc, ◌+◌, ◌*◌, ◌≤◌, ◌≡◌, refl, ap, sym, ◌∙◌, List, [], ◌∷◌, ◌++◌, Option, none, some,
  Bool, true, false, ◌==◌, if◌then◌else◌, length, arith, subst,
}
use libmowgli.Json.{Sym, json_document, Token, Item, Parse}
use libmowgli.Json.Table.{ll_table}
use libmowgli.Json.Grammar.{
  with_top, matched, ll_cycle, item_value, sym_code, Turn, leave, again, stuck, ll_turn, ll_loop,
  ll_parse,
}
use libmowgli.Json.Space.{
  Has, Has-fewer, sized, restored, push_lem, resized, Grows, Agree, rule_turn_lem,
}

abbrev leaving : Option Parse → Turn
leaving x = elim x [ none ↦ stuck | some q ↦ leave q ]

-- The end of a document, on a stack that has room.
abbrev pub cycled : Parse → Parse
cycled p =
    let q : Parse = elim p.build [
      | [] ↦ p
      | i ∷ b ↦ record p { out = p.out ++ (item_value i ∷ []); build = b }
    ] in
    if q.multidoc then record q { stack = json_document ∷ q.stack } else q

abbrev pub done : List Sym → Parse → Parse
done [] p = cycled p
done (s ∷ st) p = p

cycled_lem : (p : Parse) → Has p.stack_size (suc (length p.stack)) → ll_cycle p ≡ some (cycled p)
unfolding ll_cycle
cycled_lem p h = by_build p.build p.multidoc
  where
    by_build :
        (b : List Item) (m : Bool)
        → ll_cycle (record p { build = b; multidoc = m })
          ≡ some (cycled (record p { build = b; multidoc = m }))
    by_build [] true = push_lem json_document (record p { build = []; multidoc = true }) h
    by_build (i ∷ b) true =
        push_lem json_document
          (record p { out = p.out ++ (item_value i ∷ []); build = b; multidoc = true }) h
    by_build [] false = refl
    by_build (i ∷ b) false = refl

pub done_lem :
    (st : List Sym) (p : Parse)
    → Has p.stack_size (suc (length p.stack))
    → matched st p ≡ some (done st p)
done_lem [] p h = cycled_lem p h
done_lem (s ∷ st) p h = refl

pub done_sized :
    (st : List Sym) (p : Parse) (o : Option ℕ)
    → sized o (done st (sized none p)) ≡ done st (sized o p)
done_sized st p o = by_parts st p.build p.multidoc
  where
    by_parts :
        (st : List Sym) (b : List Item) (m : Bool)
        → sized o (done st (record p { build = b; multidoc = m; stack_size = none }))
          ≡ done st (record p { build = b; multidoc = m; stack_size = o })
    by_parts (s ∷ st) b m = refl
    by_parts [] [] true = refl
    by_parts [] (i ∷ b) true = refl
    by_parts [] [] false = refl
    by_parts [] (i ∷ b) false = refl

length-done : (st : List Sym) (p : Parse) → length (done st p).stack ≤ suc (length p.stack)
length-done st p = by_parts st p.build p.multidoc
  where
    by_parts :
        (st : List Sym) (b : List Item) (m : Bool)
        → length (done st (record p { build = b; multidoc = m })).stack ≤ suc (length p.stack)
    by_parts (s ∷ st) b m = omega arith
    by_parts [] [] true = omega arith
    by_parts [] (i ∷ b) true = omega arith
    by_parts [] [] false = omega arith
    by_parts [] (i ∷ b) false = omega arith

leave_lem :
    (st : List Sym) (p : Parse) (o : Option ℕ) (n : ℕ)
    → Has o (suc (length p.stack))
    → suc (length p.stack) ≤ n
    → Agree o n (leaving (matched st (sized o p))) (leaving (matched st (sized none p)))
leave_lem st p o n h k =
    subst (λ x. Agree o n (leaving x) (leaving (matched st (sized none p))))
      (sym (done_lem st (sized o p) h))
      (subst (λ x. Agree o n (leave (done st (sized o p))) (leaving x))
        (sym (done_lem st (sized none p) tt))
        (ap leave (sym (done_sized st p o)), omega (arith, length-done st (sized none p))))

if-Agree :
    (o : Option ℕ) (n : ℕ) (b : Bool) (t t' u u' : Turn)
    → Agree o n t u
    → Agree o n t' u'
    → Agree o n (if b then t else t') (if b then u else u')
if-Agree o n true t t' u u' g k = g
if-Agree o n false t t' u u' g k = k

top_lem :
    (top : Sym) (tok : Token) (p : Parse) (o : Option ℕ)
    → Has o (3 + length p.stack)
    → Agree o (3 + length p.stack) (with_top top tok (sized o p)) (with_top top tok (sized none p))
unfolding with_top
top_lem top tok p o h =
    if-Agree o (3 + length p.stack) (sym_code top == sym_code tok.sym) _ _ _ _
      (leave_lem p.stack p o (3 + length p.stack)
        (Has-fewer o (3 + length p.stack) (suc (length p.stack)) (omega arith) h) (omega arith))
      (rule_turn_lem (ll_table top tok.sym) top tok p o h)

turn_lem :
    (st : List Sym) (tok : Token) (p : Parse) (o : Option ℕ)
    → Has o (2 + length st)
    → Agree o
        (2 + length st)
        (ll_turn tok (record p { stack = st; stack_size = o }))
        (ll_turn tok (record p { stack = st; stack_size = none }))
unfolding ll_turn
turn_lem [] tok p o h = (refl, omega arith)
turn_lem (top ∷ st) tok p o h =
    let n : 2 + length (top ∷ st) ≡ 3 + length st = omega arith in
    subst
      (λ k.
        Agree o k (with_top top tok (record p { stack = st; stack_size = o }))
          (with_top top tok (record p { stack = st; stack_size = none })))
      (sym n) (top_lem top tok (record p { stack = st }) o (subst (Has o) n h))

over_turn :
    (t : Turn) (o : Option ℕ) (k n : ℕ) (tok : Token)
    → Grows k t
    → ((q : Parse)
        → length q.stack ≤ k
        → q.stack_size ≡ none
        → ll_loop n tok (sized o q) ≡ restored o (ll_loop n tok q))
    → (elim (resized o t) as (λ _. Option Parse) [
      | leave q ↦ some q
      | again q ↦ ll_loop n tok q
      | stuck ↦ none
    ])
      ≡ restored o (elim t as (λ _. Option Parse) [
        | leave q ↦ some q
        | again q ↦ ll_loop n tok q
        | stuck ↦ none
      ])
over_turn (leave q) o k n tok g f = refl
over_turn (again q) o k n tok g f = f q g.0 g.1
over_turn stuck o k n tok g f = refl

loop_lem :
    (n : ℕ) (tok : Token) (p : Parse) (o : Option ℕ)
    → Has o (length p.stack + 2 * n)
    → p.stack_size ≡ none
    → ll_loop n tok (sized o p) ≡ restored o (ll_loop n tok p)
unfolding ll_loop
loop_lem zero tok p o h e = refl
loop_lem (suc n) tok p o h e =
    let here : sized none p ≡ p = ap (λ z. sized z p) (sym e) in
    let a =
      turn_lem p.stack tok p o
        (Has-fewer o (length p.stack + 2 * suc n) (2 + length p.stack) (omega arith) h) in
    ap
      (λ t. elim t as (λ _. Option Parse) [
        | leave q ↦ some q
        | again q ↦ ll_loop n tok q
        | stuck ↦ none
      ])
      a.0
    ∙ over_turn (ll_turn tok (sized none p)) o (2 + length p.stack) n tok a.1 (λ q k z.
      loop_lem n tok q o
        (Has-fewer o (length p.stack + 2 * suc n) (length q.stack + 2 * n) (omega arith) h) z)
    ∙ ap
        (λ p. restored o (elim (ll_turn tok p) as (λ _. Option Parse) [
          | leave q ↦ some q
          | again q ↦ ll_loop n tok q
          | stuck ↦ none
        ]))
        here

pub ll_parse-sized :
    (tok : Token) (p q : Parse)
    → Has p.stack_size (length p.stack + 10)
    → ll_parse tok (sized none p) ≡ some q
    → ll_parse tok p ≡ some (sized p.stack_size q)
unfolding ll_parse
ll_parse-sized tok p q h e =
    loop_lem 5 tok (sized none p) p.stack_size h refl ∙ ap (restored p.stack_size) e

growth_by :
    (t : Turn) (k m n : ℕ) (tok : Token) (q : Parse)
    → Grows k t
    → k ≤ m
    → ((r : Parse)
        → length r.stack ≤ k
        → r.stack_size ≡ none
        → ll_loop n tok r ≡ some q
        → length q.stack ≤ m)
    → (elim t as (λ _. Option Parse) [
      | leave q ↦ some q
      | again q ↦ ll_loop n tok q
      | stuck ↦ none
    ])
      ≡ some q
    → length q.stack ≤ m
growth_by (leave r) k m n tok q g h f e =
    let same : length r.stack ≡ length q.stack =
      ap (λ o. elim o as (λ _. ℕ) [ none ↦ 0 | some z ↦ length z.stack ]) e in
    omega (arith, g, same)
growth_by (again r) k m n tok q g h f e = f r g.0 g.1 e
growth_by stuck k m n tok q g h f e = absurd (ground arith)

growth :
    (n : ℕ) (tok : Token) (p q : Parse)
    → p.stack_size ≡ none
    → ll_loop n tok p ≡ some q
    → length q.stack ≤ length p.stack + 2 * n
unfolding ll_loop
growth zero tok p q z e = absurd (ground arith)
growth (suc n) tok p q z e =
    let here : sized none p ≡ p = ap (λ z. sized z p) (sym z) in
    growth_by (ll_turn tok p) (2 + length p.stack) (length p.stack + 2 * suc n) n tok q
      (subst (λ p. Grows (2 + length p.stack) (ll_turn tok p)) here
        (turn_lem p.stack tok p none tt).1)
      (omega arith) (λ r k y f. (let g = growth n tok r q y f in omega (arith, g, k))) e

-- A token leaves ten entries more at most.
pub ll_parse-growth :
    (tok : Token) (p q : Parse)
    → p.stack_size ≡ none
    → ll_parse tok p ≡ some q
    → length q.stack ≤ length p.stack + 10
unfolding ll_parse
ll_parse-growth tok p q z e = growth 5 tok p q z e
