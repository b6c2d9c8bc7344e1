-- ===== src/Json/Returns.antt =====
-- src/libmowgli/ext/json.c: the parser returns from every token.
use libmowgli.Base.{
  length, ◌+◌, ◌≤◌, ℕ, zero, suc, ◌<◌, ◌≡◌, refl, sym, subst, List, [], ◌∷◌, Bool, true, false,
  Option, none, some, arith, ◌==◌, if◌then◌else◌,
}
use libmowgli.Json.{
  Json, Sym, obj_body, obj_elems, obj_tail, arr_body, arr_elems, arr_tail, Token, Item, Parse,
  Message, Lex, Bytes,
}
use libmowgli.Json.Table.{Rule, rule_0, ll_table}
use libmowgli.Json.Grammar.{
  sym_code, by_rule, with_top, ll_turn, ll_loop, ll_parse, matched, Turn, leave, again, stuck,
}
use libmowgli.Json.Space.{Has, sized}
use libmowgli.Json.Room.{ll_parse-sized, ll_parse-growth, cycled, done, done_lem}
use libmowgli.Json.Rules.{has_value, Suits, table_lem}
use libmowgli.Json.Markers.{ends_object, ends_array, closers, Covers, Covers-fewer}
use libmowgli.Json.Expand.{Holds, rank, top_rank, Good, rule_lem}

-- What `lex_tokenize` and `lex_easy` send on: a token that carries a value has one.
abbrev pub IsFilled : Token → Type 0
IsFilled tok = (has_value tok.sym ≡ true) → (v : Json) × (tok.val ≡ some v)

Covers-tail :
    (top : Sym) (st : List Sym) (b : List Item)
    → Covers b (closers (top ∷ st))
    → Covers b (closers st)
Covers-tail obj_body st b h = Covers-fewer b ends_object (closers st) h
Covers-tail obj_elems st b h = Covers-fewer b ends_object (closers st) h
Covers-tail obj_tail st b h = Covers-fewer b ends_object (closers st) h
Covers-tail arr_body st b h = Covers-fewer b ends_array (closers st) h
Covers-tail arr_elems st b h = Covers-fewer b ends_array (closers st) h
Covers-tail arr_tail st b h = Covers-fewer b ends_array (closers st) h
Covers-tail s st b h = h

suits_lem :
    (l : Lex) (r : Rule) (top : Sym) (tok : Token) (p : Parse)
    → Suits top tok.sym r
    → Covers p.build (closers (top ∷ p.stack))
    → (p.lex ≡ l)
    → (p.stack_size ≡ none)
    → IsFilled tok
    → Good l (rank top) (by_rule r top tok p)
unfolding by_rule
suits_lem l rule_0 top tok p s h m z f = (Covers-tail top p.stack p.build h, m, z)
suits_lem l r top tok p s h m z f =
    subst (λ t. Good l (rank t) (by_rule r t tok p)) s.0
      (rule_lem l r tok p (subst (λ t. Covers p.build (closers (t ∷ p.stack))) (sym s.0) h) m z
        (λ e. f (s.1 e)))

cycle_lem :
    (out : List Json) (error : Option Message) (multidoc : Bool) (build : List Item) (buf : Bytes)
    (lex : Lex) (u : ℕ)
    → Holds lex (
        cycled (record {
          out = out;
          error = error;
          multidoc = multidoc;
          build = build;
          stack = [];
          stack_size = none;
          buf = buf;
          lex = lex;
          lex_u = u;
        }))
cycle_lem out error true [] buf lex u = (tt, refl, refl)
cycle_lem out error true (i ∷ b) buf lex u = (tt, refl, refl)
cycle_lem out error false [] buf lex u = (tt, refl, refl)
cycle_lem out error false (i ∷ b) buf lex u = (tt, refl, refl)

done-Holds :
    (p : Parse) (st : List Sym)
    → Covers p.build (closers st)
    → Holds p.lex (done st (record p { stack = st; stack_size = none }))
done-Holds p [] h = cycle_lem p.out p.error p.multidoc p.build p.buf p.lex p.lex_u
done-Holds p (s ∷ st) h = (h, refl, refl)

matched-Good :
    (p : Parse) (st : List Sym) (n : ℕ)
    → Covers p.build (closers st)
    → p.stack_size ≡ none
    → Good p.lex n (elim (matched st (record p { stack = st })) as (λ _. Turn) [
      | none ↦ stuck
      | some q ↦ leave q
    ])
matched-Good p st n h z =
    let q = record p { stack = st; stack_size = none } in
    subst
      (λ o.
        Good p.lex n (elim (matched st (record p { stack = st; stack_size = o })) as (λ _. Turn) [
          | none ↦ stuck
          | some q ↦ leave q
        ]))
      (sym z)
      (subst (λ o. Good p.lex n (elim o as (λ _. Turn) [ none ↦ stuck | some q ↦ leave q ]))
        (sym (done_lem st q tt)) (done-Holds p st h))

if-Good :
    (l : Lex) (n : ℕ) (x y : Turn) (b : Bool)
    → Good l n x
    → Good l n y
    → Good l n (if b then x else y)
if-Good l n x y true g k = g
if-Good l n x y false g k = k

with_top_lem :
    (top : Sym) (tok : Token) (p : Parse)
    → Covers p.build (closers (top ∷ p.stack))
    → p.stack_size ≡ none
    → IsFilled tok
    → Good p.lex (rank top) (with_top top tok p)
unfolding with_top
with_top_lem top tok p h z f =
    if-Good p.lex (rank top) _ _ (sym_code top == sym_code tok.sym)
      (matched-Good p p.stack (rank top) (Covers-tail top p.stack p.build h) z)
      (suits_lem p.lex (ll_table top tok.sym) top tok p (table_lem top tok.sym) h refl z f)

turn_lem :
    (tok : Token) (p : Parse) (st : List Sym)
    → Covers p.build (closers st)
    → p.stack_size ≡ none
    → IsFilled tok
    → Good p.lex (top_rank st) (ll_turn tok (record p { stack = st }))
unfolding ll_turn
turn_lem tok p [] h z f = (tt, refl, z)
turn_lem tok p (top ∷ st) h z f = with_top_lem top tok (record p { stack = st }) h z f

turned_lem :
    (l : Lex) (n m : ℕ) (tok : Token) (t : Turn)
    → Good l m t
    → ((q : Parse)
        → Holds l q
        → top_rank q.stack < m
        → (r : Parse) × (ll_loop n tok q ≡ some r) × Holds l r)
    → (q : Parse) × (elim t as (λ _. Option Parse) [
      | leave q ↦ some q
      | again q ↦ ll_loop n tok q
      | stuck ↦ none
    ]
        ≡ some q)
      × Holds l q
turned_lem l n m tok (leave q) g k = (q, refl, g)
turned_lem l n m tok (again q) g k = k q g.0 g.1
turned_lem l n m tok stuck g k = absurd (ground arith)

loop_lem :
    (l : Lex) (n : ℕ) (tok : Token) (p : Parse)
    → Holds l p
    → IsFilled tok
    → top_rank p.stack < n
    → (q : Parse) × (ll_loop n tok p ≡ some q) × Holds l q
unfolding ll_loop
loop_lem l zero tok p h f k = absurd (omega arith)
loop_lem l (suc n) tok p h f k =
    turned_lem l n (top_rank p.stack) tok (ll_turn tok p)
      (subst (λ l. Good l (top_rank p.stack) (ll_turn tok p)) h.1
        (turn_lem tok p p.stack h.0 h.2 f))
      (λ q g j. loop_lem l n tok q g f (omega arith))

top_rank_bound : (st : List Sym) → top_rank st < 5
top_rank_bound [] = omega arith
top_rank_bound (arr_body ∷ st) = omega arith
top_rank_bound (s ∷ st) = omega arith

unsized_returns :
    (l : Lex) (tok : Token) (p : Parse)
    → Holds l p
    → IsFilled tok
    → (q : Parse) × (ll_parse tok p ≡ some q) × Holds l q
unfolding ll_parse
unsized_returns l tok p h f = loop_lem l 5 tok p h f (top_rank_bound p.stack)

-- On a stack with room for ten more entries, of any size.
pub ll_parse-returns :
    (tok : Token) (p : Parse)
    → Covers p.build (closers p.stack)
    → Has p.stack_size (length p.stack + 10)
    → IsFilled tok
    → (q : Parse) × (ll_parse tok p ≡ some q)
      × Covers q.build (closers q.stack)
      × (q.lex ≡ p.lex)
      × (q.stack_size ≡ p.stack_size)
      × (length q.stack ≤ length p.stack + 10)
ll_parse-returns tok p h k f =
    let r = unsized_returns p.lex tok (sized none p) (h, refl, refl) f in
    (
      sized p.stack_size r.0,
      ll_parse-sized tok p r.0 k r.1,
      r.2.0,
      r.2.1,
      refl,
      ll_parse-growth tok (sized none p) r.0 refl r.1,
    )
