-- ===== src/Json/Slots.antt =====
-- src/libmowgli/ext/json.c: runs of the parser over the texts of literals and the space between them.
use libmowgli.Base.{
  length, ◌+◌, ℕ, zero, suc, ◌≡◌, refl, ap, ◌∙◌, List, [], ◌∷◌, ◌++◌, true, false, none, some, ◌==◌,
  if◌then◌else◌,
}
use libmowgli.Json.{
  Bytes, Json, Sym, begin_object, begin_array, name_sep, string_token, number_token,
  identifier_token, value, obj_body, obj_elems, obj_tail, arr_body, arr_elems, arr_tail, Item,
  built, obj_marker, arr_marker, Parse, limbo, in_identifier, in_number, in_string, cannot_process,
}
use libmowgli.Json.Grammar.{ll_parse, parse_error}
use libmowgli.Json.Text.{isalpha, isspace}
use libmowgli.Json.Lexer.{
  token, easy_sym, lex_easy, once, Lexed, lex_in, lex_limbo, lex_char, starts_number,
}
use libmowgli.Json.Stream.{lex_again, parse_char, parse_data}
use libmowgli.Json.Chars.{stops, in_state}
use libmowgli.Json.Tokens.{easy}
use libmowgli.Json.Print.{serialize_pretty_indent, serialize_pretty_break}
use libmowgli.Json.Space.{Has}
use libmowgli.Json.Steps.{step}
use libmowgli.Json.Letters.{clean, IsEnd, one}

module _ (strtod : Bytes → ℕ) where
  -- The parser comes from a state in front of a text to another in front of the rest; what is left
  -- in `lex_u` does not matter.
  abbrev pub Reads : (ℕ → Parse) → Bytes → (ℕ → Parse) → Bytes → Type 0
  Reads f x g y = (u : ℕ) → (v : ℕ) × (parse_data strtod (f u) x ≡ parse_data strtod (g v) y)

  pub Reads-then :
      (f g h : ℕ → Parse) (x y z : Bytes) → Reads f x g y → Reads g y h z → Reads f x h z
  Reads-then f g h x y z r s = λ u. (let a = r u in let b = s a.0 in (b.0, a.1 ∙ b.1))

  pub Reads-as : (f g : ℕ → Parse) (x y z : Bytes) → x ≡ y → Reads f y g z → Reads f x g z
  Reads-as f g x y z e r = λ u. (let a = r u in (a.0, ap (parse_data strtod (f u)) e ∙ a.1))

  module _ (p : Parse) where
    -- A character that is a token.
    pub easy-Reads :
        (c : ℕ) (s : Sym) (x : Bytes) (st : List Sym) (b : List Item) (g : ℕ → Parse)
        → easy_sym c ≡ some s
        → ((u : ℕ) → ll_parse (easy s) (clean p st b u) ≡ some (g u))
        → Reads (clean p st b) (c ∷ x) g x
    unfolding lex_in lex_limbo lex_easy parse_char
    easy-Reads c s x st b g e k = λ u.
        (let q = clean p st b u in
          (
            u,
            one strtod q (g u) c x refl (
                stops strtod c 2 q (g u) (
                  in_state strtod c limbo q refl
                  ∙ (ap
                        (λ o. elim o as (λ _. Lexed) [
                          | some s ↦ once (lex_easy q s)
                          | none ↦
                              if starts_number c
                              then some (record q { lex = in_number }, true)
                              else if isalpha c
                              then some (record q { lex = in_identifier }, true)
                              else if c == 34
                              then some (record q { lex = in_string }, false)
                              else if isspace c
                              then some (q, false)
                              else some (parse_error (cannot_process c) q, false)
                        ])
                        e
                      ∙ ap once (k u)))),
          ))

    pub indent-Reads :
        (n : ℕ) (x : Bytes) (st : List Sym) (b : List Item)
        → Reads (clean p st b) (serialize_pretty_indent n ++ x) (clean p st b) x
    unfolding serialize_pretty_indent parse_data parse_char lex_again lex_char lex_in lex_limbo
    indent-Reads zero x st b = λ u. (u, refl)
    indent-Reads (suc n) x st b = λ u. (let r = indent-Reads n x st b u in (r.0, r.1))

    pub break-Reads :
        (n : ℕ) (x : Bytes) (st : List Sym) (b : List Item)
        → Reads (clean p st b) (serialize_pretty_break n ++ x) (clean p st b) x
    unfolding serialize_pretty_break parse_data parse_char lex_again lex_char lex_in lex_limbo
    break-Reads zero x st b = λ u. (u, refl)
    break-Reads (suc n) x st b = λ u. (u, refl)

  -- A text that starts with a byte that ends words.
  abbrev pub Ends : Bytes → Type 0
  Ends [] = false ≡ true
  Ends (d ∷ x) = IsEnd strtod d

  -- The symbol `x` reads a value, and then `st` goes on.
  abbrev pub Slot : Sym → List Sym → List Sym → Type 0
  Slot x st' st =
      (p : Parse) (b : List Item) (u : ℕ)
      → Has p.stack_size (length (x ∷ st') + 10)
      → ((j : Json)
          → (ll_parse (token string_token (some j)) (clean p (x ∷ st') b u)
              ≡ some (clean p st (built j ∷ b) u))
            × (ll_parse (token number_token (some j)) (clean p (x ∷ st') b u)
                ≡ some (clean p st (built j ∷ b) u))
            × (ll_parse (token identifier_token (some j)) (clean p (x ∷ st') b u)
                ≡ some (clean p st (built j ∷ b) u)))
        × (ll_parse (easy begin_object) (clean p (x ∷ st') b u)
            ≡ some (clean p (obj_body ∷ st) (obj_marker ∷ b) u))
        × (ll_parse (easy begin_array) (clean p (x ∷ st') b u)
            ≡ some (clean p (arr_body ∷ st) (arr_marker ∷ b) u))

  pub value-Slot : (s : Sym) (st : List Sym) → Slot value (s ∷ st) (s ∷ st)
  unfolding ll_parse
  value-Slot s st = λ p b u h. (
    λ j. (
      step (token string_token (some j)) (clean p [] [] u) (value ∷ s ∷ st) (s ∷ st) b (built j ∷ b)
          h refl,
      step (token number_token (some j)) (clean p [] [] u) (value ∷ s ∷ st) (s ∷ st) b (built j ∷ b)
          h refl,
      step (token identifier_token (some j)) (clean p [] [] u) (value ∷ s ∷ st) (s ∷ st) b
          (built j ∷ b) h refl,
    ),
    step (easy begin_object) (clean p [] [] u) (value ∷ s ∷ st) (obj_body ∷ s ∷ st) b
        (obj_marker ∷ b) h refl,
    step (easy begin_array) (clean p [] [] u) (value ∷ s ∷ st) (arr_body ∷ s ∷ st) b
        (arr_marker ∷ b) h refl,
  )

  pub arr_body-Slot : (st : List Sym) → Slot arr_body st (arr_tail ∷ st)
  unfolding ll_parse
  arr_body-Slot st = λ p b u h. (
    λ j. (
      step (token string_token (some j)) (clean p [] [] u) (arr_body ∷ st) (arr_tail ∷ st) b
          (built j ∷ b) h refl,
      step (token number_token (some j)) (clean p [] [] u) (arr_body ∷ st) (arr_tail ∷ st) b
          (built j ∷ b) h refl,
      step (token identifier_token (some j)) (clean p [] [] u) (arr_body ∷ st) (arr_tail ∷ st) b
          (built j ∷ b) h refl,
    ),
    step (easy begin_object) (clean p [] [] u) (arr_body ∷ st) (obj_body ∷ arr_tail ∷ st) b
        (obj_marker ∷ b) h refl,
    step (easy begin_array) (clean p [] [] u) (arr_body ∷ st) (arr_body ∷ arr_tail ∷ st) b
        (arr_marker ∷ b) h refl,
  )

  pub arr_elems-Slot : (st : List Sym) → Slot arr_elems st (arr_tail ∷ st)
  unfolding ll_parse
  arr_elems-Slot st = λ p b u h. (
    λ j. (
      step (token string_token (some j)) (clean p [] [] u) (arr_elems ∷ st) (arr_tail ∷ st) b
          (built j ∷ b) h refl,
      step (token number_token (some j)) (clean p [] [] u) (arr_elems ∷ st) (arr_tail ∷ st) b
          (built j ∷ b) h refl,
      step (token identifier_token (some j)) (clean p [] [] u) (arr_elems ∷ st) (arr_tail ∷ st) b
          (built j ∷ b) h refl,
    ),
    step (easy begin_object) (clean p [] [] u) (arr_elems ∷ st) (obj_body ∷ arr_tail ∷ st) b
        (obj_marker ∷ b) h refl,
    step (easy begin_array) (clean p [] [] u) (arr_elems ∷ st) (arr_body ∷ arr_tail ∷ st) b
        (arr_marker ∷ b) h refl,
  )

  -- The symbol `x` reads the name of a member.
  abbrev pub KeySlot : Sym → List Sym → List Sym → Type 0
  KeySlot x st' st =
      (p : Parse) (b : List Item) (u : ℕ) (j : Json)
      → Has p.stack_size (length (x ∷ st') + 10)
      → ll_parse (token string_token (some j)) (clean p (x ∷ st') b u)
        ≡ some (clean p (name_sep ∷ value ∷ obj_tail ∷ st) (built j ∷ b) u)

  pub obj_body-KeySlot : (st : List Sym) → KeySlot obj_body st st
  unfolding ll_parse
  obj_body-KeySlot st = λ p b u j h.
      step (token string_token (some j)) (clean p [] [] u) (obj_body ∷ st)
        (name_sep ∷ value ∷ obj_tail ∷ st) b (built j ∷ b) h refl

  pub obj_elems-KeySlot : (st : List Sym) → KeySlot obj_elems st st
  unfolding ll_parse
  obj_elems-KeySlot st = λ p b u j h.
      step (token string_token (some j)) (clean p [] [] u) (obj_elems ∷ st)
        (name_sep ∷ value ∷ obj_tail ∷ st) b (built j ∷ b) h refl
