-- ===== src/Json/Chars.antt =====
-- src/libmowgli/ext/json.c: a character goes through the lexer three times at most.
use libmowgli.Base.{
  length, ◌+◌, ◌*◌, ◌≤◌, subst, sym, ℕ, suc, ◌≡◌, refl, ap, ◌∙◌, [], Bool, true, false, Option,
  none, some, inl, inr, Option-cases, ◌==◌, ◌||◌, leb, if◌then◌else◌, arith,
}
use libmowgli.Json.{
  Bytes, Sym, cannot_process, Lex, limbo, in_string, in_string_esc, in_string_esc_u, in_number,
  in_identifier, Parse,
}
use libmowgli.Json.Grammar.{parse_error}
use libmowgli.Json.Rules.{has_value}
use libmowgli.Json.Markers.{closers, Covers}
use libmowgli.Json.Space.{Has, Has-fewer}
use libmowgli.Json.Returns.{IsFilled, ll_parse-returns}
use libmowgli.Json.Text.{isalpha, isspace}
use libmowgli.Json.Lexer.{
  token, token_of, lex_tokenize, lex_easy, lex_append, easy_sym, starts_number, goes_on_number,
  Lexed, once, resend, lex_limbo, lex_quoted, lex_word, lex_in, lex_char,
}
use libmowgli.Json.Stream.{lex_again}

-- The markers agree with the stack, wherever the lexer is, and there is room for `k` more tokens.
abbrev pub Agrees : ℕ → Parse → Type 0
Agrees k p = Covers p.build (closers p.stack) × Has p.stack_size (length p.stack + 10 * k)

pub Agrees-fewer : (j k : ℕ) (p : Parse) → k ≤ j → Agrees j p → Agrees k p
Agrees-fewer j k p h a = (
  a.0,
  Has-fewer p.stack_size (length p.stack + 10 * j) (length p.stack + 10 * k) (omega arith) a.1,
)

-- A token takes room for one.
took :
    (k : ℕ) (p q : Parse)
    → Agrees (suc k) p
    → q.stack_size ≡ p.stack_size
    → length q.stack ≤ length p.stack + 10
    → Has q.stack_size (length q.stack + 10 * k)
took k p q a z h =
    subst (λ o. Has o (length q.stack + 10 * k)) (sym z)
      (Has-fewer p.stack_size (length p.stack + 10 * suc k) (length q.stack + 10 * k) (omega arith)
        a.1)

room_now : (k : ℕ) (p : Parse) → Agrees (suc k) p → Has p.stack_size (length p.stack + 10)
room_now k p a =
    Has-fewer p.stack_size (length p.stack + 10 * suc k) (length p.stack + 10) (omega arith) a.1

-- The symbol of an easy character carries no value.
pub easy_sym-has_value : (c : ℕ) (s : Sym) → easy_sym c ≡ some s → has_value s ≡ false
unfolding easy_sym
easy_sym-has_value c s e = ground arith

pub lex_easy-returns :
    (k : ℕ) (p : Parse) (s : Sym)
    → Agrees (suc k) p
    → has_value s ≡ false
    → (q : Parse) × (lex_easy p s ≡ some q) × Agrees k q
unfolding lex_easy
lex_easy-returns k p s h e =
    let r = ll_parse-returns (token s none) p h.0 (room_now k p h) (λ f. absurd (ground arith)) in
    (r.0, r.1, (r.2, took k p r.0 h r.4 r.5))

pub token_of-IsFilled : (strtod : Bytes → ℕ) (l : Lex) (s : Bytes) → IsFilled (token_of strtod l s)
unfolding token_of
token_of-IsFilled strtod in_string s = λ e. (_, refl)
token_of-IsFilled strtod in_number s = λ e. (_, refl)
token_of-IsFilled strtod in_identifier s = λ e. (_, refl)
token_of-IsFilled strtod limbo s = λ e. absurd (ground arith)
token_of-IsFilled strtod in_string_esc s = λ e. absurd (ground arith)
token_of-IsFilled strtod in_string_esc_u s = λ e. absurd (ground arith)

pub lex_tokenize-returns :
    (strtod : Bytes → ℕ) (k : ℕ) (p : Parse)
    → Agrees (suc k) p
    → (q : Parse) × (lex_tokenize strtod p ≡ some q) × (q.lex ≡ limbo) × Agrees k q
unfolding lex_tokenize
lex_tokenize-returns strtod k p h =
    let r =
      ll_parse-returns (token_of strtod p.lex p.buf) (record p { buf = []; lex = limbo }) h.0
        (room_now k p h) (token_of-IsFilled strtod p.lex p.buf) in
    (r.0, r.1, r.3, (r.2, took k p r.0 h r.4 r.5))

module _ (strtod : Bytes → ℕ) (c : ℕ) where
  pub stops :
      (n : ℕ) (p q : Parse)
      → lex_char strtod p c ≡ some (q, false)
      → lex_again (suc n) strtod p c ≡ some q
  unfolding lex_again
  stops n p q e =
      ap
        (λ o. elim o as (λ _. Option Parse) [
          | none ↦ none
          | some r ↦ elim r.1 as (λ _. Option Parse) [
            | false ↦ some r.0
            | true ↦ lex_again n strtod r.0 c
          ]
        ])
        e

  pub goes :
      (n : ℕ) (p q : Parse)
      → lex_char strtod p c ≡ some (q, true)
      → lex_again (suc n) strtod p c ≡ lex_again n strtod q c
  unfolding lex_again
  goes n p q e =
      ap
        (λ o. elim o as (λ _. Option Parse) [
          | none ↦ none
          | some r ↦ elim r.1 as (λ _. Option Parse) [
            | false ↦ some r.0
            | true ↦ lex_again n strtod r.0 c
          ]
        ])
        e

  pub in_state : (l : Lex) (p : Parse) → p.lex ≡ l → lex_char strtod p c ≡ lex_in strtod l p c
  unfolding lex_char
  in_state l p e = ap (λ m. lex_in strtod m p c) e

module _ (strtod : Bytes → ℕ) (c k : ℕ) where
  -- The character goes through at most `n` times, and leaves
  -- room for `k` tokens.
  abbrev pub Ends : ℕ → Parse → Type 0
  Ends n p = (q : Parse) × (lex_again n strtod p c ≡ some q) × Agrees k q

  pub word-Ends :
      (n : ℕ) (l : Lex) (p : Parse) (b : Bool)
      → lex_char strtod p c ≡ lex_word strtod b p c
      → b ≡ true
      → Agrees (suc k) p
      → Ends (suc n) p
  unfolding lex_word
  word-Ends n l p true e f h = (
    lex_append c p,
    stops strtod c n p (lex_append c p) e,
    Agrees-fewer (suc k) k p (omega arith) h,
  )
  word-Ends n l p false e f h = absurd (ground arith)

  pub number-Ends :
      (n : ℕ) (p : Parse)
      → p.lex ≡ in_number
      → starts_number c ≡ true
      → Agrees (suc k) p
      → Ends (suc n) p
  unfolding lex_in
  number-Ends n p e f h =
      word-Ends n in_number p (goes_on_number c) (in_state strtod c in_number p e)
        (ap (λ b. b || ((c == 69) || (c == 101))) f) h

  pub identifier-Ends :
      (n : ℕ) (p : Parse)
      → p.lex ≡ in_identifier
      → isalpha c ≡ true
      → Agrees (suc k) p
      → Ends (suc n) p
  unfolding lex_in
  identifier-Ends n p e f h =
      word-Ends n in_identifier p (isalpha c) (in_state strtod c in_identifier p e) f h

  pub goes-Ends :
      (n : ℕ) (p q : Parse) → lex_char strtod p c ≡ some (q, true) → Ends n q → Ends (suc n) p
  goes-Ends n p q e r = (r.0, goes strtod c n p q e ∙ r.1, r.2)

  -- The tests of `lex_limbo` on a character that is no token.
  pub limbo_rest :
      (n : ℕ) (p : Parse) (number letter quote space : Bool)
      → starts_number c ≡ number
      → isalpha c ≡ letter
      → (lex_char strtod p c ≡ (
          if number
          then some (record p { lex = in_number }, true)
          else if letter
          then some (record p { lex = in_identifier }, true)
          else if quote
          then some (record p { lex = in_string }, false)
          else if space
          then some (p, false)
          else some (parse_error (cannot_process c) p, false)))
      → Agrees (suc k) p
      → Ends (suc (suc n)) p
  limbo_rest n p true l q s e f e2 h =
      goes-Ends (suc n) p (record p { lex = in_number }) e2
        (number-Ends n (record p { lex = in_number }) refl e h)
  limbo_rest n p false true q s e f e2 h =
      goes-Ends (suc n) p (record p { lex = in_identifier }) e2
        (identifier-Ends n (record p { lex = in_identifier }) refl f h)
  limbo_rest n p false false true s e f e2 h = (
    record p { lex = in_string },
    stops strtod c (suc n) p _ e2,
    Agrees-fewer (suc k) k p (omega arith) h,
  )
  limbo_rest n p false false false true e f e2 h =
      (p, stops strtod c (suc n) p _ e2, Agrees-fewer (suc k) k p (omega arith) h)
  limbo_rest n p false false false false e f e2 h = (
    parse_error (cannot_process c) p,
    stops strtod c (suc n) p _ e2,
    Agrees-fewer (suc k) k p (omega arith) h,
  )

  pub limbo_by : Parse → Option Sym → Lexed
  limbo_by p o = elim o [
    | some s ↦ once (lex_easy p s)
    | none ↦
        if starts_number c
        then some (record p { lex = in_number }, true)
        else if isalpha c
        then some (record p { lex = in_identifier }, true)
        else if c == 34
        then some (record p { lex = in_string }, false)
        else if isspace c
        then some (p, false)
        else some (parse_error (cannot_process c) p, false)
  ]

  pub limbo-Ends : (n : ℕ) (p : Parse) → p.lex ≡ limbo → Agrees (suc k) p → Ends (suc (suc n)) p
  unfolding lex_in lex_limbo limbo_by
  limbo-Ends n p e h =
      let f : lex_char strtod p c ≡ limbo_by p (easy_sym c) = in_state strtod c limbo p e in
      elim (Option-cases (easy_sym c)) [
        | inl g ↦
            limbo_rest n p (starts_number c) (isalpha c) (c == 34) (isspace c) refl refl
              (f ∙ ap (limbo_by p) g) h
        | inr (s, g) ↦
            let r = lex_easy-returns k p s h (easy_sym-has_value c s g) in
            (r.0, stops strtod c (suc n) p r.0 (f ∙ (ap (limbo_by p) g ∙ ap once r.1)), r.2)
      ]

  pub word_or_token :
      (p : Parse) (b : Bool)
      → lex_char strtod p c ≡ lex_word strtod b p c
      → Agrees (suc (suc k)) p
      → Ends 3 p
  unfolding lex_word
  word_or_token p true e h = (
    lex_append c p,
    stops strtod c 2 p (lex_append c p) e,
    Agrees-fewer (suc (suc k)) k p (omega arith) h,
  )
  word_or_token p false e h =
      let r = lex_tokenize-returns strtod (suc k) p h in
      goes-Ends 2 p r.0 (e ∙ ap resend r.1) (limbo-Ends 0 r.0 r.2 r.3)

  pub quoted :
      (p : Parse) (escape quote : Bool)
      → (lex_char strtod p c ≡ (
          if escape
          then some (record (lex_append c p) { lex = in_string_esc }, false)
          else if quote
          then once (lex_tokenize strtod p)
          else some (lex_append c p, false)))
      → Agrees (suc (suc k)) p
      → Ends 3 p
  quoted p true q e h = (_, stops strtod c 2 p _ e, Agrees-fewer (suc (suc k)) k p (omega arith) h)
  quoted p false true e h =
      let r = lex_tokenize-returns strtod (suc k) p h in
      (r.0, stops strtod c 2 p r.0 (e ∙ ap once r.1), Agrees-fewer (suc k) k r.0 (omega arith) r.3)
  quoted p false false e h =
      (_, stops strtod c 2 p _ e, Agrees-fewer (suc (suc k)) k p (omega arith) h)

  pub escaped :
      (p q r : Parse) (b : Bool)
      → lex_char strtod p c ≡ (if b then some (q, false) else some (r, false))
      → Agrees (suc (suc k)) q
      → Agrees (suc (suc k)) r
      → Ends 3 p
  escaped p q r true e h h2 =
      (q, stops strtod c 2 p q e, Agrees-fewer (suc (suc k)) k q (omega arith) h)
  escaped p q r false e h h2 =
      (r, stops strtod c 2 p r e, Agrees-fewer (suc (suc k)) k r (omega arith) h2)

  pub digit_read :
      (p q r : Parse) (b : Bool)
      → lex_char strtod p c ≡ some (if b then q else r, false)
      → Agrees (suc (suc k)) q
      → Agrees (suc (suc k)) r
      → Ends 3 p
  digit_read p q r true e h h2 =
      (q, stops strtod c 2 p q e, Agrees-fewer (suc (suc k)) k q (omega arith) h)
  digit_read p q r false e h h2 =
      (r, stops strtod c 2 p r e, Agrees-fewer (suc (suc k)) k r (omega arith) h2)

  pub char-Ends : (l : Lex) (p : Parse) → p.lex ≡ l → Agrees (suc (suc k)) p → Ends 3 p
  unfolding lex_in lex_quoted
  char-Ends limbo p e h = limbo-Ends 1 p e (Agrees-fewer (suc (suc k)) (suc k) p (omega arith) h)
  char-Ends in_string p e h = quoted p (c == 92) (c == 34) (in_state strtod c in_string p e) h
  char-Ends in_string_esc p e h = escaped p _ _ (c == 117) (in_state strtod c in_string_esc p e) h h
  char-Ends in_string_esc_u p e h =
      digit_read p _ _ (leb 4 (suc p.lex_u)) (in_state strtod c in_string_esc_u p e) h h
  char-Ends in_number p e h = word_or_token p (goes_on_number c) (in_state strtod c in_number p e) h
  char-Ends in_identifier p e h =
      word_or_token p (isalpha c) (in_state strtod c in_identifier p e) h
