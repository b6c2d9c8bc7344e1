-- ===== src/Json/Chunks.antt =====
-- src/libmowgli/ext/json.c: the parser on a text that comes in pieces, and after an error.
use libmowgli.Base.{
  ℕ, ◌≡◌, refl, ap, sym, ◌∙◌, List, [], ◌∷◌, ◌++◌, false, Option, none, some, inl, inr,
  Option-cases,
}
use libmowgli.Memory.{◌>>=◌}
use libmowgli.Json.{Bytes, Message, Parse}
use libmowgli.Json.Terminated.{HasNoNul, c_string-HasNoNul}
use libmowgli.Json.Stream.{
  parse_char, parse_data, parse_blocks, parse_reset, parse_string, parse_file, take_result,
}

abbrev pub concat : List Bytes → Bytes
concat [] = []
concat (b ∷ bs) = b ++ concat bs

module _ (strtod : Bytes → ℕ) where
  by_error : Parse → Option Message → (Parse → Option Parse) → Option Parse → Option Parse
  by_error p e k o = elim e [ some m ↦ some p | none ↦ o >>= k ]

  -- After an error no byte is read.
  pub parse_data-error :
      (p : Parse) (m : Message) (s : Bytes) → p.error ≡ some m → parse_data strtod p s ≡ some p
  unfolding parse_data by_error
  parse_data-error p m [] e = refl
  parse_data-error p m (c ∷ cs) e =
      ap (λ e. by_error p e (λ q. parse_data strtod q cs) (parse_char strtod p c)) e

  bind_assoc :
      (o : Option Parse) (f g h : Parse → Option Parse)
      → ((q : Parse) → h q ≡ (f q >>= g))
      → (o >>= h) ≡ ((o >>= f) >>= g)
  bind_assoc none f g h e = refl
  bind_assoc (some q) f g h e = e q

  -- A text in two pieces is parsed as the text in one piece is, errors included.
  pub parse_data-append :
      (p : Parse) (s t : Bytes)
      → parse_data strtod p (s ++ t) ≡ (parse_data strtod p s >>= λ q. parse_data strtod q t)
  unfolding parse_data by_error
  parse_data-append p [] t = refl
  parse_data-append p (c ∷ cs) t = elim (Option-cases p.error) [
    | inl e ↦
        ap (λ e. by_error p e (λ q. parse_data strtod q (cs ++ t)) (parse_char strtod p c)) e
        ∙ (bind_assoc (parse_char strtod p c) (λ q. parse_data strtod q cs)
              (λ q. parse_data strtod q t) (λ q. parse_data strtod q (cs ++ t))
              (λ q. parse_data-append q cs t)
            ∙ ap (λ o. o >>= λ q. parse_data strtod q t)
                (sym
                  (ap (λ e. by_error p e (λ q. parse_data strtod q cs) (parse_char strtod p c)) e)))
    | inr (m, e) ↦
        parse_data-error p m (c ∷ (cs ++ t)) e
        ∙ (sym (parse_data-error p m t e)
            ∙ ap (λ o. o >>= λ q. parse_data strtod q t) (sym (parse_data-error p m (c ∷ cs) e)))
  ]

  -- The loop over the blocks of a file stops at an error, and so does the text in one piece.
  pub parse_blocks-concat :
      (p : Parse) (bs : List Bytes) → parse_blocks strtod p bs ≡ parse_data strtod p (concat bs)
  unfolding parse_blocks by_error parse_data
  parse_blocks-concat p [] = refl
  parse_blocks-concat p (b ∷ bs) = elim (Option-cases p.error) [
    | inl e ↦
        ap (λ e. by_error p e (λ q. parse_blocks strtod q bs) (parse_data strtod p b)) e
        ∙ (bind_ext (parse_data strtod p b) (λ q. parse_blocks-concat q bs)
            ∙ sym (parse_data-append p b (concat bs)))
    | inr (m, e) ↦
        ap (λ e. by_error p e (λ q. parse_blocks strtod q bs) (parse_data strtod p b)) e
        ∙ sym (parse_data-error p m (b ++ concat bs) e)
  ]
    where
      bind_ext :
          {f g : Parse → Option Parse} (o : Option Parse)
          → ((q : Parse) → f q ≡ g q)
          → (o >>= f) ≡ (o >>= g)
      bind_ext none e = refl
      bind_ext (some q) e = e q

  -- A file without NUL bytes that comes in blocks of any sizes is parsed as a string with the
  -- same bytes is: the same result and the same state of the parser.
  pub parse_file-parse_string :
      (p : Parse) (bs : List Bytes)
      → HasNoNul (concat bs)
      → parse_file strtod p (some bs) ≡ parse_string strtod p (concat bs)
  unfolding parse_file parse_string
  parse_file-parse_string p bs h =
      ap (λ o. o >>= λ q. some (take_result q)) (parse_blocks-concat (parse_reset false p) bs)
      ∙ ap (λ s. parse_data strtod (parse_reset false p) s >>= λ q. some (take_result q))
          (sym (c_string-HasNoNul (concat bs) h))
