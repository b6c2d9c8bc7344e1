-- ===== src/Json/Accept.antt =====
-- src/libmowgli/ext/json.c: the parser on the tokens of a value.
use libmowgli.Base.{
  suc, sym, subst, ℕ, ◌+◌, ◌-◌, ◌≤◌, length, ◌≡◌, refl, ap, ◌∙◌, List, [], ◌∷◌, ◌++◌, append_assoc,
  true, false, some, if◌then◌else◌, arith,
}
use libmowgli.Memory.{◌>>=◌}
use libmowgli.Json.{
  Json, null, boolean, integer, float, string, array, object, Elements, empty, element, Members,
  no_members, member, Sym, json_document, value, obj_body, obj_tail, arr_body, arr_elems, arr_tail,
  Token, Item, built, begin_array, begin_object, value_sep, name_sep, obj_elems, string_token,
  number_token, identifier_token, obj_marker, arr_marker, Parse,
}
use libmowgli.Json.Grammar.{c_string, object_add, obj_end_loop, arr_end_loop, ll_parse}
use libmowgli.Json.Space.{Has}
use libmowgli.Json.Lexer.{token}
use libmowgli.Json.Tokens.{
  IsWithin, AreWithin, MembersAreWithin, easy, tokens, element_tokens, more_elements, member_tokens,
  more_members, canonical, canonical_elements, canonical_members, feed,
}
use libmowgli.Json.Steps.{
  with_stacks, settle, Collects, CollectsMembers, Roomy, Roomy-fewer, arr_close, obj_close,
  arr_empty, obj_empty, fed, first_element, next_element,
}

feed_assoc :
    (xs ys ts : List Token) (q : Parse) → feed ((xs ++ ys) ++ ts) q ≡ feed (xs ++ (ys ++ ts)) q
feed_assoc xs ys ts q = ap (λ us. feed us q) (append_assoc xs ys ts)

-- One level in.
pub level : (p : Parse) (k : ℕ) (st : List Sym) → 1 ≤ k → Roomy p k st → Roomy p (suc (k - 1)) st
level p k st h r = Roomy-fewer p k st (suc (k - 1) + length st + 12) (omega arith) r

pub deeper : (p : Parse) (k : ℕ) (s : Sym) (st : List Sym) → Roomy p (suc k) st → Roomy p k (s ∷ st)
deeper p k s st r = Roomy-fewer p (suc k) st (k + length (s ∷ st) + 12) (omega arith) r

-- A value at the top of the stack turns into one on the build stack.
mutual
  unfolding ll_parse arr_end_loop obj_end_loop

  value_lem :
      (v : Json) (k : ℕ) (ts : List Token) (p : Parse) (s : Sym) (st : List Sym) (b : List Item)
      → IsWithin k v
      → Roomy p k (s ∷ st)
      → feed (tokens v ++ ts) (with_stacks p (value ∷ s ∷ st) b)
        ≡ feed ts (with_stacks p (s ∷ st) (built (canonical v) ∷ b))
  value_lem null k ts p s st b w r =
      fed (token identifier_token (some null)) ts p (value ∷ s ∷ st) (s ∷ st) b (built null ∷ b)
        (Roomy-fewer p k (s ∷ st) (length (value ∷ s ∷ st) + 10) (omega arith) r) refl
  value_lem (boolean x) k ts p s st b w r =
      fed (token identifier_token (some (boolean x))) ts p (value ∷ s ∷ st) (s ∷ st) b
        (built (boolean x) ∷ b)
        (Roomy-fewer p k (s ∷ st) (length (value ∷ s ∷ st) + 10) (omega arith) r) refl
  value_lem (integer n) k ts p s st b w r =
      fed (token number_token (some (integer n))) ts p (value ∷ s ∷ st) (s ∷ st) b
        (built (integer n) ∷ b)
        (Roomy-fewer p k (s ∷ st) (length (value ∷ s ∷ st) + 10) (omega arith) r) refl
  value_lem (float x) k ts p s st b w r =
      fed (token number_token (some (float x))) ts p (value ∷ s ∷ st) (s ∷ st) b
        (built (float x) ∷ b)
        (Roomy-fewer p k (s ∷ st) (length (value ∷ s ∷ st) + 10) (omega arith) r) refl
  value_lem (string t) k ts p s st b w r =
      fed (token string_token (some (string t))) ts p (value ∷ s ∷ st) (s ∷ st) b
        (built (string t) ∷ b)
        (Roomy-fewer p k (s ∷ st) (length (value ∷ s ∷ st) + 10) (omega arith) r) refl
  value_lem (array es) k ts p s st b w r =
      fed (easy begin_array) (element_tokens es ++ ts) p (value ∷ s ∷ st) (arr_body ∷ s ∷ st) b
        (arr_marker ∷ b) (Roomy-fewer p k (s ∷ st) (length (value ∷ s ∷ st) + 10) (omega arith) r)
        refl
      ∙ elements_lem es (k - 1) ts p (s ∷ st) b w.1 (level p k (s ∷ st) w.0 r)
  value_lem (object ms) k ts p s st b w r =
      fed (easy begin_object) (member_tokens ms ++ ts) p (value ∷ s ∷ st) (obj_body ∷ s ∷ st) b
        (obj_marker ∷ b) (Roomy-fewer p k (s ∷ st) (length (value ∷ s ∷ st) + 10) (omega arith) r)
        refl
      ∙ members_lem ms (k - 1) ts p (s ∷ st) b w.1 (level p k (s ∷ st) w.0 r)

  elements_lem :
      (es : Elements) (k : ℕ) (ts : List Token) (p : Parse) (st : List Sym) (b : List Item)
      → AreWithin k es
      → Roomy p (suc k) st
      → feed (element_tokens es ++ ts) (with_stacks p (arr_body ∷ st) (arr_marker ∷ b))
        ≡ feed ts (settle p st (built (array (canonical_elements es)) ∷ b))
  elements_lem empty k ts p st b w r =
      ap (λ o. o >>= feed ts)
        (arr_empty p st b (Roomy-fewer p (suc k) st (length st + 11) (omega arith) r))
  elements_lem (element v es) k ts p st b w r =
      feed_assoc (tokens v) (more_elements es) ts (with_stacks p (arr_body ∷ st) (arr_marker ∷ b))
      ∙ (first_element v (more_elements es ++ ts) p st (arr_marker ∷ b)
            (Roomy-fewer p (suc k) st (length st + 12) (omega arith) r)
          ∙ (value_lem v k (more_elements es ++ ts) p arr_tail st (arr_marker ∷ b) w.0
                (deeper p k arr_tail st r)
              ∙ more_elements_lem es k ts p st b (built (canonical v) ∷ arr_marker ∷ b)
                  (element (canonical v)) (λ arr. refl) w.1 r))

  more_elements_lem :
      (es : Elements) (k : ℕ) (ts : List Token) (p : Parse) (st : List Sym) (b b' : List Item)
      (f : Elements → Elements)
      → Collects b' f b
      → AreWithin k es
      → Roomy p (suc k) st
      → feed (more_elements es ++ ts) (with_stacks p (arr_tail ∷ st) b')
        ≡ feed ts (settle p st (built (array (f (canonical_elements es))) ∷ b))
  more_elements_lem empty k ts p st b b' f c w r =
      ap (λ o. o >>= feed ts)
        (arr_close p st b b' (f empty) (Roomy-fewer p (suc k) st (length st + 11) (omega arith) r)
          (c empty))
  more_elements_lem (element v es) k ts p st b b' f c w r =
      feed_assoc (easy value_sep ∷ tokens v) (more_elements es) ts
        (with_stacks p (arr_tail ∷ st) b')
      ∙ (fed (easy value_sep) (tokens v ++ (more_elements es ++ ts)) p (arr_tail ∷ st)
            (arr_elems ∷ st) b' b'
            (Roomy-fewer p (suc k) st (length (arr_tail ∷ st) + 10) (omega arith) r) refl
          ∙ (next_element v (more_elements es ++ ts) p st b'
                (Roomy-fewer p (suc k) st (length st + 12) (omega arith) r)
              ∙ (value_lem v k (more_elements es ++ ts) p arr_tail st b' w.0
                    (deeper p k arr_tail st r)
                  ∙ more_elements_lem es k ts p st b (built (canonical v) ∷ b')
                      (λ arr. f (element (canonical v) arr)) (λ arr. c (element (canonical v) arr))
                      w.1 r)))

  members_lem :
      (ms : Members) (k : ℕ) (ts : List Token) (p : Parse) (st : List Sym) (b : List Item)
      → MembersAreWithin k ms
      → Roomy p (suc k) st
      → feed (member_tokens ms ++ ts) (with_stacks p (obj_body ∷ st) (obj_marker ∷ b))
        ≡ feed ts (settle p st (built (object (canonical_members ms)) ∷ b))
  members_lem no_members k ts p st b w r =
      ap (λ o. o >>= feed ts)
        (obj_empty p st b (Roomy-fewer p (suc k) st (length st + 11) (omega arith) r))
  members_lem (member key v ms) k ts p st b w r =
      feed_assoc (token string_token (some (string key)) ∷ easy name_sep ∷ tokens v)
        (more_members ms) ts (with_stacks p (obj_body ∷ st) (obj_marker ∷ b))
      ∙ (fed (token string_token (some (string key)))
            (easy name_sep ∷ (tokens v ++ (more_members ms ++ ts))) p (obj_body ∷ st)
            (name_sep ∷ value ∷ obj_tail ∷ st) (obj_marker ∷ b)
            (built (string key) ∷ obj_marker ∷ b)
            (Roomy-fewer p (suc k) st (length (obj_body ∷ st) + 10) (omega arith) r) refl
          ∙ (fed (easy name_sep) (tokens v ++ (more_members ms ++ ts)) p
                (name_sep ∷ value ∷ obj_tail ∷ st) (value ∷ obj_tail ∷ st)
                (built (string key) ∷ obj_marker ∷ b) (built (string key) ∷ obj_marker ∷ b)
                (Roomy-fewer p (suc k) st (length (name_sep ∷ value ∷ obj_tail ∷ st) + 10)
                  (omega arith) r)
                refl
              ∙ (value_lem v k (more_members ms ++ ts) p obj_tail st
                    (built (string key) ∷ obj_marker ∷ b) w.0 (deeper p k obj_tail st r)
                  ∙ more_members_lem ms k ts p st b
                      (built (canonical v) ∷ built (string key) ∷ obj_marker ∷ b)
                      (λ obj. object_add obj (c_string key) (canonical v)) (λ obj. refl) w.1 r)))

  more_members_lem :
      (ms : Members) (k : ℕ) (ts : List Token) (p : Parse) (st : List Sym) (b b' : List Item)
      (f : Members → Members)
      → CollectsMembers b' f b
      → MembersAreWithin k ms
      → Roomy p (suc k) st
      → feed (more_members ms ++ ts) (with_stacks p (obj_tail ∷ st) b')
        ≡ feed ts (settle p st (built (object (f (canonical_members ms))) ∷ b))
  more_members_lem no_members k ts p st b b' f c w r =
      ap (λ o. o >>= feed ts)
        (obj_close p st b b' (f no_members)
          (Roomy-fewer p (suc k) st (length st + 11) (omega arith) r) (c no_members))
  more_members_lem (member key v ms) k ts p st b b' f c w r =
      feed_assoc
        (easy value_sep ∷ token string_token (some (string key)) ∷ easy name_sep ∷ tokens v)
        (more_members ms) ts (with_stacks p (obj_tail ∷ st) b')
      ∙ (fed (easy value_sep)
            (token string_token (some (string key))
              ∷ easy name_sep
              ∷ (tokens v ++ (more_members ms ++ ts)))
            p (obj_tail ∷ st) (obj_elems ∷ st) b' b'
            (Roomy-fewer p (suc k) st (length (obj_tail ∷ st) + 10) (omega arith) r) refl
          ∙ (fed (token string_token (some (string key)))
                (easy name_sep ∷ (tokens v ++ (more_members ms ++ ts))) p (obj_elems ∷ st)
                (name_sep ∷ value ∷ obj_tail ∷ st) b' (built (string key) ∷ b')
                (Roomy-fewer p (suc k) st (length (obj_elems ∷ st) + 10) (omega arith) r) refl
              ∙ (fed (easy name_sep) (tokens v ++ (more_members ms ++ ts)) p
                    (name_sep ∷ value ∷ obj_tail ∷ st) (value ∷ obj_tail ∷ st)
                    (built (string key) ∷ b') (built (string key) ∷ b')
                    (Roomy-fewer p (suc k) st (length (name_sep ∷ value ∷ obj_tail ∷ st) + 10)
                      (omega arith) r)
                    refl
                  ∙ (value_lem v k (more_members ms ++ ts) p obj_tail st (built (string key) ∷ b')
                        w.0 (deeper p k obj_tail st r)
                      ∙ more_members_lem ms k ts p st b
                          (built (canonical v) ∷ built (string key) ∷ b')
                          (λ obj. f (object_add obj (c_string key) (canonical v)))
                          (λ obj. c (object_add obj (c_string key) (canonical v))) w.1 r))))

-- A document was read: it is put out, and with `multidoc` the next one may follow.
abbrev pub delivered : Parse → Json → Parse
delivered p v =
    let q = record p { out = p.out ++ (v ∷ []); stack = []; build = [] } in
    if p.multidoc then record q { stack = json_document ∷ [] } else q

-- The values that the grammar has for documents.
abbrev pub IsDocument : Json → Type 0
IsDocument (array es) = Unit
IsDocument (object ms) = Unit
IsDocument v = false ≡ true

-- Where a document may start, on a stack with 13 entries more than arrays and objects are in one
-- another, the parser takes the tokens of any array or object, as the grammar gives them, and
-- puts out that value, its members in the order of the trie and with the last of the values that
-- a key has. The stacks are then as at the start of a document if `multidoc` is set, and else
-- empty, and any further tokens follow on that. The trie of an object is taken as the list of its
-- members in the order of its iteration.
pub feed-tokens :
    (v : Json) (k m : ℕ) (ts : List Token) (p : Parse)
    → IsDocument v
    → IsWithin k v
    → p.stack_size ≡ some m
    → k + 13 ≤ m
    → feed (tokens v ++ ts) (record p { stack = json_document ∷ []; build = [] })
      ≡ feed ts (delivered p (canonical v))
unfolding ll_parse
feed-tokens (array es) k m ts p h w e r =
    let room : Roomy p (suc (k - 1)) [] =
      subst (λ o. Has o (suc (k - 1) + 0 + 12)) (sym e) (omega (arith, w.0)) in
    fed (easy begin_array) (element_tokens es ++ ts) p (json_document ∷ []) (arr_body ∷ []) []
      (arr_marker ∷ []) (Roomy-fewer p (suc (k - 1)) [] 11 (omega arith) room) refl
    ∙ elements_lem es (k - 1) ts p [] [] w.1 room
feed-tokens (object ms) k m ts p h w e r =
    let room : Roomy p (suc (k - 1)) [] =
      subst (λ o. Has o (suc (k - 1) + 0 + 12)) (sym e) (omega (arith, w.0)) in
    fed (easy begin_object) (member_tokens ms ++ ts) p (json_document ∷ []) (obj_body ∷ []) []
      (obj_marker ∷ []) (Roomy-fewer p (suc (k - 1)) [] 11 (omega arith) room) refl
    ∙ members_lem ms (k - 1) ts p [] [] w.1 room
feed-tokens v k m ts p h w e r = absurd (ground arith)
