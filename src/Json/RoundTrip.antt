-- ===== src/Json/RoundTrip.antt =====
-- src/libmowgli/ext/json.c: what `mowgli_json_serialize` writes, `mowgli_json_parse_string` reads.
use Prim.Native.Nat.{Ordering}
use libmowgli.Base.{
  ◌+◌, subst, ℕ, ◌-◌, ◌≡◌, refl, ap, sym, ◌∙◌, [], ◌∷◌, ◌++◌, append-nil, false, Option, none, some,
  ◌==◌, if◌then◌else◌, All, arith,
}
use libmowgli.Memory.{◌>>=◌}
use libmowgli.Json.{
  Bytes, Json, null, boolean, integer, float, string, array, object, Elements, empty, element,
  Members, no_members, member, begin_object, begin_array, json_document, obj_body, arr_body,
  obj_marker, arr_marker, Parse,
}
use libmowgli.Json.Grammar.{c_string, key_compare, object_add, arr_end_loop, obj_end_loop, ll_parse}
use libmowgli.Json.Stream.{
  ll_stack_size, parse_data, parse_reset, parse_string, parse_next, take_result,
}
use libmowgli.Json.Tokens.{easy, IsWithin, canonical, canonical_elements, canonical_members}
use libmowgli.Json.Steps.{step, Roomy, Roomy-fewer}
use libmowgli.Json.Accept.{IsDocument}
use libmowgli.Json.Print.{
  serialize, serialize_elements, serialize_members, serialize_pretty_break, serialize_pretty_indent,
}
use libmowgli.Json.Scan.{IsChar}
use libmowgli.Json.Letters.{clean}
use libmowgli.Json.Slots.{easy-Reads, arr_body-Slot, obj_body-KeySlot}
use libmowgli.Json.Brackets.{IsWritable, AreWritable, MembersAreWritable, array-Reads, object-Reads}
use libmowgli.Json.Terminated.{c_string-HasNoNul, serialize-HasNoNul}
use libmowgli.Json.Space.{Has}
use libmowgli.Json.Document.{elements-Reads, members-Reads}

c_string-IsChar : (s : Bytes) → All IsChar s → c_string s ≡ s
unfolding c_string
c_string-IsChar [] h = refl
c_string-IsChar (c ∷ s) h =
    let e : (c == 0) ≡ false = ground arith in
    ap (λ b. if b then [] else c ∷ c_string s) e ∙ ap (◌∷◌ c) (c_string-IsChar s h.1)

-- The members come in the order of the trie, each key once.
abbrev mutual
  pub IsOrdered : Json → Type 0
  IsOrdered (array es) = AreOrdered es
  IsOrdered (object ms) = MembersAreOrdered ms
  IsOrdered v = Unit

  pub AreOrdered : Elements → Type 0
  AreOrdered empty = Unit
  AreOrdered (element v es) = IsOrdered v × AreOrdered es

  pub MembersAreOrdered : Members → Type 0
  MembersAreOrdered no_members = Unit
  MembersAreOrdered (member k v no_members) = IsOrdered v
  MembersAreOrdered (member k v (member k' v' ms)) =
      (key_compare k k' ≡ Ordering.lt) × IsOrdered v × MembersAreOrdered (member k' v' ms)

object_add-first :
    (k k' : Bytes) (v v' : Json) (ms : Members)
    → key_compare k k' ≡ Ordering.lt
    → object_add (member k' v' ms) k v ≡ member k v (member k' v' ms)
unfolding object_add
object_add-first k k' v v' ms e =
    ap
      (λ o. elim o as (λ _. Members) [
        | Ordering.lt ↦ member k v (member k' v' ms)
        | Ordering.eq ↦ member k' v' ms
        | Ordering.gt ↦ member k' v' (object_add ms k v)
      ])
      e

module _ (format_g : ℕ → Bytes) (strtod : Bytes → ℕ) where
  mutual
    unfolding object_add

    canonical-IsOrdered : (v : Json) → IsWritable format_g strtod v → IsOrdered v → canonical v ≡ v
    canonical-IsOrdered null w h = refl
    canonical-IsOrdered (boolean a) w h = refl
    canonical-IsOrdered (integer n) w h = refl
    canonical-IsOrdered (float x) w h = refl
    canonical-IsOrdered (string s) w h = refl
    canonical-IsOrdered (array es) w h = ap array (elements_ordered es w h)
    canonical-IsOrdered (object ms) w h = ap object (members_ordered ms w h)

    elements_ordered :
        (es : Elements)
        → AreWritable format_g strtod es
        → AreOrdered es
        → canonical_elements es ≡ es
    elements_ordered empty w h = refl
    elements_ordered (element v es) w h =
        ap (λ v. element v (canonical_elements es)) (canonical-IsOrdered v w.0 h.0)
        ∙ ap (element v) (elements_ordered es w.1 h.1)

    members_ordered :
        (ms : Members)
        → MembersAreWritable format_g strtod ms
        → MembersAreOrdered ms
        → canonical_members ms ≡ ms
    members_ordered no_members w h = refl
    members_ordered (member k v no_members) w h =
        ap (λ k. member k (canonical v) no_members) (c_string-IsChar k w.0)
        ∙ ap (λ v. member k v no_members) (canonical-IsOrdered v w.1 h)
    members_ordered (member k v (member k' v' ms)) w h =
        ap (λ ms. object_add ms (c_string k) (canonical v))
          (members_ordered (member k' v' ms) w.2 h.2)
        ∙ (ap (λ k. object_add (member k' v' ms) k (canonical v)) (c_string-IsChar k w.0)
            ∙ (object_add-first k k' (canonical v) v' ms h.0
                ∙ ap (λ v. member k v (member k' v' ms)) (canonical-IsOrdered v w.1 h.1)))

  -- The parser once it has read a document.
  read_document :
      (v : Json)
      → IsDocument v
      → IsWritable format_g strtod v
      → IsWithin (ll_stack_size - 13) v
      → (pretty : ℕ) (p : Parse) → p.stack_size ≡ some ll_stack_size
      → (q : Parse) × (parse_data strtod (parse_reset false p) (serialize format_g v pretty)
          ≡ some q)
        × (q.error ≡ none)
        × (q.out ≡ canonical v ∷ [])
  unfolding serialize ll_parse parse_data parse_reset arr_end_loop obj_end_loop
  read_document (array es) d w wi n p z =
      let text =
        serialize_pretty_break n
        ++ (serialize_elements format_g es n ++ (serialize_pretty_indent (n - 1) ++ (93 ∷ []))) in
      let room : Roomy p 115 [] = subst (λ o. Has o (115 + 0 + 12)) (sym z) (omega arith) in
      let q = record p { out = []; multidoc = false } in
      let i =
        easy-Reads strtod q 91 begin_array (text ++ []) (json_document ∷ []) []
          (clean q (arr_body ∷ []) (arr_marker ∷ [])) refl
          (λ u.
            step (easy begin_array) (clean q [] [] u) (json_document ∷ []) (arr_body ∷ []) []
              (arr_marker ∷ []) (Roomy-fewer p 115 [] 11 (omega arith) room) refl)
          p.lex_u in
      let j =
        array-Reads format_g strtod q es n [] [] [] (Roomy-fewer p 115 [] 11 (omega arith) room)
          (λ h.
            elements-Reads format_g strtod q es h w n arr_body [] [] (arr_body-Slot strtod []) []
              (arr_marker ∷ []) (λ arr. arr) (λ arr. refl) [] 114 wi.1 room
              (Roomy-fewer p 115 [] 11 (omega arith) room))
          i.0 in
      (
        _,
        ap (λ t. parse_data strtod (parse_reset false p) (91 ∷ t)) (sym (append-nil text))
            ∙ (i.1 ∙ j.1),
        refl,
        refl,
      )
  read_document (object ms) d w wi n p z =
      let text =
        serialize_pretty_break n
        ++ (serialize_members format_g ms n ++ (serialize_pretty_indent (n - 1) ++ (125 ∷ []))) in
      let room : Roomy p 115 [] = subst (λ o. Has o (115 + 0 + 12)) (sym z) (omega arith) in
      let q = record p { out = []; multidoc = false } in
      let i =
        easy-Reads strtod q 123 begin_object (text ++ []) (json_document ∷ []) []
          (clean q (obj_body ∷ []) (obj_marker ∷ [])) refl
          (λ u.
            step (easy begin_object) (clean q [] [] u) (json_document ∷ []) (obj_body ∷ []) []
              (obj_marker ∷ []) (Roomy-fewer p 115 [] 11 (omega arith) room) refl)
          p.lex_u in
      let j =
        object-Reads format_g strtod q ms n [] [] [] (Roomy-fewer p 115 [] 11 (omega arith) room)
          (λ h.
            members-Reads format_g strtod q ms h w n obj_body [] [] (obj_body-KeySlot strtod []) []
              (obj_marker ∷ []) (λ obj. obj) (λ obj. refl) [] 114 wi.1 room
              (Roomy-fewer p 115 [] 11 (omega arith) room))
          i.0 in
      (
        _,
        ap (λ t. parse_data strtod (parse_reset false p) (123 ∷ t)) (sym (append-nil text))
            ∙ (i.1 ∙ j.1),
        refl,
        refl,
      )
  read_document v d w wi n p z = absurd (ground arith)

  -- For an array or an object whose strings are bytes without NUL, whose integers have 32 bits,
  -- whose floats are written as the lexer and `strtod` read them, whose members come in the
  -- order of the trie with each key once, and whose arrays and objects are in one another at
  -- most `LL_STACK_SIZE` - 13 times: whatever the depth of indentation is, and whatever the
  -- static parser, with a stack of `LL_STACK_SIZE` entries, held before,
  -- `mowgli_json_parse_string` of the text that `mowgli_json_serialize` writes returns that
  -- value, without an error. The trie of an object is taken as the list of its members in the
  -- order of its iteration.
  pub parse_string-serialize :
      (v : Json)
      → IsDocument v
      → IsWritable format_g strtod v
      → IsOrdered v
      → IsWithin (ll_stack_size - 13) v
      → (pretty : ℕ) (p : Parse) → p.stack_size ≡ some ll_stack_size
      → (q : Parse) × (parse_string strtod p (serialize format_g v pretty) ≡ some (some v, q))
  unfolding parse_string take_result parse_next
  parse_string-serialize v d w o wi n p z =
      let r = read_document v d w wi n p z in
      (
        record r.0 { out = [] },
        ap (λ s. parse_data strtod (parse_reset false p) s >>= λ q. some (take_result q))
              (c_string-HasNoNul (serialize format_g v n)
                (serialize-HasNoNul format_g strtod v w n))
            ∙ ap (λ t. t >>= λ q. some (take_result q)) r.1
            ∙ (ap
                  (λ e. some (elim e as (λ _. Option Json × Parse) [
                    | some m ↦ (none, r.0)
                    | none ↦ parse_next r.0
                  ]))
                  r.2
                ∙ (ap
                      (λ t. some (elim t as (λ _. Option Json × Parse) [
                        | [] ↦ (none, r.0)
                        | w ∷ ws ↦ (some w, record r.0 { out = ws })
                      ]))
                      r.3
                    ∙ ap (λ v. some (some v, record r.0 { out = [] }))
                        (canonical-IsOrdered v w o))),
      )
