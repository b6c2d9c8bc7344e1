-- ===== src/Json/Document.antt =====
-- src/libmowgli/ext/json.c: a serialized document, read back.
use libmowgli.Base.{suc, length, ◌+◌, ℕ, ◌-◌, refl, ap, ◌∙◌, List, [], ◌∷◌, ◌++◌, arith}
use libmowgli.Json.{
  name_sep, Bytes, Json, null, boolean, integer, float, string, Sym, begin_object, begin_array,
  value, value_sep, obj_body, obj_elems, obj_tail, arr_body, arr_elems, arr_tail, Item, built,
  obj_marker, arr_marker, Parse,
}
use libmowgli.Json.Grammar.{ll_parse}
use libmowgli.Json.Lexer.{easy_sym, easy_sym}
use libmowgli.Json.Stream.{parse_data}
use libmowgli.Json.Print.{
  serialize_int, serialize_pretty_indent, serialize_pretty_break, serialize_string_data,
}
use libmowgli.Json.Letters.{clean, comma-IsEnd, bracket-IsEnd, brace-IsEnd}
use libmowgli.Json.{
  array, object, Elements, empty, element, Members, no_members, member, end_array, end_object,
}
use libmowgli.Json.Grammar.{c_string, object_add, arr_end_loop, obj_end_loop}
use libmowgli.Json.Space.{Has}
use libmowgli.Json.Room.{done}
use libmowgli.Json.Tokens.{easy, IsWithin, AreWithin, MembersAreWithin}
use libmowgli.Json.Tokens.{canonical, canonical_elements, canonical_members}
use libmowgli.Json.Steps.{step, Roomy, Roomy-fewer, Collects, CollectsMembers, arr_close, obj_close}
use libmowgli.Json.Accept.{level, deeper}
use libmowgli.Json.Print.{
  serialize, serialize_elements, serialize_members, serialize_pretty_increment, colon,
}
use libmowgli.Json.Slots.{
  Reads, easy-Reads, indent-Reads, break-Reads, Ends, Slot, KeySlot, value-Slot, arr_body-Slot,
  arr_elems-Slot, obj_body-KeySlot, obj_elems-KeySlot,
}
use libmowgli.Json.Literals.{
  int_text, number-Reads, null-Reads, boolean-Reads, string-Reads, key-Reads, colon-Reads,
}
use libmowgli.Json.Brackets.{
  IsWritable, AreWritable, MembersAreWritable, element_text, member_text, HasElement, HasMember,
  close_Ends, array-Reads, object-Reads,
}

-- Values of every kind, and lists of them.
module _ (format_g : ℕ → Bytes) (strtod : Bytes → ℕ) (p : Parse) where
  mutual
    unfolding serialize ll_parse arr_end_loop obj_end_loop easy_sym

    value-Reads :
        (v : Json)
        → IsWritable format_g strtod v
        → (n : ℕ) (x : Sym) (st' : List Sym) (s : Sym) (st : List Sym) → Slot strtod x st' (s ∷ st)
        → (b : List Item) (y : Bytes) → Ends strtod y
        → (d : ℕ) → IsWithin d v
        → Roomy p d (s ∷ st)
        → Has p.stack_size (length (x ∷ st') + 10)
        → Reads strtod
            (clean p (x ∷ st') b)
            (serialize format_g v n ++ y)
            (clean p (s ∷ st) (built (canonical v) ∷ b))
            y
    value-Reads null w n x st' s st slot b y h d wi r hx =
        null-Reads strtod p x st' (s ∷ st) slot b hx y h
    value-Reads (boolean a) w n x st' s st slot b y h d wi r hx =
        boolean-Reads strtod p x st' (s ∷ st) slot b hx a y h
    value-Reads (integer k) w n x st' s st slot b y h d wi r hx =
        number-Reads strtod p x st' (s ∷ st) slot b hx (integer k) (serialize_int k) y
          (int_text strtod k w) h
    value-Reads (float k) w n x st' s st slot b y h d wi r hx =
        number-Reads strtod p x st' (s ∷ st) slot b hx (float k) (format_g k) y w h
    value-Reads (string t) w n x st' s st slot b y h d wi r hx =
        string-Reads strtod p x st' (s ∷ st) slot b hx t y w
    value-Reads (array es) w n x st' s st slot b y h d wi r hx = λ u.
        (let i =
            easy-Reads strtod p 91 begin_array _ (x ∷ st') b
              (clean p (arr_body ∷ s ∷ st) (arr_marker ∷ b)) refl (λ u. (slot p b u hx).2) u in
          let j =
            array-Reads format_g strtod p es n (s ∷ st) b y
              (Roomy-fewer p d (s ∷ st) (length (s ∷ st) + 11) (omega arith) r)
              (λ h.
                elements-Reads es h w n arr_body (s ∷ st) (s ∷ st) (arr_body-Slot strtod (s ∷ st)) b
                  (arr_marker ∷ b) (λ arr. arr) (λ arr. refl) y (d - 1) wi.1
                  (level p d (s ∷ st) wi.0 r)
                  (Roomy-fewer p d (s ∷ st) (length (arr_body ∷ s ∷ st) + 10) (omega arith) r))
              i.0 in
          (j.0, i.1 ∙ j.1))
    value-Reads (object ms) w n x st' s st slot b y h d wi r hx = λ u.
        (let i =
            easy-Reads strtod p 123 begin_object _ (x ∷ st') b
              (clean p (obj_body ∷ s ∷ st) (obj_marker ∷ b)) refl (λ u. (slot p b u hx).1) u in
          let j =
            object-Reads format_g strtod p ms n (s ∷ st) b y
              (Roomy-fewer p d (s ∷ st) (length (s ∷ st) + 11) (omega arith) r)
              (λ h.
                members-Reads ms h w n obj_body (s ∷ st) (s ∷ st) (obj_body-KeySlot strtod (s ∷ st))
                  b (obj_marker ∷ b) (λ obj. obj) (λ obj. refl) y (d - 1) wi.1
                  (level p d (s ∷ st) wi.0 r)
                  (Roomy-fewer p d (s ∷ st) (length (obj_body ∷ s ∷ st) + 10) (omega arith) r))
              i.0 in
          (j.0, i.1 ∙ j.1))

    pub elements-Reads :
        (es : Elements)
        → HasElement es
        → AreWritable format_g strtod es
        → (n : ℕ) (x : Sym) (st' st : List Sym) → Slot strtod x st' (arr_tail ∷ st)
        → (b b' : List Item) (f : Elements → Elements) → Collects b' f b
        → (y : Bytes) → (d : ℕ) → AreWithin d es
        → Roomy p (suc d) st
        → Has p.stack_size (length (x ∷ st') + 10)
        → Reads strtod
            (clean p (x ∷ st') b')
            (serialize_elements format_g es n ++ (serialize_pretty_indent (n - 1) ++ (93 ∷ y)))
            (λ u. done st (clean p st (built (array (f (canonical_elements es))) ∷ b) u))
            y
    elements-Reads empty h w n x st' st slot b b' f c y d wi r hx = absurd (ground arith)
    elements-Reads (element v empty) h w n x st' st slot b b' f c y d wi r hx = λ u.
        (let tail = serialize_pretty_indent (n - 1) ++ (93 ∷ y) in
          let text = serialize format_g v (serialize_pretty_increment n) in
          let after = serialize_pretty_break n ++ tail in
          let b1 = built (canonical v) ∷ b' in
          let e =
            element_text (serialize_pretty_indent n) text [] (serialize_pretty_break n) [] tail in
          let i = indent-Reads strtod p n (text ++ after) (x ∷ st') b' u in
          let j =
            value-Reads v w.0 (serialize_pretty_increment n) x st' arr_tail st slot b' after
              (close_Ends format_g strtod n 93 y (bracket-IsEnd strtod)) d wi.0
              (deeper p d arr_tail st r) hx i.0 in
          let k = break-Reads strtod p n tail (arr_tail ∷ st) b1 j.0 in
          let l = indent-Reads strtod p (n - 1) (93 ∷ y) (arr_tail ∷ st) b1 k.0 in
          let m =
            easy-Reads strtod p 93 end_array y (arr_tail ∷ st) b1
              (λ u. done st (clean p st (built (array (f (element (canonical v) empty))) ∷ b) u))
              refl
              (λ u.
                arr_close (clean p st b u) st b b1 (f (element (canonical v) empty))
                  (Roomy-fewer p (suc d) st (length st + 11) (omega arith) r)
                  (c (element (canonical v) empty)))
              l.0 in
          (
            m.0,
            ap (parse_data strtod (clean p (x ∷ st') b' u)) e ∙ (i.1 ∙ (j.1 ∙ (k.1 ∙ (l.1 ∙ m.1)))),
          ))
    elements-Reads (element v (element v' es)) h w n x st' st slot b b' f c y d wi r hx = λ u.
        (let tail = serialize_pretty_indent (n - 1) ++ (93 ∷ y) in
          let text = serialize format_g v (serialize_pretty_increment n) in
          let more = serialize_elements format_g (element v' es) n in
          let after = serialize_pretty_break n ++ (more ++ tail) in
          let b1 = built (canonical v) ∷ b' in
          let e =
            element_text (serialize_pretty_indent n) text (44 ∷ []) (serialize_pretty_break n) more
              tail in
          let i = indent-Reads strtod p n (text ++ (44 ∷ after)) (x ∷ st') b' u in
          let j =
            value-Reads v w.0 (serialize_pretty_increment n) x st' arr_tail st slot b' (44 ∷ after)
              (comma-IsEnd strtod) d wi.0 (deeper p d arr_tail st r) hx i.0 in
          let k =
            easy-Reads strtod p 44 value_sep after (arr_tail ∷ st) b1 (clean p (arr_elems ∷ st) b1)
              refl
              (λ u.
                step (easy value_sep) (clean p [] [] u) (arr_tail ∷ st) (arr_elems ∷ st) b1 b1
                  (Roomy-fewer p (suc d) st (length (arr_tail ∷ st) + 10) (omega arith) r) refl)
              j.0 in
          let l = break-Reads strtod p n (more ++ tail) (arr_elems ∷ st) b1 k.0 in
          let m =
            elements-Reads (element v' es) tt w.1 n arr_elems st st (arr_elems-Slot strtod st) b b1
              (λ arr. f (element (canonical v) arr)) (λ arr. c (element (canonical v) arr)) y d wi.1
              r (Roomy-fewer p (suc d) st (length (arr_elems ∷ st) + 10) (omega arith) r) l.0 in
          (
            m.0,
            ap (parse_data strtod (clean p (x ∷ st') b' u)) e ∙ (i.1 ∙ (j.1 ∙ (k.1 ∙ (l.1 ∙ m.1)))),
          ))

    pub members-Reads :
        (ms : Members)
        → HasMember ms
        → MembersAreWritable format_g strtod ms
        → (n : ℕ) (x : Sym) (st' st : List Sym) → KeySlot strtod x st' st
        → (b b' : List Item) (f : Members → Members) → CollectsMembers b' f b
        → (y : Bytes) → (d : ℕ) → MembersAreWithin d ms
        → Roomy p (suc d) st
        → Has p.stack_size (length (x ∷ st') + 10)
        → Reads strtod
            (clean p (x ∷ st') b')
            (serialize_members format_g ms n ++ (serialize_pretty_indent (n - 1) ++ (125 ∷ y)))
            (λ u. done st (clean p st (built (object (f (canonical_members ms))) ∷ b) u))
            y
    members-Reads no_members h w n x st' st slot b b' f c y d wi r hx = absurd (ground arith)
    members-Reads (member key v no_members) h w n x st' st slot b b' f c y d wi r hx = λ u.
        (let tail = serialize_pretty_indent (n - 1) ++ (125 ∷ y) in
          let text = serialize format_g v (serialize_pretty_increment n) in
          let after = serialize_pretty_break n ++ tail in
          let b1 = built (string key) ∷ b' in
          let b2 = built (canonical v) ∷ b1 in
          let g = object_add no_members (c_string key) (canonical v) in
          let e =
            member_text (serialize_pretty_indent n) (serialize_string_data key) (colon n) text []
              (serialize_pretty_break n) [] tail in
          let i =
            indent-Reads strtod p n (serialize_string_data key ++ (colon n ++ (text ++ after)))
              (x ∷ st') b' u in
          let j = key-Reads strtod p x st' st b' key (colon n ++ (text ++ after)) slot hx w.0 i.0 in
          let k =
            colon-Reads strtod p n (text ++ after) st b1
              (Roomy-fewer p (suc d) st (length (name_sep ∷ value ∷ obj_tail ∷ st) + 10)
                (omega arith) r)
              j.0 in
          let l =
            value-Reads v w.1 (serialize_pretty_increment n) value (obj_tail ∷ st) obj_tail st
              (value-Slot strtod obj_tail st) b1 after
              (close_Ends format_g strtod n 125 y (brace-IsEnd strtod)) d wi.0
              (deeper p d obj_tail st r)
              (Roomy-fewer p (suc d) st (length (value ∷ obj_tail ∷ st) + 10) (omega arith) r)
              k.0 in
          let m = break-Reads strtod p n tail (obj_tail ∷ st) b2 l.0 in
          let q = indent-Reads strtod p (n - 1) (125 ∷ y) (obj_tail ∷ st) b2 m.0 in
          let r =
            easy-Reads strtod p 125 end_object y (obj_tail ∷ st) b2
              (λ u. done st (clean p st (built (object (f g)) ∷ b) u)) refl
              (λ u.
                obj_close (clean p st b u) st b b2 (f g)
                  (Roomy-fewer p (suc d) st (length st + 11) (omega arith) r) (c g))
              q.0 in
          (
            r.0,
            ap (parse_data strtod (clean p (x ∷ st') b' u)) e
                ∙ (i.1 ∙ (j.1 ∙ (k.1 ∙ (l.1 ∙ (m.1 ∙ (q.1 ∙ r.1)))))),
          ))
    members-Reads (member key v (member key' v' ms)) h w n x st' st slot b b' f c y d wi r hx = λ u.
        (let tail = serialize_pretty_indent (n - 1) ++ (125 ∷ y) in
          let text = serialize format_g v (serialize_pretty_increment n) in
          let more = serialize_members format_g (member key' v' ms) n in
          let after = serialize_pretty_break n ++ (more ++ tail) in
          let b1 = built (string key) ∷ b' in
          let b2 = built (canonical v) ∷ b1 in
          let g = λ (obj : Members). object_add obj (c_string key) (canonical v) in
          let e =
            member_text (serialize_pretty_indent n) (serialize_string_data key) (colon n) text
              (44 ∷ []) (serialize_pretty_break n) more tail in
          let i =
            indent-Reads strtod p n
              (serialize_string_data key ++ (colon n ++ (text ++ (44 ∷ after)))) (x ∷ st') b' u in
          let j =
            key-Reads strtod p x st' st b' key (colon n ++ (text ++ (44 ∷ after))) slot hx w.0
              i.0 in
          let k =
            colon-Reads strtod p n (text ++ (44 ∷ after)) st b1
              (Roomy-fewer p (suc d) st (length (name_sep ∷ value ∷ obj_tail ∷ st) + 10)
                (omega arith) r)
              j.0 in
          let l =
            value-Reads v w.1 (serialize_pretty_increment n) value (obj_tail ∷ st) obj_tail st
              (value-Slot strtod obj_tail st) b1 (44 ∷ after) (comma-IsEnd strtod) d wi.0
              (deeper p d obj_tail st r)
              (Roomy-fewer p (suc d) st (length (value ∷ obj_tail ∷ st) + 10) (omega arith) r)
              k.0 in
          let m =
            easy-Reads strtod p 44 value_sep after (obj_tail ∷ st) b2 (clean p (obj_elems ∷ st) b2)
              refl
              (λ u.
                step (easy value_sep) (clean p [] [] u) (obj_tail ∷ st) (obj_elems ∷ st) b2 b2
                  (Roomy-fewer p (suc d) st (length (obj_tail ∷ st) + 10) (omega arith) r) refl)
              l.0 in
          let q = break-Reads strtod p n (more ++ tail) (obj_elems ∷ st) b2 m.0 in
          let r =
            members-Reads (member key' v' ms) tt w.2 n obj_elems st st (obj_elems-KeySlot strtod st)
              b b2 (λ obj. f (g obj)) (λ obj. c (g obj)) y d wi.1 r
              (Roomy-fewer p (suc d) st (length (obj_elems ∷ st) + 10) (omega arith) r) q.0 in
          (
            r.0,
            ap (parse_data strtod (clean p (x ∷ st') b' u)) e
                ∙ (i.1 ∙ (j.1 ∙ (k.1 ∙ (l.1 ∙ (m.1 ∙ (q.1 ∙ r.1)))))),
          ))
