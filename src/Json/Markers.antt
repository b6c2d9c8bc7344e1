-- ===== src/Json/Markers.antt =====
-- src/libmowgli/ext/json.c: the markers of the build stack, and the loops that end at them.
use libmowgli.Base.{◌≡◌, refl, List, [], ◌∷◌, true, false, some, arith}
use libmowgli.Json.{
  null, string, Elements, element, Members, Sym, obj_body, obj_elems, obj_tail, arr_body, arr_elems,
  arr_tail, Item, built, obj_marker, arr_marker,
}
use libmowgli.Json.Grammar.{object_add, c_string, obj_end_loop, arr_end_loop}

-- What a symbol of the stack ends: an object or an array whose marker is on the build stack.
pub data Closer : Type 0 where
  ends_object : Closer
  ends_array : Closer

abbrev pub closers : List Sym → List Closer
closers [] = []
closers (obj_body ∷ st) = ends_object ∷ closers st
closers (obj_elems ∷ st) = ends_object ∷ closers st
closers (obj_tail ∷ st) = ends_object ∷ closers st
closers (arr_body ∷ st) = ends_array ∷ closers st
closers (arr_elems ∷ st) = ends_array ∷ closers st
closers (arr_tail ∷ st) = ends_array ∷ closers st
closers (s ∷ st) = closers st

-- The build stack has a marker for each of them, in their order.
abbrev pub Covers : List Item → List Closer → Type 0
Covers b [] = Unit
Covers [] (c ∷ cs) = false ≡ true
Covers (obj_marker ∷ b) (ends_object ∷ cs) = Covers b cs
Covers (arr_marker ∷ b) (ends_array ∷ cs) = Covers b cs
Covers (i ∷ b) (c ∷ cs) = Covers b (c ∷ cs)

more_of :
    (i : Item) (b : List Item) (cs : List Closer)
    → ((c : Closer) (ds : List Closer) → Covers b (c ∷ ds) → Covers b ds)
    → Covers b cs
    → Covers (i ∷ b) cs
more_of i b [] fewer h = tt
more_of obj_marker b (ends_object ∷ cs) fewer h = fewer ends_object cs h
more_of arr_marker b (ends_array ∷ cs) fewer h = fewer ends_array cs h
more_of obj_marker b (ends_array ∷ cs) fewer h = h
more_of arr_marker b (ends_object ∷ cs) fewer h = h
more_of (built v) b (ends_object ∷ cs) fewer h = h
more_of (built v) b (ends_array ∷ cs) fewer h = h

pub Covers-fewer : (b : List Item) (c : Closer) (cs : List Closer) → Covers b (c ∷ cs) → Covers b cs
Covers-fewer [] c cs h = absurd (ground arith)
Covers-fewer (obj_marker ∷ b) ends_object cs h = more_of obj_marker b cs (Covers-fewer b) h
Covers-fewer (arr_marker ∷ b) ends_array cs h = more_of arr_marker b cs (Covers-fewer b) h
Covers-fewer (obj_marker ∷ b) ends_array cs h =
    more_of obj_marker b cs (Covers-fewer b) (Covers-fewer b ends_array cs h)
Covers-fewer (arr_marker ∷ b) ends_object cs h =
    more_of arr_marker b cs (Covers-fewer b) (Covers-fewer b ends_object cs h)
Covers-fewer (built v ∷ b) ends_object cs h =
    more_of (built v) b cs (Covers-fewer b) (Covers-fewer b ends_object cs h)
Covers-fewer (built v ∷ b) ends_array cs h =
    more_of (built v) b cs (Covers-fewer b) (Covers-fewer b ends_array cs h)

pub Covers-more : (i : Item) (b : List Item) (cs : List Closer) → Covers b cs → Covers (i ∷ b) cs
Covers-more i b cs h = more_of i b cs (Covers-fewer b) h

-- The loop ends at the marker, and leaves the markers of what surrounds it.
pub arr_end_loop_lem :
    (arr : Elements) (b : List Item) (cs : List Closer)
    → Covers b (ends_array ∷ cs)
    → (r : Elements × List Item) × (arr_end_loop arr b ≡ some r) × Covers r.1 cs
unfolding arr_end_loop
arr_end_loop_lem arr [] cs h = absurd (ground arith)
arr_end_loop_lem arr (arr_marker ∷ b) cs h = ((arr, b), refl, h)
arr_end_loop_lem arr (built v ∷ b) cs h = arr_end_loop_lem (element v arr) b cs h
arr_end_loop_lem arr (obj_marker ∷ b) cs h = arr_end_loop_lem (element null arr) b cs h

pub obj_end_loop_lem :
    (obj : Members) (b : List Item) (cs : List Closer)
    → Covers b (ends_object ∷ cs)
    → (r : Members × List Item) × (obj_end_loop obj b ≡ some r) × Covers r.1 cs
unfolding obj_end_loop
obj_end_loop_lem obj [] cs h = absurd (ground arith)
obj_end_loop_lem obj (obj_marker ∷ b) cs h = ((obj, b), refl, h)
obj_end_loop_lem obj (built v ∷ []) cs h = absurd (ground arith)
obj_end_loop_lem obj (arr_marker ∷ []) cs h = absurd (ground arith)
obj_end_loop_lem obj (built v ∷ obj_marker ∷ b) cs h = ((obj, b), refl, h)
obj_end_loop_lem obj (arr_marker ∷ obj_marker ∷ b) cs h = ((obj, b), refl, h)
obj_end_loop_lem obj (built v ∷ built (string k) ∷ b) cs h =
    obj_end_loop_lem (object_add obj (c_string k) v) b cs h
obj_end_loop_lem obj (arr_marker ∷ built (string k) ∷ b) cs h =
    obj_end_loop_lem (object_add obj (c_string k) null) b cs h
obj_end_loop_lem obj (built v ∷ i ∷ b) cs h = ((obj, b), refl, Covers-fewer b ends_object cs h)
obj_end_loop_lem obj (arr_marker ∷ i ∷ b) cs h = ((obj, b), refl, Covers-fewer b ends_object cs h)
