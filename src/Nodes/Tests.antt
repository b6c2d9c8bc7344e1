-- ===== src/Nodes/Tests.antt =====
-- The lists at concrete memories.
use libmowgli.Base.{◌*◌, ◌≡◌, refl, [], ◌∷◌, Option, none, some, ◌==◌, if◌then◌else◌, arith}
use libmowgli.Nodes.{Ref, Mem, NodeList, empty, add, delete, move, concat, reverse}
use libmowgli.Nodes.Chain.{Apart, IsList}
use libmowgli.Nodes.Insert.{Became}
use libmowgli.Nodes.Unlink.{delete-IsList}
use libmowgli.Nodes.Move.{move-IsList}
use libmowgli.Nodes.Whole.{Joined, concat-Joined, concat_empty-add, reverse-backwards}

-- The nodes 1, 2, 3 on one list, the nodes 7, 8 on another; a node holds ten times its address.
abbrev next_of : Ref → Option Ref
next_of x = if x == 1 then some 2 else if x == 2 then some 3 else if x == 7 then some 8 else none

abbrev prev_of : Ref → Option Ref
prev_of x = if x == 2 then some 1 else if x == 3 then some 2 else if x == 8 then some 7 else none

abbrev mem : Mem
mem = record { next = next_of; prev = prev_of; value = λ x. 10 * x }

abbrev three : NodeList
three = record { head = some 1; tail = some 3; count = 3 }

abbrev two : NodeList
two = record { head = some 7; tail = some 8; count = 2 }

three-IsList : IsList mem three (1 ∷ 2 ∷ 3 ∷ [])
three-IsList = record {
  head_is = refl;
  tail_is = refl;
  counted = refl;
  distinct = (((λ e. omega arith), ((λ e. omega arith), tt)), (((λ e. omega arith), tt), (tt, tt)));
  forward = (refl, (refl, (refl, tt)));
  backward = (refl, (refl, (refl, tt)));
}

two-IsList : IsList mem two (7 ∷ 8 ∷ [])
two-IsList = record {
  head_is = refl;
  tail_is = refl;
  counted = refl;
  distinct = (((λ e. omega arith), tt), (tt, tt));
  forward = (refl, (refl, tt));
  backward = (refl, (refl, tt));
}

empty-IsList : IsList mem empty []
empty-IsList = record {
  head_is = refl;
  tail_is = refl;
  counted = refl;
  distinct = tt;
  forward = tt;
  backward = tt;
}

five_Apart : Apart 5 (1 ∷ 2 ∷ 3 ∷ [])
five_Apart = ((λ e. omega arith), ((λ e. omega arith), ((λ e. omega arith), tt)))

delete-IsList_example :
    IsList (delete 2 mem three).0 (delete 2 mem three).1 (1 ∷ 3 ∷ [])
    × ((delete 2 mem three).0.value ≡ mem.value)
delete-IsList_example = delete-IsList 2 mem three (1 ∷ []) (3 ∷ []) three-IsList

move-IsList_example :
    (m' : Mem) × (old' new' : NodeList) × (move 2 mem three two ≡ (m', old', new'))
    × IsList m' old' (1 ∷ 3 ∷ [])
    × IsList m' new' (2 ∷ 7 ∷ 8 ∷ [])
    × (m'.value ≡ mem.value)
move-IsList_example =
    move-IsList 2 mem three two (1 ∷ []) (3 ∷ []) (7 ∷ 8 ∷ []) three-IsList two-IsList (
      ((λ e. omega arith), ((λ e. omega arith), ((λ e. omega arith), tt))),
      (((λ e. omega arith), ((λ e. omega arith), ((λ e. omega arith), tt))), tt),
    )

concat-Joined_example : Joined mem three two (1 ∷ 2 ∷ 3 ∷ 7 ∷ 8 ∷ [])
concat-Joined_example =
    concat-Joined mem three two (1 ∷ 2 ∷ 3 ∷ []) (8 ∷ []) 7 three-IsList two-IsList (
      ((λ e. omega arith), ((λ e. omega arith), ((λ e. omega arith), ((λ e. omega arith), tt)))),
      (
        ((λ e. omega arith), ((λ e. omega arith), ((λ e. omega arith), tt))),
        (((λ e. omega arith), ((λ e. omega arith), tt)), (((λ e. omega arith), tt), (tt, tt))),
      ),
    )

concat_empty-add_example : add 9 5 (concat mem three empty).0 (concat mem three empty).1 ≡ none
concat_empty-add_example =
    concat_empty-add mem three empty 9 5 1 (2 ∷ 3 ∷ []) three-IsList empty-IsList

reverse-backwards_example : Became (reverse 4 mem three) (3 ∷ 2 ∷ 1 ∷ []) mem.value
reverse-backwards_example =
    reverse-backwards 4 mem three (1 ∷ 2 ∷ 3 ∷ []) three-IsList (omega arith)
