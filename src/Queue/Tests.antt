-- ===== src/Queue/Tests.antt =====
-- The queue at a concrete memory.
use libmowgli.Base.{◌*◌, ◌≡◌, refl, [], ◌∷◌, none, some, ◌==◌, if◌then◌else◌, arith}
use libmowgli.Nodes.{Mem, update}
use libmowgli.Queue.{push, remove}
use libmowgli.Queue.Edit.{IsQueue, remove-IsQueue, push-IsQueue}

-- The elements 1, 2, 3.
abbrev mem : Mem
mem = record {
  next = λ x. if x == 1 then some 2 else if x == 2 then some 3 else none;
  prev = λ x. if x == 2 then some 1 else if x == 3 then some 2 else none;
  value = λ x. 10 * x;
}

mem-IsQueue : IsQueue mem (1 ∷ 2 ∷ 3 ∷ [])
mem-IsQueue = record {
  distinct = (((λ e. omega arith), ((λ e. omega arith), tt)), (((λ e. omega arith), tt), (tt, tt)));
  forward = (refl, (refl, (refl, tt)));
  backward = (refl, (refl, (refl, tt)));
}

remove-IsQueue_example :
    IsQueue (remove 2 mem).0 (1 ∷ 3 ∷ [])
    × ((remove 2 mem).1 ≡ some 1)
    × ((remove 2 mem).0.value ≡ mem.value)
remove-IsQueue_example = remove-IsQueue mem 2 (1 ∷ []) (3 ∷ []) mem-IsQueue

push-IsQueue_example :
    IsQueue (push 2 7 5 mem) (1 ∷ 2 ∷ 5 ∷ []) × ((push 2 7 5 mem).value ≡ update mem.value 5 7)
push-IsQueue_example =
    push-IsQueue mem 2 5 7 (1 ∷ []) (3 ∷ []) mem-IsQueue
      ((λ e. omega arith), ((λ e. omega arith), ((λ e. omega arith), tt)))
