-- ===== src/Queue.antt =====
-- src/libmowgli/container/queue.c: double-ended queues, which have no head record: an element stands
-- for the queue around it. Memory is that of Nodes: `mowgli_queue_t` has the same three fields.
-- A new element comes from the pool with all fields zero, at the address that is passed.
mod Tests
pub mod Edit
pub mod Walk
use libmowgli.Base.{ℕ, zero, suc, ◌+◌, ◌≡◌, Option, none, some, Bool, leb, ◌==◌, if◌then◌else◌}
use libmowgli.Memory.{◌>>=◌}
use libmowgli.Nodes.{Ref, Mem, set_next, set_prev, set_data, initialise, hang_on_prev}

-- `mowgli_queue_shift`: the element before `head`.
unfoldable pub shift : Ref → ℕ → Ref → Mem → Mem
shift head value out m =
    let m1 = set_data (set_next (initialise 0 out m) out (some head)) out value in
    let m2 = set_prev m1 out (m1.prev head) in set_prev (hang_on_prev m2 out) head (some out)

-- `mowgli_queue_push`: the element behind `head`.
unfoldable pub push : Ref → ℕ → Ref → Mem → Mem
push head value out m =
    set_next (set_data (set_prev (initialise 0 out m) out (some head)) out value) head (some out)

-- `if (head->prev != NULL) head->prev->next = head->next;`, and the same the other way round
abbrev pub skip_forward : Ref → Mem → Mem
skip_forward head m = elim (m.prev head) [ none ↦ m | some p ↦ set_next m p (m.next head) ]

abbrev pub skip_backward : Ref → Mem → Mem
skip_backward head m = elim (m.next head) [ none ↦ m | some n ↦ set_prev m n (m.prev head) ]

-- The memory, and the neighbour that is returned.
unfoldable pub remove : Ref → Mem → Mem × Option Ref
remove head m =
    let m' = skip_backward head (skip_forward head m) in
    (m', elim (m'.prev head) [ none ↦ m'.next head | some p ↦ some p ])

pub find : ℕ → Mem → ℕ → Option Ref → Option (Option Ref)
find zero m value n = none
find (suc fuel) m value none = some none
find (suc fuel) m value (some x) =
    let rest = find fuel m value (m.next x) in if m.value x == value then some (some x) else rest

unfoldable pub remove_data : ℕ → Ref → ℕ → Mem → Option (Mem × Option Ref)
unfolding find remove
remove_data fuel head value m = find fuel m value (some head) >>= λ n. elim n [
  | none ↦ some (m, none)
  | some x ↦ some (remove x m)
]

-- `mowgli_queue_skip` and `mowgli_queue_rewind`: at most `nodes` steps.
pub skip : Mem → ℕ → Option Ref → Option Ref
skip m zero n = n
skip m (suc nodes) none = none
skip m (suc nodes) (some x) = skip m nodes (m.next x)

pub rewind : Mem → ℕ → Option Ref → Option Ref
rewind m zero n = n
rewind m (suc nodes) none = none
rewind m (suc nodes) (some x) = rewind m nodes (m.prev x)

-- `mowgli_queue_head` and `mowgli_queue_tail`
pub head : ℕ → Mem → Ref → Option Ref
head zero m n = none
head (suc fuel) m n = elim (m.prev n) [ none ↦ some n | some p ↦ head fuel m p ]

pub tail : ℕ → Mem → Ref → Option Ref
tail zero m n = none
tail (suc fuel) m n = elim (m.next n) [ none ↦ some n | some x ↦ tail fuel m x ]

-- The memory, the datum, and the new value of the variable that held the element.
unfoldable pub pop_head : Ref → Mem → Mem × ℕ × Option Ref
unfolding remove
pop_head n m = ((remove n m).0, m.value n, m.next n)

unfoldable pub pop_tail : Ref → Mem → Mem × ℕ × Option Ref
unfolding remove
pop_tail n m = ((remove n m).0, m.value n, m.prev n)

pub length_loop : ℕ → Mem → ℕ → Option Ref → Option ℕ
length_loop zero m iter n = none
length_loop (suc fuel) m iter none = some iter
length_loop (suc fuel) m iter (some x) = length_loop fuel m (iter + 1) (m.next x)

unfoldable pub queue_length : ℕ → Mem → Ref → Option ℕ
unfolding length_loop
queue_length fuel m n = length_loop fuel m 0 (some n)
