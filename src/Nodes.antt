-- ===== src/Nodes.antt =====
-- src/libmowgli/container/list.c: doubly linked lists whose nodes belong to the caller.
-- A node is named by its address, and memory holds its three fields. A list record is a value: the
-- two lists of `move` and of `concat` are two objects. A result `none` is a read through NULL, or
-- fuel that ran out.
mod Tests
pub mod Chain
pub mod Insert
pub mod Between
pub mod Unlink
pub mod Move
pub mod Walk
pub mod Locate
pub mod Whole
use libmowgli.Base.{
  ℕ, zero, suc, ◌+◌, ◌-◌, ◌/◌, ◌%◌, ◌^◌, List, [], ◌∷◌, Option, none, some, Bool, true, false, ltb,
  ◌==◌, if◌then◌else◌,
}
use libmowgli.Memory.{◌>>=◌}

abbrev pub Ref : Type 0
Ref = ℕ

-- The nodes' fields, `mowgli_node_t`, with `data` as `value`; NULL is `none`.
pub record Mem : Type 0 where
  pub next : Ref → Option Ref
  pub prev : Ref → Option Ref
  pub value : Ref → ℕ

-- `mowgli_list_t`
pub record NodeList : Type 0 where
  pub head : Option Ref
  pub tail : Option Ref
  pub count : ℕ

abbrev pub empty : NodeList
empty = record { head = none; tail = none; count = 0 }

abbrev pub update {ℓ} : {A : Type ℓ} → (Ref → A) → Ref → A → Ref → A
update f x v y = if y == x then v else f y

abbrev pub set_next : Mem → Ref → Option Ref → Mem
set_next m x v = record m { next = update m.next x v }

abbrev pub set_prev : Mem → Ref → Option Ref → Mem
set_prev m x v = record m { prev = update m.prev x v }

abbrev pub set_data : Mem → Ref → ℕ → Mem
set_data m x v = record m { value = update m.value x v }

-- `n->next = n->prev = NULL; n->data = data;`
abbrev pub initialise : ℕ → Ref → Mem → Mem
initialise value n m = set_data (set_next (set_prev m n none) n none) n value

-- `x == p`, of a pointer that may be NULL
abbrev pub is : Option Ref → Ref → Bool
is none x = false
is (some p) x = p == x

abbrev pub size_mod : ℕ
size_mod = 2 ^ 64

-- A `size_t` decremented.
abbrev pub decrement : ℕ → ℕ
decrement zero = size_mod - 1
decrement (suc k) = k

abbrev pub single : Ref → NodeList
single n = record { head = some n; tail = some n; count = 1 }

unfoldable pub add : ℕ → Ref → Mem → NodeList → Option (Mem × NodeList)
add value n m l = elim l.head [
  | none ↦ some (initialise value n m, single n)
  | some _ ↦ l.tail >>= λ tn. some (
    set_next (set_prev (initialise value n m) n (some tn)) tn (some n),
    record l { tail = some n; count = l.count + 1 },
  )
]

unfoldable pub add_head : ℕ → Ref → Mem → NodeList → Mem × NodeList
add_head value n m l = elim l.head [
  | none ↦ (initialise value n m, single n)
  | some tn ↦ (
    set_prev (set_next (initialise value n m) n (some tn)) tn (some n),
    record l { head = some n; count = l.count + 1 },
  )
]

-- `if (n->prev != NULL) n->prev->next = n;`
abbrev pub hang_on_prev : Mem → Ref → Mem
hang_on_prev m n = elim (m.prev n) [ none ↦ m | some p ↦ set_next m p (some n) ]

-- The last branch of `mowgli_node_add_before`.
abbrev pub before_middle : ℕ → Ref → Mem → Ref → Mem
before_middle value n m b =
    let m1 = set_data m n value in
    let m2 = set_prev m1 n (m1.prev b) in
    let m3 = set_next m2 n (some b) in hang_on_prev (set_prev m3 b (some n)) n

unfoldable pub add_before : ℕ → Ref → Mem → NodeList → Option Ref → Option (Mem × NodeList)
unfolding add add_head
add_before value n m l none = add value n m l
add_before value n m l (some b) =
    if is l.head b
    then some (add_head value n m l)
    else some (before_middle value n m b, record l { count = l.count + 1 })

-- The last branch of `mowgli_node_add_after`.
abbrev pub after_middle : ℕ → Ref → Mem → Ref → Option Mem
after_middle value n m b =
    let m1 = set_data m n value in
    let m2 = set_prev m1 n (some b) in
    let m3 = set_next m2 n (m2.next b) in
    let m4 = set_next m3 b (some n) in m4.next n >>= λ x. some (set_prev m4 x (some n))

unfoldable pub add_after : ℕ → Ref → Mem → NodeList → Option Ref → Option (Mem × NodeList)
unfolding add
add_after value n m l none = add value n m l
add_after value n m l (some b) = elim (m.next b) [
  | none ↦ add value n m l
  | some _ ↦ after_middle value n m b >>= λ m'. some (m', record l { count = l.count + 1 })
]

-- The two halves of `mowgli_node_delete`.
abbrev pub unlink_prev : Ref → Mem → NodeList → Mem × NodeList
unlink_prev n m l = elim (m.prev n) [
  | none ↦ (m, record l { head = m.next n })
  | some p ↦ (set_next m p (m.next n), l)
]

abbrev pub unlink_next : Ref → Mem → NodeList → Mem × NodeList
unlink_next n m l = elim (m.next n) [
  | none ↦ (m, record l { tail = m.prev n })
  | some x ↦ (set_prev m x (m.prev n), l)
]

unfoldable pub delete : Ref → Mem → NodeList → Mem × NodeList
delete n m l =
    let a = unlink_prev n m l in
    let b = unlink_next n a.0 a.1 in (b.0, record b.1 { count = decrement b.1.count })

-- `mowgli_node_move` behind the unlinking, on the new list.
abbrev pub move_to : Ref → Mem → NodeList → Mem × NodeList
move_to n m new =
    let m1 = set_next (set_prev m n none) n new.head in
    elim new.head [
      | some h ↦ (set_prev m1 h (some n), record new { head = some n; count = new.count + 1 })
      | none ↦ (
        m1,
        elim new.tail [
          | none ↦ record new { head = some n; tail = some n; count = new.count + 1 }
          | some _ ↦ record new { head = some n; count = new.count + 1 }
        ],
      )
    ]

-- The memory, the old list and the new list.
unfoldable pub move : Ref → Mem → NodeList → NodeList → Mem × NodeList × NodeList
move n m old new =
    let a = unlink_next n m old in
    let b = unlink_prev n a.0 a.1 in
    let c = move_to n b.0 new in (c.0, record b.1 { count = decrement b.1.count }, c.1)

-- The loops of `mowgli_node_nth` are left at the position or at the end.
pub nth_forward : ℕ → Mem → ℕ → ℕ → Option Ref → Option (Option Ref)
nth_forward zero m pos iter n = none
nth_forward (suc fuel) m pos iter none = some none
nth_forward (suc fuel) m pos iter (some n) =
    let rest = nth_forward fuel m pos ((iter + 1) % size_mod) (m.next n) in
    if iter == pos then some (some n) else rest

pub nth_backward : ℕ → Mem → ℕ → ℕ → Option Ref → Option (Option Ref)
nth_backward zero m pos iter n = none
nth_backward (suc fuel) m pos iter none = some none
nth_backward (suc fuel) m pos iter (some n) =
    let rest = nth_backward fuel m pos (decrement iter) (m.prev n) in
    if iter == pos then some (some n) else rest

unfoldable pub nth : ℕ → Mem → NodeList → ℕ → Option (Option Ref)
unfolding nth_forward nth_backward
nth fuel m l pos =
    if ltb pos (l.count / 2)
    then nth_forward fuel m pos 0 l.head
    else nth_backward fuel m pos (decrement l.count) l.tail

unfoldable pub nth_data : ℕ → Mem → NodeList → ℕ → Option ℕ
unfolding nth
nth_data fuel m l pos =
    nth fuel m l pos >>= λ n. elim n [ none ↦ some 0 | some x ↦ some (m.value x) ]

unfoldable pub insert : ℕ → ℕ → Ref → Mem → NodeList → ℕ → Option (Mem × NodeList)
unfolding nth add_before
insert fuel value n m l pos = nth fuel m l pos >>= λ tn. add_before value n m l tn

pub index_loop : ℕ → Mem → Ref → ℕ → Option Ref → Option ℕ
index_loop zero m n iter tn = none
index_loop (suc fuel) m n iter none = some iter
index_loop (suc fuel) m n iter (some x) =
    let rest = index_loop fuel m n (iter + 1) (m.next x) in if x == n then some iter else rest

-- The position, or -1 (`none`).
unfoldable pub index : ℕ → Mem → Ref → NodeList → Option (Option ℕ)
unfolding index_loop
index fuel m n l =
    index_loop fuel m n 0 l.head >>= λ iter. some (if ltb iter l.count then some iter else none)

pub find_loop : ℕ → Mem → ℕ → Option Ref → Option (Option Ref)
find_loop zero m value n = none
find_loop (suc fuel) m value none = some none
find_loop (suc fuel) m value (some x) =
    let rest = find_loop fuel m value (m.next x) in
    if m.value x == value then some (some x) else rest

unfoldable pub find : ℕ → ℕ → Mem → NodeList → Option (Option Ref)
unfolding find_loop
find fuel value m l = find_loop fuel m value l.head

-- `if (l->tail != NULL) { l->tail->next = l2->head; if (...) l->tail->next->prev = l->tail; }`
abbrev pub join : Mem → Option Ref → Option Ref → Mem
join m none h = m
join m (some t) none = set_next m t none
join m (some t) (some h) = set_prev (set_next m t (some h)) h (some t)

-- The memory, `l` and `l2`.
unfoldable pub concat : Mem → NodeList → NodeList → Mem × NodeList × NodeList
concat m l l2 = (
  join m l.tail l2.head,
  record {
    head = elim l.head [ none ↦ l2.head | some h ↦ some h ];
    tail = l2.tail;
    count = l.count + l2.count;
  },
  empty,
)

-- `tn2 = n->next; n->next = n->prev; n->prev = tn2;`
abbrev pub swap : Mem → Ref → Mem
swap m n = set_prev (set_next m n (m.prev n)) n (m.next n)

pub reverse_loop : ℕ → Mem → Option Ref → Option Mem
reverse_loop zero m n = none
reverse_loop (suc fuel) m none = some m
reverse_loop (suc fuel) m (some n) = reverse_loop fuel (swap m n) (m.next n)

unfoldable pub reverse : ℕ → Mem → NodeList → Option (Mem × NodeList)
unfolding reverse_loop
reverse fuel m l =
    reverse_loop fuel m l.head >>= λ m'. some (m', record l { head = l.tail; tail = l.head })
