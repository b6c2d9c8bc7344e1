-- ===== src/Pool.antt =====
-- src/libmowgli/core/heap.enabled.c: pools of elements of one size, in blocks.
-- A block is named by its address, and an element by its block and its position there, so that
-- `un.block` of an allocated element is the first component. The free elements of a block, which
-- the source chains through `un.next`, are the list of their positions; the list `blocks` is the
-- sequence of its blocks, which the list functions of Nodes keep. A new block is zero, as `mmap`
-- gives it.
mod Tests
pub mod Valid
pub mod Take
pub mod Alloc
pub mod Change
pub mod Free
use libmowgli.Base.{
  ℕ, zero, suc, ◌+◌, ◌-◌, List, [], ◌∷◌, ◌++◌, Option, none, some, Bool, true, false, ◌==◌,
  if◌then◌else◌,
}
use libmowgli.Nodes.{Ref, update}

-- `mowgli_block_t`
pub record Block : Type 0 where
  pub first_free : List ℕ
  pub num_allocated : ℕ

-- `mowgli_heap_t`; `elems` is `mowgli_heap_elems`.
pub record Pool : Type 0 where
  pub elems : ℕ
  pub free_elems : ℕ
  pub blocks : List Ref
  pub empty_block : Option Ref
  pub store : Ref → Block

-- The chain that the loop of `mowgli_heap_expand` leaves: the last element first.
abbrev pub chain : ℕ → List ℕ
chain zero = []
chain (suc k) = k ∷ chain k

-- `new` is the address that the system gives.
unfoldable pub expand : Ref → Pool → Pool
expand new p = elim p.empty_block [
  | some _ ↦ p
  | none ↦ record p {
    store = update p.store new (record { first_free = chain p.elems; num_allocated = 0 });
    empty_block = some new;
    free_elems = p.free_elems + p.elems;
  }
]

-- `mowgli_node_delete` on `blocks`.
abbrev pub without : Ref → List Ref → List Ref
without b [] = []
without b (c ∷ cs) = if c == b then cs else c ∷ without b cs

-- `mowgli_heap_shrink`
unfoldable pub shrink : Pool → Ref → Pool
shrink p b = elim p.empty_block [
  | none ↦ record p { blocks = without b p.blocks; free_elems = p.free_elems - p.elems }
  | some e ↦
      if b == e
      then record p { empty_block = none; free_elems = p.free_elems - p.elems }
      else record p { blocks = without b p.blocks; free_elems = p.free_elems - p.elems }
]

-- The block to take an element from: the first of the list, unless it is full.
pub pick : Pool → List Ref → Option Ref
pick p [] = p.empty_block
pick p (b ∷ bs) = elim (p.store b).first_free [ [] ↦ p.empty_block | _ ∷ _ ↦ some b ]

-- The list of the blocks, and the empty block, behind an allocation from `b`.
abbrev pub settle : Pool → Ref → ℕ → List ℕ → Pool
settle p b num rest =
    if num == 1
    then record p { empty_block = none; blocks = b ∷ p.blocks }
    else elim rest [ [] ↦ record p { blocks = without b p.blocks ++ (b ∷ []) } | _ ∷ _ ↦ p ]

pub take_from : Pool → Ref → List ℕ → Option (Pool × Ref × ℕ)
take_from p b [] = none
take_from p b (i ∷ rest) =
    let num = (p.store b).num_allocated + 1 in
    some (
      settle
          (record p {
            store = update p.store b (record { first_free = rest; num_allocated = num });
            free_elems = p.free_elems - 1;
          })
          b num rest,
      b,
      i,
    )

abbrev pub take_picked : Pool → Option Ref → Option (Pool × Ref × ℕ)
take_picked p b = elim b [ none ↦ none | some c ↦ take_from p c (p.store c).first_free ]

-- A pool with free elements gives one of them.
unfoldable pub alloc_ready : Pool → Option (Pool × Ref × ℕ)
unfolding pick take_from
alloc_ready p = take_picked p (pick p p.blocks)

-- `mowgli_heap_alloc`, the element's block and position; `none` is NULL.
unfoldable pub alloc : Ref → Pool → Option (Pool × Ref × ℕ)
unfolding expand alloc_ready
alloc new p =
    if p.free_elems == 0
    then (if (expand new p).free_elems == 0 then none else alloc_ready (expand new p))
    else alloc_ready p

-- The end of `mowgli_heap_free`, with the new count of the block.
unfoldable pub settle_free : Pool → Ref → ℕ → Pool
unfolding shrink
settle_free p b num =
    if num == 0
    then (let q : Pool = elim p.empty_block [ none ↦ p | some e ↦ shrink p e ] in
        record q { blocks = without b q.blocks; empty_block = some b })
    else (if num == p.elems - 1 then record p { blocks = b ∷ without b p.blocks } else p)

-- `mowgli_heap_free` of an element. `none` is the failed check `num_allocated > 0`.
unfoldable pub free : Ref → ℕ → Pool → Option Pool
unfolding settle_free
free b i p =
    if (p.store b).num_allocated == 0
    then none
    else (let num = (p.store b).num_allocated - 1 in
        some (
          settle_free
            (record p {
              store =
                  update p.store b
                    (record { first_free = i ∷ (p.store b).first_free; num_allocated = num });
              free_elems = p.free_elems + 1;
            })
            b num))
