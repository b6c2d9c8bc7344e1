-- ===== src/Strings.antt =====
-- src/libmowgli/core/mowgli_string.c: the BSD string copies and the growing string buffer.
-- A `char *` into a block is the list of the cells from it to the end of its block.
mod Tests
pub mod Copy
pub mod Grow
pub mod Append
use libmowgli.Base.{
  ℕ, zero, suc, ◌+◌, ◌-◌, ◌*◌, ◌%◌, ◌^◌, max, Bool, true, false, List, [], ◌∷◌, Option, none, some,
  leb, ◌==◌, if◌then◌else◌, replicate,
}
use libmowgli.Memory.{◌>>=◌, read_range, write_range}

abbrev pub Bytes : Type 0
Bytes = List ℕ

-- `strlen`; `none` is a read behind the end of the block.
pub strlen : Bytes → Option ℕ
strlen [] = none
strlen (c ∷ s) = if c == 0 then some 0 else (do k ← strlen s; some (suc k))

-- What a copy leaves in the block of its destination, from the pointer on, and what it returns.
pub record Copied : Type 0 where
  pub dst : Bytes
  pub ret : ℕ

abbrev pub copied : Bytes → ℕ → Copied
copied d k = record { dst = d; ret = k }

-- One byte was stored, and one byte of the source was read, before the rest.
abbrev pub stored : ℕ → Option Copied → Option Copied
stored c r = r >>= λ q. some (copied (c ∷ q.dst) (suc q.ret))

-- `*d = '\0'`, with the value to return.
pub terminate : Bytes → Option ℕ → Option Copied
terminate [] r = none
terminate (x ∷ d) r = r >>= λ k. some (copied (0 ∷ d) k)

-- The loop of `mowgli_strlcpy`, entered with `n` still to be decremented, and what follows it.
pub strlcpy_loop : ℕ → Bytes → Bytes → Option Copied
unfolding terminate strlen
strlcpy_loop zero d s = none
strlcpy_loop (suc zero) d s = terminate d (strlen s)
strlcpy_loop (suc (suc n)) [] s = none
strlcpy_loop (suc (suc n)) (x ∷ d) [] = none
strlcpy_loop (suc (suc n)) (x ∷ d) (c ∷ s) =
    if c == 0 then some (copied (0 ∷ d) 0) else stored c (strlcpy_loop (suc n) d s)

unfoldable pub strlcpy : Bytes → Bytes → ℕ → Option Copied
unfolding strlcpy_loop strlen
strlcpy dst src zero = strlen src >>= λ k. some (copied dst k)
strlcpy dst src (suc n) = strlcpy_loop (suc n) dst src

-- The second loop of `mowgli_strlcat`, with `n` cells left at `d`, and what follows it.
pub strlcat_copy : ℕ → Bytes → Bytes → Option Copied
unfolding terminate
strlcat_copy n [] s = none
strlcat_copy n (x ∷ d) [] = none
strlcat_copy n (x ∷ d) (c ∷ s) = if c == 0 then terminate (x ∷ d) (some 0) else elim (n == 1) [
  | true ↦ strlcat_copy n (x ∷ d) s >>= λ q. some (copied q.dst (suc q.ret))
  | false ↦ stored c (strlcat_copy (n - 1) d s)
]

-- The search for the end of `dst`, with `n` cells left at `d`, and what follows it.
pub strlcat_find : ℕ → Bytes → Bytes → Option Copied
unfolding strlcat_copy strlen
strlcat_find zero d s = strlen s >>= λ k. some (copied d k)
strlcat_find (suc n) [] s = none
strlcat_find (suc n) (x ∷ d) s =
    if x == 0
    then strlcat_copy (suc n) (x ∷ d) s
    else (do q ← strlcat_find n d s; some (copied (x ∷ q.dst) (suc q.ret)))

unfoldable pub strlcat : Bytes → Bytes → ℕ → Option Copied
unfolding strlcat_find
strlcat dst src siz = strlcat_find siz dst src

-- `calloc (1, n)`, the allocator of the default policy.
abbrev pub alloc : ℕ → Bytes
alloc n = replicate n 0

abbrev pub size_mod : ℕ
size_mod = 2 ^ 64

-- `mowgli_string_t`; its function pointers never change.
pub record Buffer : Type 0 where
  pub str : Bytes
  pub pos : ℕ
  pub size : ℕ

unfoldable pub create : Buffer
create = record { str = alloc 64; pos = 0; size = 64 }

-- `self->str[0] = self->pos = 0`
unfoldable pub reset : Buffer → Option Buffer
unfolding write_range
reset s = do str ← write_range s.str 0 (0 ∷ []); some (record s { str = str; pos = 0 })

-- The reallocation of `mowgli_string_append` and of `mowgli_string_append_char`.
unfoldable pub grow : Buffer → ℕ → Option Buffer
unfolding strlcpy
grow s size = do q ← strlcpy (alloc size) s.str size; some (record s { str = q.dst; size = size })

-- `self->size - self->pos <= n`, on `size_t`
abbrev pub is_tight : Buffer → ℕ → Bool
is_tight s n = leb ((s.size + size_mod - s.pos) % size_mod) n

-- The reallocation is made if `n` more bytes and a terminator do not fit; `need` is `pos + n + 8`.
unfoldable pub make_room : Buffer → ℕ → ℕ → Option Buffer
unfolding grow
make_room s n need =
    if is_tight s n then grow s (max ((s.size * 2) % size_mod) (need % size_mod)) else some s

unfoldable pub append : Buffer → Bytes → ℕ → Option Buffer
unfolding make_room read_range write_range
append s src n = do
  t ← make_room s n (s.pos + n + 8)
  bytes ← read_range src 0 n
  str ← write_range t.str t.pos bytes
  str' ← write_range str (t.pos + n) (0 ∷ [])
  some (record t { str = str'; pos = t.pos + n })

unfoldable pub append_char : Buffer → ℕ → Option Buffer
unfolding make_room write_range
append_char s c = do
  t ← make_room s 1 (s.pos + 9)
  str ← write_range t.str t.pos (c ∷ [])
  str' ← write_range str (t.pos + 1) (0 ∷ [])
  some (record t { str = str'; pos = t.pos + 1 })
