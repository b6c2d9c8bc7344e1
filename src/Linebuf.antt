-- ===== src/Linebuf.antt =====
-- src/libmowgli/linebuf/linebuf.c: line buffers on a connection, whose reads and writes are
-- parameters. A result `none` is an access behind the end of a buffer's block.
mod Tests
pub mod Lines
pub mod Input
pub mod Output
use libmowgli.Base.{
  ℕ, zero, suc, ◌+◌, ◌-◌, List, [], ◌∷◌, ◌++◌, Option, none, some, Bool, true, false, ◌&&◌, ◌||◌,
  not, ltb, ◌==◌, if◌then◌else◌, length, take, map, replicate,
}
use libmowgli.Memory.{◌>>=◌, write_range}
use libmowgli.Json.Text.{strchr}

abbrev pub Bytes : Type 0
Bytes = List ℕ

-- `mowgli_linebuf_buf_t`; the block is the list of its cells.
pub record Buf : Type 0 where
  pub buffer : Bytes
  pub buflen : ℕ
  pub maxbuflen : ℕ

-- `mowgli_linebuf_t`: the bits of `flags` are fields, and `endl_len` is the length of `endl`.
pub record Linebuf : Type 0 where
  pub delim : Bytes
  pub endl : Bytes
  pub readbuf_full : Bool
  pub writebuf_full : Bool
  pub has_null : Bool
  pub shutting_down : Bool
  pub readbuf : Buf
  pub writebuf : Buf
  pub return_normal_strings : Bool

-- What the line buffer does to others, in order: a call of `readline_cb` with a line, of
-- `shutdown_cb`, of the error callback, or of `mowgli_pollable_setselect`.
pub data Event : Type 0 where
  readline : Bytes → Event
  shutdown : Event
  vio_error : Event
  select_read : Bool → Event
  select_write : Bool → Event

abbrev pub Outcome : Type 0
Outcome = Option (Linebuf × List Event)

-- The buffers that `mowgli_linebuf_create` gives; `mowgli_alloc` clears.
abbrev pub fresh_buf : ℕ → Buf
fresh_buf n = record { buffer = replicate n 0; buflen = 0; maxbuflen = n }

unfoldable pub create : Linebuf
create = record {
  delim = 13 ∷ 10 ∷ [];
  endl = 13 ∷ 10 ∷ [];
  readbuf_full = false;
  writebuf_full = false;
  has_null = false;
  shutting_down = false;
  readbuf = fresh_buf 65536;
  writebuf = fresh_buf 65536;
  return_normal_strings = true;
}

-- `mowgli_linebuf_setbuflen`: the contents go through a copy of the old size.
unfoldable pub setbuflen : Buf → ℕ → Option Buf
unfolding write_range
setbuflen b n = do
  cells ←
      if 0 == b.buflen
      then some (replicate n 0)
      else write_range (replicate n 0) 0 (take b.maxbuflen b.buffer)
  some (record b { buffer = cells; maxbuflen = n })

-- `mowgli_linebuf_delim`, unless a string is empty.
unfoldable pub set_delim : Linebuf → Bytes → Bytes → Linebuf
set_delim l [] endl = l
set_delim l (c ∷ delim) [] = l
set_delim l (c ∷ delim) (d ∷ endl) = record l { delim = c ∷ delim; endl = d ∷ endl }

-- What the loops of `mowgli_linebuf_process` leave: the lines that were ended, the flag for NUL
-- characters, the bytes from `line_start` on, and the cells of the block.
pub record Scanned : Type 0 where
  pub lines : List Bytes
  pub null : Bool
  pub rest : Bytes
  pub cells : Bytes

abbrev pub scanned : List Bytes → Bool → Bytes → Bytes → Scanned
scanned ls b r cs = record { lines = ls; null = b; rest = r; cells = cs }

abbrev pub past : ℕ → Option Scanned → Option Scanned
past c o = o >>= λ s. some (record s { cells = c ∷ s.cells })

abbrev pub ended : Bytes → Option Scanned → Option Scanned
ended line o = o >>= λ s. some (record s { lines = line ∷ s.lines })

-- One character for each turn: with `n` characters left, the flag for NUL characters, and the bytes
-- since `line_start` in a line, or `none` between two lines, where the inner loop skips delimiters
-- without a look at `n`. The character that ends a line is a delimiter also when it has been cleared.
unfoldable pub scan : Bytes → Bool → ℕ → Bool → Option Bytes → Bytes → Option Scanned
unfolding strchr
scan delim normal zero b (some line) cells = some (scanned [] b line cells)
scan delim normal (suc n) b (some line) [] = none
scan delim normal (suc n) b (some line) (c ∷ cells) =
    let rest = scan delim normal n false none cells in
    let more = scan delim normal n (b || (c == 0)) (some (line ++ (c ∷ []))) cells in
    if strchr delim c then ended line (past (if normal then 0 else c) rest) else past c more
scan delim normal n b none [] = none
scan delim normal zero b none (c ∷ cells) =
    let rest = scan delim normal zero b none cells in
    if strchr delim c then past c rest else some (scanned [] b [] (c ∷ cells))
scan delim normal (suc n) b none (c ∷ cells) =
    let rest = scan delim normal n b none cells in
    let more = scan delim normal n (b || (c == 0)) (some (c ∷ [])) cells in
    if strchr delim c then past c rest else past c more

abbrev has_lines : List Bytes → Bool
has_lines [] = false
has_lines (l ∷ ls) = true

-- The end of `mowgli_linebuf_process`: what is left of the last line moves to the front.
unfoldable pub keep_rest : Linebuf → Scanned → Option Linebuf
unfolding write_range
keep_rest l s = do
  cells ← write_range s.cells 0 s.rest
  some (record l {
    has_null = s.null;
    readbuf = record l.readbuf { buffer = cells; buflen = length s.rest };
  })

-- No line in a buffer that is full is an error.
unfoldable pub finish : Linebuf → Scanned → Outcome
unfolding keep_rest
finish l s =
    if not (has_lines s.lines) && (l.readbuf.buflen == l.readbuf.maxbuflen)
    then some (
      record l {
        has_null = s.null;
        readbuf_full = true;
        readbuf = record l.readbuf { buffer = s.cells };
      },
      vio_error ∷ [],
    )
    else keep_rest l s >>= λ m. some (m, if l.shutting_down then [] else map readline s.lines)

unfoldable pub process : Linebuf → Outcome
unfolding scan finish
process l = do
  s ← scan l.delim l.return_normal_strings l.readbuf.buflen false (some []) l.readbuf.buffer
  finish l s

-- What `mowgli_vio_read` gives: bytes and the flags NEEDREAD and NEEDWRITE, or a result of at most
-- 0, with or without an error.
pub data ReadResult : Type 0 where
  got : Bytes → Bool → Bool → ReadResult
  nothing : ReadResult
  failed : ReadResult

-- Bytes came in.
unfoldable pub receive : Bytes → Bool → Bool → Linebuf → Outcome
unfolding write_range process
receive bytes need_read need_write l =
    let b = l.readbuf in
    (do
      cells ← write_range b.buffer b.buflen bytes
      r ←
          process
            (record l { readbuf = record b { buffer = cells; buflen = b.buflen + length bytes } })
      some (
        r.0,
        (if need_read then select_read true ∷ [] else [])
            ++ ((if need_write then select_write true ∷ [] else []) ++ r.1),
      ))

-- `mowgli_linebuf_read_data`; the read has room for `maxbuflen - buflen + 1` bytes.
unfoldable pub read_data : (ℕ → ReadResult) → Linebuf → Outcome
unfolding receive
read_data vio_read l =
    let b = l.readbuf in
    if b.maxbuflen - b.buflen == 0
    then some (record l { readbuf_full = true }, vio_error ∷ [])
    else elim (vio_read (b.maxbuflen - b.buflen + 1)) [
      | nothing ↦ some (l, [])
      | failed ↦ some (l, select_read false ∷ shutdown ∷ [])
      | got bytes need_read need_write ↦ receive bytes need_read need_write l
    ]

-- A line and its end are copied behind what waits, and the write is scheduled.
unfoldable pub store : Linebuf → Bytes → Outcome
unfolding write_range
store l bytes =
    let b = l.writebuf in
    (do
      cells ← write_range b.buffer b.buflen bytes
      cells' ← write_range cells (b.buflen + length bytes) l.endl
      some (
        record l {
          writebuf = record b {
            buffer = cells';
            buflen = b.buflen + (length bytes + length l.endl);
          };
        },
        select_write true ∷ [],
      ))

-- `mowgli_linebuf_write`
unfoldable pub write : Linebuf → Bytes → Outcome
unfolding store
write l bytes =
    let b = l.writebuf in
    if length bytes == 0
    then some (l, [])
    else if l.shutting_down
    then some (l, [])
    else if ltb b.maxbuflen (b.buflen + length bytes + length l.endl)
    then some (record l { writebuf_full = true }, vio_error ∷ [])
    else store l bytes

-- What `mowgli_vio_write` gives: how many bytes it took and the flag NEEDWRITE, a negative number
-- with an error code, or one without a code: minus the first argument, and one less.
pub data WriteResult : Type 0 where
  wrote : ℕ → Bool → WriteResult
  refused : WriteResult
  uncoded : ℕ → WriteResult

-- `mowgli_linebuf_write_data`
unfoldable pub write_data : WriteResult → Linebuf → Linebuf × List Event
write_data refused l = (l, select_write false ∷ [])
write_data (uncoded k) l = (
  record l { writebuf = record l.writebuf { buflen = l.writebuf.buflen + suc k } },
  select_write true ∷ [],
)
write_data (wrote k need_write) l =
    let left = l.writebuf.buflen - k in
    let m = record l { writebuf = record l.writebuf { buflen = left } } in
    if left == 0
    then (
      m,
      (if need_write then [] else select_write false ∷ [])
          ++ (if l.shutting_down then shutdown ∷ [] else []),
    )
    else (m, select_write true ∷ [])

-- `mowgli_linebuf_shut_down`
unfoldable pub shut_down : Linebuf → Linebuf × List Event
shut_down l =
    (record l { shutting_down = true }, if l.writebuf.buflen == 0 then shutdown ∷ [] else [])
