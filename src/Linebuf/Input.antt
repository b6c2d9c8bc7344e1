-- ===== src/Linebuf/Input.antt =====
-- src/libmowgli/linebuf/linebuf.c: what comes in, in `mowgli_linebuf_process` and
-- `mowgli_linebuf_read_data`.
use libmowgli.Base.{
  ℕ, suc, ◌+◌, ◌-◌, ◌<◌, ◌≤◌, ◌≡◌, refl, ap, ◌∙◌, List, [], ◌∷◌, ◌++◌, none, some, Bool, true,
  false, ◌&&◌, not, ◌==◌, leb, if◌then◌else◌, length, take, map, All, arith, length-append,
}
use libmowgli.Memory.{◌>>=◌, splice, write_range, write_range-some, take-splice}
use libmowgli.Linebuf.{
  Bytes, Linebuf, readline, vio_error, scanned, has_lines, keep_rest, finish, process, got, receive,
  read_data, select_read, select_write,
}
use libmowgli.Linebuf.Lines.{
  Line, joined, texts, IsDelim, IsPlain, IsLine, AreApart, marked, scan-joined, scan-overrun,
  rest_lem,
}

-- A line buffer whose read buffer holds `text` in front of `g`.
abbrev pub holding : Linebuf → Bytes → Bytes → Linebuf
holding l text g = record l {
  readbuf = record { buffer = text ++ g; buflen = length text; maxbuflen = length (text ++ g) };
}

length-marked :
    (normal : Bool) (ls : List Line) (delim rest : Bytes)
    → length rest ≤ length (marked delim normal ls rest)
length-marked normal [] delim rest = omega arith
length-marked normal (l ∷ ls) delim rest =
    let seps = l.seps ++ marked delim normal ls rest in
    let c = if normal then 0 else l.sep in
    omega (
      arith,
      length-marked normal ls delim rest,
      length-append l.text (c ∷ seps),
      length-append l.seps (marked delim normal ls rest),
    )

not_full : (b : Bool) (n m : ℕ) → n < m → (not b && (n == m)) ≡ false
not_full true n m h = refl
not_full false n m h = ground arith

-- For a buffer that holds lines, each ended by one or more delimiters and none but the first
-- empty, then a rest without delimiters, and behind it in the block a byte that is no delimiter:
-- `mowgli_linebuf_process` calls back with exactly the texts of the lines, in order, or with none
-- if a shutdown is under way, and keeps the rest at the front of the buffer. The flag for NUL
-- characters is not set.
pub process-lines :
    (l : Linebuf) (ls : List Line) (rest : Bytes) (c : ℕ) (g : Bytes)
    → All (IsLine l.delim) ls
    → AreApart ls
    → All (IsPlain l.delim) rest
    → IsPlain l.delim c
    → (m : Linebuf) × (process (holding l (joined ls rest) (c ∷ g))
        ≡ some (m, if l.shutting_down then [] else map readline (texts ls)))
      × (m.readbuf.buflen ≡ length rest)
      × (take (length rest) m.readbuf.buffer ≡ rest)
      × (m.has_null ≡ false)
unfolding process finish keep_rest
process-lines l ls rest c g h k hr hc =
    let b = holding l (joined ls rest) (c ∷ g) in
    let normal = l.return_normal_strings in
    let cells = marked l.delim normal ls rest ++ (c ∷ g) in
    let fits : length rest ≤ length cells = omega (
      arith,
      length-marked normal ls l.delim rest,
      length-append (marked l.delim normal ls rest) (c ∷ g),
    ) in
    let room : length (joined ls rest) < length (joined ls rest ++ (c ∷ g)) =
      omega (arith, length-append (joined ls rest) (c ∷ g)) in
    let m = record b {
      has_null = false;
      readbuf = record b.readbuf { buffer = splice cells 0 rest; buflen = length rest };
    } in
    (
      m,
      ap (λ o. o >>= finish b) (scan-joined l.delim normal ls rest c g h k hr hc)
          ∙ (ap
                (λ t.
                  if t
                  then some (
                    record b {
                      has_null = false;
                      readbuf_full = true;
                      readbuf = record b.readbuf { buffer = cells };
                    },
                    vio_error ∷ [],
                  )
                  else (keep_rest b (scanned (texts ls) false rest cells) >>= λ m.
                      some (m, if l.shutting_down then [] else map readline (texts ls))))
                (not_full (has_lines (texts ls)) (length (joined ls rest))
                  (length (joined ls rest ++ (c ∷ g))) room)
              ∙ ap
                  (λ o.
                    (o >>= λ cells. some (record b {
                      has_null = false;
                      readbuf = record b.readbuf { buffer = cells; buflen = length rest };
                    }))
                    >>= λ m. some (m, if l.shutting_down then [] else map readline (texts ls)))
                  (write_range-some cells rest 0 (omega (arith, fits)))),
      refl,
      take-splice cells rest 0 (length rest) (omega (arith, fits)) (omega arith),
      refl,
    )

-- If the bytes in the buffer are one or more lines, the last with its delimiters at the end, and
-- only delimiters stand behind them in the block, NUL bytes of a fresh block among them, or
-- nothing, then `mowgli_linebuf_process` reads behind the end of the block.
pub process-overrun :
    (l : Linebuf) (line : Line) (ls : List Line) (g : Bytes)
    → All (IsLine l.delim) (line ∷ ls)
    → AreApart (line ∷ ls)
    → All (IsDelim l.delim) g
    → process (holding l (joined (line ∷ ls) []) g) ≡ none
unfolding process
process-overrun l line ls g h k hg =
    ap (λ o. o >>= finish (holding l (joined (line ∷ ls) []) g))
      (scan-overrun l.delim l.return_normal_strings line ls g h k hg)

-- If the buffer is full and holds no delimiter, `mowgli_linebuf_process` calls no line back: it
-- sets the error flag of the read buffer and raises the error, and the bytes stay.
pub process-full :
    (l : Linebuf) (text : Bytes)
    → All (IsPlain l.delim) text
    → process (holding l text [])
      ≡ some (record (holding l text []) { has_null = false; readbuf_full = true }, vio_error ∷ [])
unfolding process finish
process-full l text h =
    let b = holding l text [] in
    ap (λ o. o >>= finish b) (rest_lem l.delim l.return_normal_strings text false [] [] h)
    ∙ ap
        (λ t.
          if t
          then some (record b { has_null = false; readbuf_full = true }, vio_error ∷ [])
          else (keep_rest b (scanned [] false text (text ++ [])) >>= λ m.
              some (m, if l.shutting_down then [] else [])))
        (same_length (length text) (length (text ++ [])) (omega (arith, length-append text [])))
  where
    same_length : (n m : ℕ) → n ≡ m → (n == m) ≡ true
    same_length n m e = ground arith

-- The read may give one byte more than the buffer has room for.
pub read_data_past_end :
    (l : Linebuf) (bytes text g : Bytes) (need_read need_write : Bool)
    → 0 < length g
    → length bytes ≡ suc (length g)
    → (length bytes ≡ (holding l text g).readbuf.maxbuflen - (holding l text g).readbuf.buflen + 1)
      × (read_data (λ n. got bytes need_read need_write) (holding l text g) ≡ none)
unfolding read_data receive write_range
read_data_past_end l bytes text g need_read need_write h e =
    let b = holding l text g in
    let n = length-append text g in
    (
      omega (arith, n, e),
      ap
            (λ t.
              if t
              then some (record b { readbuf_full = true }, vio_error ∷ [])
              else receive bytes need_read need_write b)
            (room (length (text ++ g)) (length text) (omega (arith, n)))
          ∙ ap
              (λ t. (if t then some (splice (text ++ g) (length text) bytes) else none) >>= λ cells.
                (process (record b {
                  readbuf = record b.readbuf {
                    buffer = cells;
                    buflen = length text + length bytes;
                  };
                })
                  >>= λ r. some (
                    r.0,
                    (if need_read then select_read true ∷ [] else [])
                        ++ ((if need_write then select_write true ∷ [] else []) ++ r.1),
                  )))
              (too_long (length text + length bytes) (length (text ++ g)) (omega (arith, n, e))),
    )
  where
    room : (n m : ℕ) → m < n → (n - m == 0) ≡ false
    room n m h = ground arith

    too_long : (n m : ℕ) → m < n → leb n m ≡ false
    too_long n m h = ground arith
