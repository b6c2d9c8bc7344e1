-- ===== src/Linebuf/Tests.antt =====
-- Line buffers at concrete inputs.
use libmowgli.Base.{
  ◌≡◌, ltb, if◌then◌else◌, refl, List, [], ◌∷◌, ◌++◌, none, some, true, false, take, map, arith,
}
use mathlib.Core.List.{cons≢nil}
use libmowgli.Memory.{◌>>=◌}
use libmowgli.Json.Text.{strchr}
use libmowgli.Linebuf.{
  Linebuf, fresh_buf, process, readline, vio_error, select_write, write, shut_down,
}
use libmowgli.Linebuf.Lines.{Line, joined, texts}
use libmowgli.Linebuf.Input.{holding, process-lines, process-overrun, process-full}
use libmowgli.Linebuf.Output.{IsSound, waiting, write-waiting, drain, IsClosed, shut_down-IsClosed}

-- Small buffers, with the delimiters of `create`.
abbrev small : Linebuf
small = record {
  delim = 13 ∷ 10 ∷ [];
  endl = 13 ∷ 10 ∷ [];
  readbuf_full = false;
  writebuf_full = false;
  has_null = false;
  shutting_down = false;
  readbuf = fresh_buf 8;
  writebuf = fresh_buf 8;
  return_normal_strings = true;
}

-- "ab\r\n" and "c\n".
abbrev lines : List Line
lines =
    record { text = 97 ∷ 98 ∷ []; sep = 13; seps = 10 ∷ [] }
    ∷ record { text = 99 ∷ []; sep = 10; seps = [] }
    ∷ []

process_of_two_lines :
    (process (holding small (joined lines (100 ∷ [])) (120 ∷ [])) >>= λ r. some r.1)
    ≡ some (readline (97 ∷ 98 ∷ []) ∷ readline (99 ∷ []) ∷ [])
unfolding process
process_of_two_lines = refl

process-lines_example :
    (m : Linebuf) × (process (holding small (joined lines (100 ∷ [])) (120 ∷ []))
      ≡ some (m, if small.shutting_down then [] else map readline (texts lines)))
    × (m.readbuf.buflen ≡ 1)
    × (take 1 m.readbuf.buffer ≡ 100 ∷ [])
    × (m.has_null ≡ false)
unfolding strchr
process-lines_example =
    process-lines small lines (100 ∷ []) 120 []
      (((refl, (refl, tt)), refl, (refl, tt)), (((refl, tt), refl, tt), tt)) (cons≢nil, tt)
      (refl, tt) refl

process-overrun_example : process (holding small (joined lines []) (0 ∷ 0 ∷ [])) ≡ none
unfolding strchr
process-overrun_example =
    process-overrun small (record { text = 97 ∷ 98 ∷ []; sep = 13; seps = 10 ∷ [] })
      (record { text = 99 ∷ []; sep = 10; seps = [] } ∷ []) (0 ∷ 0 ∷ [])
      (((refl, (refl, tt)), refl, (refl, tt)), (((refl, tt), refl, tt), tt)) (cons≢nil, tt)
      (refl, (refl, tt))

process-full_example :
    process (holding small (97 ∷ 98 ∷ []) [])
    ≡ some (
      record (holding small (97 ∷ 98 ∷ []) []) { has_null = false; readbuf_full = true },
      vio_error ∷ [],
    )
unfolding strchr
process-full_example = process-full small (97 ∷ 98 ∷ []) (refl, (refl, tt))

write-waiting_example :
    (m : Linebuf) × (write small (97 ∷ []) ≡ some (m, select_write true ∷ []))
    × IsSound m.writebuf
    × (waiting m.writebuf ≡ waiting small.writebuf ++ (97 ∷ 13 ∷ 10 ∷ []))
write-waiting_example =
    write-waiting small (97 ∷ []) (refl, omega arith) refl cons≢nil (omega arith)

-- "abc\r\n" waits.
abbrev loaded : Linebuf
loaded = record small {
  writebuf = record { buffer = 97 ∷ 98 ∷ 99 ∷ 13 ∷ 10 ∷ 0 ∷ 0 ∷ 0 ∷ []; buflen = 5; maxbuflen = 8 };
}

shut_down-IsClosed_example : IsClosed (
  (drain 5 (λ k. (1, ltb 1 k)) (shut_down loaded).0).0,
  (shut_down loaded).1 ++ (drain 5 (λ k. (1, ltb 1 k)) (shut_down loaded).0).1,
)
shut_down-IsClosed_example =
    shut_down-IsClosed 5 (λ k. (1, ltb 1 k)) loaded (λ k h. (omega arith, omega arith))
      (omega arith)
