-- ===== src/Linebuf/Output.antt =====
-- src/libmowgli/linebuf/linebuf.c: what goes out, in `mowgli_linebuf_write` and
-- `mowgli_linebuf_write_data`.
use libmowgli.Base.{
  ℕ, zero, suc, ◌+◌, ◌-◌, ◌<◌, ◌≤◌, ◌≡◌, ◌≢◌, refl, ap, sym, ◌∙◌, List, [], ◌∷◌, ◌++◌, append_assoc,
  append-nil, some, Bool, true, false, ltb, ◌==◌, if◌then◌else◌, length, take, arith, lt→ltb,
  take-take, subst, ◌⊎◌, inl, inr,
}
use libmowgli.Memory.{◌>>=◌, splice, length-splice, write_range, write_range-some, take-splice}
use libmowgli.Linebuf.{
  Bytes, Buf, Linebuf, Event, shutdown, vio_error, select_write, Outcome, wrote, store, write,
  write_data, shut_down,
}

-- The block has as many cells as `maxbuflen` says, and `buflen` of them are in use.
abbrev pub IsSound : Buf → Type 0
IsSound b = (length b.buffer ≡ b.maxbuflen) × (b.buflen ≤ b.maxbuflen)

-- The bytes that wait to be sent.
abbrev pub waiting : Buf → Bytes
waiting b = take b.buflen b.buffer

store-waiting :
    (l : Linebuf) (bytes : Bytes)
    → IsSound l.writebuf
    → l.writebuf.buflen + length bytes + length l.endl ≤ l.writebuf.maxbuflen
    → (m : Linebuf) × (store l bytes ≡ some (m, select_write true ∷ []))
      × IsSound m.writebuf
      × (waiting m.writebuf ≡ waiting l.writebuf ++ (bytes ++ l.endl))
unfolding store
store-waiting l bytes s h =
    let b = l.writebuf in
    let off = b.buflen + length bytes in
    let cells = splice b.buffer b.buflen bytes in
    let cells' = splice cells off l.endl in
    let f1 : off ≤ length b.buffer = omega (arith, s.0) in
    let g1 = length-splice b.buffer bytes b.buflen f1 in
    let f2 : off + length l.endl ≤ length cells = omega (arith, s.0, g1) in
    let g2 = length-splice cells l.endl off f2 in
    let n = b.buflen + (length bytes + length l.endl) in
    let put : Bytes → Linebuf =
      (λ cells. record l { writebuf = record b { buffer = cells; buflen = n } }) in
    (
      put cells',
      ap
            (λ o. o >>= λ cells.
              (write_range cells off l.endl >>= λ cells'.
              some (put cells', select_write true ∷ [])))
            (write_range-some b.buffer bytes b.buflen f1)
          ∙ ap (λ o. o >>= λ cells'. some (put cells', select_write true ∷ []))
              (write_range-some cells l.endl off f2),
      (omega (arith, g1, g2, s.0), omega arith),
      take-splice cells l.endl off n f2 (omega arith)
          ∙ (ap (λ t. t ++ l.endl) (take-splice b.buffer bytes b.buflen off f1 (omega arith))
              ∙ append_assoc (take b.buflen b.buffer) bytes l.endl),
    )

-- The tests of `write`, on a line that is not empty.
write_by : Linebuf → Bytes → Bool → Bool → Outcome
write_by l bytes closing full =
    if closing
    then some (l, [])
    else if full
    then some (record l { writebuf_full = true }, vio_error ∷ [])
    else store l bytes

write_tests :
    (l : Linebuf) (bytes : Bytes) (closing full : Bool)
    → bytes ≢ []
    → l.shutting_down ≡ closing
    → ltb l.writebuf.maxbuflen (l.writebuf.buflen + length bytes + length l.endl) ≡ full
    → write l bytes ≡ write_by l bytes closing full
unfolding write write_by
write_tests l [] closing full ne e f = absurd (ne refl)
write_tests l (c ∷ cs) closing full ne e f =
    let n = l.writebuf.buflen + length (c ∷ cs) + length l.endl in
    ap
      (λ t.
        if t
        then some (l, [])
        else write_by l (c ∷ cs) l.shutting_down (ltb l.writebuf.maxbuflen n))
      (not_zero (length cs))
    ∙ ap (λ t. write_by l (c ∷ cs) t (ltb l.writebuf.maxbuflen n)) e
    ∙ ap (write_by l (c ∷ cs) closing) f
  where
    not_zero : (n : ℕ) → (suc n == 0) ≡ false
    not_zero n = ground arith

-- In a write buffer whose block has `maxbuflen` cells, a write of a line that is not empty, and
-- fits with its end, while no shutdown is under way, puts the line and its end behind the bytes
-- that wait, schedules the write, and keeps the buffer in bounds.
pub write-waiting :
    (l : Linebuf) (bytes : Bytes)
    → IsSound l.writebuf
    → l.shutting_down ≡ false
    → bytes ≢ []
    → l.writebuf.buflen + length bytes + length l.endl ≤ l.writebuf.maxbuflen
    → (m : Linebuf) × (write l bytes ≡ some (m, select_write true ∷ []))
      × IsSound m.writebuf
      × (waiting m.writebuf ≡ waiting l.writebuf ++ (bytes ++ l.endl))
unfolding write_by
write-waiting l bytes s e ne h =
    let r = store-waiting l bytes s h in
    (
      r.0,
      write_tests l bytes false false ne e
            (fits l.writebuf.maxbuflen (l.writebuf.buflen + length bytes + length l.endl) h)
          ∙ r.1,
      r.2,
      r.3,
    )
  where
    fits : (n m : ℕ) → m ≤ n → ltb n m ≡ false
    fits n m h = ground arith

pub write_refused :
    (l : Linebuf) (bytes : Bytes)
    → bytes ≢ []
    → ((l.shutting_down ≡ true) → write l bytes ≡ some (l, []))
      × ((l.shutting_down ≡ false)
          → l.writebuf.maxbuflen < l.writebuf.buflen + length bytes + length l.endl
          → write l bytes ≡ some (record l { writebuf_full = true }, vio_error ∷ []))
unfolding write_by
write_refused l bytes ne = (
  λ e.
      write_tests l bytes true
        (ltb l.writebuf.maxbuflen (l.writebuf.buflen + length bytes + length l.endl)) ne e refl,
  λ e h.
      write_tests l bytes false true ne e
        (lt→ltb l.writebuf.maxbuflen (l.writebuf.buflen + length bytes + length l.endl) h),
)

abbrev sent : Linebuf → ℕ → Linebuf
sent l k = record l { writebuf = record l.writebuf { buflen = l.writebuf.buflen - k } }

abbrev emptied : Linebuf → Bool → List Event
emptied l need_write =
    (if need_write then [] else select_write false ∷ [])
    ++ (if l.shutting_down then shutdown ∷ [] else [])

write_data_by :
    (l : Linebuf) (k : ℕ) (need_write none_left : Bool)
    → (l.writebuf.buflen - k == 0) ≡ none_left
    → write_data (wrote k need_write) l
      ≡ (if none_left then (sent l k, emptied l need_write) else (sent l k, select_write true ∷ []))
unfolding write_data
write_data_by l k need_write none_left e =
    ap (λ t. if t then (sent l k, emptied l need_write) else (sent l k, select_write true ∷ [])) e

some_left : (n k : ℕ) → k < n → (n - k == 0) ≡ false
some_left n k h = ground arith

-- After a partial write, the first of the bytes wait again.
pub write_data-waiting :
    (l : Linebuf) (k : ℕ) (need_write : Bool)
    → k < l.writebuf.buflen
    → (m : Linebuf) × (write_data (wrote k need_write) l ≡ (m, select_write true ∷ []))
      × (waiting m.writebuf ≡ take (l.writebuf.buflen - k) (waiting l.writebuf))
write_data-waiting l k need_write h = (
  sent l k,
  write_data_by l k need_write false (some_left l.writebuf.buflen k h),
  sym (take-take (l.writebuf.buflen - k) l.writebuf.buflen l.writebuf.buffer (omega arith)),
)

-- The event loop calls the handler as long as bytes wait, `n` times at most. The connection takes
-- `took k` of `k` bytes, and says whether the flag NEEDWRITE is set then.
abbrev pub drain : ℕ → (ℕ → ℕ × Bool) → Linebuf → Linebuf × List Event
drain zero took l = (l, [])
drain (suc n) took l =
    let r = write_data (wrote (took l.writebuf.buflen).0 (took l.writebuf.buflen).1) l in
    let t = drain n took r.0 in if l.writebuf.buflen == 0 then (l, []) else (t.0, r.1 ++ t.1)

-- The last of the events is the call of `shutdown_cb`, and no bytes wait.
abbrev pub IsClosed : Linebuf × List Event → Type 0
IsClosed r = ((before : List Event) × (r.1 ≡ before ++ (shutdown ∷ []))) × (r.0.writebuf.buflen ≡ 0)

positive : (n : ℕ) → 0 < n → (n == 0) ≡ false
positive n h = ground arith

drain_on :
    (n : ℕ) (took : ℕ → ℕ × Bool) (l m : Linebuf) (events : List Event)
    → 0 < l.writebuf.buflen
    → write_data (wrote (took l.writebuf.buflen).0 (took l.writebuf.buflen).1) l ≡ (m, events)
    → drain (suc n) took l ≡ ((drain n took m).0, events ++ (drain n took m).1)
drain_on n took l m events p e =
    let r = write_data (wrote (took l.writebuf.buflen).0 (took l.writebuf.buflen).1) l in
    ap (λ t. if t then (l, []) else ((drain n took r.0).0, r.1 ++ (drain n took r.0).1))
      (positive l.writebuf.buflen p)
    ∙ ap (λ r. ((drain n took r.0).0, r.1 ++ (drain n took r.0).1)) e

drain_done :
    (n : ℕ) (took : ℕ → ℕ × Bool) (l : Linebuf) → l.writebuf.buflen ≡ 0 → drain n took l ≡ (l, [])
drain_done zero took l e = refl
drain_done (suc n) took l e =
    let r = write_data (wrote (took l.writebuf.buflen).0 (took l.writebuf.buflen).1) l in
    let f : (l.writebuf.buflen == 0) ≡ true = ap (λ k. k == 0) e in
    ap (λ t. if t then (l, []) else ((drain n took r.0).0, r.1 ++ (drain n took r.0).1)) f

all_or_some : (n k : ℕ) → k ≤ n → (((n - k == 0) ≡ true) × (n - k ≡ 0)) ⊎ (k < n)
all_or_some n k h = ground arith

drain-IsClosed :
    (n : ℕ) (took : ℕ → ℕ × Bool) (l : Linebuf)
    → ((k : ℕ) → 0 < k → (0 < (took k).0) × ((took k).0 ≤ k))
    → l.shutting_down ≡ true
    → 0 < l.writebuf.buflen
    → l.writebuf.buflen ≤ n
    → IsClosed (drain n took l)
drain-IsClosed zero took l t e p h = absurd (omega arith)
drain-IsClosed (suc n) took l t e p h =
    let k = (took l.writebuf.buflen).0 in
    let w = (took l.writebuf.buflen).1 in
    let before = if w then [] else select_write false ∷ [] in
    let tk = t l.writebuf.buflen p in
    let m = sent l k in
    elim (all_or_some l.writebuf.buflen k tk.1) [
      | inl (z, y) ↦
          let last : write_data (wrote k w) l ≡ (m, before ++ (shutdown ∷ [])) =
            write_data_by l k w true z
            ∙ ap (λ b. (m, before ++ (if b then shutdown ∷ [] else []))) e in
          subst IsClosed
            (sym (
              drain_on n took l m (before ++ (shutdown ∷ [])) p last
              ∙ ap (λ r. (r.0, (before ++ (shutdown ∷ [])) ++ r.1)) (drain_done n took m y)))
            ((before, append-nil (before ++ (shutdown ∷ []))), y)
      | inr lt ↦
          let next = write_data_by l k w false (some_left l.writebuf.buflen k lt) in
          let rest = drain-IsClosed n took m t e (omega arith) (omega (arith, tk)) in
          subst IsClosed (sym (drain_on n took l m (select_write true ∷ []) p next))
            ((select_write true ∷ rest.0.0, ap (◌∷◌ (select_write true)) rest.0.1), rest.1)
    ]

-- If the connection takes at least one byte of those that wait each time, whatever the flag
-- NEEDWRITE is, then after `mowgli_linebuf_shut_down` and as many calls of the write handler as
-- bytes waited, nothing waits any more, and the last thing done is the call of the shutdown
-- callback, at once if nothing waited.
pub shut_down-IsClosed :
    (n : ℕ) (took : ℕ → ℕ × Bool) (l : Linebuf)
    → ((k : ℕ) → 0 < k → (0 < (took k).0) × ((took k).0 ≤ k))
    → l.writebuf.buflen ≤ n
    → IsClosed
        ((drain n took (shut_down l).0).0, (shut_down l).1 ++ (drain n took (shut_down l).0).1)
unfolding shut_down
shut_down-IsClosed n took l t h =
    let m = record l { shutting_down = true } in
    elim (zero_or_more l.writebuf.buflen) [
      | inl (e, f) ↦
          subst IsClosed
            (sym (
              ap
                (λ b. ((drain n took m).0, (if b then shutdown ∷ [] else []) ++ (drain n took m).1))
                f
              ∙ ap (λ r. (r.0, (shutdown ∷ []) ++ r.1)) (drain_done n took m e)))
            (([], refl), e)
      | inr p ↦
          subst IsClosed
            (sym (
              ap
                (λ b. ((drain n took m).0, (if b then shutdown ∷ [] else []) ++ (drain n took m).1))
                (positive l.writebuf.buflen p)))
            (drain-IsClosed n took m t refl p h)
    ]
  where
    zero_or_more : (n : ℕ) → ((n ≡ 0) × ((n == 0) ≡ true)) ⊎ (0 < n)
    zero_or_more n = ground arith
