-- ===== src/Timers/Freed.antt =====
-- src/libmowgli/eventloop/timer.c: a timer function that destroys the timer behind its own.
use libmowgli.Base.{
  Option, some, zero, suc, ℕ, ◌≡◌, ◌≢◌, refl, ap, sym, ◌∙◌, List, [], ◌∷◌, ◌++◌, none, true,
  if◌then◌else◌, All, All-append, ◌∷◌, All-map,
}
use libmowgli.Memory.{◌>>=◌}
use libmowgli.Timers.{
  timer_at, next_node, first, reschedule, run_one, timer_name, Timer, Eventloop, Call, unlink,
  timer_name, timer_destroy, is_due, after_call, run_loop, run_timers,
}
use libmowgli.Timers.Turn.{
  differ, AreDistinct, again, reschedule-here, timer_at-here, next_node-here, reacted, unlink-here,
  after_call-here,
}
use libmowgli.Timers.Due.{again-All}

absent : (a : ℕ) (ts : List Timer) → All (λ s. s.address ≢ a) ts → timer_at a ts ≡ none
unfolding timer_at
absent a [] h = refl
absent a (t ∷ ts) h =
    ap (λ b. if b then some t else timer_at a ts) (differ a t.address h.0) ∙ absent a ts h.1

-- The loop at a node that is gone.
run_loop_freed :
    (react : ℕ → ℕ → Eventloop → Eventloop) (fuel now a : ℕ) (l : Eventloop)
    → timer_at a l.timers ≡ none
    → run_loop react fuel now (some a) l ≡ none
unfolding run_loop run_one
run_loop_freed react zero now a l e = refl
run_loop_freed react (suc n) now a l e =
    ap (run_one react now (run_loop react n now (next_node a l.timers)) l) e

-- What is left of the list when `t` has destroyed `s` and has been settled.
settled :
    (react : ℕ → ℕ → Eventloop → Eventloop) (now : ℕ) (l : Eventloop) (t s : Timer)
    (ts : List Timer)
    → AreDistinct (t ∷ (s ∷ ts))
    → (reacted react t l).timers ≡ t ∷ ts
    → timer_at s.address (reschedule now t (reacted react t l)).timers ≡ none
settled react now l t s ts d e =
    ap (timer_at s.address) (reschedule-here now [] ts t (reacted react t l) e tt)
    ∙ absent s.address (again now t ++ ts) (
        All-append (λ u. u.address ≢ s.address) (again now t) ts
          (again-All now t (λ a. a ≢ s.address) d.0.0)
          (All-map (λ u. s.address ≢ u.address) (λ u. u.address ≢ s.address) ts (λ u h e. h (sym e))
            d.1.0))

run_loop_dangles :
    (react : ℕ → ℕ → Eventloop → Eventloop) (fuel now : ℕ) (l : Eventloop) (t s : Timer)
    (ts : List Timer)
    → l.timers ≡ t ∷ (s ∷ ts)
    → AreDistinct (t ∷ (s ∷ ts))
    → is_due now t ≡ true
    → (reacted react t l).timers ≡ t ∷ ts
    → run_loop react fuel now (some t.address) l ≡ none
unfolding run_loop run_one
run_loop_dangles react zero now l t s ts e d b k = refl
run_loop_dangles react (suc n) now l t s ts e d b k =
    ap (run_one react now (run_loop react n now (next_node t.address l.timers)) l) there
    ∙ ap (λ o. run_one react now (run_loop react n now o) l (some t)) behind
    ∙ ap (λ c. if c then called else run_loop react n now (some s.address) l) b
    ∙ ap
        (λ o. o >>= λ m.
          run_loop react n now (some s.address) m >>= λ r. some (r.0, (t.func, t.arg) ∷ r.1))
        (after_call-here react now [] ts t l k tt)
    ∙ ap (λ o. o >>= λ r. some (r.0, (t.func, t.arg) ∷ r.1))
        (run_loop_freed react n now s.address (reschedule now t (reacted react t l))
          (settled react now l t s ts d k))
  where
    there : timer_at t.address l.timers ≡ some t
    there = ap (timer_at t.address) e ∙ timer_at-here [] (s ∷ ts) t tt

    behind : next_node t.address l.timers ≡ some s.address
    behind = ap (next_node t.address) e ∙ next_node-here [] (s ∷ ts) t tt

    called : Option (Eventloop × List Call)
    called = after_call react now t l >>= λ m.
        run_loop react n now (some s.address) m >>= λ r. some (r.0, (t.func, t.arg) ∷ r.1)

-- If no two timers have the same address, the first timer is due, and its function destroys the
-- second, then `mowgli_eventloop_run_timers` faults with any fuel: it goes on with the freed
-- node.
pub run_timers_dangles :
    (react : ℕ → ℕ → Eventloop → Eventloop) (fuel now : ℕ) (l : Eventloop) (t s : Timer)
    (ts : List Timer)
    → l.timers ≡ t ∷ (s ∷ ts)
    → AreDistinct (t ∷ (s ∷ ts))
    → is_due now t ≡ true
    → (reacted react t l).timers
      ≡ (timer_destroy s (record l { last_ran = timer_name t.name })).timers
    → run_timers react fuel now l ≡ none
unfolding run_timers timer_destroy
run_timers_dangles react fuel now l t s ts e d b k =
    ap (λ o. run_loop react fuel now o l) (ap first e)
    ∙ run_loop_dangles react fuel now l t s ts e d b
        (k ∙ ap (unlink s.address) e ∙ unlink-here (t ∷ []) ts s (d.0.0, tt))
