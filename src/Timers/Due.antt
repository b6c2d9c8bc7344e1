-- ===== src/Timers/Due.antt =====
-- src/libmowgli/eventloop/timer.c: what `mowgli_eventloop_run_timers` calls and what it leaves.
use libmowgli.Base.{
  Option, some, subst, zero, suc, ◌≤◌, length, ℕ, ◌+◌, ◌≡◌, ◌≢◌, refl, ap, sym, ◌∙◌, List, [], ◌∷◌,
  ◌++◌, append_assoc, Bool, true, false, ◌==◌, if◌then◌else◌, All, All-append, arith,
}
use libmowgli.Memory.{◌>>=◌}
use libmowgli.Timers.{
  timer_at, next_node, first, reschedule, run_one, timer_name, Timer, Eventloop, Call, timer_name,
  is_due, after_call, run_loop, run_timers,
}
use libmowgli.Timers.Turn.{
  AreDistinct, due_calls, again, rescheduled, timer_at-here, next_node-here, reschedule-here,
  LeavesTimers, reacted, after_call-here,
}

pub again-All :
    (now : ℕ) (t : Timer) (P : ℕ → Type 0) → P t.address → All (λ s. P s.address) (again now t)
again-All now t P p = by_test (t.frequency == 0)
  where
    by_test :
        (b : Bool)
        → All (λ s. P s.address) (if b then [] else record t { deadline = now + t.frequency } ∷ [])
    by_test true = tt
    by_test false = (p, tt)

-- The nodes of `front` are away from those of `ts`.
abbrev IsApart : List Timer → List Timer → Type 0
IsApart front [] = Unit
IsApart front (t ∷ ts) = All (λ s. s.address ≢ t.address) front × IsApart front ts

IsApart-append : (xs ys ts : List Timer) → IsApart xs ts → IsApart ys ts → IsApart (xs ++ ys) ts
IsApart-append xs ys [] p q = tt
IsApart-append xs ys (t ∷ ts) p q =
    (All-append (λ s. s.address ≢ t.address) xs ys p.0 q.0, IsApart-append xs ys ts p.1 q.1)

again-IsApart :
    (now : ℕ) (t : Timer) (ts : List Timer)
    → All (λ s. t.address ≢ s.address) ts
    → IsApart (again now t) ts
again-IsApart now t [] h = tt
again-IsApart now t (s ∷ ts) h =
    (again-All now t (λ a. a ≢ s.address) h.0, again-IsApart now t ts h.1)

one-IsApart :
    (t : Timer) (ts : List Timer) → All (λ s. t.address ≢ s.address) ts → IsApart (t ∷ []) ts
one-IsApart t [] h = tt
one-IsApart t (s ∷ ts) h = ((h.0, tt), one-IsApart t ts h.1)

none-IsApart : (ts : List Timer) → IsApart [] ts
none-IsApart [] = tt
none-IsApart (t ∷ ts) = (tt, none-IsApart ts)

-- What the loop reaches and calls at `ts` behind the nodes of `front`.
abbrev Runs : ℕ → List Timer → List Timer → Option (Eventloop × List Call) → Type 0
Runs now front ts o =
    (r : Eventloop × List Call) × (o ≡ some r)
    × (r.0.timers ≡ front ++ rescheduled now ts)
    × (r.1 ≡ due_calls now ts)

-- One turn, from what the turns behind it do in the two cases.
run_one-Runs :
    (react : ℕ → ℕ → Eventloop → Eventloop) (now : ℕ)
    (rest : Eventloop → Option (Eventloop × List Call)) (front ts : List Timer) (t : Timer)
    (l m : Eventloop)
    → after_call react now t l ≡ some m
    → Runs now (front ++ again now t) ts (rest m)
    → Runs now (front ++ (t ∷ [])) ts (rest l)
    → Runs now front (t ∷ ts) (run_one react now rest l (some t))
unfolding run_one
run_one-Runs react now rest front ts t l m e p q = by_due (is_due now t)
  where
    called : Option (Eventloop × List Call)
    called = after_call react now t l >>= λ m. rest m >>= λ s. some (s.0, (t.func, t.arg) ∷ s.1)

    called_is : called ≡ some (p.0.0, (t.func, t.arg) ∷ p.0.1)
    called_is =
        ap (λ o. o >>= λ m. rest m >>= λ s. some (s.0, (t.func, t.arg) ∷ s.1)) e
        ∙ ap (λ o. o >>= λ s. some (s.0, (t.func, t.arg) ∷ s.1)) p.1

    by_due :
        (b : Bool)
        → (r : Eventloop × List Call) × ((if b then called else rest l) ≡ some r)
          × (r.0.timers ≡ front ++ ((if b then again now t else t ∷ []) ++ rescheduled now ts))
          × (r.1 ≡ (if b then (t.func, t.arg) ∷ due_calls now ts else due_calls now ts))
    by_due true = (
      (p.0.0, (t.func, t.arg) ∷ p.0.1),
      called_is,
      p.2 ∙ append_assoc front (again now t) (rescheduled now ts),
      ap (◌∷◌ (t.func, t.arg)) p.3,
    )
    by_due false = (q.0, q.1, q.2 ∙ append_assoc front (t ∷ []) (rescheduled now ts), q.3)

run_loop-Runs :
    (react : ℕ → ℕ → Eventloop → Eventloop) (fuel now : ℕ) (front ts : List Timer) (l : Eventloop)
    → LeavesTimers react
    → length ts ≤ fuel
    → l.timers ≡ front ++ ts
    → AreDistinct ts
    → IsApart front ts
    → Runs now front ts (run_loop react fuel now (first ts) l)
unfolding run_loop
run_loop-Runs react fuel now front [] l k n e d h = ((l, []), refl, e, refl)
run_loop-Runs react zero now front (t ∷ ts) l k n e d h = absurd (omega arith)
run_loop-Runs react (suc fuel) now front (t ∷ ts) l k n e d h =
    let there : timer_at t.address l.timers ≡ some t =
      ap (timer_at t.address) e ∙ timer_at-here front ts t h.0 in
    let behind : next_node t.address l.timers ≡ first ts =
      ap (next_node t.address) e ∙ next_node-here front ts t h.0 in
    let called : (reacted react t l).timers ≡ front ++ (t ∷ ts) =
      k t.func t.arg (record l { last_ran = timer_name t.name }) ∙ e in
    let m : Eventloop = reschedule now t (reacted react t l) in
    subst (Runs now front (t ∷ ts))
      (sym (
        ap (run_one react now (run_loop react fuel now (next_node t.address l.timers)) l) there
        ∙ ap (λ o. run_one react now (run_loop react fuel now o) l (some t)) behind))
      (run_one-Runs react now (run_loop react fuel now (first ts)) front ts t l m
        (after_call-here react now front ts t l called h.0)
        (run_loop-Runs react fuel now (front ++ again now t) ts m k (omega arith)
          (reschedule-here now front ts t (reacted react t l) called h.0
            ∙ sym (append_assoc front (again now t) ts))
          d.1 (IsApart-append front (again now t) ts h.1 (again-IsApart now t ts d.0)))
        (run_loop-Runs react fuel now (front ++ (t ∷ [])) ts l k (omega arith)
          (e ∙ sym (append_assoc front (t ∷ []) ts)) d.1
          (IsApart-append front (t ∷ []) ts h.1 (one-IsApart t ts d.0))))

-- If no two timers have the same address, the timer functions leave the list of timers as it is,
-- and the fuel is no less than the number of timers, then `mowgli_eventloop_run_timers` ends and
-- calls the functions of exactly the active timers that are due, in order, each with its
-- argument; those with a frequency are set to be due that much after the present time, those
-- without are gone, and all others stay as they are.
pub run_timers-rescheduled :
    (react : ℕ → ℕ → Eventloop → Eventloop) (fuel now : ℕ) (l : Eventloop)
    → LeavesTimers react
    → length l.timers ≤ fuel
    → AreDistinct l.timers
    → (r : Eventloop × List Call) × (run_timers react fuel now l ≡ some r)
      × (r.0.timers ≡ rescheduled now l.timers)
      × (r.1 ≡ due_calls now l.timers)
unfolding run_timers
run_timers-rescheduled react fuel now l k n d =
    run_loop-Runs react fuel now [] l.timers l k n refl d (none-IsApart l.timers)
