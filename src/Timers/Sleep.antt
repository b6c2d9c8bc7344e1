-- ===== src/Timers/Sleep.antt =====
-- src/libmowgli/eventloop/timer.c: the time that the event loop sleeps until.
use libmowgli.Base.{
  ℕ, zero, suc, ◌+◌, ◌≡◌, refl, subst, List, [], ◌∷◌, ◌++◌, Option, none, some, Bool, true, false,
  leb, ◌==◌, if◌then◌else◌, All, arith,
}
use libmowgli.Memory.{◌>>=◌}
use libmowgli.Timers.{
  timer_at, next_node, first, reschedule, run_one, Timer, Eventloop, LastRan, onceonly, timer_name,
  set_deadline, Call, unlink, timer_add_real, timer_add, timer_add_once, timer_destroy, is_due,
  after_call, run_loop, run_timers, earliest, next_timer, earlier,
}
use libmowgli.Timers.Earliest.{
  IsBefore, Wakes, IsTimely, weaker, added, timely, earliest-IsEarliest,
}

-- What a program does with its timers.
pub data Operation : Type 0 where
  add : ℕ → ℕ → ℕ → ℕ → ℕ → ℕ → Operation
  add_once : ℕ → ℕ → ℕ → ℕ → ℕ → ℕ → Operation
  destroy : Timer → Operation
  run : ℕ → ℕ → Operation
  next : Operation

unfoldable pub operate : (ℕ → ℕ → Eventloop → Eventloop) → Operation → Eventloop → Option Eventloop
unfolding timer_add timer_add_once timer_destroy run_timers next_timer
operate react (add now a name func arg when) l = some (timer_add now a name func arg when l)
operate react (add_once now a name func arg when) l =
    some (timer_add_once now a name func arg when l)
operate react (destroy t) l = some (timer_destroy t l)
operate react (run fuel now) l = run_timers react fuel now l >>= λ r. some r.0
operate react next l = some (next_timer l).0

abbrev pub operate_all :
    (ℕ → ℕ → Eventloop → Eventloop) → List Operation → Eventloop → Option Eventloop
operate_all react [] l = some l
operate_all react (o ∷ os) l = operate react o l >>= λ m. operate_all react os m

removed_from : (d a : ℕ) (ts : List Timer) → All (IsBefore d) ts → All (IsBefore d) (unlink a ts)
unfolding unlink
removed_from d a [] p = tt
removed_from d a (t ∷ ts) p =
    by_address (t.address == a) t ts (unlink a ts) p (removed_from d a ts p.1)
  where
    by_address :
        (b : Bool) (t : Timer) (ts rest : List Timer)
        → All (IsBefore d) (t ∷ ts)
        → All (IsBefore d) rest
        → All (IsBefore d) (if b then ts else t ∷ rest)
    by_address true t ts rest p q = p.1
    by_address false t ts rest p q = (p.0, q)

add-IsTimely :
    (now a name func arg when frequency : ℕ) (l : Eventloop)
    → IsTimely l.deadline l.timers
    → IsTimely
        (timer_add_real now a name func arg when frequency l).deadline
        (timer_add_real now a name func arg when frequency l).timers
unfolding timer_add_real
add-IsTimely now a name func arg when frequency l = by_deadline l.deadline l.timers
  where
    new : Timer
    new = record {
      address = a;
      name = name;
      func = func;
      arg = arg;
      deadline = now + when;
      frequency = frequency;
      active = true;
    }

    by_test :
        (b : Bool) (d : ℕ) (ts : List Timer)
        → leb (now + when) d ≡ b
        → All (IsBefore d) ts
        → IsTimely (if b then some (now + when) else some d) (ts ++ (new ∷ []))
    by_test true d ts e p =
        added (now + when) new ts (ground arith) (weaker (now + when) d ts (ground arith) p)
    by_test false d ts e p = added d new ts (ground arith) p

    by_deadline :
        (o : Option ℕ) (ts : List Timer)
        → IsTimely o ts
        → IsTimely (earlier o (now + when)) (ts ++ (new ∷ []))
    by_deadline none ts p = tt
    by_deadline (some d) ts p = by_test (leb (now + when) d) d ts refl p

destroy-IsTimely :
    (t : Timer) (l : Eventloop)
    → IsTimely l.deadline l.timers
    → IsTimely (timer_destroy t l).deadline (timer_destroy t l).timers
unfolding timer_destroy
destroy-IsTimely t l = by_deadline l.deadline
  where
    by_deadline : (o : Option ℕ) → IsTimely o l.timers → IsTimely o (unlink t.address l.timers)
    by_deadline none p = tt
    by_deadline (some d) p = removed_from d t.address l.timers p

-- A loop that has gone on without a fault is timely.
abbrev Timely : Option Eventloop → Type 0
Timely none = Unit
Timely (some l) = IsTimely l.deadline l.timers

abbrev TimelyRun : Option (Eventloop × List Call) → Type 0
TimelyRun none = Unit
TimelyRun (some r) = IsTimely r.0.deadline r.0.timers

reschedule-IsTimely :
    (now : ℕ) (t : Timer) (l : Eventloop)
    → IsTimely (reschedule now t l).deadline (reschedule now t l).timers
unfolding reschedule timer_destroy
reschedule-IsTimely now t l = by_frequency (t.frequency == 0)
  where
    by_frequency :
        (b : Bool)
        → IsTimely
            (if b
              then record l {
                deadline = none;
                last_ran = onceonly;
                timers = unlink t.address l.timers;
              }
              else record l {
                deadline = none;
                timers = set_deadline t.address (now + t.frequency) l.timers;
              }).deadline
            (if b
              then record l {
                deadline = none;
                last_ran = onceonly;
                timers = unlink t.address l.timers;
              }
              else record l {
                deadline = none;
                timers = set_deadline t.address (now + t.frequency) l.timers;
              }).timers
    by_frequency true = tt
    by_frequency false = tt

-- Whatever the function does, its call leaves no deadline.
after_call-Timely :
    (react : ℕ → ℕ → Eventloop → Eventloop) (now : ℕ) (t : Timer) (l : Eventloop)
    → Timely (after_call react now t l)
unfolding after_call
after_call-Timely react now t l =
    let m = react t.func t.arg (record l { last_ran = timer_name t.name }) in
    by_timer m (timer_at t.address m.timers)
  where
    by_timer :
        (m : Eventloop) (o : Option Timer)
        → Timely (elim o [ none ↦ none | some u ↦ some (reschedule now u m) ])
    by_timer m none = tt
    by_timer m (some u) = reschedule-IsTimely now u m

run_one-TimelyRun :
    (react : ℕ → ℕ → Eventloop → Eventloop) (now : ℕ)
    (rest : Eventloop → Option (Eventloop × List Call)) (l : Eventloop) (o : Option Timer)
    → ((m : Eventloop) → IsTimely m.deadline m.timers → TimelyRun (rest m))
    → IsTimely l.deadline l.timers
    → TimelyRun (run_one react now rest l o)
unfolding run_one
run_one-TimelyRun react now rest l none h p = tt
run_one-TimelyRun react now rest l (some t) h p =
    by_due (is_due now t)
      (after_call react now t l >>= λ m. rest m >>= λ s. some (s.0, (t.func, t.arg) ∷ s.1))
      (called (after_call react now t l) (after_call-Timely react now t l))
  where
    by_rest :
        (o : Option (Eventloop × List Call))
        → TimelyRun o
        → TimelyRun (o >>= λ s. some (s.0, (t.func, t.arg) ∷ s.1))
    by_rest none q = tt
    by_rest (some s) q = q

    called :
        (o : Option Eventloop)
        → Timely o
        → TimelyRun (o >>= λ m. rest m >>= λ s. some (s.0, (t.func, t.arg) ∷ s.1))
    called none q = tt
    called (some m) q = by_rest (rest m) (h m q)

    by_due :
        (b : Bool) (o : Option (Eventloop × List Call))
        → TimelyRun o
        → TimelyRun (if b then o else rest l)
    by_due true o q = q
    by_due false o q = h l p

run_loop-TimelyRun :
    (react : ℕ → ℕ → Eventloop → Eventloop) (fuel now : ℕ) (here : Option ℕ) (l : Eventloop)
    → IsTimely l.deadline l.timers
    → TimelyRun (run_loop react fuel now here l)
unfolding run_loop
run_loop-TimelyRun react fuel now none l p = p
run_loop-TimelyRun react zero now (some a) l p = tt
run_loop-TimelyRun react (suc n) now (some a) l p =
    run_one-TimelyRun react now (λ m. run_loop react n now (next_node a l.timers) m) l
      (timer_at a l.timers) (λ m q. run_loop-TimelyRun react n now (next_node a l.timers) m q) p

-- `next_timer` keeps a stored deadline and stores the earliest one otherwise.
next_of :
    (o : Option ℕ) (ts : List Timer) (r : LastRan)
    → IsTimely o ts
    → IsTimely
        (next_timer (record { deadline = o; timers = ts; last_ran = r })).0.deadline
        (next_timer (record { deadline = o; timers = ts; last_ran = r })).0.timers
      × Wakes
          (next_timer (record { deadline = o; timers = ts; last_ran = r })).1
          (next_timer (record { deadline = o; timers = ts; last_ran = r })).0.timers
unfolding next_timer
next_of none ts r p = timely (earliest ts none) ts (earliest-IsEarliest ts [] none tt)
next_of (some d) ts r p = (p, p)

operate-Timely :
    (react : ℕ → ℕ → Eventloop → Eventloop) (o : Operation) (l : Eventloop)
    → IsTimely l.deadline l.timers
    → Timely (operate react o l)
unfolding operate timer_add timer_add_once run_timers
operate-Timely react (add now a name func arg when) l p =
    add-IsTimely now a name func arg when when l p
operate-Timely react (add_once now a name func arg when) l p =
    add-IsTimely now a name func arg when 0 l p
operate-Timely react (destroy t) l p = destroy-IsTimely t l p
operate-Timely react (run fuel now) l p =
    by_run (run_loop react fuel now (first l.timers) l)
      (run_loop-TimelyRun react fuel now (first l.timers) l p)
  where
    by_run : (o : Option (Eventloop × List Call)) → TimelyRun o → Timely (o >>= λ r. some r.0)
    by_run none q = tt
    by_run (some r) q = q
operate-Timely react next l p = (next_of l.deadline l.timers l.last_ran p).0

operate_all-Timely :
    (react : ℕ → ℕ → Eventloop → Eventloop) (os : List Operation) (l : Eventloop)
    → IsTimely l.deadline l.timers
    → Timely (operate_all react os l)
operate_all-Timely react [] l p = p
operate_all-Timely react (o ∷ os) l p =
    by_first (operate react o l) (operate-Timely react o l p)
      (λ m q. operate_all-Timely react os m q)
  where
    by_first :
        (r : Option Eventloop)
        → Timely r
        → ((m : Eventloop) → IsTimely m.deadline m.timers → Timely (operate_all react os m))
        → Timely (r >>= λ m. operate_all react os m)
    by_first none q h = tt
    by_first (some m) q h = h m q

-- If the stored deadline, when there is one, is not after that of an active timer, then after any
-- sequence of additions, destructions, runs at any times and questions for the next timer that
-- ends without a fault, and whatever the timer functions do to the loop,
-- `mowgli_eventloop_next_timer` gives a time at or before the deadline of every active timer, and
-- none only if no timer is active.
pub next_timer-Wakes :
    (react : ℕ → ℕ → Eventloop → Eventloop) (os : List Operation) (l m : Eventloop)
    → IsTimely l.deadline l.timers
    → operate_all react os l ≡ some m
    → Wakes (next_timer m).1 (next_timer m).0.timers
next_timer-Wakes react os l m p e =
    (next_of m.deadline m.timers m.last_ran (subst Timely e (operate_all-Timely react os l p))).1
