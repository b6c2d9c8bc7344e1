-- ===== src/Timers.antt =====
-- src/libmowgli/eventloop/timer.c: the timers of an event loop. What a timer's function does to
-- the loop is a parameter. `none` is a fault: freed memory is read, or the fuel is used up.
mod Tests
pub mod Sleep
pub mod Due
pub mod Earliest
pub mod Freed
pub mod Turn
use libmowgli.Memory.{◌>>=◌}
use libmowgli.Base.{
  ℕ, zero, suc, ◌+◌, List, [], ◌∷◌, ◌++◌, Option, none, some, Bool, true, false, ◌&&◌, ltb, leb,
  ◌==◌, if◌then◌else◌,
}

-- `mowgli_eventloop_timer_t`; `address` is where it is, and stands for its node.
pub record Timer : Type 0 where
  pub address : ℕ
  pub name : ℕ
  pub func : ℕ
  pub arg : ℕ
  pub deadline : ℕ
  pub frequency : ℕ
  pub active : Bool

-- The string that `last_ran` points to.
pub data LastRan : Type 0 where
  nothing : LastRan
  timer_name : ℕ → LastRan
  removed : LastRan
  onceonly : LastRan

-- The fields of `mowgli_eventloop_t` that the timers use; a deadline of -1 is `none`.
pub record Eventloop : Type 0 where
  pub deadline : Option ℕ
  pub timers : List Timer
  pub last_ran : LastRan

abbrev pub Call : Type 0
Call = ℕ × ℕ

-- `eventloop->deadline != -1 && timer->deadline <= eventloop->deadline`
abbrev pub earlier : Option ℕ → ℕ → Option ℕ
earlier none n = none
earlier (some d) n = if leb n d then some n else some d

-- `mowgli_timer_add_real`, at the time `now`.
unfoldable pub timer_add_real : ℕ → ℕ → ℕ → ℕ → ℕ → ℕ → ℕ → Eventloop → Eventloop
timer_add_real now address name func arg when frequency l = record l {
  deadline = earlier l.deadline (now + when);
  timers =
      l.timers
      ++ (record {
        address = address;
        name = name;
        func = func;
        arg = arg;
        deadline = now + when;
        frequency = frequency;
        active = true;
      }
          ∷ []);
}

unfoldable pub timer_add : ℕ → ℕ → ℕ → ℕ → ℕ → ℕ → Eventloop → Eventloop
unfolding timer_add_real
timer_add now address name func arg when l = timer_add_real now address name func arg when when l

unfoldable pub timer_add_once : ℕ → ℕ → ℕ → ℕ → ℕ → ℕ → Eventloop → Eventloop
unfolding timer_add_real
timer_add_once now address name func arg when l = timer_add_real now address name func arg when 0 l

-- The list without the node at an address.
unfoldable pub unlink : ℕ → List Timer → List Timer
unlink a [] = []
unlink a (t ∷ ts) = let rest = unlink a ts in if t.address == a then ts else t ∷ rest

abbrev forget_name : LastRan → ℕ → LastRan
forget_name (timer_name m) n = if m == n then removed else timer_name m
forget_name r n = r

unfoldable pub timer_destroy : Timer → Eventloop → Eventloop
unfolding unlink
timer_destroy t l = record l {
  last_ran = forget_name l.last_ran t.name;
  timers = unlink t.address l.timers;
}

abbrev pub is_due : ℕ → Timer → Bool
is_due now t = t.active && leb t.deadline now

abbrev pub set_deadline : ℕ → ℕ → List Timer → List Timer
set_deadline a d [] = []
set_deadline a d (t ∷ ts) =
    let rest = set_deadline a d ts in
    if t.address == a then record t { deadline = d } ∷ ts else t ∷ rest

-- The timer at an address; `none` is freed memory.
unfoldable pub timer_at : ℕ → List Timer → Option Timer
timer_at a [] = none
timer_at a (t ∷ ts) = let rest = timer_at a ts in if t.address == a then some t else rest

abbrev pub first : List Timer → Option ℕ
first [] = none
first (t ∷ ts) = some t.address

-- The node behind the one at an address.
unfoldable pub next_node : ℕ → List Timer → Option ℕ
next_node a [] = none
next_node a (t ∷ ts) = let rest = next_node a ts in if t.address == a then first ts else rest

-- Behind the call of a timer: it is scheduled again, or it goes.
unfoldable pub reschedule : ℕ → Timer → Eventloop → Eventloop
unfolding timer_destroy
reschedule now t l =
    if t.frequency == 0
    then timer_destroy t (record l { deadline = none; last_ran = onceonly })
    else record l { deadline = none; timers = set_deadline t.address (now + t.frequency) l.timers }

-- A due timer is called, and read again behind the call; `react` is what its function does.
unfoldable pub after_call :
    (ℕ → ℕ → Eventloop → Eventloop) → ℕ → Timer → Eventloop → Option Eventloop
unfolding reschedule timer_at
after_call react now t l =
    let m = react t.func t.arg (record l { last_ran = timer_name t.name }) in
    elim (timer_at t.address m.timers) [ none ↦ none | some u ↦ some (reschedule now u m) ]

-- One turn of the loop of `mowgli_eventloop_run_timers`, with the turns behind it as `rest`.
unfoldable pub run_one :
    (ℕ → ℕ → Eventloop → Eventloop)
    → ℕ
    → (Eventloop → Option (Eventloop × List Call))
    → Eventloop
    → Option Timer
    → Option (Eventloop × List Call)
unfolding after_call
run_one react now rest l none = none
run_one react now rest l (some t) =
    let called =
      after_call react now t l >>= λ m. rest m >>= λ s. some (s.0, (t.func, t.arg) ∷ s.1) in
    if is_due now t then called else rest l

-- The loop from a node, which may be freed by now; the next node is read before the call.
unfoldable pub run_loop :
    (ℕ → ℕ → Eventloop → Eventloop) → ℕ → ℕ → Option ℕ → Eventloop → Option (Eventloop × List Call)
unfolding run_one timer_at next_node
run_loop react fuel now none l = some (l, [])
run_loop react zero now (some a) l = none
run_loop react (suc n) now (some a) l =
    run_one react now (λ m. run_loop react n now (next_node a l.timers) m) l (timer_at a l.timers)

unfoldable pub run_timers :
    (ℕ → ℕ → Eventloop → Eventloop) → ℕ → ℕ → Eventloop → Option (Eventloop × List Call)
unfolding run_loop
run_timers react fuel now l = run_loop react fuel now (first l.timers) l

abbrev pub sooner : Timer → Option ℕ → Option ℕ
sooner t none = if t.active then some t.deadline else none
sooner t (some d) = if t.active && ltb t.deadline d then some t.deadline else some d

-- The loop of `mowgli_eventloop_next_timer`.
unfoldable pub earliest : List Timer → Option ℕ → Option ℕ
earliest [] d = d
earliest (t ∷ ts) d = earliest ts (sooner t d)

unfoldable pub next_timer : Eventloop → Eventloop × Option ℕ
unfolding earliest
next_timer l = elim l.deadline [
  | some d ↦ (l, some d)
  | none ↦ (record l { deadline = earliest l.timers none }, earliest l.timers none)
]

unfoldable pub timer_find : ℕ → ℕ → List Timer → Option Timer
timer_find func arg [] = none
timer_find func arg (t ∷ ts) =
    let rest = timer_find func arg ts in if (t.func == func) && (t.arg == arg) then some t else rest
