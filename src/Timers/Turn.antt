-- ===== src/Timers/Turn.antt =====
-- src/libmowgli/eventloop/timer.c: one timer of the list, found, called and settled.
use libmowgli.Base.{
  Option, some, ℕ, ◌+◌, ◌≡◌, ◌≢◌, ap, ◌∙◌, List, [], ◌∷◌, ◌++◌, none, Bool, true, false, ◌==◌,
  if◌then◌else◌, All, Bool-cases, inl, inr, arith,
}
use libmowgli.Timers.{
  timer_at, next_node, first, reschedule, timer_name, Timer, Eventloop, Call, unlink, timer_name,
  onceonly, timer_destroy, is_due, set_deadline, after_call,
}

-- No two timers have the same address.
abbrev pub AreDistinct : List Timer → Type 0
AreDistinct [] = Unit
AreDistinct (t ∷ ts) = All (λ s. t.address ≢ s.address) ts × AreDistinct ts

-- The calls of the timers that are due, in order.
abbrev pub due_calls : ℕ → List Timer → List Call
due_calls now [] = []
due_calls now (t ∷ ts) =
    if is_due now t then (t.func, t.arg) ∷ due_calls now ts else due_calls now ts

-- What a due timer becomes: it goes if it has no frequency.
abbrev pub again : ℕ → Timer → List Timer
again now t = if t.frequency == 0 then [] else record t { deadline = now + t.frequency } ∷ []

abbrev pub rescheduled : ℕ → List Timer → List Timer
rescheduled now [] = []
rescheduled now (t ∷ ts) = (if is_due now t then again now t else t ∷ []) ++ rescheduled now ts

pub differ : (a b : ℕ) → b ≢ a → (b == a) ≡ false
differ a b h = elim (Bool-cases (b == a)) [ inl e ↦ absurd (h (same a b e)) | inr e ↦ e ]
  where
    same : (a b : ℕ) → (b == a) ≡ true → b ≡ a
    same a b e = ground arith

equal : (a : ℕ) → (a == a) ≡ true
equal a = ground arith

pub unlink-here :
    (front ts : List Timer) (t : Timer)
    → All (λ s. s.address ≢ t.address) front
    → unlink t.address (front ++ (t ∷ ts)) ≡ front ++ ts
unfolding unlink
unlink-here [] ts t h = ap (λ b. if b then ts else t ∷ unlink t.address ts) (equal t.address)
unlink-here (s ∷ front) ts t h =
    ap (λ b. if b then front ++ (t ∷ ts) else s ∷ unlink t.address (front ++ (t ∷ ts)))
      (differ t.address s.address h.0)
    ∙ ap (◌∷◌ s) (unlink-here front ts t h.1)

set_deadline-here :
    (front ts : List Timer) (t : Timer) (d : ℕ)
    → All (λ s. s.address ≢ t.address) front
    → set_deadline t.address d (front ++ (t ∷ ts)) ≡ front ++ (record t { deadline = d } ∷ ts)
set_deadline-here [] ts t d h =
    ap (λ b. if b then record t { deadline = d } ∷ ts else t ∷ set_deadline t.address d ts)
      (equal t.address)
set_deadline-here (s ∷ front) ts t d h =
    ap
      (λ b.
        if b
        then record s { deadline = d } ∷ (front ++ (t ∷ ts))
        else s ∷ set_deadline t.address d (front ++ (t ∷ ts)))
      (differ t.address s.address h.0)
    ∙ ap (◌∷◌ s) (set_deadline-here front ts t d h.1)

pub timer_at-here :
    (front ts : List Timer) (t : Timer)
    → All (λ s. s.address ≢ t.address) front
    → timer_at t.address (front ++ (t ∷ ts)) ≡ some t
unfolding timer_at
timer_at-here [] ts t h = ap (λ b. if b then some t else timer_at t.address ts) (equal t.address)
timer_at-here (s ∷ front) ts t h =
    ap (λ b. if b then some s else timer_at t.address (front ++ (t ∷ ts)))
      (differ t.address s.address h.0)
    ∙ timer_at-here front ts t h.1

pub next_node-here :
    (front ts : List Timer) (t : Timer)
    → All (λ s. s.address ≢ t.address) front
    → next_node t.address (front ++ (t ∷ ts)) ≡ first ts
unfolding next_node
next_node-here [] ts t h =
    ap (λ b. if b then first ts else next_node t.address ts) (equal t.address)
next_node-here (s ∷ front) ts t h =
    ap (λ b. if b then first (front ++ (t ∷ ts)) else next_node t.address (front ++ (t ∷ ts)))
      (differ t.address s.address h.0)
    ∙ next_node-here front ts t h.1

-- What is left of the timer behind `front`, with the test on its frequency as an argument.
by_frequency :
    (b : Bool) (now : ℕ) (front ts : List Timer) (t : Timer) (l : Eventloop)
    → l.timers ≡ front ++ (t ∷ ts)
    → All (λ s. s.address ≢ t.address) front
    → (if b then timer_destroy t (record l { deadline = none; last_ran = onceonly }) else record l {
      deadline = none;
      timers = set_deadline t.address (now + t.frequency) l.timers;
    }).timers
      ≡ front ++ ((if b then [] else record t { deadline = now + t.frequency } ∷ []) ++ ts)
unfolding timer_destroy
by_frequency true now front ts t l e h = ap (unlink t.address) e ∙ unlink-here front ts t h
by_frequency false now front ts t l e h =
    ap (set_deadline t.address (now + t.frequency)) e
    ∙ set_deadline-here front ts t (now + t.frequency) h

pub reschedule-here :
    (now : ℕ) (front ts : List Timer) (t : Timer) (l : Eventloop)
    → l.timers ≡ front ++ (t ∷ ts)
    → All (λ s. s.address ≢ t.address) front
    → (reschedule now t l).timers ≡ front ++ (again now t ++ ts)
unfolding reschedule
reschedule-here now front ts t l e h = by_frequency (t.frequency == 0) now front ts t l e h

-- The functions of the timers leave the list of timers as it is.
abbrev pub LeavesTimers : (ℕ → ℕ → Eventloop → Eventloop) → Type 0
LeavesTimers react = (func arg : ℕ) (l : Eventloop) → (react func arg l).timers ≡ l.timers

-- The loop as a timer function finds it, and as it leaves it.
abbrev pub reacted : (ℕ → ℕ → Eventloop → Eventloop) → Timer → Eventloop → Eventloop
reacted react t l = react t.func t.arg (record l { last_ran = timer_name t.name })

pub after_call-here :
    (react : ℕ → ℕ → Eventloop → Eventloop) (now : ℕ) (front ts : List Timer) (t : Timer)
    (l : Eventloop)
    → (reacted react t l).timers ≡ front ++ (t ∷ ts)
    → All (λ s. s.address ≢ t.address) front
    → after_call react now t l ≡ some (reschedule now t (reacted react t l))
unfolding after_call
after_call-here react now front ts t l e h =
    ap
      (λ o. elim o as (λ _. Option Eventloop) [
        | none ↦ none
        | some u ↦ some (reschedule now u (reacted react t l))
      ])
      (ap (timer_at t.address) e ∙ timer_at-here front ts t h)
