-- ===== src/Timers/Tests.antt =====
-- src/libmowgli/eventloop/timer.c: the timers at concrete inputs.
use libmowgli.Base.{ℕ, if◌then◌else◌, ◌==◌, ◌≡◌, refl, List, [], ◌∷◌, none, some, true, arith}
use libmowgli.Timers.{
  onceonly, timer_add, timer_add_once, Timer, Eventloop, nothing, timer_find, run_timers,
  next_timer,
}
use libmowgli.Timers.Turn.{AreDistinct, due_calls, rescheduled}
use libmowgli.Timers.Due.{run_timers-rescheduled}
use libmowgli.Timers.Freed.{run_timers_dangles}
use libmowgli.Timers.{timer_destroy, Call}
use libmowgli.Timers.Earliest.{IsEarliest, Wakes, next_timer-IsEarliest}
use libmowgli.Timers.Sleep.{
  Operation, add, add_once, destroy, run, next, operate, operate_all, next_timer-Wakes,
}

abbrev created : Eventloop
created = record { deadline = none; timers = []; last_ran = nothing }

abbrev steady : Timer
steady = record {
  address = 1;
  name = 11;
  func = 21;
  arg = 31;
  deadline = 60;
  frequency = 60;
  active = true;
}

abbrev single : Timer
single = record {
  address = 2;
  name = 12;
  func = 22;
  arg = 32;
  deadline = 90;
  frequency = 0;
  active = true;
}

abbrev later : Timer
later = record {
  address = 3;
  name = 13;
  func = 23;
  arg = 33;
  deadline = 500;
  frequency = 7;
  active = true;
}

abbrev loop : Eventloop
loop = record { deadline = some 60; timers = steady ∷ single ∷ later ∷ []; last_ran = nothing }

-- A function that leaves the timers as they are, but not the loop.
abbrev quiet : ℕ → ℕ → Eventloop → Eventloop
quiet func arg l = record l { deadline = some 5 }

-- The function 21 adds a timer.
abbrev adds : ℕ → ℕ → Eventloop → Eventloop
unfolding timer_add_once
adds func arg l = if func == 21 then timer_add_once 100 4 14 24 34 50 l else l

-- A function that destroys a timer.
abbrev destroys : ℕ → ℕ → Eventloop → Eventloop
unfolding timer_destroy
destroys func arg l = timer_destroy single l

-- Both due timers are called at 100; the steady one is due again at 160.
run_timers_test :
    run_timers quiet 3 100 loop
    ≡ some (
      record {
        deadline = none;
        timers = record steady { deadline = 160 } ∷ later ∷ [];
        last_ran = onceonly;
      },
      (21, 31) ∷ (22, 32) ∷ [],
    )
unfolding run_timers
run_timers_test = refl

timer_find_test : timer_find 22 32 loop.timers ≡ some single
unfolding timer_find
timer_find_test = refl

distinct : AreDistinct loop.timers
distinct = ((ground arith, (ground arith, tt)), ((ground arith, tt), (tt, tt)))

run_timers-rescheduled_example :
    (r : Eventloop × List Call) × (run_timers quiet 3 100 loop ≡ some r)
    × (r.0.timers ≡ rescheduled 100 loop.timers)
    × (r.1 ≡ due_calls 100 loop.timers)
run_timers-rescheduled_example =
    run_timers-rescheduled quiet 3 100 loop (λ func arg l. refl) (omega arith) distinct

run_timers_dangles_example : run_timers destroys 9 100 loop ≡ none
unfolding destroys
run_timers_dangles_example =
    run_timers_dangles destroys 9 100 loop steady single (later ∷ []) refl distinct refl refl

abbrev session : List Operation
session =
    add 0 1 11 21 31 60
    ∷ add_once 0 2 12 22 32 90
    ∷ next
    ∷ run 5 100
    ∷ add 100 3 13 23 33 7
    ∷ destroy steady
    ∷ []

abbrev left : Eventloop
left = record {
  deadline = none;
  timers =
      record {
        address = 4;
        name = 14;
        func = 24;
        arg = 34;
        deadline = 150;
        frequency = 0;
        active = true;
      }
      ∷ record {
        address = 3;
        name = 13;
        func = 23;
        arg = 33;
        deadline = 107;
        frequency = 7;
        active = true;
      }
      ∷ [];
  last_ran = onceonly;
}

operate_all_test : operate_all adds session created ≡ some left
unfolding adds operate run_timers next_timer timer_add timer_destroy
operate_all_test = refl

next_timer-Wakes_example : Wakes (next_timer left).1 (next_timer left).0.timers
next_timer-Wakes_example = next_timer-Wakes adds session created left tt operate_all_test

next_timer-IsEarliest_example : IsEarliest (next_timer left).1 left.timers
next_timer-IsEarliest_example = next_timer-IsEarliest left refl
