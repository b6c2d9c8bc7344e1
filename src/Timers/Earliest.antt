-- ===== src/Timers/Earliest.antt =====
-- src/libmowgli/eventloop/timer.c: the earliest deadline of the timers.
use libmowgli.Base.{
  ℕ, ◌≤◌, ◌≡◌, refl, sym, subst, List, [], ◌∷◌, ◌++◌, Option, none, some, Bool, true, false, ◌&&◌,
  ltb, if◌then◌else◌, append_assoc, append-nil, All, All-append, All-map, ◌⊎◌, inl, inr, arith,
}
use libmowgli.Timers.{Timer, Eventloop, LastRan, earliest, next_timer, sooner}

-- A time is not past the deadline of an active timer.
abbrev pub IsBefore : ℕ → Timer → Type 0
IsBefore d t = t.active ≡ true → d ≤ t.deadline

-- To sleep until the deadline, or for ever when there is none, misses no active timer.
abbrev pub Wakes : Option ℕ → List Timer → Type 0
Wakes none ts = All (λ t. t.active ≡ false) ts
Wakes (some d) ts = All (IsBefore d) ts

-- The deadline that the loop has stored, when it has stored one, is not past an active timer.
abbrev pub IsTimely : Option ℕ → List Timer → Type 0
IsTimely none ts = Unit
IsTimely (some d) ts = All (IsBefore d) ts

pub weaker : (n d : ℕ) (ts : List Timer) → n ≤ d → All (IsBefore d) ts → All (IsBefore n) ts
weaker n d ts h = All-map (IsBefore d) (IsBefore n) ts below
  where
    at_most : (t : Timer) → d ≤ t.deadline → n ≤ t.deadline
    at_most t q = omega arith

    below : (t : Timer) → IsBefore d t → IsBefore n t
    below t p = λ e. at_most t (p e)

pub added :
    (d : ℕ) (t : Timer) (ts : List Timer)
    → d ≤ t.deadline
    → All (IsBefore d) ts
    → All (IsBefore d) (ts ++ (t ∷ []))
added d t ts h p = All-append (IsBefore d) ts (t ∷ []) p (λ e. h, tt)

-- An active timer has the deadline.
abbrev pub HasDeadline : ℕ → List Timer → Type 0
HasDeadline d [] = ⊥
HasDeadline d (t ∷ ts) = ((t.active ≡ true) × (t.deadline ≡ d)) ⊎ HasDeadline d ts

-- The earliest deadline of the active timers, none if there are none.
abbrev pub IsEarliest : Option ℕ → List Timer → Type 0
IsEarliest none ts = All (λ t. t.active ≡ false) ts
IsEarliest (some d) ts = All (IsBefore d) ts × HasDeadline d ts

has_last :
    (d : ℕ) (ts : List Timer) (t : Timer)
    → t.active ≡ true
    → t.deadline ≡ d
    → HasDeadline d (ts ++ (t ∷ []))
has_last d [] t e f = inl (e, f)
has_last d (s ∷ ts) t e f = inr (has_last d ts t e f)

has_still :
    (d : ℕ) (ts : List Timer) (t : Timer) → HasDeadline d ts → HasDeadline d (ts ++ (t ∷ []))
has_still d [] t h = elim h [ ]
has_still d (s ∷ ts) t (inl h) = inl h
has_still d (s ∷ ts) t (inr h) = inr (has_still d ts t h)

idle-IsBefore : (d : ℕ) (t : Timer) → t.active ≡ false → IsBefore d t
idle-IsBefore d t e = λ f. absurd (ground arith)

first_found :
    (t : Timer) (seen : List Timer) (b : Bool)
    → t.active ≡ b
    → All (λ t. t.active ≡ false) seen
    → IsEarliest (if b then some t.deadline else none) (seen ++ (t ∷ []))
first_found t seen true e p = (
  added t.deadline t seen (omega arith)
      (All-map (λ t. t.active ≡ false) (IsBefore t.deadline) seen (idle-IsBefore t.deadline) p),
  has_last t.deadline seen t e refl,
)
first_found t seen false e p = All-append (λ t. t.active ≡ false) seen (t ∷ []) p (e, tt)

next_found :
    (t : Timer) (seen : List Timer) (d : ℕ) (b c : Bool)
    → t.active ≡ b
    → ltb t.deadline d ≡ c
    → All (IsBefore d) seen
    → HasDeadline d seen
    → IsEarliest (if b && c then some t.deadline else some d) (seen ++ (t ∷ []))
next_found t seen d true true e f p h = (
  added t.deadline t seen (omega arith) (weaker t.deadline d seen (ground arith) p),
  has_last t.deadline seen t e refl,
)
next_found t seen d true false e f p h = (added d t seen (ground arith) p, has_still d seen t h)
next_found t seen d false c e f p h =
    (All-append (IsBefore d) seen (t ∷ []) p (idle-IsBefore d t e, tt), has_still d seen t h)

sooner-IsEarliest :
    (t : Timer) (seen : List Timer) (o : Option ℕ)
    → IsEarliest o seen
    → IsEarliest (sooner t o) (seen ++ (t ∷ []))
sooner-IsEarliest t seen none p = first_found t seen t.active refl p
sooner-IsEarliest t seen (some d) p =
    next_found t seen d t.active (ltb t.deadline d) refl refl p.0 p.1

pub earliest-IsEarliest :
    (ts seen : List Timer) (o : Option ℕ)
    → IsEarliest o seen
    → IsEarliest (earliest ts o) (seen ++ ts)
unfolding earliest
earliest-IsEarliest [] seen o p = subst (IsEarliest o) (sym (append-nil seen)) p
earliest-IsEarliest (t ∷ ts) seen o p =
    subst (IsEarliest (earliest ts (sooner t o))) (append_assoc seen (t ∷ []) ts)
      (earliest-IsEarliest ts (seen ++ (t ∷ [])) (sooner t o) (sooner-IsEarliest t seen o p))

pub timely : (o : Option ℕ) (ts : List Timer) → IsEarliest o ts → IsTimely o ts × Wakes o ts
timely none ts p = (tt, p)
timely (some d) ts p = (p.0, p.0)

without_deadline :
    (o : Option ℕ) (ts : List Timer) (r : LastRan)
    → o ≡ none
    → IsEarliest (next_timer (record { deadline = o; timers = ts; last_ran = r })).1 ts
unfolding next_timer
without_deadline none ts r e = earliest-IsEarliest ts [] none tt
without_deadline (some d) ts r e = absurd (ground arith)

-- If no deadline is stored, `mowgli_eventloop_next_timer` gives the earliest deadline of the
-- active timers, and none if none is active.
pub next_timer-IsEarliest :
    (l : Eventloop) → l.deadline ≡ none → IsEarliest (next_timer l).1 l.timers
next_timer-IsEarliest l e = without_deadline l.deadline l.timers l.last_ran e
