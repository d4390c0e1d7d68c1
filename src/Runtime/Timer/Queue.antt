-- ===== src/Runtime/Timer/Queue.antt =====
-- The queue of timeouts between a timer's callback and its stream.
use msft.Runtime.Timer.{Shared, callback, poll_next}
use msft.Prelude.{
  ℕ, suc, ◌+◌, ◌≤◌, ◌≡◌, Option, none, some, Poll, pending, ready, List, [], ◌∷◌, arith,
  if◌then◌else◌, ltb,
}
use msft.Prelude.Wakers.{Waker}

-- What happens to the shared state of a timer that runs: a callback, or a poll of its stream.
pub data Event : Type 0 where
  fires : Event
  polls : Waker → Event

abbrev pub happen : Event → Shared → Shared
happen fires s = (callback s).0
happen (polls cx) s = (poll_next cx s).0

-- Whether a poll returns a timeout.
abbrev pub yields : Poll (Option (Unit {0})) → ℕ
yields pending = 0
yields (ready none) = 0
yields (ready (some _)) = 1

-- How many timeouts a sequence of events yields, and how many callbacks found the queue full.
abbrev pub yielded : List Event → Shared → ℕ
yielded [] s = 0
yielded (fires ∷ es) s = yielded es (callback s).0
yielded (polls cx ∷ es) s = yields (poll_next cx s).1 + yielded es (poll_next cx s).0

abbrev pub dropped : List Event → Shared → ℕ
dropped [] s = 0
dropped (fires ∷ es) s = (if ltb s.timeouts s.capacity then 0 else 1) + dropped es (callback s).0
dropped (polls cx ∷ es) s = dropped es (poll_next cx s).0

abbrev pub fired : List Event → ℕ
fired [] = 0
fired (fires ∷ es) = suc (fired es)
fired (polls _ ∷ es) = fired es

abbrev pub run : List Event → Shared → Shared
run [] s = s
run (e ∷ es) s = run es (happen e s)

callback-timeouts :
    (s : Shared)
    → (callback s).0.timeouts + (if ltb s.timeouts s.capacity then 0 else 1) ≡ s.timeouts + 1
unfolding callback
callback-timeouts s = ground arith

poll_next-timeouts :
    (cx : Waker) (s : Shared) → (poll_next cx s).0.timeouts + yields (poll_next cx s).1 ≡ s.timeouts
unfolding poll_next
poll_next-timeouts cx s = ground arith

-- Over any callbacks and polls no timeout is made up, and none is lost but those that found the
-- queue full: the timeouts yielded, dropped and still queued are those queued before and those fired.
pub timeouts_conserved :
    (es : List Event) (s : Shared)
    → yielded es s + dropped es s + (run es s).timeouts ≡ s.timeouts + fired es
timeouts_conserved [] s = omega arith
timeouts_conserved (fires ∷ es) s =
    omega (arith, callback-timeouts s, timeouts_conserved es (callback s).0)
timeouts_conserved (polls cx ∷ es) s =
    omega (arith, poll_next-timeouts cx s, timeouts_conserved es (poll_next cx s).0)

happen-bounded :
    (e : Event) (s : Shared)
    → s.timeouts ≤ s.capacity
    → ((happen e s).timeouts ≤ (happen e s).capacity) × ((happen e s).capacity ≡ s.capacity)
unfolding callback poll_next
happen-bounded fires s h = ground arith
happen-bounded (polls cx) s h = ground arith

-- The queue never holds more than its capacity, which never changes.
pub run-bounded :
    (es : List Event) (s : Shared)
    → s.timeouts ≤ s.capacity
    → ((run es s).timeouts ≤ (run es s).capacity) × ((run es s).capacity ≡ s.capacity)
run-bounded [] s h = omega arith
run-bounded (e ∷ es) s h =
    omega (arith, happen-bounded e s h, run-bounded es (happen e s) (happen-bounded e s h).0)
