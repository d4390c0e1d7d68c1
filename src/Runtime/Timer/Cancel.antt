-- ===== src/Runtime/Timer/Cancel.antt =====
-- What `TimerPool::cancel` does to the future and the stream of a timer.
use msft.Runtime.Timer.{Shared, TimerPool, cancel, poll, poll_next}
use msft.Prelude.{◌≡◌, true, none, pending, ready, List, [], ◌∷◌, arith}
use msft.Prelude.Wakers.{Waker}

abbrev pub polled : List Waker → Shared → Shared
polled [] s = s
polled (cx ∷ cxs) s = polled cxs (poll cx s).0

abbrev pub next_polled : List Waker → Shared → Shared
next_polled [] s = s
next_polled (cx ∷ cxs) s = next_polled cxs (poll_next cx s).0

next_polled-stopped :
    (cxs : List Waker) (s : Shared) → s.stopped ≡ true → (next_polled cxs s).stopped ≡ true
unfolding poll_next
next_polled-stopped [] s h = h
next_polled-stopped (cx ∷ cxs) s h = next_polled-stopped cxs (poll_next cx s).0 (ground arith)

-- A cancelled stream ends at its next poll, and at every later one, with timeouts still queued or
-- not; and the task in the waker slot is woken.
pub cancel-stream_ends :
    (p : TimerPool) (cxs : List Waker) (cx : Waker)
    → ((poll_next cx (next_polled cxs (cancel p).0.shared)).1 ≡ ready none)
      × ((cancel p).1 ≡ p.shared.waker)
unfolding cancel poll_next
cancel-stream_ends p cxs cx = ground (arith, next_polled-stopped cxs (cancel p).0.shared)

polled-empty : (cxs : List Waker) (s : Shared) → s.timeouts ≡ 0 → (polled cxs s).timeouts ≡ 0
unfolding poll
polled-empty [] s h = h
polled-empty (cx ∷ cxs) s h = polled-empty cxs (poll cx s).0 (ground arith)

-- A cancelled future does not end. With no timeout queued, and none to come now that the timer is
-- unset, it is pending however often it is polled.
pub cancel-future_pends :
    (p : TimerPool) (cxs : List Waker) (cx : Waker)
    → p.shared.timeouts ≡ 0
    → ((cancel p).0.pool ≡ none) × ((poll cx (polled cxs (cancel p).0.shared)).1 ≡ pending)
unfolding cancel poll
cancel-future_pends p cxs cx h = ground (arith, polled-empty cxs (cancel p).0.shared)
