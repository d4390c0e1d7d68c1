-- ===== src/Runtime/Examples/OfWatch.antt =====
-- A future and a stream that are ready at once, under a watch (crates/runtime/src/futures/watch.rs).
use msft.Runtime.Watch.{poll_next, finish, complete, poll_signal, set_signal}
use msft.Runtime.Watch.Signals
use msft.Runtime.Watch.Signals.{
  World, Reach, start, later, watch_polled, signal_polled, is_complete,
}
use msft.Prelude.{ℕ, ◌≡◌, ◌⊎◌, refl, true, false, Option, none, some, Poll, ready, suc, zero}
use msft.Prelude.Wakers.{Waker, update_waker}

-- It yields as many items and then ends.
abbrev yields : Waker → ℕ → ℕ × Poll (Option ℕ)
yields cx zero = (0, ready none)
yields cx (suc n) = (n, ready (some n))

abbrev finished : World ℕ
finished = record {
  watched = record { watch = complete; shared = record { signal = true; waker = some 7 } };
  asleep = none;
}

stream-signal_iff_complete_example :
    (finished.watched.shared.signal ≡ is_complete finished.watched.watch)
    × ((finished.watched.shared.signal ≡ false) ⊎ (finished.asleep ≡ none))
unfolding poll_next finish poll_signal set_signal update_waker
stream-signal_iff_complete_example =
    Signals.stream-signal_iff_complete yields {i = 1} {w = finished}
      (later (later (later start (watch_polled 3 refl)) (signal_polled 7)) (watch_polled 3 refl))
