-- ===== src/Runtime/Watch/Signals.antt =====
-- When the signal of a watch is set, and that its task is woken then.
use msft.Runtime.Watch.{
  Watch, incomplete, complete, Watched, watch_of, Polled, poll, poll_next, poll_signal,
}
use msft.Prelude.{
  ◌⊎◌, if◌then◌else◌, Bool, true, false, Option, none, some, Faulty, Poll, pending, ready, ◌≡◌,
  arith,
}
use msft.Prelude.Wakers.{still_asleep-none, Waker, still_asleep, update_waker-eq-some}

-- A watch, its signal, and the task that sleeps on the signal.
pub record World {ℓ} (I : Type ℓ) : Type ℓ where
  pub watched : Watched I
  pub asleep : Option Waker

abbrev pub init {ℓ} : {I : Type ℓ} → I → World I
init i = record { watched = watch_of i; asleep = none }

abbrev sleeper : Waker → Poll (Unit {0}) → Option Waker
sleeper cx pending = some cx
sleeper cx (ready _) = none

-- The task that owns the watch polls it, or the task that owns the signal polls that, in any order.
pub data Step {ℓ κ} {I : Type ℓ} {O : Type κ} (poll_it : Waker → Watched I → Faulty (Polled I O))
    (w : World I) : World I → Type (ℓ ⊔ κ) where
  watch_polled :
      (cx : Waker) {q : Polled I O}
      → poll_it cx w.watched ≡ some q
      → Step poll_it w (record { watched = q.after; asleep = still_asleep q.woken w.asleep })
  signal_polled :
      (cx : Waker)
      → Step poll_it w (record {
        watched = record { watch = w.watched.watch; shared = (poll_signal cx w.watched.shared).0 };
        asleep = sleeper cx (poll_signal cx w.watched.shared).1;
      })

pub data Reach {ℓ κ} {I : Type ℓ} {O : Type κ} (poll_it : Waker → Watched I → Faulty (Polled I O))
    (i : I) : World I → Type (ℓ ⊔ κ) where
  start : Reach poll_it i (init i)
  later : {w v : World I} → Reach poll_it i w → Step poll_it w v → Reach poll_it i v

abbrev pub is_complete {ℓ} : {I : Type ℓ} → Watch I → Bool
is_complete complete = true
is_complete (incomplete _) = false

pub record Inv {ℓ} {I : Type ℓ} (w : World I) : Type 0 where
  pub exact : w.watched.shared.signal ≡ is_complete w.watched.watch
  pub registered : (w.asleep ≡ none) ⊎ (w.asleep ≡ w.watched.shared.waker)
  pub woken : w.watched.shared.signal ≡ true → w.asleep ≡ none

signal_polled-Inv {ℓ} :
    {I : Type ℓ} {w : World I} (cx : Waker)
    → Inv w
    → Inv {I = I} (record {
      watched = record { watch = w.watched.watch; shared = (poll_signal cx w.watched.shared).0 };
      asleep = sleeper cx (poll_signal cx w.watched.shared).1;
    })
unfolding poll_signal
signal_polled-Inv {w} cx inv = ground (arith, update_waker-eq-some w.watched.shared.waker cx)

-- What a poll of either kind does to a watch that was not complete.
record Keeps {ℓ κ} {I : Type ℓ} {O : Type κ} (w : Watched I) (q : Polled I O) : Type 0 where
  open_before : is_complete w.watch ≡ false
  slot : q.after.shared.waker ≡ w.shared.waker
  set_with : q.after.shared.signal ≡ (if is_complete q.after.watch then true else w.shared.signal)
  wakes : q.woken ≡ (if is_complete q.after.watch then w.shared.waker else none)

watch_polled-Inv {ℓ κ} :
    {I : Type ℓ} {O : Type κ} {w : World I} {q : Polled I O}
    → Keeps w.watched q
    → Inv w
    → Inv (record { watched = q.after; asleep = still_asleep q.woken w.asleep })
watch_polled-Inv {w} {q} k inv = ground (arith, still_asleep-none w.watched.shared.waker w.asleep)

poll-Keeps {ℓ κ} :
    {I : Type ℓ} {O : Type κ} (poll_inner : Waker → I → I × Poll O) (cx : Waker) (w : Watched I)
    {q : Polled I O}
    → poll poll_inner cx w ≡ some q
    → Keeps w q
unfolding poll
poll-Keeps poll_inner cx w e = ground arith

poll_next-Keeps {ℓ κ} :
    {I : Type ℓ} {O : Type κ} (poll_next_inner : Waker → I → I × Poll (Option O)) (cx : Waker)
    (w : Watched I) {q : Polled I (Option O)}
    → poll_next poll_next_inner cx w ≡ some q
    → Keeps w q
unfolding poll_next
poll_next-Keeps poll_next_inner cx w e = ground arith

Reach-Inv {ℓ κ} :
    {I : Type ℓ} {O : Type κ} (poll_it : Waker → Watched I → Faulty (Polled I O))
    → ((cx : Waker) (w : Watched I) (q : Polled I O) → poll_it cx w ≡ some q → Keeps w q)
    → {i : I} {w : World I} → Reach poll_it i w
    → Inv w
Reach-Inv poll_it keeps start = ground arith
Reach-Inv poll_it keeps (later {w} r (watch_polled cx {q} e)) =
    watch_polled-Inv (keeps cx w.watched q e) (Reach-Inv poll_it keeps r)
Reach-Inv poll_it keeps (later r (signal_polled cx)) =
    signal_polled-Inv cx (Reach-Inv poll_it keeps r)

-- In every state that a watched future and its signal reach, the signal is set exactly when the
-- watch is complete, and it is not set or no task sleeps on it.
pub future-signal_iff_complete {ℓ κ} :
    {I : Type ℓ} {O : Type κ} (poll_inner : Waker → I → I × Poll O) {i : I} {w : World I}
    → Reach (poll poll_inner) i w
    → (w.watched.shared.signal ≡ is_complete w.watched.watch)
      × ((w.watched.shared.signal ≡ false) ⊎ (w.asleep ≡ none))
future-signal_iff_complete poll_inner {w} r = ground (arith, inv)
  where
    inv : Inv w
    inv = Reach-Inv (poll poll_inner) (λ cx w q. poll-Keeps poll_inner cx w) r

-- In every state that a watched stream and its signal reach, the signal is set exactly when the watch
-- is complete, and it is not set or no task sleeps on it.
pub stream-signal_iff_complete {ℓ κ} :
    {I : Type ℓ} {O : Type κ} (poll_next_inner : Waker → I → I × Poll (Option O)) {i : I}
    {w : World I}
    → Reach (poll_next poll_next_inner) i w
    → (w.watched.shared.signal ≡ is_complete w.watched.watch)
      × ((w.watched.shared.signal ≡ false) ⊎ (w.asleep ≡ none))
stream-signal_iff_complete poll_next_inner {w} r = ground (arith, inv)
  where
    inv : Inv w
    inv = Reach-Inv (poll_next poll_next_inner) (λ cx w q. poll_next-Keeps poll_next_inner cx w) r
