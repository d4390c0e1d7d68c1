-- ===== src/Service/Wait/Paired.antt =====
-- What the receiver of a one-shot pair returns, against the sender and the kernel
-- (crates/service/src/util/wait.rs).
use msft.Service.Wait.{
  WaitCodes, WaitState, WaitResult, held, used, dropped, Oneshot, oneshot, set, poll, callback,
}
use msft.Prelude.{◌≡◌, ◌⊎◌, true, false, Option, none, some, ok, Poll, pending, ready, arith, refl}
use msft.Prelude.Wakers.{Waker, still_asleep, still_asleep-none, update_waker-eq-some}

pub record World : Type 0 where
  pub pair : Oneshot
  pub asleep : Option Waker

abbrev pub sleeper : Waker → Poll WaitResult → Option Waker
sleeper cx pending = some cx
sleeper cx (ready _) = none

module _ (codes : WaitCodes) where
  -- The kernel calls back once, after the event is set: the wait has no timeout, and an event that is
  -- reset by hand stays set. A `set` that the kernel refuses uses up the sender.
  pub data Step (w : World) : World → Type 0 where
    sets : w.pair.sender ≡ held → Step w (record w { pair = set w.pair })
    set_fails :
        w.pair.sender ≡ held → Step w (record w { pair = record (w.pair) { sender = used } })
    drops : w.pair.sender ≡ held → Step w (record w { pair = record (w.pair) { sender = dropped } })
    fires :
        w.pair.waits ≡ true
        → w.pair.event ≡ true
        → {s : WaitState} {woken : Option Waker}
        → callback codes codes.wait_object_0 w.pair.state ≡ some (s, woken)
        → Step w (record {
          pair = record (w.pair) { state = s; waits = false };
          asleep = still_asleep woken w.asleep;
        })
    polls :
        (cx : Waker)
        → Step w (record {
          pair = record (w.pair) { state = (poll cx w.pair.state).after };
          asleep = sleeper cx (poll cx w.pair.state).result;
        })

  pub data Reach : World → Type 0 where
    fresh : Reach (record { pair = oneshot; asleep = none })
    later : {w v : World} → Reach w → Step w v → Reach v

pub record Inv (w : World) : Type 0 where
  pub registered : (w.asleep ≡ none) ⊎ (w.asleep ≡ w.pair.state.waker)
  pub resolved :
      (w.pair.state.result ≡ none) × (w.pair.waits ≡ true)
      ⊎ (w.pair.state.result ≡ some (ok tt)) × (w.pair.event ≡ true) × (w.asleep ≡ none)
  pub only_set : (w.pair.event ≡ false) ⊎ (w.pair.sender ≡ used)

Step-Inv : (codes : WaitCodes) {w v : World} → Step codes w v → Inv w → Inv v
unfolding callback poll
Step-Inv codes {w} (sets e) inv = ground arith
Step-Inv codes {w} (set_fails e) inv = ground arith
Step-Inv codes {w} (drops e) inv = ground arith
Step-Inv codes {w} (fires e h f) inv = ground (arith, still_asleep-none w.pair.state.waker w.asleep)
Step-Inv codes {w} (polls cx) inv = ground (arith, update_waker-eq-some w.pair.state.waker cx)

Reach-Inv : (codes : WaitCodes) {w : World} → Reach codes w → Inv w
Reach-Inv codes fresh = ground arith
Reach-Inv codes (later r s) = Step-Inv codes s (Reach-Inv codes r)

-- A receiver is ready only with success, only once its event is set, and then by its sender; while it is
-- not, the kernel still waits for the event; and once it is, no task sleeps on it.
pub receiver_set :
    (codes : WaitCodes) {w : World} (cx : Waker)
    → Reach codes w
    → ((poll cx w.pair.state).result ≡ pending) × (w.pair.waits ≡ true)
      ⊎ ((poll cx w.pair.state).result ≡ ready (ok tt))
        × (w.pair.event ≡ true)
        × (w.pair.sender ≡ used)
        × (w.asleep ≡ none)
unfolding poll
receiver_set codes {w} cx r = ground (arith, Reach-Inv codes r)

-- A sender that is dropped without `set` leaves its receiver pending.
pub dropped_pends :
    (codes : WaitCodes) {w : World} (cx : Waker)
    → Reach codes w
    → w.pair.sender ≡ dropped
    → (poll cx w.pair.state).result ≡ pending
unfolding poll
dropped_pends codes {w} cx r d = ground (arith, Reach-Inv codes r)

-- Before its sender is used the receiver is pending; and once `set` has set the event, the kernel can call
-- back, which leaves no task asleep and the receiver ready with success.
pub set_fires :
    (codes : WaitCodes) {w : World} (cx : Waker)
    → Reach codes w
    → w.pair.sender ≡ held
    → ((poll cx w.pair.state).result ≡ pending)
      × (v : World) × Step codes (record w { pair = set w.pair }) v
      × (v.asleep ≡ none)
      × ((poll cx v.pair.state).result ≡ ready (ok tt))
unfolding poll callback
set_fires codes {w} cx r h = (
  ground (arith, Reach-Inv codes r),
  record {
    pair = record (set w.pair) {
      state = record (w.pair.state) { result = some (ok tt) };
      waits = false;
    };
    asleep = still_asleep w.pair.state.waker w.asleep;
  },
  fires (ground (arith, Reach-Inv codes r)) refl (ground arith),
  still_asleep-none w.pair.state.waker w.asleep (ground (arith, Reach-Inv codes r)),
  refl,
)
