-- ===== src/Service/Device/Unplugged.antt =====
-- `Unplugged` of crates/service/src/device.rs, the future of a tracked port, over the receiver of its
-- pair.

use msft.Prelude.Wakers.{Waker}
use msft.Service.Wait.{WaitState, poll, WaitResult, PolledWait, WaitCodes, used}
use msft.Service.Wait.Paired.{Reach, World, receiver_set}
use msft.Prelude.{
  Faulty, Option, Poll, inl, inr, none, ok, pending, ready, refl, some, true, ◌≡◌, ◌⊎◌,
}

pub data Unplugged : Type 0 where
  waiting : WaitState → Unplugged
  unplugged_complete : Unplugged

-- What a poll leaves, returns, and wakes.
pub record PolledUnplugged : Type 0 where
  pub after : Unplugged
  pub result : Poll WaitResult
  pub woken : Option Waker

abbrev pub ready_or_waiting : PolledWait → Poll WaitResult → PolledUnplugged
ready_or_waiting p pending = record { after = waiting p.after; result = pending; woken = p.woken }
ready_or_waiting p (ready r) = record {
  after = unplugged_complete;
  result = ready r;
  woken = p.woken;
}

-- `none` is the panic after completion.
unfoldable pub poll_unplugged : Waker → Unplugged → Faulty PolledUnplugged
poll_unplugged cx (waiting inner) = let p = poll cx inner in some (ready_or_waiting p p.result)
poll_unplugged cx unplugged_complete = none

-- A future that has not completed is pending while the kernel waits for the event of its pair, and can
-- then be polled again; or it completes, with success, once the event is set by its sender, and is then
-- not to be polled again.
pub poll_unplugged-set :
    (codes : WaitCodes) {w : World} (cx cx' : Waker)
    → Reach codes w
    → (p : PolledUnplugged) × (poll_unplugged cx (waiting w.pair.state) ≡ some p)
      × ((p.result ≡ pending)
            × (w.pair.waits ≡ true)
            × (p.after ≡ waiting (poll cx w.pair.state).after)
          ⊎ (p.result ≡ ready (ok tt))
            × (w.pair.event ≡ true)
            × (w.pair.sender ≡ used)
            × (poll_unplugged cx' p.after ≡ none))
unfolding poll_unplugged
poll_unplugged-set codes {w} cx cx' r = (
  ready_or_waiting (poll cx w.pair.state) (poll cx w.pair.state).result,
  refl,
  elim (receiver_set codes cx r) [
    | inl (e, k) ↦ inl (rw e (refl, k, refl))
    | inr (e, k, u, a) ↦ inr (rw e (refl, k, u, refl))
  ],
)
