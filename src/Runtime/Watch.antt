-- ===== src/Runtime/Watch.antt =====
-- crates/runtime/src/futures/watch.rs: a future or stream that sets a signal when it is done, and
-- the signal, itself a future, that shares a mutex with it.
pub mod Signals
pub mod Transparent
use msft.Prelude.{Bool, true, false, Option, none, some, Faulty, Poll, pending, ready}
use msft.Prelude.Wakers.{Waker, update_waker}

pub record Inner : Type 0 where
  pub signal : Bool
  pub waker : Option Waker

abbrev pub default : Inner
default = record { signal = false; waker = none }

-- `Inner::signal`, with the waker that it wakes. The waker stays in its slot.
unfoldable pub set_signal : Inner → Inner × Option Waker
set_signal s = (record s { signal = true }, s.waker)

-- `Signal::poll`.
unfoldable pub poll_signal : Waker → Inner → Inner × Poll (Unit {0})
unfolding update_waker
poll_signal cx s = elim s.signal [
  | true ↦ (s, ready tt)
  | false ↦ (record s { waker = update_waker s.waker cx }, pending)
]

pub data Watch {ℓ} (I : Type ℓ) : Type ℓ where
  incomplete : I → Watch I
  complete : Watch I

-- A watch and what it shares with its signal.
pub record Watched {ℓ} (I : Type ℓ) : Type ℓ where
  pub watch : Watch I
  pub shared : Inner

-- `Watch::future` and `Watch::stream`.
abbrev pub watch_of {ℓ} : {I : Type ℓ} → I → Watched I
watch_of inner = record { watch = incomplete inner; shared = default }

-- `Watch::inner`.
unfoldable pub inner {ℓ} : {I : Type ℓ} → Watch I → Option I
inner (incomplete i) = some i
inner complete = none

-- What a poll leaves, returns, and wakes.
pub record Polled {ℓ κ} (I : Type ℓ) (O : Type κ) : Type (ℓ ⊔ κ) where
  pub after : Watched I
  pub result : Poll O
  pub woken : Option Waker

module _ {ℓ κ} {I : Type ℓ} {O : Type κ} where
  -- The watch is replaced by `Complete`, and the signal is set.
  unfoldable pub finish : Inner → O → Polled I O
  unfolding set_signal
  finish shared output = record {
    after = record { watch = complete; shared = (set_signal shared).0 };
    result = ready output;
    woken = (set_signal shared).1;
  }

  abbrev pub not_yet : I → Inner → Poll O → Polled I O
  not_yet i shared p = record {
    after = record { watch = incomplete i; shared = shared };
    result = p;
    woken = none;
  }

  -- The future or stream inside, given by its own poll.
  module _ (poll_inner : Waker → I → I × Poll O) where
    -- `Future::poll` of a watch; `none` is the panic after completion.
    abbrev pub poll_watch : Waker → Watch I → Inner → Faulty (Polled I O)
    poll_watch cx complete shared = none
    poll_watch cx (incomplete i) shared =
        let (i', p) = poll_inner cx i in
        elim p [ pending ↦ some (not_yet i' shared pending) | ready o ↦ some (finish shared o) ]

    unfoldable pub poll : Waker → Watched I → Faulty (Polled I O)
    unfolding finish
    poll cx w = poll_watch cx w.watch w.shared

module _ {ℓ κ} {I : Type ℓ} {O : Type κ} (poll_next_inner : Waker → I → I × Poll (Option O)) where
  -- `Stream::poll_next` of a watch: only the end of the stream completes it.
  abbrev pub poll_next_watch : Waker → Watch I → Inner → Faulty (Polled I (Option O))
  poll_next_watch cx complete shared = none
  poll_next_watch cx (incomplete i) shared =
      let (i', p) = poll_next_inner cx i in
      elim p [
        | pending ↦ some (not_yet i' shared pending)
        | ready o ↦ elim o [
          | some item ↦ some (not_yet i' shared (ready (some item)))
          | none ↦ some (finish shared none)
        ]
      ]

  unfoldable pub poll_next : Waker → Watched I → Faulty (Polled I (Option O))
  unfolding finish
  poll_next cx w = poll_next_watch cx w.watch w.shared
