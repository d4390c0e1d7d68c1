-- ===== src/Runtime/Work.antt =====
-- crates/runtime/src/work/mod.rs: a worker that a thread pool runs once, and the future of its
-- result. The worker is a value of `W`, and `work_once` is its method.
pub mod Once
pub mod Handle
pub mod Cancelled
use msft.Prelude.{Option, none, some, Faulty, Poll, pending, ready}
use msft.Prelude.Wakers.{Waker, update_waker}

pub record Shared {ℓ} (O : Type ℓ) : Type ℓ where
  pub waker : Option Waker
  pub result : Option O

pub record Oneshot {ℓ κ} (W : Type ℓ) (O : Type κ) : Type (ℓ ⊔ κ) where
  pub inner : Option W
  pub state : Shared O

-- The work handle: `WorkOncePool` before `submit_once`, then `WorkOncePoolGuard`. `submit_once` takes
-- the pool by value, so one handle is submitted once.
pub data Submitted {ℓ} (W : Type ℓ) : Type ℓ where
  not_yet : Submitted W
  queued : Submitted W
  running : W → Submitted W
  over : Submitted W

module _ {ℓ κ} {W : Type ℓ} {O : Type κ} where
  -- `Oneshot::new`.
  abbrev pub new : W → Oneshot W O
  new work = record { inner = some work; state = record { waker = none; result = none } }

  -- `Oneshot::take`; `none` is `unreachable!`.
  abbrev pub taken : Option W → Oneshot W O → Faulty (W × Oneshot W O)
  taken none s = none
  taken (some w) s = some (w, record s { inner = none })

  unfoldable pub take_inner : Oneshot W O → Faulty (W × Oneshot W O)
  take_inner s = taken s.inner s

  -- `Oneshot::try_take`.
  unfoldable pub try_take : Oneshot W O → Option W × Oneshot W O
  try_take s = (s.inner, record s { inner = none })

  -- The end of `work_once_callback` and of `cancel_with`: the result is put down, and the waker that
  -- is taken out of its slot is woken.
  unfoldable pub resolve : O → Oneshot W O → Oneshot W O × Option Waker
  resolve result s =
      (record s { state = record { waker = none; result = some result } }, s.state.waker)

  -- `WorkOncePoolGuard::cancel_with`, once `wait` has returned.
  unfoldable pub cancel_with : O → Oneshot W O → Oneshot W O × Option Waker
  unfolding try_take resolve
  cancel_with result s = let (dropped, s') = try_take s in resolve result s'

  -- `WorkOnceFuture::poll`: the result is taken out.
  unfoldable pub poll : Waker → Oneshot W O → Oneshot W O × Poll O
  poll cx s = elim s.state.result [
    | some r ↦ (record s { state = record (s.state) { result = none } }, ready r)
    | none ↦
        (record s { state = record (s.state) { waker = update_waker s.state.waker cx } }, pending)
  ]
