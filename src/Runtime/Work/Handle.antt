-- ===== src/Runtime/Work/Handle.antt =====
-- crates/runtime/src/work/mod.rs: the handle of a work pool, from its creation to its drop, with the
-- kernel calls that are made, in order. Handles and environments are numbers, and 0 is none.
pub mod Over
use msft.Runtime.Handles.{WaitPending, cancel_them, pending_code}
use msft.Prelude.{ℕ, List, [], ◌∷◌, ◌++◌, Result, ok, err, ◌==◌, if◌then◌else◌}

pub data Call : Type 0 where
  create_work : (environment : ℕ) → Call
  submit_work : (handle : ℕ) → Call
  wait_callbacks : (handle cancels : ℕ) → Call
  close_work : (handle : ℕ) → Call

pub record Answers : Type 0 where
  pub handle : ℕ
  pub last_os_error : ℕ

-- `OwnedWorkHandle::new`.
abbrev pub new_handle : Answers → (environment : ℕ) → List Call × Result ℕ ℕ
new_handle answers env = (
  create_work env ∷ [],
  if answers.handle == 0 then err answers.last_os_error else ok answers.handle,
)

-- `OwnedWorkHandle::submit`.
abbrev pub submit : ℕ → List Call
submit handle = submit_work handle ∷ []

-- `OwnedWorkHandle::wait`.
abbrev pub wait : ℕ → WaitPending → List Call
wait handle cancel = wait_callbacks handle (pending_code cancel) ∷ []

-- `OwnedWorkHandle::drop`.
abbrev pub drop_handle : ℕ → List Call
drop_handle handle = wait handle cancel_them ++ close_work handle ∷ []

-- `WorkOncePool::with_environment_raw`: where no handle is given, the worker is dropped with the error.
abbrev pub with_environment_raw : Answers → (environment : ℕ) → List Call × Result ℕ ℕ
with_environment_raw answers env = new_handle answers env

-- `WorkOncePool::new`: the null pointer for an environment.
abbrev pub new_pool : Answers → List Call × Result ℕ ℕ
new_pool answers = with_environment_raw answers 0

-- `WorkOncePool::with_environment`: a pointer to one.
abbrev pub with_environment : Answers → (environment : ℕ) → List Call × Result ℕ ℕ
with_environment answers env = with_environment_raw answers env

-- `WorkOncePool::submit_once`: the guard has the handle and the worker of the pool.
abbrev pub submit_once : ℕ → List Call × ℕ
submit_once handle = (submit handle, handle)

abbrev submitted : List Call × Result ℕ ℕ → List Call × Result ℕ ℕ
submitted (calls, err e) = (calls, err e)
submitted (calls, ok handle) = let (more, guard) = submit_once handle in (calls ++ more, ok guard)

-- The function `once`.
unfoldable pub once : Answers → List Call × Result ℕ ℕ
once answers = submitted (new_pool answers)

-- What an owner does at its end: kernel calls, and one reference of the worker given up.
pub data Action : Type 0 where
  call : Call → Action
  release : Action

abbrev pub called : List Call → List Action
called [] = []
called (c ∷ cs) = call c ∷ called cs

-- The fields of a pool, and those of a guard, are dropped as declared: the handle, then the worker.
abbrev pub drop_guard : ℕ → List Action
drop_guard handle = called (drop_handle handle) ++ release ∷ []
