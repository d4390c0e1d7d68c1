-- ===== src/Runtime/Event.antt =====
-- crates/runtime/src/event/mod.rs: event objects. The kernel's objects, and what its calls answer, are a
-- parameter; its state is passed on from call to call.
pub mod Handles
pub mod Object
use msft.Service.Wchar.{OsString, to_wide}
use msft.Prelude.{List, Option, Result, err, if◌then◌else◌, none, ok, some, ℕ, ◌%◌, ◌==◌, ◌^◌}

-- The calls that the code makes, on a state of their own. A handle of 0 is null, and a result of 0
-- `FALSE`.
pub record EventCalls (K : Type 0) : Type 0 where
  pub create_event : K → (manual initial : ℕ) → (name : Option (List ℕ)) → K × ℕ
  pub set_event : K → (handle : ℕ) → K × ℕ
  pub reset_event : K → (handle : ℕ) → K × ℕ
  pub wait_for_single_object : K → (handle millis : ℕ) → K × ℕ
  pub last_os_error : K → ℕ

-- The numbers of windows_sys that the code names.
pub record EventCodes : Type 0 where
  pub infinite : ℕ
  pub wait_object_0 : ℕ
  pub wait_abandoned : ℕ
  pub wait_failed : ℕ
  pub wait_timeout : ℕ

pub data EventError : Type 0 where
  abandoned : EventError
  failed : EventError
  timeout : EventError
  event_io : ℕ → EventError

-- `TRUE` is 1 and `FALSE` 0.
pub data EventReset : Type 0 where
  manual : EventReset
  automatic : EventReset

pub data EventInitialState : Type 0 where
  set_state : EventInitialState
  unset_state : EventInitialState

abbrev pub reset_code : EventReset → ℕ
reset_code manual = 1
reset_code automatic = 0

abbrev pub state_code : EventInitialState → ℕ
state_code set_state = 1
state_code unset_state = 0

module _ {K : Type 0} (calls : EventCalls K) (codes : EventCodes) where
  abbrev pub owned : K × ℕ → K × Result ℕ ℕ
  owned (k, h) = (k, if h == 0 then err (calls.last_os_error k) else ok h)

  unfoldable pub new_raw : K → Option (List ℕ) → EventReset → EventInitialState → K × Result ℕ ℕ
  new_raw k name r s = owned (calls.create_event k (reset_code r) (state_code s) name)

  -- The name ends with a NUL.
  abbrev pub named : K → OsString → EventReset → EventInitialState → K × Result ℕ ℕ
  named k name r s = new_raw k (some (to_wide name)) r s

  abbrev pub anonymous : K → EventReset → EventInitialState → K × Result ℕ ℕ
  anonymous k r s = new_raw k none r s

  abbrev succeeded : K × ℕ → K × Result (Unit {0}) ℕ
  succeeded (k, b) = (k, if b == 0 then err (calls.last_os_error k) else ok tt)

  unfoldable pub set : K → ℕ → K × Result (Unit {0}) ℕ
  set k h = succeeded (calls.set_event k h)

  unfoldable pub reset : K → ℕ → K × Result (Unit {0}) ℕ
  reset k h = succeeded (calls.reset_event k h)

  -- `d.as_millis() as u32`, and `INFINITE` without a duration.
  abbrev pub millis_of : Option ℕ → ℕ
  millis_of none = codes.infinite
  millis_of (some d) = d % 2 ^ 32

  abbrev waited : K × ℕ → K × Result (Unit {0}) EventError
  waited (k, c) = (
    k,
    if c == codes.wait_object_0
        then ok tt
        else if c == codes.wait_abandoned
        then err abandoned
        else if c == codes.wait_failed
        then err failed
        else if c == codes.wait_timeout
        then err timeout
        else err (event_io (calls.last_os_error k)),
  )

  unfoldable pub wait : K → ℕ → Option ℕ → K × Result (Unit {0}) EventError
  wait k h d = waited (calls.wait_for_single_object k h (millis_of d))
