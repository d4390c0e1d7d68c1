-- ===== src/Service/Event.antt =====
-- crates/service/src/util/wait.rs: `Event`, over the kernel's calls for event objects.
pub mod Same
use msft.Runtime.Event.{EventCalls, EventCodes}
use msft.Service.Wchar.{OsString, to_wide}
use msft.Prelude.{
  ℕ, ◌%◌, ◌^◌, ◌==◌, if◌then◌else◌, List, Option, none, some, Result, ok, err, map_err,
}

pub data EventError : Type 0 where
  abandoned failed timeout : EventError
  io : ℕ → EventError

-- `TRUE` is 1 and `FALSE` 0.
pub data EventReset : Type 0 where
  manual automatic : EventReset

pub data EventInitialState : Type 0 where
  set_state unset_state : EventInitialState

abbrev pub reset_code : EventReset → ℕ
reset_code manual = 1
reset_code automatic = 0

abbrev pub state_code : EventInitialState → ℕ
state_code set_state = 1
state_code unset_state = 0

module _ {K : Type 0} (calls : EventCalls K) (codes : EventCodes) where
  -- `OwnedHandle::try_from`: a null handle is the last error.
  abbrev owned : K × ℕ → K × Result ℕ ℕ
  owned (k, raw) = (k, if raw == 0 then err (calls.last_os_error k) else ok raw)

  unfoldable pub new_raw : K → Option (List ℕ) → EventReset → EventInitialState → K × Result ℕ ℕ
  new_raw k name r s = owned (calls.create_event k (reset_code r) (state_code s) name)

  -- `Event::named`, whose name ends with a NUL.
  unfoldable pub named : K → OsString → EventReset → EventInitialState → K × Result ℕ ℕ
  unfolding new_raw
  named k name r s = new_raw k (some (to_wide name)) r s

  -- `Event::anonymous`.
  unfoldable pub anonymous : K → EventReset → EventInitialState → K × Result ℕ ℕ
  unfolding new_raw
  anonymous k r s = new_raw k none r s

  abbrev unless_false : K × ℕ → K × Result (Unit {0}) ℕ
  unless_false (k, answer) = (k, if answer == 0 then err (calls.last_os_error k) else ok tt)

  -- `Event::set`.
  unfoldable pub set : K → ℕ → K × Result (Unit {0}) ℕ
  set k h = unless_false (calls.set_event k h)

  -- `Event::reset`.
  unfoldable pub reset : K → ℕ → K × Result (Unit {0}) ℕ
  reset k h = unless_false (calls.reset_event k h)

  -- `d.as_millis() as u32`.
  abbrev dur : Option ℕ → ℕ
  dur none = codes.infinite
  dur (some millis) = millis % 2 ^ 32

  abbrev waited : K × ℕ → K × Result (Unit {0}) EventError
  waited (k, code) = (
    k,
    if code == codes.wait_object_0
        then ok tt
        else if code == codes.wait_abandoned
        then err abandoned
        else if code == codes.wait_failed
        then err failed
        else if code == codes.wait_timeout
        then err timeout
        else err (io (calls.last_os_error k)),
  )

  -- `Event::wait`.
  unfoldable pub wait : K → ℕ → Option ℕ → K × Result (Unit {0}) EventError
  wait k h d = waited (calls.wait_for_single_object k h (dur d))
