-- ===== src/Service/Event/Same.antt =====
-- The `Event` of crates/service/src/util/wait.rs against the one of crates/runtime/src/event/mod.rs.
use msft.Service.Event.{
  EventReset, manual, automatic, EventInitialState, set_state, unset_state, EventError, abandoned,
  failed, timeout, io, named, anonymous, set, reset, wait,
}
use msft.Runtime
use msft.Runtime.Event.{EventCalls, EventCodes}
use msft.Runtime.Event.Object
use msft.Runtime.Event.Object.{Op, op_set, op_reset, op_wait, Answer, changed, awaited}
use msft.Service.Wchar.{OsString}
use msft.Prelude.{ℕ, ◌≡◌, refl, List, [], ◌∷◌, Option, none, some, Result, map_err, arith}

-- The types of the one crate as those of the other.
abbrev pub runtime_reset : EventReset → Runtime.Event.EventReset
runtime_reset manual = Runtime.Event.manual
runtime_reset automatic = Runtime.Event.automatic

abbrev pub runtime_state : EventInitialState → Runtime.Event.EventInitialState
runtime_state set_state = Runtime.Event.set_state
runtime_state unset_state = Runtime.Event.unset_state

abbrev pub runtime_error : EventError → Runtime.Event.EventError
runtime_error abandoned = Runtime.Event.abandoned
runtime_error failed = Runtime.Event.failed
runtime_error timeout = Runtime.Event.timeout
runtime_error (io e) = Runtime.Event.event_io e

-- An event with a name or without one.
abbrev pub runtime_new :
    {K : Type 0}
    → EventCalls K
    → EventCodes
    → K
    → Option OsString
    → Runtime.Event.EventReset
    → Runtime.Event.EventInitialState
    → K × Result ℕ ℕ
runtime_new calls codes k none r s = Runtime.Event.anonymous calls codes k r s
runtime_new calls codes k (some name) r s = Runtime.Event.named calls codes k name r s

module _ {K : Type 0} (calls : EventCalls K) (codes : EventCodes) where
  abbrev pub service_new : K → Option OsString → EventReset → EventInitialState → K × Result ℕ ℕ
  service_new k none r s = anonymous calls codes k r s
  service_new k (some name) r s = named calls codes k name r s

  abbrev with_changed : K × Result (Unit {0}) ℕ → K × Answer
  with_changed (k, r) = (k, changed r)

  abbrev with_awaited : K × Result (Unit {0}) EventError → K × Answer
  with_awaited (k, r) = (k, awaited (map_err runtime_error r))

  abbrev pub service_step : K → ℕ → Op → K × Answer
  service_step k h op_set = with_changed (set calls codes k h)
  service_step k h op_reset = with_changed (reset calls codes k h)
  service_step k h (op_wait d) = with_awaited (wait calls codes k h d)

  abbrev pub service_run : K → ℕ → List Op → List Answer
  service_run k h [] = []
  service_run k h (p ∷ ps) = (service_step k h p).1 ∷ service_run (service_step k h p).0 h ps

  new-same :
      (k : K) (name : Option OsString) (r : EventReset) (s : EventInitialState)
      → service_new k name r s ≡ runtime_new calls codes k name (runtime_reset r) (runtime_state s)
  unfolding anonymous named Runtime.Event.new_raw
  new-same k none r s = ground arith
  new-same k (some name) r s = ground arith

  step-same : (k : K) (h : ℕ) (p : Op) → service_step k h p ≡ Object.step calls codes k h p
  unfolding set reset wait Runtime.Event.set Runtime.Event.reset Runtime.Event.wait
  step-same k h op_set = refl
  step-same k h op_reset = refl
  step-same k h (op_wait d) = ground arith

  run-same : (k : K) (h : ℕ) (ps : List Op) → service_run k h ps ≡ Object.run calls codes k h ps
  run-same k h [] = refl
  run-same k h (p ∷ ps) = rw (step-same k h p, run-same (Object.step calls codes k h p).0 h ps) refl

  -- The two crates' events are the same code: from the same kernel they make the same event, with the
  -- same handle or error, and any operations on a handle answer the same, a wait's errors included.
  pub events_same :
      (k : K) (name : Option OsString) (r : EventReset) (s : EventInitialState) (h : ℕ)
      (ps : List Op)
      → (service_new k name r s
          ≡ runtime_new calls codes k name (runtime_reset r) (runtime_state s))
        × (service_run (service_new k name r s).0 h ps
            ≡ Object.run calls codes
                (runtime_new calls codes k name (runtime_reset r) (runtime_state s)).0
                h
                ps)
  events_same k name r s h ps = (
    new-same k name r s,
    rw (new-same k name r s)
        (run-same (runtime_new calls codes k name (runtime_reset r) (runtime_state s)).0 h ps),
  )
