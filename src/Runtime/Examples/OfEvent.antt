-- ===== src/Runtime/Examples/OfEvent.antt =====
-- A concrete event (crates/runtime/src/event/mod.rs), of a kernel that has one object at a time.
use msft.Runtime.Event.Object.{EventLaws, Object, Op, awaited, changed, op_reset, op_set, op_wait}
use msft.Runtime.Event.{EventCalls, EventCodes, anonymous, automatic, timeout, unset_state}
use msft.Prelude.{
  Bool, List, Option, [], arith, err, false, if◌then◌else◌, none, not, ok, refl, some, true, ℕ,
  ◌&&◌, ◌==◌, ◌∷◌, ◌≡◌,
}
use msft.Runtime.Event.Handles
use msft.Runtime.Event.Handles.{Via, by_raw, by_borrow, by_owner, by_borrowed_raw, run_handles}
use msft.Runtime.Event.{new_raw}

-- The kernel's one object has the handle 1.
abbrev answer_of : EventCodes → Option Object → ℕ
answer_of codes none = codes.wait_failed
answer_of codes (some o) = if o.signaled then codes.wait_object_0 else codes.wait_timeout

abbrev signaled_as : Bool → Option Object → Option Object
signaled_as b none = none
signaled_as b (some o) = some (record o { signaled = b })

abbrev awaited_by : Option Object → Option Object
awaited_by none = none
awaited_by (some o) = some (record o { signaled = o.signaled && o.is_manual })

abbrev codes : EventCodes
codes = record {
  infinite = 4294967295;
  wait_object_0 = 0;
  wait_abandoned = 128;
  wait_failed = 4294967295;
  wait_timeout = 258;
}

abbrev calls : EventCalls (Option Object)
calls = record {
  create_event =
      λ k m i name. (some (record { is_manual = not (m == 0); signaled = not (i == 0) }), 1);
  set_event = λ k h. (signaled_as true k, 1);
  reset_event = λ k h. (signaled_as false k, 1);
  wait_for_single_object = λ k h millis. (awaited_by k, answer_of codes k);
  last_os_error = λ k. 6;
}

abbrev one_object_of : Option Object → ℕ → Option Object
one_object_of k h = if h == 1 then k else none

one_object_of-handle :
    (k : Option Object) (h : ℕ) (o : Object) → one_object_of k h ≡ some o → (h ≡ 1) × (k ≡ some o)
one_object_of-handle k h o e = ground arith

laws : EventLaws calls codes
laws = record {
  object_of = one_object_of;
  creates = λ k m i nonzero. refl;
  sets = λ k h o e.
      let (same, at_k) = one_object_of-handle k h o e in (ground arith, rw (same, at_k) refl);
  resets = λ k h o e.
      let (same, at_k) = one_object_of-handle k h o e in (ground arith, rw (same, at_k) refl);
  waits = λ k h millis o e ends.
      let (same, at_k) = one_object_of-handle k h o e in rw (same, at_k) (refl, refl);
  timeout_differs = (omega arith, omega arith, omega arith);
}

-- Set, awaited, awaited for a moment, and reset, each through another handle.
abbrev by_handles : List (Via × Op)
by_handles =
    (by_raw, op_set)
    ∷ (by_borrow, op_wait none)
    ∷ (by_owner, op_wait (some 10))
    ∷ (by_borrowed_raw, op_reset)
    ∷ []

handles-object_run_example :
    run_handles calls codes (anonymous calls codes none automatic unset_state).0 1 by_handles
    ≡ changed (ok tt) ∷ awaited (ok tt) ∷ awaited (err timeout) ∷ changed (ok tt) ∷ []
unfolding new_raw
handles-object_run_example =
    Handles.handles-object_run calls codes laws none automatic unset_state 1 by_handles refl
      (ground arith)
