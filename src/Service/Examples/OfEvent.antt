-- ===== src/Service/Examples/OfEvent.antt =====
-- A named event (crates/service/src/util/wait.rs), of a kernel that counts its calls.
use msft.Service.Event.Same
use msft.Service.Event.Same.{runtime_new, runtime_reset, runtime_state, service_new, service_run}
use msft.Service.Event.{automatic, set_state}
use msft.Runtime.Event.{EventCalls, EventCodes}
use msft.Runtime.Event.Object.{op_set, op_wait, Op}
use msft.Runtime.Event.Object
use msft.Prelude.{ℕ, ◌≡◌, suc, some, List, [], ◌∷◌}

abbrev calls : EventCalls ℕ
calls = record {
  create_event = λ k m i name. (suc k, 8);
  set_event = λ k h. (suc k, 1);
  reset_event = λ k h. (suc k, 0);
  wait_for_single_object = λ k h millis. (suc k, 258);
  last_os_error = λ k. 6;
}

abbrev codes : EventCodes
codes = record {
  infinite = 4294967295;
  wait_object_0 = 0;
  wait_abandoned = 128;
  wait_failed = 4294967295;
  wait_timeout = 258;
}

abbrev ops : List Op
ops = op_set ∷ op_wait (some 10) ∷ []

events_same_example :
    (service_new calls codes 0 (some (b'a' ∷ [])) automatic set_state
      ≡ runtime_new calls codes 0
          (some (b'a' ∷ []))
          (runtime_reset automatic)
          (runtime_state set_state))
    × (service_run calls codes
          (service_new calls codes 0 (some (b'a' ∷ [])) automatic set_state).0
          8
          ops
        ≡ Object.run calls codes
            (runtime_new calls codes 0
              (some (b'a' ∷ []))
              (runtime_reset automatic)
              (runtime_state set_state)).0
            8
            ops)
events_same_example = Same.events_same calls codes 0 (some (b'a' ∷ [])) automatic set_state 8 ops
