-- ===== src/Runtime/Event/Object.antt =====
-- What the calls of crates/runtime/src/event/mod.rs do to an event object, as one that is set or not, and
-- resets itself or not.

use msft.Runtime.Event.{
  EventCalls, EventError, EventInitialState, EventReset, anonymous, new_raw, reset_code, state_code,
  timeout, wait, EventCodes, set, reset, automatic, manual, owned, set_state, unset_state,
}
use msft.Prelude.{
  Bool, List, Option, Result, [], arith, err, false, if◌then◌else◌, none, not, ok, refl, some, true,
  ℕ, ◌&&◌, ◌==◌, ◌∷◌, ◌≡◌, ◌≢◌, ◌⊎◌, inl, ◌%◌, ◌^◌,
}

pub record Object : Type 0 where
  pub is_manual : Bool
  pub signaled : Bool

-- What Win32 documents of event objects, where nobody else uses them: `object_of` finds the object of a
-- handle. A wait without an end is asked for only where the object is set.
pub record EventLaws {K : Type 0} (calls : EventCalls K) (codes : EventCodes) : Type 0 where
  pub object_of : K → ℕ → Option Object
  pub creates :
      (k : K) (m i : ℕ)
      → (calls.create_event k m i none).1 ≢ 0
      → object_of (calls.create_event k m i none).0 (calls.create_event k m i none).1
        ≡ some (record { is_manual = not (m == 0); signaled = not (i == 0) })
  pub sets :
      (k : K) (h : ℕ) (o : Object)
      → object_of k h ≡ some o
      → ((calls.set_event k h).1 ≢ 0)
        × (object_of (calls.set_event k h).0 h ≡ some (record o { signaled = true }))
  pub resets :
      (k : K) (h : ℕ) (o : Object)
      → object_of k h ≡ some o
      → ((calls.reset_event k h).1 ≢ 0)
        × (object_of (calls.reset_event k h).0 h ≡ some (record o { signaled = false }))
  pub waits :
      (k : K) (h millis : ℕ) (o : Object)
      → object_of k h ≡ some o
      → (o.signaled ≡ true) ⊎ (millis ≢ codes.infinite)
      → ((calls.wait_for_single_object k h millis).1
          ≡ (if o.signaled then codes.wait_object_0 else codes.wait_timeout))
        × (object_of (calls.wait_for_single_object k h millis).0 h
            ≡ some (record o { signaled = o.signaled && o.is_manual }))
  pub timeout_differs :
      (codes.wait_timeout ≢ codes.wait_object_0)
      × (codes.wait_timeout ≢ codes.wait_abandoned)
      × (codes.wait_timeout ≢ codes.wait_failed)

-- The object that is asked for.
abbrev pub new_object : EventReset → EventInitialState → Object
new_object manual set_state = record { is_manual = true; signaled = true }
new_object manual unset_state = record { is_manual = true; signaled = false }
new_object automatic set_state = record { is_manual = false; signaled = true }
new_object automatic unset_state = record { is_manual = false; signaled = false }

new_object-codes :
    (r : EventReset) (s : EventInitialState)
    → new_object r s
      ≡ (record { is_manual = not (reset_code r == 0); signaled = not (state_code s == 0) })
new_object-codes r s = ground arith

pub data Op : Type 0 where
  op_set : Op
  op_reset : Op
  op_wait : Option ℕ → Op

pub data Answer : Type 0 where
  changed : Result (Unit {0}) ℕ → Answer
  awaited : Result (Unit {0}) EventError → Answer

-- What the operations answer on an object.
abbrev pub object_step : Object → Op → Object × Answer
object_step o op_set = (record o { signaled = true }, changed (ok tt))
object_step o op_reset = (record o { signaled = false }, changed (ok tt))
object_step o (op_wait d) = (
  record o { signaled = o.signaled && o.is_manual },
  awaited (if o.signaled then ok tt else err timeout),
)

abbrev pub object_run : Object → List Op → List Answer
object_run o [] = []
object_run o (p ∷ ps) = (object_step o p).1 ∷ object_run (object_step o p).0 ps

module _ {K : Type 0} (calls : EventCalls K) (codes : EventCodes) where
  abbrev with_changed : K × Result (Unit {0}) ℕ → K × Answer
  with_changed (k, r) = (k, changed r)

  abbrev with_awaited : K × Result (Unit {0}) EventError → K × Answer
  with_awaited (k, r) = (k, awaited r)

  -- What they answer in the program.
  abbrev pub step : K → ℕ → Op → K × Answer
  step k h op_set = with_changed (set calls codes k h)
  step k h op_reset = with_changed (reset calls codes k h)
  step k h (op_wait d) = with_awaited (wait calls codes k h d)

  abbrev pub run : K → ℕ → List Op → List Answer
  run k h [] = []
  run k h (p ∷ ps) = (step k h p).1 ∷ run (step k h p).0 h ps

  -- No wait is without an end: the object is set, or there is a duration, and its milliseconds, cut to 32
  -- bits, are not the number of a wait without an end.
  abbrev pub Ends : Object → Op → Type 0
  Ends o op_set = Unit
  Ends o op_reset = Unit
  Ends o (op_wait none) = o.signaled ≡ true
  Ends o (op_wait (some d)) = (o.signaled ≡ true) ⊎ (d % 2 ^ 32 ≢ codes.infinite)

  abbrev pub AllEnd : Object → List Op → Type 0
  AllEnd o [] = Unit
  AllEnd o (p ∷ ps) = Ends o p × AllEnd (object_step o p).0 ps

  step-object :
      (laws : EventLaws calls codes) (k : K) (h : ℕ) (o : Object) (p : Op)
      → laws.object_of k h ≡ some o
      → Ends o p
      → ((step k h p).1 ≡ (object_step o p).1)
        × (laws.object_of (step k h p).0 h ≡ some (object_step o p).0)
  unfolding set reset wait
  step-object laws k h o op_set e r = let (b, l) = laws.sets k h o e in (ground (arith, b), l)
  step-object laws k h o op_reset e r = let (b, l) = laws.resets k h o e in (ground (arith, b), l)
  step-object laws k h o (op_wait none) e r =
      let (c, l) = laws.waits k h codes.infinite o e (inl r) in
      (ground (arith, c, laws.timeout_differs), l)
  step-object laws k h o (op_wait (some d)) e r =
      let (c, l) = laws.waits k h (d % 2 ^ 32) o e r in (ground (arith, c, laws.timeout_differs), l)

  run-object :
      (laws : EventLaws calls codes) (k : K) (h : ℕ) (o : Object) (ps : List Op)
      → laws.object_of k h ≡ some o
      → AllEnd o ps
      → run k h ps ≡ object_run o ps
  run-object laws k h o [] e r = refl
  run-object laws k h o (p ∷ ps) e r =
      let (a, n) = step-object laws k h o p e r.0 in
      rw (a, run-object laws (step k h p).0 h (object_step o p).0 ps n r.1) refl

  owned-ok : (k : K) (x h : ℕ) → (owned calls codes (k, x)).1 ≡ ok h → (x ≡ h) × (x ≢ 0)
  owned-ok k x h e = ground arith

  -- An event without a name, once it is created, answers setting, resetting and waiting, in any order,
  -- as an object does: it is set at first as it was asked for; a wait succeeds while it is set, and
  -- times out otherwise; and a wait that succeeds resets it, unless it is reset by hand. No wait is to
  -- be without an end.
  pub anonymous-object_run :
      (laws : EventLaws calls codes) (k : K) (r : EventReset) (s : EventInitialState) (h : ℕ)
      (ps : List Op)
      → (anonymous calls codes k r s).1 ≡ ok h
      → AllEnd (new_object r s) ps
      → run (anonymous calls codes k r s).0 h ps ≡ object_run (new_object r s) ps
  unfolding new_raw
  anonymous-object_run laws k r s h ps created ends =
      let c = calls.create_event k (reset_code r) (state_code s) none in
      let (same, some_handle) = owned-ok c.0 c.1 h created in
      let o : laws.object_of c.0 c.1 ≡ some (new_object r s) =
        rw (new_object-codes r s) (laws.creates k (reset_code r) (state_code s) some_handle) in
      run-object laws c.0 h (new_object r s) ps (rw (← same) o) ends
