-- ===== src/Prelude/Wakers.antt =====
-- The waker of a task, and the slot in which every future and stream of both crates keeps it.
use Prim.Native.Nat.{ℕ}
use mathlib.Core.Path.{◌≡◌, refl}
use mathlib.Core.Logic.{◌⊎◌, ◌≢◌, inl, inr}
use mathlib.Core.Bool.{Bool, false, true}
use mathlib.Core.Option.{Option, none, some}
use native.Mathlib.Omega.{arith}
use msft.Prelude.Tests.{◌==◌, if◌then◌else◌}

-- A waker is known by the task that it wakes, and `will_wake` compares tasks.
abbrev pub Waker : Type 0
Waker = ℕ

-- The slot after a poll: the old waker is kept where it will wake the task of the new one.
unfoldable pub update_waker : Option Waker → Waker → Option Waker
update_waker none new_waker = some new_waker
update_waker (some old_waker) new_waker =
    if old_waker == new_waker then some old_waker else some new_waker

pub update_waker-eq-some : (slot : Option Waker) (w : Waker) → update_waker slot w ≡ some w
unfolding update_waker
update_waker-eq-some none w = ground arith
update_waker-eq-some (some v) w = ground arith

-- The executor's view: `asleep` is the task whose last poll was pending and that nothing has woken
-- since. This is the task that still sleeps once the waker in a slot has been woken.
abbrev pub still_asleep : Option Waker → Option Waker → Option Waker
still_asleep none asleep = asleep
still_asleep (some w) none = none
still_asleep (some w) (some t) = if w == t then none else some t

pub still_asleep-none :
    (slot asleep : Option Waker)
    → (asleep ≡ none) ⊎ (asleep ≡ slot)
    → still_asleep slot asleep ≡ none
still_asleep-none slot asleep h = ground arith

-- The same of many tasks: those whose last poll was pending and that nothing has woken since.
abbrev pub Sleepers : Type 0
Sleepers = Waker → Bool

abbrev pub nobody : Sleepers
nobody i = false

-- The sleepers once the waker in a slot has been woken, and once a task has polled.
abbrev pub awoken : Option Waker → Sleepers → Sleepers
awoken none s i = s i
awoken (some w) s i = if i == w then false else s i

abbrev pub with_sleeper : Waker → Bool → Sleepers → Sleepers
with_sleeper cx b s i = if i == cx then b else s i

-- Whether a task sleeps, if there is one.
abbrev pub sleeps : Sleepers → Option Waker → Bool
sleeps s none = false
sleeps s (some i) = s i

pub sleeps-awoken :
    (slot last : Option Waker) (s : Sleepers)
    → (sleeps s last ≡ false) ⊎ (last ≡ slot)
    → sleeps (awoken slot s) last ≡ false
sleeps-awoken none none s h = ground arith
sleeps-awoken none (some i) s h = ground arith
sleeps-awoken (some w) none s h = ground arith
sleeps-awoken (some w) (some i) s h = ground arith

awoken-true : (slot : Option Waker) (s : Sleepers) (i : Waker) → awoken slot s i ≡ true → s i ≡ true
awoken-true none s i h = h
awoken-true (some w) s i h = ground arith

abbrev pub has_result {ℓ} : {A : Type ℓ} → Option A → Bool
has_result none = false
has_result (some a) = true

pub has_result-true {ℓ} : {A : Type ℓ} (r : Option A) → r ≢ none → has_result r ≡ true
has_result-true none h = elim (h refl) [ ]
has_result-true (some a) h = refl

-- A slot that many tasks poll, with the task whose poll was the last to be pending: unless it is awake,
-- the slot has its waker, and it is awake where there is a result.
pub record Attended (slot last : Option Waker) (s : Sleepers) (resolved : Bool) : Type 0 where
  pub registered : (sleeps s last ≡ false) ⊎ (last ≡ slot)
  pub woken : (resolved ≡ false) ⊎ (sleeps s last ≡ false)
  pub has_polled : (i : Waker) → s i ≡ true → last ≢ none

-- A poll is pending.
pub pending-Attended :
    (slot : Option Waker) (cx : Waker) (s : Sleepers)
    → Attended (update_waker slot cx) (some cx) (with_sleeper cx true s) false
pending-Attended slot cx s = record {
  registered = inr (ground (arith, update_waker-eq-some slot cx));
  woken = inl refl;
  has_polled = λ i a e. ground arith;
}

sleeps-awake :
    (i : Waker) (last : Option Waker) (s : Sleepers)
    → sleeps s last ≡ false
    → sleeps (awoken (some i) s) last ≡ false
sleeps-awake i none s h = h
sleeps-awake i (some j) s h = ground arith

module _ {slot last : Option Waker} {s : Sleepers} {resolved : Bool} where
  -- The waker in the slot is woken, and what is left in the slot is anything.
  pub awoken-Attended :
      (slot' : Option Waker) (resolved' : Bool)
      → Attended slot last s resolved
      → Attended slot' last (awoken slot s) resolved'
  awoken-Attended slot' resolved' h = record {
    registered = inl (sleeps-awoken slot last s h.registered);
    woken = inr (sleeps-awoken slot last s h.registered);
    has_polled = λ i a. h.has_polled i (awoken-true slot s i a);
  }

  -- Some task is woken.
  pub awake-Attended :
      (i : Waker) → Attended slot last s resolved → Attended slot last (awoken (some i) s) resolved
  awake-Attended i h = record {
    registered = elim h.registered [ inl e ↦ inl (sleeps-awake i last s e) | inr e ↦ inr e ];
    woken = elim h.woken [ inl e ↦ inl e | inr e ↦ inr (sleeps-awake i last s e) ];
    has_polled = λ j a. h.has_polled j (awoken-true (some i) s j a);
  }

  -- The result is taken.
  pub taken-Attended : Attended slot last s resolved → Attended slot last s false
  taken-Attended h = record {
    registered = h.registered;
    woken = inl refl;
    has_polled = h.has_polled;
  }

  -- A task that sleeps though there is a result polled before another one, which is awake.
  pub Attended-replaced :
      (i : Waker)
      → Attended slot last s resolved
      → resolved ≡ true
      → s i ≡ true
      → (j : Waker) × (last ≡ some j) × (j ≢ i) × (s j ≡ false)
  Attended-replaced i h d a = replaced last refl
    where
      asleep-not : sleeps s last ≡ false
      asleep-not = ground arith

      replaced :
          (l : Option Waker) → last ≡ l → (j : Waker) × (last ≡ some j) × (j ≢ i) × (s j ≡ false)
      replaced none e = elim (h.has_polled i a e) [ ]
      replaced (some j) e = (j, e, ground arith, ground arith)
