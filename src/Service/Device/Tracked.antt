-- ===== src/Service/Device/Tracked.antt =====
-- Which ports `Tracking::poll_next` of crates/service/src/device.rs has a sender for.
use mathlib.Core.Path.{subst}
use msft.Service.Wchar.{OsString}
use msft.Service.Guid.{bytes_eq, bytes_eq_iff}
use msft.Service.Ports.{get, remove, insert, get-remove}
use msft.Service.VidPid.Registry.{ScanError}
use msft.Service.VidPid.{UsbVidPid}
use msft.Service.Device.{
  PlugEvent, plug, unplug, find, Sender, Cache, Asked, Tracking, streaming, complete, Round, round,
  Polled, found, scan, unplugged_port, plugged, on_answer, prepend, poll_next,
}
use msft.Prelude.{
  ℕ, ◌≡◌, List, [], ◌∷◌, ◌++◌, Option, none, some, Result, ok, err, Poll, pending, ready, Faulty,
  ◌⊎◌, Option-cases, inl, inr, arith, refl, ap, if◌then◌else◌,
}

-- The sender of one port, from the events of that port alone: a plug of a chosen device that got an
-- event object sets it, an unplug clears it, and so does the end of the stream.
abbrev pub opened_sender : Option UsbVidPid → Result Sender ℕ → Option Sender → Option Sender
opened_sender (some id) (ok s) before = some s
opened_sender _ _ before = before

abbrev pub plugged_sender :
    List UsbVidPid
    → Faulty (Result UsbVidPid ScanError)
    → Result Sender ℕ
    → Option Sender
    → Option Sender
plugged_sender ids (some (ok id)) o before = opened_sender (find ids id) o before
plugged_sender ids (some (err e)) o before = before
plugged_sender ids none o before = before

abbrev pub event_sender :
    OsString → List UsbVidPid → Asked → PlugEvent → Option Sender → Option Sender
event_sender p ids a (plug q) before =
    if bytes_eq q p then plugged_sender ids a.scanned a.oneshot before else before
event_sender p ids a (unplug q) before = if bytes_eq q p then none else before

abbrev pub sender_after :
    OsString → List UsbVidPid → Asked → Poll (Option PlugEvent) → Option Sender → Option Sender
sender_after p ids a pending before = before
sender_after p ids a (ready none) before = none
sender_after p ids a (ready (some e)) before = event_sender p ids a e before

abbrev pub tracked : OsString → List UsbVidPid → List Asked → Option Sender → Option Sender
tracked p ids [] before = before
tracked p ids (a ∷ answers) before = tracked p ids answers (sender_after p ids a a.inner before)

-- The port's sender in a state, with the ids unchanged; a complete stream has none.
abbrev pub Has : List UsbVidPid → OsString → Tracking → Option Sender → Type 0
Has ids p (streaming ids' cache) sender = (ids' ≡ ids) × (get p cache ≡ sender)
Has ids p complete sender = sender ≡ none

found-Has :
    (ids : List UsbVidPid) (cache : Cache) (p q : OsString) (o : Result Sender ℕ)
    (f : Option UsbVidPid)
    → Has ids p
        (found ids cache q o f).after
        (if bytes_eq q p then opened_sender f o (get p cache) else get p cache)
found-Has ids cache p q o none = ground arith
found-Has ids cache p q (ok s) (some id) = ground (arith, get-remove p q cache)
found-Has ids cache p q (err e) (some id) = ground arith

unplugged-Has :
    (ids : List UsbVidPid) (cache : Cache) (p q : OsString) (r : Result (Unit {0}) ℕ)
    → Has ids p
        (unplugged_port ids cache q r (get q cache)).after
        (if bytes_eq q p then none else get p cache)
unplugged-Has ids cache p q r = elim (Option-cases (get q cache)) [
  | inl e ↦ ground (arith, e, bytes_eq_iff q p)
  | inr (s, e) ↦ rw e (refl, get-remove p q cache)
]

abbrev Goes : List UsbVidPid → Round → Type 0
Goes ids r = (c : Cache) × (r.after ≡ streaming ids c)

found-Goes :
    (ids : List UsbVidPid) (cache : Cache) (q : OsString) (o : Result Sender ℕ)
    (f : Option UsbVidPid)
    → Goes ids (found ids cache q o f)
found-Goes ids cache q o none = (cache, refl)
found-Goes ids cache q (ok s) (some id) = (insert q s cache, refl)
found-Goes ids cache q (err e) (some id) = (cache, refl)

unplugged-Goes :
    (ids : List UsbVidPid) (cache : Cache) (q : OsString) (r : Result (Unit {0}) ℕ)
    (s : Option Sender)
    → Goes ids (unplugged_port ids cache q r s)
unplugged-Goes ids cache q r none = (cache, refl)
unplugged-Goes ids cache q r (some s) = (remove q cache, refl)

-- A round panics where the scan for a plugged port does; and else it leaves the port's sender as its own
-- event gives it, and goes on only with the ids that it had.
abbrev Panics : Asked → Poll (Option PlugEvent) → Type 0
Panics a i = (q : OsString) × (i ≡ ready (some (plug q))) × (a.scanned ≡ none)

abbrev Runs : List UsbVidPid → OsString → Faulty Round → Option Sender → Type 0
Runs ids p f sender =
    (r : Round) × (f ≡ some r) × Has ids p r.after sender × (r.result ≡ none → Goes ids r)

plugged-Runs :
    (ids : List UsbVidPid) (cache : Cache) (p q : OsString) (o : Result Sender ℕ)
    (r : Result UsbVidPid ScanError)
    → Runs ids p
        (plugged ids cache q o (some r))
        (if bytes_eq q p then plugged_sender ids (some r) o (get p cache) else get p cache)
plugged-Runs ids cache p q o (ok id) = (
  found ids cache q o (find ids id),
  refl,
  found-Has ids cache p q o (find ids id),
  λ h. found-Goes ids cache q o (find ids id),
)
plugged-Runs ids cache p q o (err e) = (
  record {
    after = streaming ids cache;
    signalled = [];
    result = some (ready (some (err (scan e))));
  },
  refl,
  ground arith,
  λ h. (cache, refl),
)

answer-cases :
    (ids : List UsbVidPid) (cache : Cache) (p : OsString) (a : Asked) (i : Poll (Option PlugEvent))
    → (on_answer ids cache a i ≡ none) × Panics a i
      ⊎ Runs ids p (on_answer ids cache a i) (sender_after p ids a i (get p cache))
answer-cases ids cache p a pending = inr (
  record { after = streaming ids cache; signalled = []; result = some pending },
  refl,
  (refl, refl),
  λ h. (cache, refl),
)
answer-cases ids cache p a (ready none) =
    inr
      (record { after = complete; signalled = []; result = some (ready none) }, refl, refl, λ h. cc)
answer-cases ids cache p a (ready (some (plug q))) = elim (Option-cases a.scanned) [
  | inl e ↦ inl (rw e refl, (q, refl, e))
  | inr (r, e) ↦ inr (rw e (plugged-Runs ids cache p q a.oneshot r))
]
answer-cases ids cache p a (ready (some (unplug q))) = inr (
  unplugged_port ids cache q a.set (get q cache),
  refl,
  unplugged-Has ids cache p q a.set,
  λ h. unplugged-Goes ids cache q a.set (get q cache),
)

round-cases :
    (ids : List UsbVidPid) (cache : Cache) (p : OsString) (a : Asked)
    → (round ids cache a ≡ none) × Panics a a.inner
      ⊎ Runs ids p (round ids cache a) (sender_after p ids a a.inner (get p cache))
unfolding round
round-cases ids cache p a = answer-cases ids cache p a a.inner

-- What a poll comes to: a panic, in the scan for the first plugged port whose scan panics; or a state in
-- which the port has the sender that its own events in the answers used give.
abbrev pub Panicked : List Asked → Tracking → Type 0
Panicked answers t =
    (used : List Asked) × (a : Asked) × (rest : List Asked) × (answers ≡ used ++ (a ∷ rest))
    × Panics a a.inner
    × (poll_next answers t ≡ none)

abbrev pub Polls : List UsbVidPid → OsString → List Asked → Tracking → Option Sender → Type 0
Polls ids p answers t sender =
    (q : Polled) × (used : List Asked) × (poll_next answers t ≡ some q)
    × (answers ≡ used ++ q.rest)
    × Has ids p q.after (tracked p ids used sender)

then-cases :
    (ids : List UsbVidPid) (cache c : Cache) (p : OsString) (a : Asked) (answers : List Asked)
    (r : Round)
    → round ids cache a ≡ some r
    → r.result ≡ none
    → r.after ≡ streaming ids c
    → get p c ≡ sender_after p ids a a.inner (get p cache)
    → Panicked answers (streaming ids c) ⊎ Polls ids p answers (streaming ids c) (get p c)
    → Panicked (a ∷ answers) (streaming ids cache)
      ⊎ Polls ids p (a ∷ answers) (streaming ids cache) (get p cache)
unfolding poll_next
then-cases ids cache c p a answers r e n f g (inl (used, b, rest, s, panics, h)) =
    inl (a ∷ used, b, rest, ap (λ t. a ∷ t) s, panics, rw (e, n, f, h) refl)
then-cases ids cache c p a answers r e n f g (inr (q, used, h, s, k)) =
    inr (prepend r.signalled q, a ∷ used, rw (e, n, f, h) refl, ap (λ t. a ∷ t) s, rw (← g) k)

pub poll_next-tracked :
    (answers : List Asked) (ids : List UsbVidPid) (cache : Cache) (p : OsString)
    → Panicked answers (streaming ids cache)
      ⊎ Polls ids p answers (streaming ids cache) (get p cache)
unfolding poll_next
poll_next-tracked [] ids cache p = inr (
  record { after = streaming ids cache; signalled = []; result = pending; rest = [] },
  [],
  refl,
  refl,
  (refl, refl),
)
poll_next-tracked (a ∷ answers) ids cache p = elim (round-cases ids cache p a) [
  | inl (e, panics) ↦ inl ([], a, answers, refl, panics, rw e refl)
  | inr (r, e, has, goes) ↦ elim (Option-cases r.result) [
    | inr (o, n) ↦ inr (
      record { after = r.after; signalled = r.signalled; result = o; rest = answers },
      a ∷ [],
      rw (e, n) refl,
      refl,
      has,
    )
    | inl n ↦
        let (c, f) = goes n in
        let m = subst (λ t. Has ids p t (sender_after p ids a a.inner (get p cache))) f has in
        then-cases ids cache c p a answers r e n f m.1 (poll_next-tracked answers ids c p)
  ]
]
