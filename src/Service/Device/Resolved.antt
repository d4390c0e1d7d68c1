-- ===== src/Service/Device/Resolved.antt =====
-- An unplugged port of crates/service/src/device.rs, from the events of the inner stream to the future that
-- its task awaits, by way of the one-shot pair of crates/service/src/util/wait.rs.
use mathlib.Core.Path.{subst}
use msft.Service.Device.{
  Asked, Cache, Polled, PlugEvent, plug, unplug, Sender, poll_next, round, streaming,
}
use msft.Service.Device.Tracked.{Has, poll_next-tracked, sender_after, tracked}
use msft.Service.Device.Unplugged.{PolledUnplugged, poll_unplugged, ready_or_waiting, waiting}
use msft.Service.Guid.{bytes_eq, bytes_eq_iff}
use msft.Service.Ports.{get, get-remove, remove}
use msft.Service.VidPid.{UsbVidPid}
use msft.Service.Wait.{Oneshot, WaitCodes, held, poll, set}
use msft.Service.Wait.Paired.{World, Reach, Step, set_fires}
use msft.Service.Wchar.{OsString}
use msft.Prelude.Wakers.{Waker}
use msft.Prelude.{
  ◌==◌, ◌≡◌, ◌≢◌, inl, inr, if◌then◌else◌, false, List, [], ◌∷◌, ◌++◌, Option, none, some, ok, Poll,
  pending, ready, refl, arith, ◌∙◌, ap,
}

-- The pairs of the senders, and what `Sender::set` makes of those that a poll signals, where the kernel sets
-- their events.
abbrev pub Pairs : Type 0
Pairs = Sender → Oneshot

abbrev pub signal : List Sender → Pairs → Pairs
signal [] m = m
signal (s ∷ ss) m = signal ss (λ t. if t == s then set (m t) else m t)

-- Answers in which the inner stream has no event of a port, and does not end.
abbrev pub Elsewhere : OsString → Poll (Option PlugEvent) → Type 0
Elsewhere p pending = Unit
Elsewhere p (ready none) = ⊥
Elsewhere p (ready (some (plug q))) = bytes_eq q p ≡ false
Elsewhere p (ready (some (unplug q))) = bytes_eq q p ≡ false

abbrev pub AllElsewhere : OsString → List Asked → Type 0
AllElsewhere p [] = Unit
AllElsewhere p (a ∷ answers) = Elsewhere p a.inner × AllElsewhere p answers

Elsewhere-prefix :
    (p : OsString) (used rest : List Asked) → AllElsewhere p (used ++ rest) → AllElsewhere p used
Elsewhere-prefix p [] rest h = tt
Elsewhere-prefix p (a ∷ used) rest h = (h.0, Elsewhere-prefix p used rest h.1)

sender_after-Elsewhere :
    (p : OsString) (ids : List UsbVidPid) (a : Asked) (i : Poll (Option PlugEvent))
    (before : Option Sender)
    → Elsewhere p i
    → sender_after p ids a i before ≡ before
sender_after-Elsewhere p ids a pending before h = refl
sender_after-Elsewhere p ids a (ready none) before h = elim h [ ]
sender_after-Elsewhere p ids a (ready (some (plug q))) before h = rw h refl
sender_after-Elsewhere p ids a (ready (some (unplug q))) before h = rw h refl

tracked-Elsewhere :
    (p : OsString) (ids : List UsbVidPid) (used : List Asked) (before : Option Sender)
    → AllElsewhere p used
    → tracked p ids used before ≡ before
tracked-Elsewhere p ids [] before h = refl
tracked-Elsewhere p ids (a ∷ used) before h =
    rw (sender_after-Elsewhere p ids a a.inner before h.0) (tracked-Elsewhere p ids used before h.1)

-- A poll without an event of the port leaves its sender.
still_tracked :
    (answers : List Asked) (ids ids' : List UsbVidPid) (cache cache' : Cache) (p : OsString)
    (q : Polled)
    → poll_next answers (streaming ids cache) ≡ some q
    → q.after ≡ streaming ids' cache'
    → AllElsewhere p answers
    → get p cache' ≡ get p cache
still_tracked answers ids ids' cache cache' p q e f h =
    elim (poll_next-tracked answers ids cache p) [
      | inl (used, a, rest, s, panics, n) ↦ cc
      | inr (q', used, g, s, k) ↦
          let same : q' ≡ q = ground arith in
          let k' : Has ids p (streaming ids' cache') (tracked p ids used (get p cache)) =
            subst (λ t. Has ids p t (tracked p ids used (get p cache)))
              (ap (λ (x : Polled). x.after) same ∙ f) k in
          k'.1
          ∙ tracked-Elsewhere p ids used (get p cache) (Elsewhere-prefix p used q'.rest (rw s at h))
    ]

-- The future of a tracked port is ready once the port is unplugged. Let a port be tracked with a sender, of a
-- pair in any state that it reaches with the sender unused. Then the port's future is pending. However the
-- stream is polled, as long as the inner stream goes on and has no event of the port, the sender stays. And
-- where the port is then unplugged, and the kernel sets the event, that poll uses the sender, and no other
-- pair's, and forgets the port; the kernel can now call back for the pair; and its callback leaves no task
-- asleep on it, and the next poll of the port's future is ready with success.
pub unplug-resolves :
    (codes : WaitCodes) (ids ids' : List UsbVidPid) (cache cache' : Cache) (p : OsString)
    (s : Sender) (pairs : Pairs) (asleep : Option Waker) (answers : List Asked) (q : Polled)
    (a : Asked) (cx : Waker)
    → get p cache ≡ some s
    → Reach codes (record { pair = pairs s; asleep = asleep })
    → (pairs s).sender ≡ held
    → poll_next answers (streaming ids cache) ≡ some q
    → q.after ≡ streaming ids' cache'
    → AllElsewhere p answers
    → a.inner ≡ ready (some (unplug p))
    → a.set ≡ ok tt
    → ((r : PolledUnplugged) × (poll_unplugged cx (waiting (pairs s).state) ≡ some r)
        × (r.result ≡ pending))
      × (u : Polled) × (v : World) × (r : PolledUnplugged) × (poll_next (a ∷ []) q.after ≡ some u)
      × Has ids' p u.after none
      × ((t : Sender) → t ≢ s → signal u.signalled pairs t ≡ pairs t)
      × Step codes (record { pair = signal u.signalled pairs s; asleep = asleep }) v
      × (v.asleep ≡ none)
      × (poll_unplugged cx (waiting v.pair.state) ≡ some r)
      × (r.result ≡ ready (ok tt))
unfolding poll_next round poll_unplugged
unplug-resolves codes ids ids' cache cache' p s pairs asleep answers q a cx g reach unused e f h k
      o =
    let g' : get p cache' ≡ some s = still_tracked answers ids ids' cache cache' p q e f h ∙ g in
    let (before, v, step, awake, after) = set_fires codes cx reach unused in
    let signalled : signal (s ∷ []) pairs s ≡ set (pairs s) = ground arith in
    (
      (
        ready_or_waiting (poll cx (pairs s).state) (poll cx (pairs s).state).result,
        refl,
        rw before refl,
      ),
      record {
        after = streaming ids' (remove p cache');
        signalled = s ∷ [];
        result = pending;
        rest = [];
      },
      v,
      ready_or_waiting (poll cx v.pair.state) (poll cx v.pair.state).result,
      rw (f, k, g', o) refl,
      (refl, ground (arith, get-remove p p cache', bytes_eq_iff p p)),
      λ t n. ground arith,
      rw signalled step,
      awake,
      refl,
      rw after refl,
    )
