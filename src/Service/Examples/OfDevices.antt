-- ===== src/Service/Examples/OfDevices.antt =====
-- A port that is plugged and unplugged (crates/service/src/device.rs).
use msft.Service.Device.Resolved
use msft.Service.Device.Unplugged.{PolledUnplugged, poll_unplugged, waiting}
use msft.Service.Wait.{WaitCodes, Oneshot, oneshot, poll}
use msft.Service.Wait.Paired
use msft.Service.Guid.{bytes_eq}
use msft.Service.VidPid.{UsbVidPid}
use msft.Service.Device.{Asked, Polled, Sender, plug, unplug, streaming, poll_next, round}
use msft.Service.Device.Tracked
use msft.Service.Wchar.{OsString}
use msft.Prelude.Wakers.{update_waker}
use msft.Prelude.{◌≡◌, ◌≢◌, some, none, ok, ready, pending, List, [], ◌∷◌, refl, arith}

abbrev com4 : OsString
com4 = b'C' ∷ b'O' ∷ b'M' ∷ b'4' ∷ []

abbrev chosen : UsbVidPid
chosen = record { vid = 0x2FE3; pid = 0x0100 }

abbrev plugged_again : List Asked
plugged_again =
    record {
      inner = ready (some (unplug com4));
      scanned = some (ok chosen);
      oneshot = ok 9;
      set = ok tt;
    }
    ∷ record {
      inner = ready (some (plug com4));
      scanned = some (ok chosen);
      oneshot = ok 12;
      set = ok tt;
    }
    ∷ []

-- The values that windows_sys gives these codes; a port whose task waits, and its unplug.
abbrev wait_codes : WaitCodes
wait_codes = record { wait_object_0 = 0; wait_timeout = 258; differ = omega arith }

abbrev waited_for : Oneshot
waited_for = record oneshot { state = record { waker = some 5; result = none } }

waited_for-Reach : Paired.Reach wait_codes (record { pair = waited_for; asleep = some 5 })
unfolding poll update_waker
waited_for-Reach = Paired.later Paired.fresh (Paired.polls 5)

abbrev com5 : OsString
com5 = b'C' ∷ b'O' ∷ b'M' ∷ b'5' ∷ []

abbrev unplugged : OsString → Asked
unplugged p = record {
  inner = ready (some (unplug p));
  scanned = some (ok chosen);
  oneshot = ok 9;
  set = ok tt;
}

-- Another port is unplugged first.
abbrev polled : Polled
polled = record {
  after = streaming (chosen ∷ []) ((com4, 8) ∷ []);
  signalled = [];
  result = pending;
  rest = [];
}

unplug-resolves_example :
    ((r : PolledUnplugged) × (poll_unplugged 5 (waiting waited_for.state) ≡ some r)
      × (r.result ≡ pending))
    × (u : Polled) × (v : Paired.World) × (r : PolledUnplugged) × (poll_next
          (unplugged com4 ∷ [])
          polled.after
        ≡ some u)
    × Tracked.Has (chosen ∷ []) com4 u.after none
    × ((t : Sender) → t ≢ 8 → Resolved.signal u.signalled (λ s. waited_for) t ≡ waited_for)
    × Paired.Step wait_codes
        (record { pair = Resolved.signal u.signalled (λ s. waited_for) 8; asleep = some 5 })
        v
    × (v.asleep ≡ none)
    × (poll_unplugged 5 (waiting v.pair.state) ≡ some r)
    × (r.result ≡ ready (ok tt))
unfolding bytes_eq poll_next round
unplug-resolves_example =
    Resolved.unplug-resolves wait_codes (chosen ∷ []) (chosen ∷ []) ((com4, 8) ∷ [])
      ((com4, 8) ∷ []) com4 8 (λ s. waited_for) (some 5) (unplugged com5 ∷ []) polled
      (unplugged com4) 5 refl waited_for-Reach refl refl refl (refl, tt) refl refl
