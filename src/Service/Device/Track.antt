-- ===== src/Service/Device/Track.antt =====
-- `DeviceStreamExt::track` of crates/service/src/device.rs, and what becomes of a port that is plugged:
-- the registry is scanned, and the stream gives the port with its ids.
use msft.Service.Ports.{contains}
use msft.Service.Scan.{connected_port, port_and_ids, scan_for}
use msft.Service.VidPid.{UsbVidPid, pid, read_ids, vid}
use msft.Service.VidPid.Hex.{ParseIntError}
use msft.Service.Wchar.{OsString}
use msft.Service.Hkey.{Key, RegistryCodes, RegistryData}
use msft.Service.Scan.Lookup.{HoldsValues, ReadAs, last_of, scan_for-last_of}
use msft.Service.VidPid.RoundTrip.{vid-pid_read}
use msft.Prelude.{
  List, Result, [], arith, ready, refl, true, ℕ, ◌++◌, ◌<◌, ◌>>=◌, ◌^◌, ◌∷◌, ◌≡◌, ok, some,
}
use msft.Service.Device.{Asked, Tracking, find, plug, round, streaming, Sender, poll_next}

-- The ids are read, and nothing is tracked yet.
unfoldable pub track : List (List ℕ × List ℕ) → Result Tracking ParseIntError
track ids = do us ← read_ids ids; ok (streaming us [])

-- What a plugged port is asked for: `scan_for` scans the registry, and `wait::oneshot` gives an event
-- object.
abbrev pub plug_asked :
    RegistryCodes → (serialcomm arbiter : Key) → OsString → Result Sender ℕ → Asked
plug_asked codes serialcomm arbiter p o = record {
  inner = ready (some (plug p));
  scanned = scan_for codes serialcomm arbiter p;
  oneshot = o;
  set = ok tt;
}

abbrev pub texts_of : List UsbVidPid → List (List ℕ × List ℕ)
texts_of [] = []
texts_of (u ∷ us) = (vid u, pid u) ∷ texts_of us

-- Ids of 32 bits.
abbrev pub AllWords : List UsbVidPid → Type 0
AllWords [] = Unit
AllWords (u ∷ us) = (u.vid < 2 ^ 32) × (u.pid < 2 ^ 32) × AllWords us

read_ids-texts_of : (us : List UsbVidPid) → AllWords us → read_ids (texts_of us) ≡ ok us
unfolding read_ids
read_ids-texts_of [] h = refl
read_ids-texts_of (u ∷ us) h = rw (vid-pid_read u h.0 h.1, read_ids-texts_of us h.2) refl

track-texts_of : (us : List UsbVidPid) → AllWords us → track (texts_of us) ≡ ok (streaming us [])
unfolding track
track-texts_of us h = rw (read_ids-texts_of us h) refl

find-same :
    (before after : List UsbVidPid) (u : UsbVidPid) → find (before ++ (u ∷ after)) u ≡ some u
find-same [] after u = ground arith
find-same (w ∷ before) after u = ground (arith, find-same before after u)

-- A stream that tracks ids by their texts gives a plugged port, where both registry keys are read, the
-- port is connected, and its last value holds one of the ids: with its name, these ids and its event
-- object, for which the stream keeps the sender.
pub track-plugged :
    (codes : RegistryCodes) (serialcomm arbiter : Key) (vs ws : List (OsString × RegistryData))
    (cs : List OsString) (ds : List (OsString × UsbVidPid)) (before after : List UsbVidPid)
    (u : UsbVidPid) (p : OsString) (s : Sender)
    → HoldsValues serialcomm vs
    → ReadAs (connected_port codes) vs cs
    → HoldsValues arbiter ws
    → ReadAs (port_and_ids codes) ws ds
    → contains cs p ≡ true
    → last_of p ds ≡ some u
    → AllWords (before ++ (u ∷ after))
    → (t : Tracking) × (track (texts_of (before ++ (u ∷ after))) ≡ ok t)
      × (poll_next (plug_asked codes serialcomm arbiter p (ok s) ∷ []) t
          ≡ some (record {
            after = streaming (before ++ (u ∷ after)) ((p, s) ∷ []);
            signalled = [];
            result = ready (some (ok (record { name = p; ids = u; unplugged = s })));
            rest = [];
          }))
unfolding poll_next round
track-plugged codes serialcomm arbiter vs ws cs ds before after u p s hv rv hw rw' c l small =
    let scanned = (scan_for-last_of codes serialcomm arbiter vs ws cs ds p hv rv hw rw').1 in
    (
      streaming (before ++ (u ∷ after)) [],
      track-texts_of (before ++ (u ∷ after)) small,
      rw (scanned, c, l, find-same before after u) refl,
    )
