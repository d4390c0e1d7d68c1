-- ===== src/Service/VidPid/RoundTrip.antt =====
-- Vendor and product ids are read back from their text, and from the registry value that holds it.
use mathlib.Core.List.{append_assoc}
use msft.Service.VidPid.{UsbVidPid, vid, pid, try_from, matches}
use msft.Service.VidPid.Hex.{IsAscii, from_str_radix-upper_hex, upper_hex-IsAscii, length-upper_hex}
use msft.Service.VidPid.Utf16.{slice, to_str_ascii, append-IsAscii, slice_ascii}
use msft.Service.VidPid.Registry.{from_registry, parse_str}
use msft.Service.Guid.{bytes_eq_iff}
use msft.Service.Hkey.{RegistryCodes, try_into_os_string}
use msft.Service.Wchar.{units, to_wide, HasNoNul, from_wide-to_wide}
use msft.Prelude.{
  ℕ, ◌/◌, ◌%◌, ◌^◌, ◌<◌, ◌≡◌, ◌↔◌, refl, true, List, [], ◌∷◌, ◌++◌, some, ok, length, length-append,
  arith,
}

pub vid-pid_read :
    (u : UsbVidPid) → u.vid < 2 ^ 32 → u.pid < 2 ^ 32 → try_from (vid u) (pid u) ≡ ok u
unfolding try_from vid pid
vid-pid_read u hv hp =
    rw (from_str_radix-upper_hex u.vid hv, from_str_radix-upper_hex u.pid hp) refl

-- Ids of 32 bits are read back from their texts, and match the texts of the same ids and of no others.
pub try_from-matches :
    (u w : UsbVidPid)
    → u.vid < 2 ^ 32
    → u.pid < 2 ^ 32
    → w.vid < 2 ^ 32
    → w.pid < 2 ^ 32
    → (try_from (vid u) (pid u) ≡ ok u) × ((matches u (vid w) (pid w) ≡ true) ↔ (u ≡ w))
unfolding matches
try_from-matches u w uv up wv wp = (
  vid-pid_read u uv up,
  ground (
    arith,
    bytes_eq_iff (vid w) (vid u),
    bytes_eq_iff (pid w) (pid u),
    vid-pid_read u uv up,
    vid-pid_read w wv wp,
  ),
)

-- The units of a text as a pointer to bytes finds them, the low byte first.
abbrev pub le_bytes : List ℕ → List ℕ
le_bytes [] = []
le_bytes (u ∷ us) = (u % 256) ∷ (u / 256) ∷ le_bytes us

units-le_bytes : (s : List ℕ) → units (le_bytes s) ≡ s
unfolding units
units-le_bytes [] = refl
units-le_bytes (u ∷ us) = ground (arith, units-le_bytes us)

ascii-HasNoNul : (s : List ℕ) → IsAscii s → HasNoNul s
ascii-HasNoNul [] h = tt
ascii-HasNoNul (c ∷ s) h = ground (arith, ascii-HasNoNul s)

value-read :
    (codes : RegistryCodes) (s behind : List ℕ)
    → IsAscii s
    → from_registry codes (record { bytes = le_bytes (to_wide s ++ behind); ty = codes.sz })
      ≡ parse_str s (some s)
unfolding from_registry try_into_os_string
value-read codes s behind h = ground (
  arith,
  units-le_bytes (to_wide s ++ behind),
  from_wide-to_wide s behind (ascii-HasNoNul s h),
  to_str_ascii s h,
)

-- The text of a port: twelve bytes, the vendor id, five bytes, the product id, and more.
abbrev pub port_text : (before between after : List ℕ) → UsbVidPid → List ℕ
port_text before between after u = before ++ (vid u ++ (between ++ (pid u ++ after)))

port_text-IsAscii :
    (before between after : List ℕ) (u : UsbVidPid)
    → IsAscii before
    → IsAscii between
    → IsAscii after
    → IsAscii (port_text before between after u)
unfolding vid pid
port_text-IsAscii before between after u hb hm ha =
    let tail = append-IsAscii (pid u) after (upper_hex-IsAscii u.pid) ha in
    append-IsAscii before (vid u ++ (between ++ (pid u ++ after))) hb (
      append-IsAscii (vid u) (between ++ (pid u ++ after)) (upper_hex-IsAscii u.vid)
        (append-IsAscii between (pid u ++ after) hm tail))

port_text-slices :
    (before between after : List ℕ) (u : UsbVidPid)
    → IsAscii (port_text before between after u)
    → length before ≡ 12
    → length between ≡ 5
    → u.vid < 2 ^ 16
    → u.pid < 2 ^ 16
    → (slice 12 16 (port_text before between after u) ≡ some (vid u))
      × (slice 21 25 (port_text before between after u) ≡ some (pid u))
unfolding vid pid
port_text-slices before between after u h eb em hv hp =
    let regroup : port_text before between after u
        ≡ (before ++ (vid u ++ between)) ++ (pid u ++ after) =
      simp append_assoc in
    let lv = length-upper_hex u.vid hv in
    let lp = length-upper_hex u.pid hp in
    let front = length-append before (vid u ++ between) in
    let middle = length-append (vid u) between in
    (
      slice_ascii before (vid u) (between ++ (pid u ++ after)) 12 16 h eb (omega (arith, lv)),
      rw regroup (
          slice_ascii (before ++ (vid u ++ between)) (pid u) after 21 25 (rw regroup at h)
            (omega (arith, front, middle, lv)) (omega (arith, lp))),
    )

-- An ASCII value that is stored as a string, its vendor and product ids of 16 bits in their places, is
-- read as these ids, whatever lies behind its NUL.
pub from_registry-port_text :
    (codes : RegistryCodes) (before between after behind : List ℕ) (u : UsbVidPid)
    → IsAscii before
    → IsAscii between
    → IsAscii after
    → length before ≡ 12
    → length between ≡ 5
    → u.vid < 2 ^ 16
    → u.pid < 2 ^ 16
    → from_registry codes (record {
      bytes = le_bytes (to_wide (port_text before between after u) ++ behind);
      ty = codes.sz;
    })
      ≡ some (ok u)
from_registry-port_text codes before between after behind u hb hm ha eb em hv hp =
    let h = port_text-IsAscii before between after u hb hm ha in
    let (v, p) = port_text-slices before between after u h eb em hv hp in
    rw
      (
        value-read codes (port_text before between after u) behind h,
        v,
        p,
        vid-pid_read u (omega arith) (omega arith),
      )
      refl
