-- ===== src/Service/Scan/Unordered.antt =====
-- The map of `scan` and the order of the values of a key (crates/service/src/device.rs).
use msft.Service.Guid.{bytes_eq, bytes_eq_iff}
use msft.Service.Hkey.{Item, Key, RegistryCodes, RegistryData}
use msft.Service.Ports.{contains, get}
use msft.Service.Scan.{connected_port, filter_ports, insert_all, port_and_ids, scan, scan_for}
use msft.Service.Scan.Lookup.{HoldsValues, ReadAs, get-scanned, last_of, scan-pairs}
use msft.Service.VidPid.{UsbVidPid}
use msft.Service.VidPid.Registry.{ScanError, from_registry}
use msft.Service.Wchar.{OsString}
use mathlib.Core.List.{Permᴰ}
use mathlib.Core.List.Permᴰ.{nil, cons, swap, trans}
use mathlib.Core.Quot
use mathlib.Core.Quot.{Quot}
use msft.Prelude.{
  ◌≡◌, Bool, false, ◌||◌, List, [], ◌∷◌, none, some, Faulty, Result, ok, err, arith, refl, and_then,
}

-- The `HashMap` that an association list stands for: what each port is mapped to.
abbrev pub SameMap {ℓ} : {V : Type ℓ} → List (OsString × V) → List (OsString × V) → Type ℓ
SameMap m n = (p : OsString) → get p m ≡ get p n

abbrev pub PortMap : Type 0
PortMap = Quot (SameMap {V = UsbVidPid})

abbrev pub has_port {ℓ} : {V : Type ℓ} → OsString → List (OsString × V) → Bool
has_port p [] = false
has_port p (e ∷ es) = bytes_eq e.0 p || has_port p es

-- No two values have one name.
abbrev pub Distinct {ℓ} : {V : Type ℓ} → List (OsString × V) → Type 0
Distinct [] = Unit
Distinct (e ∷ es) = (has_port e.0 es ≡ false) × Distinct es

module _ {ℓ} {V : Type ℓ} where
  has_port-Perm :
      (p : OsString) {ds es : List (OsString × V)} → Permᴰ ds es → has_port p ds ≡ has_port p es
  has_port-Perm p nil = refl
  has_port-Perm p (cons e d) = ground (arith, has_port-Perm p d)
  has_port-Perm p (swap e f) = ground arith
  has_port-Perm p (trans d e) = ground (arith, has_port-Perm p d, has_port-Perm p e)

  Distinct-Perm : {ds es : List (OsString × V)} → Permᴰ ds es → Distinct ds → Distinct es
  Distinct-Perm nil h = h
  Distinct-Perm (cons {a = a} e d) h = ground (arith, has_port-Perm a.0 d, Distinct-Perm d h.1)
  Distinct-Perm (swap {a = a} {b = b} e f) h =
      ground (arith, bytes_eq_iff a.0 b.0, bytes_eq_iff b.0 a.0)
  Distinct-Perm (trans d e) h = Distinct-Perm e (Distinct-Perm d h)

  last_of-Perm :
      (p : OsString) {ds es : List (OsString × V)}
      → Permᴰ ds es
      → Distinct ds
      → last_of p ds ≡ last_of p es
  last_of-Perm p nil h = refl
  last_of-Perm p (cons e d) h = ground (arith, last_of-Perm p d h.1)
  last_of-Perm p (swap {a = a} {b = b} e f) h =
      ground (arith, bytes_eq_iff a.0 p, bytes_eq_iff b.0 p, bytes_eq_iff b.0 a.0)
  last_of-Perm p (trans d e) h =
      ground (arith, last_of-Perm p d h, last_of-Perm p e (Distinct-Perm d h))

contains-Perm : (p : OsString) {cs ds : List OsString} → Permᴰ cs ds → contains cs p ≡ contains ds p
contains-Perm p nil = refl
contains-Perm p (cons e d) = ground (arith, contains-Perm p d)
contains-Perm p (swap e f) = ground arith
contains-Perm p (trans d e) = ground (arith, contains-Perm p d, contains-Perm p e)

-- What values in another order are read as.
ReadAs-Perm :
    {A : Type 0} (f : Item → Faulty (Result A ScanError)) {vs ws : List (OsString × RegistryData)}
    → Permᴰ vs ws
    → (as' : List A) → ReadAs f vs as'
    → (bs : List A) × ReadAs f ws bs × Permᴰ as' bs
ReadAs-Perm f nil [] h = ([], tt, nil)
ReadAs-Perm f nil (a ∷ as') h = elim h [ ]
ReadAs-Perm f (cons e d) [] h = elim h [ ]
ReadAs-Perm f (cons e d) (a ∷ as') h =
    let (bs, r, p) = ReadAs-Perm f d as' h.1 in (a ∷ bs, (rw (← e) h.0, r), cons refl p)
ReadAs-Perm f (swap e g) [] h = elim h [ ]
ReadAs-Perm f (swap e g) (a ∷ []) h = elim h.1 [ ]
ReadAs-Perm f (swap e g) (a ∷ b ∷ as') h =
    (b ∷ a ∷ as', (rw (← g) h.1.0, (rw (← e) h.0, h.1.1)), swap refl refl)
ReadAs-Perm f (trans d e) as' h =
    let (bs, r, p) = ReadAs-Perm f d as' h in
    let (cs, s, q) = ReadAs-Perm f e bs r in (cs, s, trans p q)

port_and_ids-name :
    (codes : RegistryCodes) (v : OsString × RegistryData) (d : OsString × UsbVidPid)
    → port_and_ids codes (ok v) ≡ some (ok d)
    → d.0 ≡ v.0
port_and_ids-name codes v d h =
    elim (from_registry codes v.1)
        as (λ r. and_then r (λ u. some (ok (v.0, u))) ≡ some (ok d) → d.0 ≡ v.0) [
          | none ↦ λ e. ground arith
          | some (err x) ↦ λ e. ground arith
          | some (ok u) ↦ λ e. ground arith
        ]
      h

has_port-ReadAs :
    (codes : RegistryCodes) (p : OsString) (vs : List (OsString × RegistryData))
    (ds : List (OsString × UsbVidPid))
    → ReadAs (port_and_ids codes) vs ds
    → has_port p ds ≡ has_port p vs
has_port-ReadAs codes p [] [] h = refl
has_port-ReadAs codes p [] (d ∷ ds) h = elim h [ ]
has_port-ReadAs codes p (v ∷ vs) [] h = elim h [ ]
has_port-ReadAs codes p (v ∷ vs) (d ∷ ds) h =
    rw (port_and_ids-name codes v d h.0, has_port-ReadAs codes p vs ds h.1) refl

ReadAs-Distinct :
    (codes : RegistryCodes) (vs : List (OsString × RegistryData)) (ds : List (OsString × UsbVidPid))
    → ReadAs (port_and_ids codes) vs ds
    → Distinct vs
    → Distinct ds
ReadAs-Distinct codes [] [] h d = tt
ReadAs-Distinct codes [] (a ∷ ds) h d = elim h [ ]
ReadAs-Distinct codes (v ∷ vs) [] h d = elim h [ ]
ReadAs-Distinct codes (v ∷ vs) (a ∷ ds) h d = (
  rw (port_and_ids-name codes v a h.0, has_port-ReadAs codes v.0 vs ds h.1) d.0,
  ReadAs-Distinct codes vs ds h.1 d.1,
)

-- The order in which the kernel lists the values of a key does not matter: where both keys hold values that
-- are read, and no two of the second have one name, keys with the same values in any other order give the
-- same map, and the same answer for every port.
pub scan-unordered :
    (codes : RegistryCodes) (serialcomm serialcomm' arbiter arbiter' : Key)
    (vs vs' ws ws' : List (OsString × RegistryData)) (cs : List OsString)
    (ds : List (OsString × UsbVidPid))
    → HoldsValues serialcomm vs
    → HoldsValues serialcomm' vs'
    → Permᴰ vs vs'
    → ReadAs (connected_port codes) vs cs
    → HoldsValues arbiter ws
    → HoldsValues arbiter' ws'
    → Permᴰ ws ws'
    → ReadAs (port_and_ids codes) ws ds
    → Distinct ws
    → ((m m' : List (OsString × UsbVidPid)) × (scan codes serialcomm arbiter ≡ some (ok m))
        × (scan codes serialcomm' arbiter' ≡ some (ok m'))
        × (Path PortMap (Quot.mk m) (Quot.mk m')))
      × ((p : OsString)
          → scan_for codes serialcomm arbiter p ≡ scan_for codes serialcomm' arbiter' p)
unfolding scan_for
scan-unordered codes s s' a a' vs vs' ws ws' cs ds hv hv' pv rv hw hw' pw rw' d =
    let (cs', rv', pc) = ReadAs-Perm (connected_port codes) pv cs rv in
    let (ds', rd', pd) = ReadAs-Perm (port_and_ids codes) pw ds rw' in
    let distinct = ReadAs-Distinct codes ws ds rw' d in
    let m = filter_ports cs (insert_all [] ds) in
    let m' = filter_ports cs' (insert_all [] ds') in
    let e = scan-pairs codes s a vs ws cs ds hv rv hw rw' in
    let e' = scan-pairs codes s' a' vs' ws' cs' ds' hv' rv' hw' rd' in
    let same : SameMap m m' = λ p.
      rw
        (get-scanned cs ds p, get-scanned cs' ds' p, contains-Perm p pc, last_of-Perm p pd distinct)
        refl in
    ((m, m', e, e', Quot.sound same), λ p. rw (e, e', same p) refl)
