-- ===== src/Service/VidPid/Utf16.antt =====
-- `OsStr::to_str` for crates/service/src/device.rs: UTF-16 as the UTF-8 bytes of a `str`, if it is
-- well-formed; and the slices of a `str`.
use msft.Service.VidPid.Hex.{IsAscii}
use msft.Service.Wchar.{OsString}
use mathlib.Core.Path.{subst}
use msft.Prelude.{
  length-append, drop-append, take-append, ℕ, zero, suc, ◌+◌, ◌-◌, ◌*◌, ◌/◌, ◌%◌, ◌≡◌, refl, Bool,
  true, false, not, ◌&&◌, ◌||◌, List, [], ◌∷◌, ◌++◌, Option, none, some, Faulty, leb, ltb,
  if◌then◌else◌, length, take, drop, arith, ◌≤◌,
}

-- The continuation byte of the lowest six bits.
abbrev tail_byte : ℕ → ℕ
tail_byte n = 128 + n % 64

abbrev pub utf8 : ℕ → List ℕ
utf8 n =
    if ltb n 0x80
    then n ∷ []
    else if ltb n 0x800
    then (0xC0 + n / 64) ∷ tail_byte n ∷ []
    else if ltb n 0x10000
    then (0xE0 + n / 4096) ∷ tail_byte (n / 64) ∷ tail_byte n ∷ []
    else (0xF0 + n / 262144) ∷ tail_byte (n / 4096) ∷ tail_byte (n / 64) ∷ tail_byte n ∷ []

abbrev is_high : ℕ → Bool
is_high u = leb 0xD800 u && ltb u 0xDC00

abbrev is_low : ℕ → Bool
is_low u = leb 0xDC00 u && ltb u 0xE000

abbrev before : List ℕ → Option (List ℕ) → Option (List ℕ)
before bytes none = none
before bytes (some rest) = some (bytes ++ rest)

-- `none`: a surrogate that is not one of a pair.
unfoldable pub to_str : OsString → Option (List ℕ)
to_str [] = some []
to_str (u ∷ []) = if is_high u || is_low u then none else some (utf8 u)
to_str (u ∷ v ∷ us) =
    let pair = before (utf8 (0x10000 + (u - 0xD800) * 1024 + (v - 0xDC00))) (to_str us) in
    let single = before (utf8 u) (to_str (v ∷ us)) in
    if is_high u then (if is_low v then pair else none) else if is_low u then none else single

-- An index at which a slice may begin or end: the end of the text, or a byte that begins a character.
abbrev starts : ℕ → List ℕ → Bool
starts zero [] = true
starts zero (b ∷ s) = not (leb 0x80 b && ltb b 0xC0)
starts (suc i) [] = false
starts (suc i) (b ∷ s) = starts i s

abbrev is_char_boundary : ℕ → List ℕ → Bool
is_char_boundary zero s = true
is_char_boundary (suc i) s = starts (suc i) s

-- `&s[from..to]`; `none` is the panic.
unfoldable pub slice : ℕ → ℕ → List ℕ → Faulty (List ℕ)
slice from to s =
    if leb from to && is_char_boundary from s && is_char_boundary to s
    then some (take (to - from) (drop from s))
    else none

pub to_str_ascii : (s : OsString) → IsAscii s → to_str s ≡ some s
unfolding to_str
to_str_ascii [] h = refl
to_str_ascii (u ∷ []) h = ground arith
to_str_ascii (u ∷ v ∷ us) h = ground (arith, to_str_ascii (v ∷ us))

pub append-IsAscii : (s t : List ℕ) → IsAscii s → IsAscii t → IsAscii (s ++ t)
append-IsAscii [] t h k = k
append-IsAscii (c ∷ s) t h k = ground (arith, append-IsAscii s t)

starts_ascii : (i : ℕ) (s : List ℕ) → IsAscii s → i ≤ length s → starts i s ≡ true
starts_ascii zero [] h le = refl
starts_ascii zero (b ∷ s) h le = ground arith
starts_ascii (suc i) [] h le = ground arith
starts_ascii (suc i) (b ∷ s) h le = starts_ascii i s h.2 (omega arith)

boundary_ascii : (i : ℕ) (s : List ℕ) → IsAscii s → i ≤ length s → is_char_boundary i s ≡ true
boundary_ascii zero s h le = refl
boundary_ascii (suc i) s h le = starts_ascii (suc i) s h le

cut_out :
    (a b c : List ℕ) → take (length a + length b - length a) (drop (length a) (a ++ (b ++ c))) ≡ b
cut_out a b c =
    let n : length a + length b - length a ≡ length b = omega arith in
    rw (drop-append a (b ++ c), n, take-append b c) refl

slice_parts :
    (a b c : List ℕ)
    → IsAscii (a ++ (b ++ c))
    → slice (length a) (length a + length b) (a ++ (b ++ c)) ≡ some b
unfolding slice
slice_parts a b c h =
    let n = length-append a (b ++ c) in
    let m = length-append b c in
    rw (cut_out a b c) (
      ground (
        arith,
        boundary_ascii (length a) (a ++ (b ++ c)) h (omega (arith, n)),
        boundary_ascii (length a + length b) (a ++ (b ++ c)) h (omega (arith, n, m)),
      ))

-- A part of an ASCII text is cut out.
pub slice_ascii :
    (a b c : List ℕ) (from to : ℕ)
    → IsAscii (a ++ (b ++ c))
    → length a ≡ from
    → from + length b ≡ to
    → slice from to (a ++ (b ++ c)) ≡ some b
slice_ascii a b c from to h ea eb =
    subst (λ t. slice from t (a ++ (b ++ c)) ≡ some b) eb
      (subst (λ f. slice f (f + length b) (a ++ (b ++ c)) ≡ some b) ea (slice_parts a b c h))
