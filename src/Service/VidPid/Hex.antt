-- ===== src/Service/VidPid/Hex.antt =====
-- Hexadecimal numbers as the standard library writes and reads them for
-- crates/service/src/device.rs: the format `{:0>4X}` of a u32, and `u32::from_str_radix(_, 16)`.
use msft.Prelude.{
  Bool-cases, inl, inr, ap, ◌∙◌, ℕ, zero, suc, ◌+◌, ◌-◌, ◌*◌, ◌/◌, ◌%◌, ◌^◌, ◌<◌, ◌≡◌, ◌≢◌, refl,
  ◌&&◌, List, [], ◌∷◌, Option, none, some, Result, ok, err, ◌==◌, leb, ltb, if◌then◌else◌, length,
  arith, Bool-cases, inl, inr, ◌≤◌,
}

abbrev pub digit : ℕ → ℕ
digit d = if ltb d 10 then b'0' + d else b'A' + (d - 10)

-- The digits in front of `out`, the last one first. Eight rounds are enough for a u32.
unfoldable pub emit : ℕ → ℕ → List ℕ → List ℕ
emit zero n out = out
emit (suc rounds) n out =
    let rest = emit rounds (n / 16) (digit (n % 16) ∷ out) in
    if ltb n 16 then digit n ∷ out else rest

abbrev pub zeros : ℕ → List ℕ → List ℕ
zeros zero s = s
zeros (suc k) s = b'0' ∷ zeros k s

unfoldable pub upper_hex : ℕ → List ℕ
unfolding emit
upper_hex n = let s = emit 8 n [] in zeros (4 - length s) s

pub data ParseIntError : Type 0 where
  empty invalid_digit pos_overflow : ParseIntError

abbrev pub to_digit : ℕ → Option ℕ
to_digit c =
    if leb b'0' c && leb c b'9'
    then some (c - b'0')
    else if leb b'a' c && leb c b'f'
    then some (c - b'a' + 10)
    else if leb b'A' c && leb c b'F'
    then some (c - b'A' + 10)
    else none

-- One digit more, checked: a bad digit is reported before an overflow.
abbrev pub add_digit : ℕ → Option ℕ → Result ℕ ParseIntError
add_digit n none = err invalid_digit
add_digit n (some d) = if ltb (n * 16 + d) (2 ^ 32) then ok (n * 16 + d) else err pos_overflow

unfoldable pub read : List ℕ → ℕ → Result ℕ ParseIntError
read [] n = ok n
read (c ∷ s) n = elim (add_digit n (to_digit c)) [ ok m ↦ read s m | err e ↦ err e ]

-- A plus sign is skipped where something follows it.
unfoldable pub from_str_radix : List ℕ → Result ℕ ParseIntError
unfolding read
from_str_radix [] = err empty
from_str_radix (c ∷ []) = read (c ∷ []) 0
from_str_radix (c ∷ d ∷ s) = if c == b'+' then read (d ∷ s) 0 else read (c ∷ d ∷ s) 0

read-digit :
    (d n : ℕ) (s : List ℕ)
    → d < 16
    → n * 16 + d < 2 ^ 32
    → read (digit d ∷ s) n ≡ read s (n * 16 + d)
unfolding read
read-digit d n s h k = ground arith

-- `16 ^ suc rounds`, by its factors.
abbrev room : ℕ → ℕ
room zero = 16
room (suc rounds) = 16 * room rounds

read-emit :
    (rounds n : ℕ) (out : List ℕ)
    → n < 2 ^ 32
    → n < room rounds
    → read (emit (suc rounds) n out) 0 ≡ read out n
unfolding emit
read-emit zero n out h k = ground (arith, read-digit n 0 out)
read-emit (suc rounds) n out h k = elim (Bool-cases (ltb n 16)) [
  | inl small ↦
      rw small (read-digit n 0 out (ground arith) (ground arith) ∙ ap (read out) (omega arith))
  | inr large ↦ rw large (
      read-emit rounds (n / 16) (digit (n % 16) ∷ out) (omega arith) (omega arith)
      ∙ read-digit (n % 16) (n / 16) out (omega arith) (omega arith)
      ∙ ap (read out) (omega arith))
]

read-zeros : (k : ℕ) (s : List ℕ) → read (zeros k s) 0 ≡ read s 0
unfolding read
read-zeros zero s = refl
read-zeros (suc k) s = read-zeros k s

-- A text that reads as digits only, and is not empty, has no sign to skip.
from_str_radix-read : (s : List ℕ) (n : ℕ) → s ≢ [] → read s 0 ≡ ok n → from_str_radix s ≡ ok n
unfolding from_str_radix read
from_str_radix-read [] n h r = ground arith
from_str_radix-read (c ∷ []) n h r = r
from_str_radix-read (c ∷ d ∷ s) n h r = ground arith

emit-ne-nil : (rounds n : ℕ) (out : List ℕ) → out ≢ [] → emit rounds n out ≢ []
unfolding emit
emit-ne-nil zero n out h = h
emit-ne-nil (suc rounds) n out h =
    ground (arith, emit-ne-nil rounds (n / 16) (digit (n % 16) ∷ out) (ground arith))

zeros-ne-nil : (k : ℕ) (s : List ℕ) → s ≢ [] → zeros k s ≢ []
zeros-ne-nil zero s h = h
zeros-ne-nil (suc k) s h = ground arith

emit_some : (n : ℕ) → emit 8 n [] ≢ []
unfolding emit
emit_some n = ground (arith, emit-ne-nil 7 (n / 16) (digit (n % 16) ∷ []) (ground arith))

-- A u32 is read back from its format.
pub from_str_radix-upper_hex : (n : ℕ) → n < 2 ^ 32 → from_str_radix (upper_hex n) ≡ ok n
unfolding upper_hex read
from_str_radix-upper_hex n h =
    from_str_radix-read (upper_hex n) n
      (zeros-ne-nil (4 - length (emit 8 n [])) (emit 8 n []) (emit_some n))
      (rw (read-zeros (4 - length (emit 8 n [])) (emit 8 n []), read-emit 7 n [] h (omega arith))
        refl)

-- What it writes is ASCII.
abbrev pub IsAscii : List ℕ → Type 0
IsAscii [] = Unit
IsAscii (c ∷ s) = (0 < c) × (c < 128) × IsAscii s

emit-IsAscii : (rounds n : ℕ) (out : List ℕ) → IsAscii out → IsAscii (emit rounds n out)
unfolding emit
emit-IsAscii zero n out h = h
emit-IsAscii (suc rounds) n out h =
    ground (arith, emit-IsAscii rounds (n / 16) (digit (n % 16) ∷ out))

zeros-IsAscii : (k : ℕ) (s : List ℕ) → IsAscii s → IsAscii (zeros k s)
zeros-IsAscii zero s h = h
zeros-IsAscii (suc k) s h = ground (arith, zeros-IsAscii k s)

pub upper_hex-IsAscii : (n : ℕ) → IsAscii (upper_hex n)
unfolding upper_hex
upper_hex-IsAscii n =
    zeros-IsAscii (4 - length (emit 8 n [])) (emit 8 n []) (emit-IsAscii 8 n [] tt)

emit-short :
    (r rounds n : ℕ) (out : List ℕ)
    → r ≤ rounds
    → n < room r
    → length (emit (suc rounds) n out) ≤ suc r + length out
unfolding emit
emit-short zero rounds n out le h = ground arith
emit-short (suc r) zero n out le h = ground arith
emit-short (suc r) (suc rounds) n out le h =
    ground (arith, emit-short r rounds (n / 16) (digit (n % 16) ∷ out))

length-zeros : (k : ℕ) (s : List ℕ) → length (zeros k s) ≡ k + length s
length-zeros zero s = omega arith
length-zeros (suc k) s = omega (arith, length-zeros k s)

-- A number of sixteen bits takes four places.
pub length-upper_hex : (n : ℕ) → n < 2 ^ 16 → length (upper_hex n) ≡ 4
unfolding upper_hex
length-upper_hex n h = omega (
  arith,
  length-zeros (4 - length (emit 8 n [])) (emit 8 n []),
  emit-short 3 7 n [] (omega arith) (omega arith),
)
