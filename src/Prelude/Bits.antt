-- ===== src/Prelude/Bits.antt =====
-- The binary digits of a number, and of `&`, `|`, `!` and `>>`.
use Prim.Native.Nat.{
  ℕ, zero, suc, ◌+◌, ◌-◌, ◌*◌, ◌/◌, ◌%◌, ◌^◌, ◌≤◌, ◌<◌, min, max, bit_and, bit_or, digits,
  bit_and-bitwise, bit_or-bitwise,
}
use mathlib.Core.Path.{◌≡◌, refl, ap, ◌∙◌}
use native.Mathlib.Nat.{div-one, div-div-eq-div-mul, pow-suc, zero-add, mul-one, suc-add}
use native.Mathlib.Omega.{arith}
use msft.Prelude.Tests.{if◌then◌else◌, ltb, ◌==◌}
use native.Mathlib.Decide.{dec_lt}

-- The digit at position `k`, the lowest at 0.
abbrev pub bit : ℕ → ℕ → ℕ
bit zero x = x % 2
bit (suc k) x = bit k (x / 2)

pub bit-lt_two : (k x : ℕ) → bit k x < 2
bit-lt_two zero x = omega arith
bit-lt_two (suc k) x = bit-lt_two k (x / 2)

pub bit-zero : (k : ℕ) → bit k 0 ≡ 0
bit-zero zero = refl
bit-zero (suc k) = bit-zero k

-- Numbers with the same digits are equal.
bit_ext_below : (n x y : ℕ) → x ≤ n → y ≤ n → ((k : ℕ) → bit k x ≡ bit k y) → x ≡ y
bit_ext_below zero x y hx hy same = omega arith
bit_ext_below (suc n) x y hx hy same =
    omega (
      arith,
      same 0,
      bit_ext_below n (x / 2) (y / 2) (omega arith) (omega arith) (λ k. same (suc k)),
    )

pub bit_ext : (x y : ℕ) → ((k : ℕ) → bit k x ≡ bit k y) → x ≡ y
bit_ext x y same = bit_ext_below (x + y) x y (omega arith) (omega arith) same

and_digits-bit :
    (n a b k : ℕ) → a ≤ n → bit k (digits (λ y. zero) min n a b) ≡ min (bit k a) (bit k b)
and_digits-bit zero zero b k h = omega (arith, bit-zero k)
and_digits-bit zero (suc a) b k h = absurd (omega arith)
and_digits-bit (suc n) zero b k h = omega (arith, bit-zero k)
and_digits-bit (suc n) (suc a) b zero h = omega arith
and_digits-bit (suc n) (suc a) b (suc k) h =
    let rest = digits (λ y. zero) min n (suc a / 2) (b / 2) in
    let half : (rest * 2 + min (suc a % 2) (b % 2)) / 2 ≡ rest = omega arith in
    ap (bit k) half ∙ and_digits-bit n (suc a / 2) (b / 2) k (omega arith)

pub bit-bit_and : (k a b : ℕ) → bit k (bit_and a b) ≡ min (bit k a) (bit k b)
bit-bit_and k a b = ap (bit k) (bit_and-bitwise a b) ∙ and_digits-bit a a b k (omega arith)

or_digits-bit : (n a b k : ℕ) → a ≤ n → bit k (digits (λ y. y) max n a b) ≡ max (bit k a) (bit k b)
or_digits-bit zero zero b k h = omega (arith, bit-zero k)
or_digits-bit zero (suc a) b k h = absurd (omega arith)
or_digits-bit (suc n) zero b k h = omega (arith, bit-zero k)
or_digits-bit (suc n) (suc a) b zero h = omega arith
or_digits-bit (suc n) (suc a) b (suc k) h =
    let rest = digits (λ y. y) max n (suc a / 2) (b / 2) in
    let half : (rest * 2 + max (suc a % 2) (b % 2)) / 2 ≡ rest = omega arith in
    ap (bit k) half ∙ or_digits-bit n (suc a / 2) (b / 2) k (omega arith)

pub bit-bit_or : (k a b : ℕ) → bit k (bit_or a b) ≡ max (bit k a) (bit k b)
bit-bit_or k a b = ap (bit k) (bit_or-bitwise a b) ∙ or_digits-bit a a b k (omega arith)

-- `!m` of a word of `n` bits.
pub bit-complement : (n k m : ℕ) → k < n → m < 2 ^ n → bit k (2 ^ n - 1 - m) + bit k m ≡ 1
bit-complement zero k m hk hm = absurd (omega arith)
bit-complement (suc n) zero m hk hm = omega (arith, pow-suc 2 n)
bit-complement (suc n) (suc k) m hk hm =
    let half : (2 ^ suc n - 1 - m) / 2 ≡ 2 ^ n - 1 - m / 2 = omega (arith, pow-suc 2 n) in
    rw half (bit-complement n k (m / 2) (omega arith) (omega (arith, pow-suc 2 n)))

-- `v << k`, below position `k` and from there on.
pub bit-shl_low : (j k v : ℕ) → j < k → bit j (v * 2 ^ k) ≡ 0
bit-shl_low j zero v h = absurd (omega arith)
bit-shl_low zero (suc k) v h = omega (arith, ap (λ (t : ℕ). v * t) (pow-suc 2 k))
bit-shl_low (suc j) (suc k) v h =
    let half : v * 2 ^ suc k / 2 ≡ v * 2 ^ k = omega (arith, ap (λ (t : ℕ). v * t) (pow-suc 2 k)) in
    rw half (bit-shl_low j k v (omega arith))

pub bit-shl_high : (j k v : ℕ) → bit (k + j) (v * 2 ^ k) ≡ bit j v
bit-shl_high j zero v = rw (zero-add, mul-one)
bit-shl_high j (suc k) v =
    let half : v * 2 ^ suc k / 2 ≡ v * 2 ^ k = omega (arith, ap (λ (t : ℕ). v * t) (pow-suc 2 k)) in
    rw suc-add (ap (bit (k + j)) half ∙ bit-shl_high j k v)

pub bit-shr : (j k x : ℕ) → bit j (x / 2 ^ k) ≡ bit (k + j) x
bit-shr j zero x = rw (zero-add, div-one)
bit-shr j (suc k) x =
    let twice : 2 ^ suc k ≡ 2 * 2 ^ k = omega (arith, pow-suc 2 k) in
    rw (suc-add, twice, ← div-div-eq-div-mul x 2 (2 ^ k)) (bit-shr j k (x / 2))

-- A number whose digits from `k` on are 0 is below `2 ^ k`, and digits of such a number are 0.
pub bit_of_lt : (k n x : ℕ) → x < 2 ^ n → n ≤ k → bit k x ≡ 0
bit_of_lt k zero x h le = let none : x ≡ 0 = omega arith in rw none (bit-zero k)
bit_of_lt zero (suc n) x h le = absurd (omega arith)
bit_of_lt (suc k) (suc n) x h le = bit_of_lt k n (x / 2) (omega (arith, pow-suc 2 n)) (omega arith)

-- Digit `j` of `v << k`.
pub bit-shl : (j k v : ℕ) → bit j (v * 2 ^ k) ≡ (if ltb j k then 0 else bit (j - k) v)
bit-shl j k v = elim (dec_lt j k) [
  | yes lt ↦ ground (arith, bit-shl_low j k v lt)
  | no ge ↦
      let e : k + (j - k) ≡ j = omega arith in
      let high : bit j (v * 2 ^ k) ≡ bit (j - k) v = rw e at (bit-shl_high (j - k) k v) in
      ground arith
]

pub bit-one : (i : ℕ) → bit i 1 ≡ (if i == 0 then 1 else 0)
bit-one zero = refl
bit-one (suc i) = ground (arith, bit-zero i)

pub bit-pow : (j k : ℕ) → bit j (2 ^ k) ≡ (if j == k then 1 else 0)
bit-pow j k = ground (arith, bit-shl j k 1, bit-one (j - k))
