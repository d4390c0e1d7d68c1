-- ===== src/Runtime/Usb/Flags.antt =====
-- Reading back what was written to a word of flags, and that nothing else changes.
use Prim.Native.Nat.{min, bit_and}
use msft.Runtime.Usb.{complement, set_flag, set_control, get_flag, get_control}
use native.Mathlib.Nat.{pow-le-pow_right, add-zero}
use msft.Prelude.{
  ◌%◌, ℕ, zero, suc, ◌+◌, ◌-◌, ◌*◌, ◌/◌, ◌^◌, ◌≡◌, ◌≢◌, ◌≤◌, ◌<◌, ◌⊎◌, Bool, true, false, arith,
  ◌==◌, if◌then◌else◌, dec_lt, ap,
}
use msft.Prelude.Bits.{
  bit-shl, bit-one, bit, bit-lt_two, bit-zero, bit_ext, bit-bit_and, bit-bit_or, bit-complement,
  bit-shl_high, bit-shr, bit_of_lt,
}

-- The digits of a number below 4.
bit-control : (i v : ℕ) → v < 4 → bit i v ≡ (if i == 0 then v % 2 else if i == 1 then v / 2 else 0)
bit-control zero v h = ground arith
bit-control (suc zero) v h = ground arith
bit-control (suc (suc i)) v h =
    ground (arith, bit_of_lt (suc (suc i)) 2 v (omega arith) (omega arith))

mask-lt : (k m : ℕ) → m < 4 → k < 31 → m * 2 ^ k < 2 ^ 32
mask-lt k m hm hk =
    let small : 2 ^ k ≤ 2 ^ 30 = pow-le-pow_right (omega arith) {i = k} {j = 30} (omega arith) in
    let bound : m * 2 ^ k ≤ 3 * 2 ^ k = grind arith in omega arith

flag_mask-lt : (k : ℕ) → k < 32 → 1 * 2 ^ k < 2 ^ 32
flag_mask-lt k hk =
    let small : 2 ^ k ≤ 2 ^ 31 = pow-le-pow_right (omega arith) {i = k} {j = 31} (omega arith) in
    omega arith

-- Digit `j` of a word after a flag is set or cleared.
pub bit-set_flag :
    (j k : ℕ) (v : Bool) (x : ℕ)
    → j < 32
    → k < 32
    → bit j (set_flag k v x) ≡ (if j == k then (if v then 1 else 0) else bit j x)
unfolding set_flag
bit-set_flag j k true x hj hk =
    ground (arith, bit-bit_or j x (1 * 2 ^ k), bit-shl j k 1, bit-one (j - k), bit-lt_two j x)
bit-set_flag j k false x hj hk = ground (
  arith,
  bit-bit_and j x (complement (1 * 2 ^ k)),
  bit-complement 32 j (1 * 2 ^ k) hj (flag_mask-lt k hk),
  bit-shl j k 1,
  bit-one (j - k),
  bit-lt_two j x,
)

pub bit-set_control :
    (j k v x : ℕ)
    → j < 32
    → k < 31
    → v < 4
    → bit j (set_control k v x) ≡ (if j == k then v % 2 else if j == k + 1 then v / 2 else bit j x)
unfolding set_control
bit-set_control j k v x hj hk hv = ground (
  arith,
  bit-bit_or j (bit_and x (complement (3 * 2 ^ k))) (v * 2 ^ k),
  bit-bit_and j x (complement (3 * 2 ^ k)),
  bit-complement 32 j (3 * 2 ^ k) hj (mask-lt k 3 (omega arith) hk),
  bit-shl j k 3,
  bit-shl j k v,
  bit-control (j - k) 3 (omega arith),
  bit-control (j - k) v hv,
  bit-lt_two j x,
)

-- The getters, by digits.
flag_digits : (k x j : ℕ) → bit j (bit_and x (1 * 2 ^ k)) ≡ (if j == k then bit k x else 0)
flag_digits k x j =
    ground (arith, bit-bit_and j x (1 * 2 ^ k), bit-shl j k 1, bit-one (j - k), bit-lt_two j x)

pub get_flag-bit : (k x : ℕ) → get_flag k x ≡ (bit k x == 1)
unfolding get_flag
get_flag-bit k x = elim (dec_lt 0 (bit k x)) [
  | yes one ↦ ground (
    arith,
    flag_digits k x k,
    bit-lt_two k x,
    bit-zero k,
    ap (bit k) {x = bit_and x (1 * 2 ^ k)} {y = 0},
  )
  | no zero' ↦
      let gone : bit_and x (1 * 2 ^ k) ≡ 0 =
        bit_ext _ 0 (λ j. ground (arith, flag_digits k x j, bit-zero j)) in
      ground arith
]

control_digit : (i k x : ℕ) → bit i (get_control k x) ≡ min (bit (k + i) x) (bit i 3)
unfolding get_control
control_digit i k x = omega (
  arith,
  bit-shr i k (bit_and x (3 * 2 ^ k)),
  bit-bit_and (k + i) x (3 * 2 ^ k),
  bit-shl_high i k 3,
)

pub get_control-bit : (k x : ℕ) → get_control k x ≡ bit k x + 2 * bit (k + 1) x
get_control-bit k x = bit_ext _ _ digit
  where
    value : ℕ
    value = bit k x + 2 * bit (k + 1) x

    small : value < 4
    small = omega (arith, bit-lt_two k x, bit-lt_two (k + 1) x)

    digit : (i : ℕ) → bit i (get_control k x) ≡ bit i value
    digit zero =
        ground (arith, control_digit 0 k x, bit-lt_two k x, ap (λ (t : ℕ). bit t x) (add-zero k))
    digit (suc zero) = ground (
      arith,
      control_digit 1 k x,
      bit-control 1 value small,
      bit-lt_two k x,
      bit-lt_two (k + 1) x,
    )
    digit (suc (suc i)) = ground (
      arith,
      control_digit (suc (suc i)) k x,
      bit-control (suc (suc i)) 3 (omega arith),
      bit-control (suc (suc i)) value small,
    )

pub get_control-lt : (k x : ℕ) → get_control k x < 4
get_control-lt k x = omega (arith, get_control-bit k x, bit-lt_two k x, bit-lt_two (k + 1) x)

-- A flag reads back as it was set, and setting it changes no other flag.
pub get_flag-set_flag :
    (j k : ℕ) (v : Bool) (x : ℕ)
    → j < 32
    → k < 32
    → get_flag j (set_flag k v x) ≡ (if j == k then v else get_flag j x)
get_flag-set_flag j k v x hj hk =
    ground (arith, get_flag-bit j (set_flag k v x), get_flag-bit j x, bit-set_flag j k v x hj hk)

pub get_control-set_control_same :
    (k v x : ℕ) → k < 31 → v < 4 → get_control k (set_control k v x) ≡ v
get_control-set_control_same k v x hk hv = ground (
  arith,
  get_control-bit k (set_control k v x),
  bit-set_control k k v x (omega arith) hk hv,
  bit-set_control (k + 1) k v x (omega arith) hk hv,
)

pub get_flag-set_control :
    (j k v x : ℕ)
    → k < 31
    → v < 4
    → j < 32
    → j ≢ k
    → j ≢ k + 1
    → get_flag j (set_control k v x) ≡ get_flag j x
get_flag-set_control j k v x hk hv hj n m =
    ground (
      arith,
      get_flag-bit j (set_control k v x),
      get_flag-bit j x,
      bit-set_control j k v x hj hk hv,
    )

-- A two-bit control reads back as it was set; setting it changes no flag outside its two
-- positions.
pub get_control-set_control :
    (k v x j : ℕ)
    → k < 31
    → v < 4
    → j < 32
    → j ≢ k
    → j ≢ k + 1
    → (get_control k (set_control k v x) ≡ v) × (get_flag j (set_control k v x) ≡ get_flag j x)
get_control-set_control k v x j hk hv hj n m =
    (get_control-set_control_same k v x hk hv, get_flag-set_control j k v x hk hv hj n m)

-- Setting a flag outside the two positions of a control leaves the control.
pub get_control-set_flag :
    (k j : ℕ) (v : Bool) (x : ℕ)
    → k < 31
    → j < 32
    → j ≢ k
    → j ≢ k + 1
    → get_control k (set_flag j v x) ≡ get_control k x
get_control-set_flag k j v x hk hj n m = ground (
  arith,
  get_control-bit k (set_flag j v x),
  get_control-bit k x,
  bit-set_flag k j v x (omega arith) hj,
  bit-set_flag (k + 1) j v x (omega arith) hj,
)

-- Two controls that do not overlap do not disturb one another.
pub get_control-set_control_apart :
    (j k v x : ℕ)
    → j < 31
    → k < 31
    → v < 4
    → (j + 1 < k) ⊎ (k + 1 < j)
    → get_control j (set_control k v x) ≡ get_control j x
get_control-set_control_apart j k v x hj hk hv apart = ground (
  arith,
  get_control-bit j (set_control k v x),
  get_control-bit j x,
  bit-set_control j k v x (omega arith) hk hv,
  bit-set_control (j + 1) k v x (omega arith) hk hv,
)
