-- ===== src/Prelude/Bits.antt =====
-- Masks and fields as arithmetic: `&` with the low bits, `&` with the bits above, `|` of a multiple and
-- what is below it.
mod Digit
pub use Digit.{or_low_digit, and_low_digit}
use native.Mathlib.Omega.{arith}
use native.Mathlib.Nat.{one-le-pow, pow-suc}
use mathlib.Core.Path.{◌≡◌, refl, ap}
use Prim.Native.Nat.{ℕ, zero, suc, ◌+◌, ◌-◌, ◌*◌, ◌/◌, ◌%◌, ◌^◌, ◌<◌, bit_and, bit_or}

-- By halving, below a bound.
and_0-below : (bound x : ℕ) → x < bound → bit_and x 0 ≡ 0
and_0-below zero x h = absurd (omega arith)
and_0-below (suc bound) zero h = refl
and_0-below (suc bound) (suc x) h =
    omega (arith, and_low_digit (suc x) 0, and_0-below bound (suc x / 2) (omega arith))

or_0-below : (bound x : ℕ) → x < bound → bit_or x 0 ≡ x
or_0-below zero x h = absurd (omega arith)
or_0-below (suc bound) zero h = refl
or_0-below (suc bound) (suc x) h =
    omega (arith, or_low_digit (suc x) 0, or_0-below bound (suc x / 2) (omega arith))

and_0 : (x : ℕ) → bit_and x 0 ≡ 0
and_0 x = and_0-below (suc x) x (omega arith)

-- One more bit of width doubles a field's weight.
pub wider : (upper width : ℕ) → upper * 2 ^ suc width ≡ 2 * (upper * 2 ^ width)
wider upper width = omega (arith, ap (λ (w : ℕ). upper * w) (pow-suc 2 width))

and_upper :
    (width upper mask lower : ℕ)
    → lower < 2 ^ width
    → bit_and (upper * 2 ^ width + lower) (mask * 2 ^ width) ≡ bit_and upper mask * 2 ^ width
and_upper zero upper mask lower below =
    let none_left : lower ≡ 0 = omega arith in rw none_left (ground arith)
and_upper (suc width) upper mask lower below = ground (
  arith,
  pow-suc 2 width,
  wider upper width,
  wider mask width,
  wider (bit_and upper mask) width,
  and_low_digit (upper * 2 ^ suc width + lower) (mask * 2 ^ suc width),
  and_upper width upper mask (lower / 2) (omega (arith, pow-suc 2 width)),
)

and_lower :
    (width upper lower : ℕ)
    → lower < 2 ^ width
    → bit_and (upper * 2 ^ width + lower) (2 ^ width - 1) ≡ lower
and_lower zero upper lower below = ground (arith, and_0 (upper * 1 + lower), and_0 (upper + lower))
and_lower (suc width) upper lower below = ground (
  arith,
  one-le-pow width 2,
  pow-suc 2 width,
  wider upper width,
  and_low_digit (upper * 2 ^ suc width + lower) (2 ^ suc width - 1),
  and_lower width upper (lower / 2) (omega (arith, pow-suc 2 width)),
)

-- A multiple of `2 ^ width` and `width` low bits do not meet.
pub or-low_bits :
    (width upper lower : ℕ)
    → lower < 2 ^ width
    → bit_or (upper * 2 ^ width) lower ≡ upper * 2 ^ width + lower
or-low_bits zero upper lower below = ground (arith, or_0-below (suc upper) upper)
or-low_bits (suc width) upper lower below = ground (
  arith,
  pow-suc 2 width,
  wider upper width,
  or_low_digit (upper * 2 ^ suc width) lower,
  or-low_bits width upper (lower / 2) (omega (arith, pow-suc 2 width)),
)

-- The bits below `width` are the remainder by `2 ^ width`.
pub and-low_mask : (width x : ℕ) → bit_and x (2 ^ width - 1) ≡ x % 2 ^ width
and-low_mask width x =
    ground (arith, one-le-pow width 2, and_lower width (x / 2 ^ width) (x % 2 ^ width))

-- A mask with its `width` low bits clear acts on what is above them.
pub and-high_mask :
    (width x mask : ℕ) → bit_and x (mask * 2 ^ width) ≡ bit_and (x / 2 ^ width) mask * 2 ^ width
and-high_mask width x mask =
    ground (arith, one-le-pow width 2, and_upper width (x / 2 ^ width) mask (x % 2 ^ width))

-- The masks of the source at their widths.
pub and_0xff : (a : ℕ) → bit_and a 0xff ≡ a % 256
and_0xff a = and-low_mask 8 a

pub and_0x3ff : (a : ℕ) → bit_and a 0x3ff ≡ a % 1024
and_0x3ff a = and-low_mask 10 a

pub and_0xffc : (a : ℕ) → bit_and a 0xffc ≡ a / 4 % 1024 * 4
and_0xffc a = ground (arith, and-high_mask 2 a 0x3ff, and-low_mask 10 (a / 4))

pub and_0xfffff000 : (a : ℕ) → a < 2 ^ 32 → bit_and a 0xfffff000 ≡ a / 4096 * 4096
and_0xfffff000 a h = ground (arith, and-high_mask 12 a 0xfffff, and-low_mask 20 (a / 4096))

pub and_not_7 : (a : ℕ) → a < 2 ^ 32 → bit_and a 0xfffffff8 ≡ a / 8 * 8
and_not_7 a h = ground (arith, and-high_mask 3 a 0x1fffffff, and-low_mask 29 (a / 8))

pub or_7 : (a : ℕ) → a % 8 ≡ 0 → bit_or a 7 ≡ a + 7
or_7 a h = let e : a ≡ a / 8 * 8 = omega arith in rw e (or-low_bits 3 (a / 8) 7 (omega arith))

pub and_1 : (a : ℕ) → bit_and a 1 ≡ a % 2
and_1 a = and-low_mask 1 a
