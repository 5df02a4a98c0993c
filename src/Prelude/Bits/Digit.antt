-- ===== src/Prelude/Bits/Digit.antt =====
-- `&` and `|` one binary digit at a time. The native operations come as a recursion on the digits with
-- fuel; more fuel than the number itself makes no difference.
use mathlib.Core.Path.{◌≡◌, refl, ap, ◌∙◌}
use native.Mathlib.Omega.{arith}
use mathlib.Core.Logic.{inl, inr}
use bless_os.Prelude.Tests.{◌==◌, Bool-cases}
use Prim.Native.Nat.{
  ℕ, zero, suc, ◌+◌, ◌*◌, ◌/◌, ◌%◌, ◌≤◌, bit_and, bit_or, bit_and-bitwise, bit_or-bitwise, bitwise,
  digits, max, min,
}

module _ (base : ℕ → ℕ) (digit : ℕ → ℕ → ℕ) where
  one_more_round :
      (fuel x y : ℕ) → x ≤ fuel → digits base digit (suc fuel) x y ≡ digits base digit fuel x y
  one_more_round zero (suc x) y fits = absurd (omega arith)
  one_more_round zero zero y fits = refl
  one_more_round (suc fuel) zero y fits = refl
  one_more_round (suc fuel) (suc x) y fits =
      ap (λ upper. upper * 2 + digit (suc x % 2) (y % 2))
        (one_more_round fuel (suc x / 2) (y / 2) (omega arith))

  digits-bitwise : (fuel x y : ℕ) → x ≤ fuel → digits base digit fuel x y ≡ bitwise base digit x y
  digits-bitwise zero (suc x) y fits = absurd (omega arith)
  digits-bitwise zero zero y fits = refl
  digits-bitwise (suc fuel) x y fits = elim (Bool-cases (x == suc fuel)) [
    | inl exact ↦ let e : x ≡ suc fuel = ground arith in rw e
    | inr less ↦ one_more_round fuel x y (ground arith) ∙ digits-bitwise fuel x y (ground arith)
  ]

  split_digit :
      (x y : ℕ)
      → bitwise base digit (suc x) y
        ≡ bitwise base digit (suc x / 2) (y / 2) * 2 + digit (suc x % 2) (y % 2)
  split_digit x y =
      ap (λ upper. upper * 2 + digit (suc x % 2) (y % 2))
        (digits-bitwise x (suc x / 2) (y / 2) (omega arith))

pub and_low_digit : (x y : ℕ) → bit_and x y ≡ bit_and (x / 2) (y / 2) * 2 + min (x % 2) (y % 2)
and_low_digit zero y = simp bit_and-bitwise (omega arith)
and_low_digit (suc x) y = simp bit_and-bitwise (split_digit (λ z. 0) min x y)

pub or_low_digit : (x y : ℕ) → bit_or x y ≡ bit_or (x / 2) (y / 2) * 2 + max (x % 2) (y % 2)
or_low_digit zero y = simp bit_or-bitwise (omega arith)
or_low_digit (suc x) y = simp bit_or-bitwise (split_digit (λ z. z) max x y)
