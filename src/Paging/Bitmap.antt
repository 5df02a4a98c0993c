-- ===== src/Paging/Bitmap.antt =====
-- One bit of a word, and what `|` and `&` do to it.
use bless_os.Prelude.{
  ℕ, ==_iff, true, inl, inr, Bool-cases, zero, suc, ◌-◌, ◌*◌, ◌/◌, ◌%◌, ◌^◌, ◌<◌, ◌≡◌, refl, ap,
  ◌∙◌, bit_and, bit_or, arith, ◌==◌, if◌then◌else◌,
}
use bless_os.Prelude.Tables.{all_below, all_below_at, all_below_at₂}
use Prim.Native.Nat.{min, max}
use bless_os.Prelude.Bits.{and_1, wider, and_low_digit, or_low_digit}
use native.Mathlib.Nat.{pow-suc, one-le-pow}

-- Bit `k` of `w`.
abbrev pub bit : ℕ → ℕ → ℕ
bit zero w = w % 2
bit (suc k) w = bit k (w / 2)

bit-bit_or : (k v w : ℕ) → bit k (bit_or v w) ≡ max (bit k v) (bit k w)
bit-bit_or zero v w = omega (arith, or_low_digit v w)
bit-bit_or (suc k) v w =
    let half : bit_or v w / 2 ≡ bit_or (v / 2) (w / 2) = omega (arith, or_low_digit v w) in
    ap (bit k) half ∙ bit-bit_or k (v / 2) (w / 2)

bit-bit_and : (k v w : ℕ) → bit k (bit_and v w) ≡ min (bit k v) (bit k w)
bit-bit_and zero v w = omega (arith, and_low_digit v w)
bit-bit_and (suc k) v w =
    let half : bit_and v w / 2 ≡ bit_and (v / 2) (w / 2) = omega (arith, and_low_digit v w) in
    ap (bit k) half ∙ bit-bit_and k (v / 2) (w / 2)

pub bit-zero : (k : ℕ) → bit k 0 ≡ 0
bit-zero zero = refl
bit-zero (suc k) = bit-zero k

bit-pow : (k j : ℕ) → bit k (2 ^ j) ≡ (if k == j then 1 else 0)
bit-pow zero zero = refl
bit-pow zero (suc j) = ground (arith, pow-suc 2 j)
bit-pow (suc k) zero =
    let none_left : 2 ^ 0 / 2 ≡ 0 = omega arith in ap (bit k) none_left ∙ bit-zero k ∙ ground arith
bit-pow (suc k) (suc j) =
    let half : 2 ^ suc j / 2 ≡ 2 ^ j = omega (arith, pow-suc 2 j) in
    ap (bit k) half ∙ ground (arith, bit-pow k j)

-- The test of one bit.
bit_and-pow : (j w : ℕ) → bit_and w (2 ^ j) ≡ bit j w * 2 ^ j
bit_and-pow zero w = ground (arith, and_1 w)
bit_and-pow (suc j) w =
    let half : 2 ^ suc j / 2 ≡ 2 ^ j = omega (arith, pow-suc 2 j) in
    let upper = ap (bit_and (w / 2)) half ∙ bit_and-pow j (w / 2) in
    omega (arith, pow-suc 2 j, and_low_digit w (2 ^ suc j), upper, wider (bit j (w / 2)) j)

pub bit-lt : (k w : ℕ) → bit k w < 2
bit-lt zero w = omega arith
bit-lt (suc k) w = bit-lt k (w / 2)

complement_table :
    all_below 32 (λ k. all_below 32 (λ j. bit k (0xffffffff - 2 ^ j) == (if k == j then 0 else 1)))
    ≡ true
unfolding all_below
complement_table = refl

-- All bits of a full word but one.
bit-complement :
    (k j : ℕ) → k < 32 → j < 32 → bit k (0xffffffff - 2 ^ j) ≡ (if k == j then 0 else 1)
bit-complement k j hk hj = (==_iff (bit k (0xffffffff - 2 ^ j)) (if k == j then 0 else 1)).0 (
    all_below_at₂ 32 32 (λ k j. bit k (0xffffffff - 2 ^ j) == (if k == j then 0 else 1)) k j
      complement_table hk hj)

-- Setting, clearing and testing one bit of a word.
pub bit-set : (k j w : ℕ) → bit k (bit_or w (2 ^ j)) ≡ (if k == j then 1 else bit k w)
bit-set k j w = ground (arith, bit-bit_or k w (2 ^ j), bit-pow k j, bit-lt k w)

pub bit-cleared :
    (k j w : ℕ)
    → k < 32
    → j < 32
    → bit k (bit_and w (0xffffffff - 2 ^ j)) ≡ (if k == j then 0 else bit k w)
bit-cleared k j w hk hj =
    ground (arith, bit-bit_and k w (0xffffffff - 2 ^ j), bit-complement k j hk hj, bit-lt k w)

pub bit-tested : (j w : ℕ) → (bit_and w (2 ^ j) == 0) ≡ (bit j w == 0)
bit-tested j w = elim (Bool-cases (bit j w == 0)) [
  | inl clear ↦
      let z : bit j w ≡ 0 = ground arith in
      let v = bit_and-pow j w ∙ ap (λ (b : ℕ). b * 2 ^ j) z in ground arith
  | inr on ↦
      let o : bit j w ≡ 1 = ground (arith, bit-lt j w) in
      let v = bit_and-pow j w ∙ ap (λ (b : ℕ). b * 2 ^ j) o in ground (arith, one-le-pow j 2)
]

full_table : all_below 32 (λ k. bit k 0xffffffff == 1) ≡ true
unfolding all_below
full_table = refl

pub bit-full : (k : ℕ) → k < 32 → bit k 0xffffffff ≡ 1
bit-full k h =
    (==_iff (bit k 0xffffffff) 1).0 (all_below_at 32 (λ k. bit k 0xffffffff == 1) k full_table h)
