-- ===== src/Printk/Decimal.antt =====
-- The digits that parse_num of src/kernel/printk.c writes, read back.
use mathlib.Core.List.{append_assoc}
use bless_os.Prelude.{
  ℕ, zero, suc, ◌+◌, ◌-◌, ◌*◌, ◌/◌, ◌%◌, ◌^◌, ◌<◌, ◌≤◌, ◌≡◌, refl, ap, ◌∙◌, arith, ltb, leb, ◌==◌,
  List, [], ◌∷◌, ◌++◌, length, length-append, get_or, ok, Bool-cases, inl, inr, true, ==_iff,
}
use bless_os.Prelude.Tables.{all_below, all_below_at}
use native.Mathlib.Nat.{pow-suc}
use bless_os.Printk.{Buffer, emit, parse_num, decimal_digits}

-- The number that a list of decimal digits stands for, behind the digits of `acc`.
unfoldable pub read_decimal : ℕ → List ℕ → ℕ
read_decimal acc [] = acc
read_decimal acc (c ∷ cs) = read_decimal (acc * 10 + (c - 48)) cs

read_decimal-snoc :
    (acc c : ℕ) (cs : List ℕ)
    → read_decimal acc (cs ++ (c ∷ [])) ≡ read_decimal acc cs * 10 + (c - 48)
unfolding read_decimal
read_decimal-snoc acc c [] = refl
read_decimal-snoc acc c (d ∷ cs) = read_decimal-snoc (acc * 10 + (d - 48)) c cs

digit_table : all_below 10 (λ d. get_or decimal_digits d 0 == d + 48) ≡ true
unfolding all_below
digit_table = refl

digit : (d : ℕ) → d < 10 → get_or decimal_digits d 0 ≡ d + 48
digit d h =
    (==_iff (get_or decimal_digits d 0) (d + 48)).0
      (all_below_at 10 (λ d. get_or decimal_digits d 0 == d + 48) d digit_table h)

pub emit-ok :
    (c : ℕ) (buffer : Buffer) → length buffer < 1024 → emit c buffer ≡ ok (buffer ++ (c ∷ []))
emit-ok c buffer h = let room : ltb (length buffer) 1024 ≡ true = ground arith in rw room refl

some_fuel : (fuel num : ℕ) → 10 ≤ num → num < 10 ^ suc fuel → 0 < fuel
some_fuel zero num v lt = absurd (omega arith)
some_fuel (suc fuel) num v lt = omega arith

-- With room for as many bytes as there is fuel, and fuel for all its digits, `parse_num` in base 10
-- writes digits that read back as the number.
pub parse_num-read_decimal :
    (fuel num : ℕ) (buffer : Buffer)
    → num < 10 ^ fuel
    → 0 < fuel
    → length buffer + fuel ≤ 1024
    → (ds : List ℕ) × (parse_num fuel num 10 buffer ≡ ok (buffer ++ ds))
      × (read_decimal 0 ds ≡ num)
      × (length ds ≤ fuel)
unfolding parse_num read_decimal
parse_num-read_decimal zero num buffer lt pos room = absurd (omega arith)
parse_num-read_decimal (suc fuel) num buffer lt pos room =
    let c = get_or decimal_digits (num % 10) 0 in
    let is_digit = digit (num % 10) (omega arith) in
    elim (Bool-cases (leb 10 num)) [
      | inr small ↦
          let v : num < 10 = ground arith in
          rw (small, parse_num)
            (c ∷ [], emit-ok c buffer (omega arith), omega (arith, is_digit), omega arith)
      | inl large ↦
          let v : 10 ≤ num = ground arith in
          let more : 0 < fuel = some_fuel fuel num v lt in
          let (ds, done, reads, short) =
            parse_num-read_decimal fuel (num / 10) buffer (omega (arith, pow-suc 10 fuel)) more
              (omega arith) in
          rw (large, parse_num, done)
            (
              ds ++ (c ∷ []),
              emit-ok c (buffer ++ ds) (omega (arith, length-append buffer ds))
                  ∙ ap ok (append_assoc buffer ds (c ∷ [])),
              read_decimal-snoc 0 c ds ∙ omega (arith, is_digit, reads),
              omega (arith, length-append ds (c ∷ [])),
            )
    ]
