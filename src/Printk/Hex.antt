-- ===== src/Printk/Hex.antt =====
-- The digits that parse_hex of src/kernel/printk.c writes, read back.
use mathlib.Core.List.{append_assoc, append-nil}
use bless_os.Prelude.{
  ℕ, zero, suc, ◌+◌, ◌-◌, ◌*◌, ◌/◌, ◌%◌, ◌^◌, ◌<◌, ◌≤◌, ◌≡◌, refl, sym, ap, ◌∙◌, arith, ltb, ◌==◌,
  if◌then◌else◌, List, [], ◌∷◌, ◌++◌, length, length-append, get_or, ok, ◌>>=◌, true, ==_iff,
  bit_and,
}
use bless_os.Prelude.Tables.{all_below, all_below_at}
use bless_os.Prelude.Bits.{and-low_mask}
use bless_os.Printk.{Buffer, parse_hex, parse_hex_loop, hex_digits}
use bless_os.Printk.Decimal.{emit-ok}

abbrev pub hex_value : ℕ → ℕ
hex_value c = if ltb c 58 then c - 48 else c - 87

-- The number that a list of hexadecimal digits stands for, behind the digits of `acc`.
unfoldable pub read_hex : ℕ → List ℕ → ℕ
read_hex acc [] = acc
read_hex acc (c ∷ cs) = read_hex (acc * 16 + hex_value c) cs

abbrev pub hex_digit : ℕ → ℕ → ℕ
hex_digit i num = get_or hex_digits (bit_and (num / 2 ^ (i * 4)) 0x0f) 0

unfoldable pub hex_text : ℕ → ℕ → List ℕ
hex_text zero num = []
hex_text (suc i) num = hex_digit i num ∷ hex_text i num

value_table : all_below 16 (λ d. hex_value (get_or hex_digits d 0) == d) ≡ true
unfolding all_below
value_table = refl

hex_value-digit : (i num : ℕ) → hex_value (hex_digit i num) ≡ num / 2 ^ (i * 4) % 16
hex_value-digit i num =
    let v = and-low_mask 4 (num / 2 ^ (i * 4)) in
    let small : bit_and (num / 2 ^ (i * 4)) 0x0f < 16 = omega (arith, v) in
    (==_iff (hex_value (hex_digit i num)) (bit_and (num / 2 ^ (i * 4)) 0x0f)).0 (
      all_below_at 16 (λ d. hex_value (get_or hex_digits d 0) == d)
        (bit_and (num / 2 ^ (i * 4)) 0x0f) value_table small)
    ∙ v

parse_hex_loop-hex_text :
    (i num : ℕ) (buffer : Buffer)
    → length buffer + i ≤ 1024
    → parse_hex_loop i num buffer ≡ ok (buffer ++ hex_text i num)
unfolding parse_hex_loop hex_text
parse_hex_loop-hex_text zero num buffer room = ap ok (sym (append-nil buffer))
parse_hex_loop-hex_text (suc i) num buffer room =
    let c = hex_digit i num in
    ap (λ o. o >>= parse_hex_loop i num) (emit-ok c buffer (omega arith))
    ∙ parse_hex_loop-hex_text i num (buffer ++ (c ∷ []))
        (omega (arith, length-append buffer (c ∷ [])))
    ∙ ap ok (append_assoc buffer (c ∷ []) (hex_text i num))

-- For a word, and with room for eight bytes, `parse_hex` writes eight digits that read back as the word.
pub parse_hex-read_hex :
    (num : ℕ) (buffer : Buffer)
    → num < 2 ^ 32
    → length buffer + 8 ≤ 1024
    → (ds : List ℕ) × (parse_hex num buffer ≡ ok (buffer ++ ds))
      × (read_hex 0 ds ≡ num)
      × (length ds ≡ 8)
unfolding parse_hex read_hex hex_text
parse_hex-read_hex num buffer lt room = (
  hex_text 8 num,
  parse_hex_loop-hex_text 8 num buffer room,
  omega (
    arith,
    hex_value-digit 0 num,
    hex_value-digit 1 num,
    hex_value-digit 2 num,
    hex_value-digit 3 num,
    hex_value-digit 4 num,
    hex_value-digit 5 num,
    hex_value-digit 6 num,
    hex_value-digit 7 num,
  ),
  refl,
)
