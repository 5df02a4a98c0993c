-- ===== src/Examples/Text.antt =====
-- The digits of messages.
use bless_os.Prelude.{ℕ, ◌≡◌, refl, ◌≤◌, List, [], ◌∷◌, length, ok, arith}
use bless_os.Prelude.Text.{chars}
use bless_os.Console.{Console}
use bless_os.Printk.Room.{width}
use bless_os.Printk.Returns.{budget, printk-returns}
use bless_os.Printk.{word, printk, print_buffer, parse_num}
use bless_os.Printk.Decimal.{read_decimal, parse_num-read_decimal}

parse_num-read_decimal_example :
    (ds : List ℕ) × (parse_num 10 4096 10 (b'x' ∷ []) ≡ ok (b'x' ∷ ds))
    × (read_decimal 0 ds ≡ 4096)
    × (length ds ≤ 10)
parse_num-read_decimal_example =
    parse_num-read_decimal 10 4096 (b'x' ∷ []) (omega arith) (omega arith) (omega arith)

abbrev blank : Console
blank = record { csr_x = 0; csr_y = 0; vram = λ a. 0; ports = [] }

-- A message with a word and a tab.
printk-returns_example :
    (text : List ℕ) × (length text ≤ 13)
    × (printk 15 0 (chars "eip:\t%x") (word 0x100000 ∷ []) blank
        ≡ ok (print_buffer 15 0 text blank))
unfolding budget width
printk-returns_example =
    printk-returns 15 0 (chars "eip:\t%x") (word 0x100000 ∷ []) 13 blank (omega arith, tt) refl
      (omega arith)
