-- ===== src/Console/Bounds.antt =====
-- Where print_c of src/kernel/console.c leaves the cursor.
use bless_os.Prelude.{ℕ, ◌+◌, ◌*◌, ◌%◌, ◌<◌, ◌≡◌, arith, bit_or}
use bless_os.Prelude.Bits.{and-low_mask}
use bless_os.Console.{
  Console, Printed, columns, lines, set_cursor, put_char, wrap_line, print_c, tab_stop,
}

pub record InScreen (con : Console) : Type 0 where
  pub x_in : con.csr_x < columns
  pub y_in : con.csr_y < lines

pub tab_stop-lem :
    (x : ℕ) → x < columns → (x < tab_stop x) × (tab_stop x < columns + 1) × (tab_stop x % 4 ≡ 0)
tab_stop-lem x h = ground (arith, and-low_mask 2 x)

wrap_line-InScreen :
    (p : Printed) (con : Console) → p.x < columns + 1 → p.y < lines → InScreen (wrap_line p con)
unfolding wrap_line set_cursor
wrap_line-InScreen p con hx hy = ground arith

pub put_char-bounds :
    (c attr x y : ℕ) (m : ℕ → ℕ)
    → x < columns
    → y < lines
    → ((put_char c attr x y m).x < columns + 1) × ((put_char c attr x y m).y < lines)
unfolding put_char
put_char-bounds c attr x y m hx hy = ground (arith, tab_stop-lem x hx)

-- Whatever byte is printed in whatever colours, the cursor stays on the screen.
pub print_c-InScreen : (c fg bg : ℕ) {con : Console} → InScreen con → InScreen (print_c c fg bg con)
unfolding print_c
print_c-InScreen c fg bg {con} v = ground (
  arith,
  put_char-bounds c (bit_or (bg * 16) fg % 256) con.csr_x con.csr_y con.vram v.x_in v.y_in,
  wrap_line-InScreen (put_char c (bit_or (bg * 16) fg % 256) con.csr_x con.csr_y con.vram) con,
)
