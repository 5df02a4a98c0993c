-- ===== src/Console/Cursor.antt =====
-- What src/kernel/console.c has told the CRT controller of the cursor.
use bless_os.Prelude.{
  ℕ, ◌+◌, ◌*◌, ◌/◌, ◌%◌, ◌^◌, ◌<◌, ◌≡◌, Option, none, some, List, ◌∷◌, ◌==◌, ◌&&◌, if◌then◌else◌,
  arith, bit_or, refl,
}
use bless_os.Prelude.Bits.{and_0xff}
use bless_os.Console.{
  Console, Printed, columns, lines, set_cursor, put_char, wrap_line, print_c, console_init,
  scroll_down,
}
use bless_os.Console.Bounds.{InScreen, print_c-InScreen, put_char-bounds}

-- The position in registers 0x0e and 0x0f, if the last four writes set them (newest first):
-- the index of a register goes to port 0x3d4, its value to port 0x3d5.
unfoldable pub crtc_cursor : List (ℕ × ℕ) → Option ℕ
crtc_cursor ((high, a) ∷ (i, b) ∷ (low, c) ∷ (j, d) ∷ rest) =
    if a == 0x3d5 && (b == 0x3d4 && (c == 0x3d5 && (d == 0x3d4 && (i == 0x0e && j == 0x0f))))
    then some (high * 256 + low)
    else none
crtc_cursor _ = none

-- The controller shows the cursor where the kernel has it.
abbrev pub Synced : Console → Type 0
Synced con = crtc_cursor con.ports ≡ some (con.csr_y * columns + con.csr_x)

-- `set_cursor` at a place on the screen tells the controller that place.
pub set_cursor-Synced :
    (x y : ℕ) (con : Console) → x < columns → y < lines → Synced (set_cursor x y con)
unfolding set_cursor crtc_cursor
set_cursor-Synced x y con hx hy =
    ground
      (arith, and_0xff ((y * columns + x) % 65536), and_0xff ((y * columns + x) % 65536 / 2 ^ 8))

wrap_line-Synced : (p : Printed) (con : Console) → p.y < lines → Synced (wrap_line p con)
unfolding wrap_line
wrap_line-Synced p con hy = ground (
  arith,
  set_cursor-Synced 0 (p.y + 1) (record con { vram = p.mem }),
  set_cursor-Synced 0 p.y (record con { vram = scroll_down p.mem }),
  set_cursor-Synced p.x p.y (record con { vram = p.mem }),
)

-- If the cursor is on the screen and the display controller has been told of it, both hold after
-- any byte is printed in any colours.
pub print_c-Synced :
    (c fg bg : ℕ) {con : Console}
    → InScreen con
    → Synced con
    → InScreen (print_c c fg bg con) × Synced (print_c c fg bg con)
unfolding print_c
print_c-Synced c fg bg {con} v s = (print_c-InScreen c fg bg v, synced)
  where
    attr : ℕ
    attr = bit_or (bg * 16) fg % 256

    synced : Synced (print_c c fg bg con)
    synced = ground (
      arith,
      put_char-bounds c attr con.csr_x con.csr_y con.vram v.x_in v.y_in,
      wrap_line-Synced (put_char c attr con.csr_x con.csr_y con.vram) con,
    )

-- `console_init` leaves the cursor on the screen, and the display controller told of it.
pub console_init-Synced : (con : Console) → InScreen (console_init con) × Synced (console_init con)
unfolding console_init set_cursor crtc_cursor
console_init-Synced con = (record { x_in = omega arith; y_in = omega arith }, refl)
