-- ===== src/Console.antt =====
-- src/kernel/console.c and src/include/kernel/console.h: the text screen. The state is the cursor
-- (`csr_x`, `csr_y`), the memory that holds the video RAM, and what `outb` has sent, newest first.
-- `scroll_up` is called by nothing, so `origin`, `position`, `scr_end`, `top` and `bottom` keep
-- their initial values and are no part of the state.
pub mod Bounds
pub mod Screen
pub mod Grid
pub mod Cursor
pub mod Start
use bless_os.Prelude.{
  ℕ, zero, suc, ◌+◌, ◌-◌, ◌*◌, ◌/◌, ◌%◌, ◌^◌, bit_and, bit_or, List, [], ◌∷◌, Bool, ltb, leb, ◌==◌,
  ◌&&◌, if◌then◌else◌,
}
use bless_os.Prelude.Ram.{Ram, store}
use bless_os.Mem.{memcpy, memsetw, store_word}

abbrev pub videoram_start : ℕ
videoram_start = 0xb8000

-- LINES and COLUMNS
abbrev pub lines : ℕ
lines = 25

abbrev pub columns : ℕ
columns = 80

abbrev pub vram_line : ℕ
vram_line = columns * 2

abbrev pub tab_width : ℕ
tab_width = 4

abbrev pub empty_char : ℕ
empty_char = 0x20

abbrev pub blank_attr : ℕ
blank_attr = 0x07

-- `COLOUR`, by its numbers.
abbrev pub black : ℕ
black = 0

abbrev pub bright_white : ℕ
bright_white = 15

pub record Console : Type 0 where
  pub csr_x : ℕ
  pub csr_y : ℕ
  pub vram : Ram
  pub ports : List (ℕ × ℕ)

-- `outb(value, port)` sends the low byte.
abbrev pub outb : ℕ → ℕ → List (ℕ × ℕ) → List (ℕ × ℕ)
outb value port sent = (value % 256, port) ∷ sent

unfoldable pub set_cursor : ℕ → ℕ → Console → Console
set_cursor x y con =
    let position = (y * columns + x) % 65536 in
    record con {
      csr_x = x;
      csr_y = y;
      ports =
          outb (bit_and (position / 2 ^ 8) 0xff) 0x3d5
            (outb 0x0e 0x3d4 (outb (bit_and position 0xff) 0x3d5 (outb 0x0f 0x3d4 con.ports)));
    }

abbrev pub get_cursor : Console → ℕ × ℕ
get_cursor con = (con.csr_x, con.csr_y)

-- `blank` of `scroll_down` and `clear_screen`
abbrev pub blank : ℕ
blank = bit_or 0x20 (bit_or (0 * 16) (bit_and 15 0xff) * 256)

-- `for (i = 0; i < COLUMNS; ++i) vga_mem[COLUMNS * (LINES - 1) + i] = blank;` with `n` rounds left.
pub blank_row : ℕ → ℕ → Ram → Ram
blank_row zero i m = m
blank_row (suc n) i m =
    blank_row n (i + 1) (store_word m (videoram_start + 2 * (columns * (lines - 1) + i)) blank)

pub scroll_down : Ram → Ram
scroll_down m =
    blank_row columns 0
      (memcpy m (videoram_start + columns * 2) videoram_start (columns * (lines - 1) * 2))

pub clear_screen : Ram → Ram
clear_screen m = memsetw m videoram_start blank (lines * columns)

-- The loops of '\n' and '\t': `n` cells from `dest` on get a space in the given attribute.
pub fill_cells : ℕ → ℕ → ℕ → Ram → Ram
fill_cells zero dest attr m = m
fill_cells (suc n) dest attr m =
    fill_cells n (dest + 2) attr (store (store m dest empty_char) (dest + 1) attr)

-- The state when the `switch` of `print_c` is left: column, row and memory.
pub record Printed : Type 0 where
  pub x : ℕ
  pub y : ℕ
  pub mem : Ram

-- the column where the loop of '\t' stops
abbrev pub tab_stop : ℕ → ℕ
tab_stop x =
    let c = x + tab_width - bit_and x (tab_width - 1) in if ltb c columns then c else columns

-- `csr_x` behind a loop `for (; csr_x < stop; ++csr_x)`
abbrev pub run_to : ℕ → ℕ → ℕ
run_to stop x = if ltb x stop then stop else x

-- A byte as the `char` that `print_c` switches on; `b'\n'` and the like are below 128. The counter
-- of '\t' is a `char` as well; at `csr_x` below 80 it fits.
pub put_char : ℕ → ℕ → ℕ → ℕ → Ram → Printed
put_char c attr x y m =
    let dest = videoram_start + y * vram_line + x * 2 in
    if c == 13
    then record { x = 0; y = y; mem = m }
    else if c == 10
    then record { x = run_to columns x; y = y; mem = fill_cells (columns - x) dest attr m }
    else if c == 9
    then record { x = run_to (tab_stop x) x; y = y; mem = fill_cells (tab_stop x - x) dest attr m }
    else if c == 8
    then record {
      x = if x == 0 then columns - 1 else x - 1;
      y = if x == 0 then y - 1 else y;
      mem = store (store m (dest - 1) blank_attr) (dest - 2) empty_char;
    }
    else record { x = x + 1; y = y; mem = store (store m dest (c % 256)) (dest + 1) attr }

-- What follows the `switch`: the end of a row, then the cursor.
pub wrap_line : Printed → Console → Console
wrap_line p con =
    if leb columns p.x
    then (if ltb p.y (lines - 1)
        then set_cursor 0 (p.y + 1) (record con { vram = p.mem })
        else set_cursor 0 p.y (record con { vram = scroll_down p.mem }))
    else set_cursor p.x p.y (record con { vram = p.mem })

-- At the top left corner a backspace returns at once, before the cursor is set.
pub print_c : ℕ → ℕ → ℕ → Console → Console
print_c c fg bg con =
    if c == 8 && (con.csr_x == 0 && con.csr_y == 0)
    then con
    else wrap_line (put_char c (bit_or (bg * 16) fg % 256) con.csr_x con.csr_y con.vram) con

pub scroll_times : ℕ → Ram → Ram
scroll_times zero m = m
scroll_times (suc n) m = scroll_times n (scroll_down m)

pub console_init : Console → Console
unfolding scroll_times
console_init con =
    let cleared = set_cursor 0 0 (record con { vram = clear_screen con.vram }) in
    record cleared { vram = scroll_times 10 cleared.vram }
