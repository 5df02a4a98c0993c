-- ===== src/Console/Grid.antt =====
-- The screen as a grid of cells with a cursor, and what printing a byte means there. Cell `p` is
-- column `p % 80` of row `p / 80`; it holds a character and its attribute.
use mathlib.Core.Path.{fun_ext}
use bless_os.Prelude.{ℕ, ◌+◌, ◌-◌, ◌*◌, ◌%◌, ◌/◌, ◌<◌, ◌≡◌, arith, bit_or, ltb, ◌==◌, if◌then◌else◌}
use bless_os.Prelude.Bits.{and-low_mask}
use bless_os.Prelude.Ram.{Ram, store}
use bless_os.Mem.Copy.{within}
use bless_os.Console.{
  Console, Printed, videoram_start, lines, tab_stop, scroll_down, fill_cells, put_char, wrap_line,
  print_c, set_cursor,
}
use bless_os.Console.Bounds.{InScreen, tab_stop-lem}
use bless_os.Console.Screen.{scroll_down_lem, fill_cells_lem}

abbrev pub Cells : Type 0
Cells = ℕ → ℕ × ℕ

pub record Grid : Type 0 where
  pub x : ℕ
  pub y : ℕ
  pub cell : Cells

abbrev pub cells : Ram → Cells
cells m p = (m (videoram_start + 2 * p), m (videoram_start + 2 * p + 1))

abbrev pub grid : Console → Grid
grid con = record { x = con.csr_x; y = con.csr_y; cell = cells con.vram }

-- Every row moves up by one; the last becomes spaces.
unfoldable pub scroll : Cells → Cells
scroll f p = if ltb p 1920 then f (p + 80) else if ltb p 2000 then (0x20, 0x0f) else f p

unfoldable pub spaces : ℕ → ℕ → ℕ → Cells → Cells
spaces from n attr f p = if within from n p then (0x20, attr) else f p

unfoldable pub put : ℕ → ℕ × ℕ → Cells → Cells
put q v f p = if p == q then v else f p

-- A cursor that has left its row goes to the start of the next, which may scroll the grid.
unfoldable pub advance : ℕ → ℕ → Cells → Grid
advance x y f =
    if ltb x 80
    then record { x = x; y = y; cell = f }
    else if y == 24
    then record { x = 0; y = y; cell = scroll f }
    else record { x = 0; y = y + 1; cell = f }

unfoldable pub type_byte : ℕ → ℕ → Grid → Grid
unfolding advance
type_byte c attr s =
    let p = s.y * 80 + s.x in
    if c == 13
    then record s { x = 0 }
    else if c == 10
    then advance 80 s.y (spaces p (80 - s.x) attr s.cell)
    else if c == 9
    then advance (s.x / 4 * 4 + 4) s.y (spaces p (4 - s.x % 4) attr s.cell)
    else if c == 8
    then (if p == 0
        then s
        else record { x = (p - 1) % 80; y = (p - 1) / 80; cell = put (p - 1) (0x20, 0x07) s.cell })
    else advance (s.x + 1) s.y (put p (c, attr) s.cell)

pub cells-scroll_down : (m : Ram) → cells (scroll_down m) ≡ scroll (cells m)
unfolding scroll
cells-scroll_down m = fun_ext λ p. ground (
  arith,
  scroll_down_lem m (videoram_start + 2 * p),
  scroll_down_lem m (videoram_start + 2 * p + 1),
)

cells-fill_cells :
    (n dest attr q : ℕ) (m : Ram)
    → dest ≡ videoram_start + 2 * q
    → cells (fill_cells n dest attr m) ≡ spaces q n attr (cells m)
unfolding spaces
cells-fill_cells n dest attr q m e = fun_ext λ p. ground (
  arith,
  fill_cells_lem n dest attr (videoram_start + 2 * p) m,
  fill_cells_lem n dest attr (videoram_start + 2 * p + 1) m,
)

cells-store :
    (dest q c attr : ℕ) (m : Ram)
    → dest ≡ videoram_start + 2 * q
    → cells (store (store m dest c) (dest + 1) attr) ≡ put q (c, attr) (cells m)
unfolding put
cells-store dest q c attr m e = fun_ext λ p. ground arith

cells-store_back :
    (dest q c attr : ℕ) (m : Ram)
    → dest ≡ videoram_start + 2 * q + 2
    → cells (store (store m (dest - 1) attr) (dest - 2) c) ≡ put q (c, attr) (cells m)
unfolding put
cells-store_back dest q c attr m e = fun_ext λ p. ground arith

grid-wrap_line :
    (p : Printed) (con : Console)
    → p.y < lines
    → grid (wrap_line p con) ≡ advance p.x p.y (cells p.mem)
unfolding wrap_line advance set_cursor
grid-wrap_line p con h = ground (arith, cells-scroll_down p.mem)

-- A byte printed with the cursor on the screen.
module _ (c fg bg : ℕ) {con : Console} (v : InScreen con) (byte : c < 256) where
  abbrev attr : ℕ
  attr = bit_or (bg * 16) fg % 256

  abbrev left : Printed
  left = put_char c attr con.csr_x con.csr_y con.vram

  abbrev dest : ℕ
  dest = videoram_start + con.csr_y * 160 + con.csr_x * 2

  abbrev here : ℕ
  here = con.csr_y * 80 + con.csr_x

  -- With the cursor on the screen, `print_c` of a byte does to the grid of cells and the cursor
  -- what `type_byte` says, with the wrap at the end of a row and the scroll at the end of the last.
  pub print_c-type_byte : grid (print_c c fg bg con) ≡ type_byte c attr (grid con)
  unfolding print_c put_char type_byte
  print_c-type_byte = ground (
    arith,
    grid-wrap_line left con,
    tab_stop-lem con.csr_x v.x_in,
    and-low_mask 2 con.csr_x,
    cells-fill_cells (80 - con.csr_x) dest attr here con.vram,
    cells-fill_cells (tab_stop con.csr_x - con.csr_x) dest attr here con.vram,
    cells-store dest here c attr con.vram,
    cells-store_back dest (here - 1) 0x20 0x07 con.vram,
  )
