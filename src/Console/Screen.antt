-- ===== src/Console/Screen.antt =====
-- The loops of src/kernel/console.c that fill cells and rows, at every address.
use bless_os.Prelude.{ℕ, zero, suc, ◌+◌, ◌-◌, ◌*◌, ◌%◌, ◌≡◌, arith, ◌==◌, if◌then◌else◌}
use bless_os.Prelude.Ram.{Ram, store}
use bless_os.Mem.{memcpy, store_word}
use bless_os.Mem.Copy.{within, memcpy_lem}
use bless_os.Console.{videoram_start, columns, lines, blank_row, scroll_down, fill_cells, blank}

blank_row_lem :
    (n i a : ℕ) (m : Ram)
    → blank_row n i m a ≡ (
        if within (videoram_start + 3840 + 2 * i) (2 * n) a
        then (if a % 2 == 0 then 0x20 else 0x0f)
        else m a)
unfolding blank_row
blank_row_lem zero i a m = ground arith
blank_row_lem (suc n) i a m = ground (
  arith,
  blank_row_lem n (i + 1) a (store_word m (videoram_start + 2 * (columns * (lines - 1) + i)) blank),
)

-- Scrolling moves every row of the screen up by one, fills the last with spaces, and changes no
-- byte outside of the screen.
pub scroll_down_lem :
    (m : Ram) (a : ℕ)
    → scroll_down m a ≡ (
        if within videoram_start 3840 a
        then m (a + 160)
        else if within (videoram_start + 3840) 160 a
        then (if a % 2 == 0 then 0x20 else 0x0f)
        else m a)
unfolding scroll_down
scroll_down_lem m a = ground (
  arith,
  blank_row_lem columns 0 a
      (memcpy m (videoram_start + columns * 2) videoram_start (columns * (lines - 1) * 2)),
  memcpy_lem m (videoram_start + columns * 2) videoram_start (columns * (lines - 1) * 2) a,
)

pub fill_cells_lem :
    (n dest attr a : ℕ) (m : Ram)
    → fill_cells n dest attr m a
      ≡ (if within dest (2 * n) a then (if (a - dest) % 2 == 0 then 0x20 else attr) else m a)
unfolding fill_cells
fill_cells_lem zero dest attr a m = ground arith
fill_cells_lem (suc n) dest attr a m =
    ground (arith, fill_cells_lem n (dest + 2) attr a (store (store m dest 0x20) (dest + 1) attr))
