-- ===== src/Console/Start.antt =====
-- The screen after console_init of src/kernel/console.c.
use bless_os.Prelude.{ℕ, zero, suc, ◌+◌, ◌*◌, ◌<◌, ◌≡◌, arith, ap, ◌∙◌}
use bless_os.Prelude.Ram.{Ram}
use bless_os.Mem.Copy.{memsetw_lem}
use bless_os.Console.{
  Console, console_init, clear_screen, scroll_times, scroll_down, set_cursor, videoram_start, lines,
  columns, blank,
}
use bless_os.Console.Bounds.{InScreen}
use bless_os.Console.Cursor.{Synced, console_init-Synced}
use bless_os.Console.Grid.{cells, scroll, cells-scroll_down}

cells-clear_screen : (m : Ram) (p : ℕ) → p < 2000 → cells (clear_screen m) p ≡ (0x20, 0x0f)
unfolding clear_screen
cells-clear_screen m p h = ground (
  arith,
  memsetw_lem m videoram_start blank (lines * columns) (videoram_start + 2 * p),
  memsetw_lem m videoram_start blank (lines * columns) (videoram_start + 2 * p + 1),
)

-- A screen of spaces stays one, however often it is scrolled.
cells-scroll_times :
    (n : ℕ) (m : Ram)
    → ((p : ℕ) → p < 2000 → cells m p ≡ (0x20, 0x0f))
    → (p : ℕ) → p < 2000
    → cells (scroll_times n m) p ≡ (0x20, 0x0f)
unfolding scroll_times scroll
cells-scroll_times zero m h p lt = h p lt
cells-scroll_times (suc n) m h p lt = cells-scroll_times n (scroll_down m) scrolled p lt
  where
    scrolled : (q : ℕ) → q < 2000 → cells (scroll_down m) q ≡ (0x20, 0x0f)
    scrolled q below = ap (λ f. f q) (cells-scroll_down m) ∙ ground (arith, h (q + 80))

-- `console_init` fills the whole screen with spaces, leaves the cursor on it, and the display
-- controller told of it.
pub console_init-blank :
    (con : Console) (p : ℕ)
    → p < 2000
    → (cells (console_init con).vram p ≡ (0x20, 0x0f))
      × InScreen (console_init con)
      × Synced (console_init con)
unfolding console_init set_cursor
console_init-blank con p lt =
    let (in_screen, synced) = console_init-Synced con in
    (
      cells-scroll_times 10 (clear_screen con.vram) (cells-clear_screen con.vram) p lt,
      in_screen,
      synced,
    )
