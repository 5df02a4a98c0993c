-- ===== src/Keyboard/Modifiers.antt =====
-- Which scan code changes which modifier in do_kb of src/kernel/keyboard.c.
use bless_os.Prelude.{
  ℕ, ◌+◌, ◌*◌, ◌/◌, ◌%◌, ◌<◌, ◌≡◌, refl, arith, bit_and, not, ◌==◌, ==_iff, if◌then◌else◌, true,
}
use bless_os.Prelude.Tables.{all_below, all_below_at₂}
use bless_os.Keyboard.{release, press}
use bless_os.Keyboard.Maps.{keytable}

-- The modifiers after a scan code, as `do_kb` computes them.
abbrev pub mode_after : ℕ → ℕ → ℕ
mode_after s mode =
    if not (bit_and s 0x80 == 0)
    then release (keytable (bit_and s 0x7f)) mode
    else press (keytable s) mode

-- One modifier: set by its key's code, cleared by its release.
abbrev pub latch : ℕ → ℕ → ℕ → ℕ → ℕ
latch s down up bit = if s == down then 1 else if s == up then 0 else bit

-- Shift, control and alt as the three bits. The right shift key, 0x36, sets the shift bit, but its
-- release, 0xb6, does not clear it.
abbrev pub mode_spec : ℕ → ℕ → ℕ
mode_spec s mode =
    (if s == 0x36 then 1 else latch s 0x2a 0xaa (mode % 2))
    + 2 * latch s 0x1d 0x9d (mode / 2 % 2)
    + 4 * latch s 0x38 0xb8 (mode / 4 % 2)

mode_table : all_below 256 (λ s. all_below 8 (λ m. mode_after s m == mode_spec s m)) ≡ true
unfolding all_below release press keytable
mode_table = refl

-- Every scan code below 256 does to the three modifiers what `mode_spec` says.
pub mode_after-mode_spec : (s mode : ℕ) → s < 256 → mode < 8 → mode_after s mode ≡ mode_spec s mode
mode_after-mode_spec s mode hs hm =
    (==_iff (mode_after s mode) (mode_spec s mode)).0
      (all_below_at₂ 256 8 (λ a b. mode_after a b == mode_spec a b) s mode mode_table hs hm)

pub mode_spec-lt : (s mode : ℕ) → mode_spec s mode < 8
mode_spec-lt s mode = ground arith
