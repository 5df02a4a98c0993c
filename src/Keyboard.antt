-- ===== src/Keyboard.antt =====
-- src/kernel/keyboard.c: the keyboard interrupt. Its state is the modifiers held, the tty that it
-- feeds, the console behind that, and what it sends to the interrupt controllers (newest first).
-- The scan code that `inb(0x60)` reads is an argument.
pub mod Maps
pub mod Modifiers
pub mod Typing
use Maps.{KeyType, kt_normal, kt_lshift, kt_rshift, kt_lctrl, kt_alt, keytable, kbdus, shift_kbdus}
use bless_os.Prelude.{
  ℕ, ◌-◌, bit_and, bit_or, Option, none, some, List, [], ◌∷◌, not, ◌==◌, if◌then◌else◌, get_or,
}
use bless_os.CyclicBuffer.{CircularBuf, cb_init, cb_push}
use bless_os.Console.{Console, outb}
use bless_os.Tty.{Tty, do_tty_interrupt}

-- `keymodifier_t`
abbrev pub km_lshift : ℕ
km_lshift = 1

abbrev pub km_ctrl : ℕ
km_ctrl = 2

abbrev pub km_alt : ℕ
km_alt = 4

pub record Keyboard : Type 0 where
  pub key_mode : ℕ
  pub tty : Tty
  pub console : Console
  pub pic : List (ℕ × ℕ)

-- `key_mode &= ~m;` on a 32-bit word
abbrev pub clear : ℕ → ℕ → ℕ
clear mode m = bit_and mode (0xffffffff - m)

-- The `switch` for a key released.
unfoldable pub release : KeyType → ℕ → ℕ
release kt_lshift mode = clear mode km_lshift
release kt_lctrl mode = clear mode km_ctrl
release kt_alt mode = clear mode km_alt
release _ mode = mode

-- The modifiers after the `switch` for a key pressed.
unfoldable pub press : KeyType → ℕ → ℕ
press kt_rshift mode = bit_or mode km_lshift
press kt_lshift mode = bit_or mode km_lshift
press kt_lctrl mode = bit_or mode km_ctrl
press kt_alt mode = bit_or mode km_alt
press _ mode = mode

-- The character of a normal key.
unfoldable pub key_char : ℕ → ℕ → ℕ
key_char mode scancode =
    if bit_and mode km_lshift == 0 then get_or kbdus scancode 0 else get_or shift_kbdus scancode 0

-- The case KT_NORMAL: the character goes into the read queue, and the tty reads it.
pub feed : ℕ → Keyboard → Option Keyboard
feed c kb =
    let tty' = record kb.tty { read_queue = (cb_push c kb.tty.read_queue).1 } in
    elim (do_tty_interrupt tty' kb.console) [
      | none ↦ none
      | some (tty, console) ↦ some (record kb { tty = tty; console = console })
    ]

-- The `switch` for a key pressed.
pub pressed : KeyType → ℕ → Keyboard → Option Keyboard
pressed kt_normal scancode kb = feed (key_char kb.key_mode scancode) kb
pressed t scancode kb = some (record kb { key_mode = press t kb.key_mode })

-- The two writes at the end of `do_kb`, with the value first, as the source has it.
abbrev pub end_of_interrupt : Keyboard → Keyboard
end_of_interrupt kb = record kb { pic = outb 0x20 0x20 (outb 0xA0 0x20 kb.pic) }

-- `none`: the tty ran out of fuel.
pub do_kb : ℕ → Keyboard → Option Keyboard
do_kb scancode kb =
    if not (bit_and scancode 0x80 == 0)
    then some (
        end_of_interrupt
          (record kb { key_mode = release (keytable (bit_and scancode 0x7f)) kb.key_mode }))
    else elim (pressed (keytable scancode) scancode kb) [
      | none ↦ none
      | some kb' ↦ some (end_of_interrupt kb')
    ]

-- `kb_install`: what `inb(0x21)` reads is an argument. Nothing else uses the buffer `keyboard_buf`.
pub kb_install : ℕ → CircularBuf → List (ℕ × ℕ) → CircularBuf × List (ℕ × ℕ)
kb_install mask keyboard_buf sent = (cb_init keyboard_buf, outb (bit_and mask 0xfd) 0x21 sent)
