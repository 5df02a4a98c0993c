-- ===== src/Keyboard/Maps.antt =====
-- The two key maps of src/kernel/keyboard.c, and its table of key types.
use bless_os.Prelude.{ℕ, ◌==◌, leb, ◌&&◌, if◌then◌else◌, List, [], ◌∷◌, Bool}

-- `keytype_t`
pub data KeyType : Type 0 where
  kt_none kt_normal kt_lshift kt_lctrl kt_rshift kt_rctrl kt_capslock : KeyType
  kt_cursor kt_minus kt_alt kt_func kt_numlock kt_scroll : KeyType

-- `a ... b` of a designated initialiser
abbrev in_span : ℕ → ℕ → ℕ → Bool
in_span a b i = leb a i && leb i b

-- `keytable[i]`; an entry that the initialiser leaves out, 0x4a, is 0, which is KT_NONE.
unfoldable pub keytable : ℕ → KeyType
keytable i =
    if in_span 1 28 i
    then kt_normal
    else if i == 29
    then kt_lctrl
    else if in_span 0x1e 0x29 i
    then kt_normal
    else if i == 0x2a
    then kt_lshift
    else if in_span 0x2b 0x35 i
    then kt_normal
    else if i == 0x36
    then kt_rshift
    else if i == 0x37
    then kt_normal
    else if i == 0x38
    then kt_alt
    else if i == 0x39
    then kt_normal
    else if i == 0x3a
    then kt_capslock
    else if in_span 0x3b 0x44 i
    then kt_func
    else if i == 0x45
    then kt_numlock
    else if i == 0x46
    then kt_scroll
    else if in_span 0x47 0x48 i
    then kt_cursor
    else if i == 0x49
    then kt_normal
    else if in_span 0x4b 0x4d i
    then kt_cursor
    else if i == 0x4e
    then kt_normal
    else if in_span 0x4f 0x53 i
    then kt_cursor
    else if i == 0x56
    then kt_normal
    else if in_span 0x57 0x58 i
    then kt_func
    else kt_none

-- The entries that the initialisers write; the rest of the 128 are 0.
abbrev pub kbdus : List ℕ
kbdus =
    0 ∷ 27 ∷ b'1' ∷ b'2' ∷ b'3' ∷ b'4' ∷ b'5' ∷ b'6' ∷ b'7' ∷ b'8' ∷ b'9' ∷ b'0' ∷ b'-' ∷ b'=' ∷ 8
    ∷ 9 ∷ b'q' ∷ b'w' ∷ b'e' ∷ b'r' ∷ b't' ∷ b'y' ∷ b'u' ∷ b'i' ∷ b'o' ∷ b'p' ∷ b'[' ∷ b']' ∷ 10 ∷ 0
    ∷ b'a' ∷ b's' ∷ b'd' ∷ b'f' ∷ b'g' ∷ b'h' ∷ b'j' ∷ b'k' ∷ b'l' ∷ b';' ∷ 39 ∷ b'`' ∷ 0 ∷ 92
    ∷ b'z' ∷ b'x' ∷ b'c' ∷ b'v' ∷ b'b' ∷ b'n' ∷ b'm' ∷ b',' ∷ b'.' ∷ b'/' ∷ 0 ∷ b'*' ∷ 0 ∷ b' ' ∷ 0
    ∷ 0 ∷ 0 ∷ 0 ∷ 0 ∷ 0 ∷ 0 ∷ 0 ∷ 0 ∷ 0 ∷ 0 ∷ 0 ∷ 0 ∷ 0 ∷ 0 ∷ 0 ∷ b'-' ∷ 0 ∷ 0 ∷ 0 ∷ b'+' ∷ 0 ∷ 0
    ∷ 0 ∷ 0 ∷ 0 ∷ 0 ∷ 0 ∷ 0 ∷ 0 ∷ 0 ∷ 0 ∷ []

abbrev pub shift_kbdus : List ℕ
shift_kbdus =
    0 ∷ 27 ∷ b'!' ∷ b'@' ∷ b'#' ∷ b'$' ∷ b'%' ∷ b'^' ∷ b'&' ∷ b'*' ∷ b'(' ∷ b')' ∷ b'_' ∷ b'+' ∷ 8
    ∷ 9 ∷ b'Q' ∷ b'W' ∷ b'E' ∷ b'R' ∷ b'T' ∷ b'Y' ∷ b'U' ∷ b'I' ∷ b'O' ∷ b'P' ∷ b'{' ∷ b'}' ∷ 10 ∷ 0
    ∷ b'A' ∷ b'S' ∷ b'D' ∷ b'F' ∷ b'G' ∷ b'H' ∷ b'J' ∷ b'K' ∷ b'L' ∷ b':' ∷ 34 ∷ b'~' ∷ 0 ∷ b'|'
    ∷ b'Z' ∷ b'X' ∷ b'C' ∷ b'V' ∷ b'B' ∷ b'N' ∷ b'M' ∷ b'<' ∷ b'>' ∷ b'?' ∷ 0 ∷ b'*' ∷ 0 ∷ b' ' ∷ 0
    ∷ 0 ∷ 0 ∷ 0 ∷ 0 ∷ 0 ∷ 0 ∷ 0 ∷ 0 ∷ 0 ∷ 0 ∷ 0 ∷ 0 ∷ 0 ∷ 0 ∷ 0 ∷ b'-' ∷ 0 ∷ 0 ∷ 0 ∷ b'+' ∷ 0 ∷ 0
    ∷ 0 ∷ 0 ∷ 0 ∷ 0 ∷ 0 ∷ 0 ∷ 0 ∷ 0 ∷ 0 ∷ []
