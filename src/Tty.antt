-- ===== src/Tty.antt =====
-- src/kernel/tty.c and src/include/kernel/tty.h, with what it uses of src/include/termios.h: the line
-- between the keyboard and the screen. The state is the tty and the console that it prints on. The
-- pointer `tty->write` of the source is set once, to `tty_write`, and is that function here.
pub mod Write
pub mod Echo
use bless_os.Prelude.{
  ℕ, zero, suc, bit_and, bit_or, Option, none, some, List, [], ◌∷◌, Bool, true, false, not, ◌||◌,
  ◌&&◌, leb, ◌==◌, if◌then◌else◌, ℤ, pos, negsuc, is_true, replicate,
}
use bless_os.CyclicBuffer.{
  CircularBuf, circ_buff_size, cb_push, cb_pop_from, cb_is_empty, cb_get_count,
}
use bless_os.Console.{Console, print_c, bright_white, black}

abbrev pub inlcr : ℕ
inlcr = 0o100

abbrev pub igncr : ℕ
igncr = 0o200

abbrev pub icrnl : ℕ
icrnl = 0o400

abbrev pub echo : ℕ
echo = 0o10

abbrev pub kbd_cr : ℕ
kbd_cr = 0x0d

abbrev pub kbd_lf : ℕ
kbd_lf = 0x0a

-- `termios_t`
pub record Termios : Type 0 where
  pub c_iflag : ℕ
  pub c_oflag : ℕ
  pub c_cflag : ℕ
  pub c_lflag : ℕ
  pub c_cc : List ℕ

pub record Tty : Type 0 where
  pub read_queue : CircularBuf
  pub write_queue : CircularBuf
  pub termios : Termios

-- `_I_FLAG` and `_L_FLAG` as conditions.
abbrev pub flag : ℕ → ℕ → Bool
flag word f = not (bit_and word f == 0)

-- `while (char_count--) print_c(cb_pop(&tty->write_queue), BRIGHT_WHITE, BLACK);`
pub write_loop : ℕ → CircularBuf → Console → CircularBuf × Console
write_loop zero queue con = (queue, con)
write_loop (suc n) queue con =
    let (c, queue') = cb_pop_from queue in write_loop n queue' (print_c c bright_white black con)

-- The count as the `u32int` that the loop counts down; the queue is no NULL.
abbrev pub char_count : ℤ → ℕ
char_count (pos n) = n
char_count (negsuc n) = 0xffffffff

pub tty_write : Tty → Console → Tty × Console
tty_write tty con =
    let (queue, con') =
      write_loop (char_count (cb_get_count (some tty.write_queue))) tty.write_queue con in
    (record tty { write_queue = queue }, con')

-- The translation of an input byte; `none` is `continue`.
pub input_char : ℕ → ℕ → Option ℕ
input_char iflag c =
    if c == kbd_cr
    then (if flag iflag icrnl then some kbd_lf else if flag iflag igncr then none else some c)
    else if c == kbd_lf && flag iflag inlcr
    then some kbd_cr
    else some c

-- The pushes of the echo.
pub echo_char : ℕ → CircularBuf → CircularBuf
echo_char c queue =
    if c == kbd_lf
    then (cb_push kbd_cr (cb_push c queue).1).1
    else if leb 32 c
    then (cb_push c queue).1
    else if c == 8
    then (cb_push c queue).1
    else queue

-- The loop's body behind `cb_pop`.
pub parse_byte : ℕ → Tty → Console → Tty × Console
parse_byte c tty con = elim (input_char tty.termios.c_iflag c) [
  | none ↦ (tty, con)
  | some c' ↦
      if flag tty.termios.c_lflag echo
      then tty_write (record tty { write_queue = echo_char c' tty.write_queue }) con
      else (tty, con)
]

-- `none`: the fuel ran out before the read queue was empty.
pub parse_loop : ℕ → Tty → Console → Option (Tty × Console)
parse_loop zero tty con = none
parse_loop (suc fuel) tty con = elim (is_true (cb_is_empty (some tty.read_queue))) [
  | true ↦ some (tty, con)
  | false ↦
      let (c, queue) = cb_pop_from tty.read_queue in
      let (tty', con') = parse_byte c (record tty { read_queue = queue }) con in
      parse_loop fuel tty' con'
]

-- The fuel is the size of the read queue.
pub parse_key : Tty → Console → Option (Tty × Console)
unfolding parse_loop
parse_key tty con = parse_loop circ_buff_size tty con

abbrev pub do_tty_interrupt : Tty → Console → Option (Tty × Console)
do_tty_interrupt tty con = parse_key tty con

-- The buffers of `main_tty`: the initialiser leaves `{ "", 0, 0 }`.
abbrev pub empty_buf : CircularBuf
empty_buf = record { bytes = replicate circ_buff_size 0; head = 0; tail = 0 }

-- OPOST | ONLCR, ICANON | ECHO | ECHOCTL | ECHOKE, and INIT_C_CC.
abbrev pub main_tty : Tty
main_tty = record {
  read_queue = empty_buf;
  write_queue = empty_buf;
  termios = record {
    c_iflag = 0;
    c_oflag = bit_or 0o1 0o4;
    c_cflag = 0;
    c_lflag = bit_or (bit_or (bit_or 0o2 echo) 0o1000) 0o4000;
    c_cc =
        0o3 ∷ 0o34 ∷ 0o177 ∷ 0o25 ∷ 0o4 ∷ 0 ∷ 1 ∷ 0 ∷ 0o21 ∷ 0o23 ∷ 0o31 ∷ 0 ∷ 0o22 ∷ 0o17 ∷ 0o27
        ∷ 0o26 ∷ 0 ∷ [];
  };
}
