-- ===== src/Examples/Devices.antt =====
-- The byte ring, the screen, the tty and the keyboard.
use bless_os.Prelude.{ℕ, ◌%◌, ◌≡◌, refl, some, List, [], ◌∷◌, arith, length-replicate}
use bless_os.Prelude.Ram.{Ram}
use bless_os.CyclicBuffer.{circ_buff_size, cb_push}
use bless_os.CyclicBuffer.Inv.{IsValid, cb_push-IsValid}
use bless_os.CyclicBuffer.Refine.{queue, from}
use bless_os.CyclicBuffer.Run.{push, pop, count, run, run_queue, run-run_queue}
use bless_os.Console.{Console, print_c, set_cursor}
use bless_os.Console.Bounds.{InScreen}
use bless_os.Console.Grid.{grid, type_byte, print_c-type_byte}
use bless_os.Console.Cursor.{Synced, crtc_cursor, print_c-Synced}
use bless_os.Tty.{Tty, empty_buf, main_tty, parse_key}
use bless_os.Tty.Write.{print_all}
use bless_os.Tty.Echo.{IsReady, echo_all, parse_key-echo_all}
use bless_os.Keyboard.{Keyboard}
use bless_os.Keyboard.Typing.{IsIdle, do_kbs, typed_all, AllCodes, do_kbs-typed_all}

empty_buf-IsValid : IsValid empty_buf
empty_buf-IsValid = record {
  size = length-replicate {A = ℕ} circ_buff_size 0;
  head_in = omega arith;
  tail_in = omega arith;
}

run-run_queue_example :
    run empty_buf (push 7 ∷ push 8 ∷ pop ∷ count ∷ pop ∷ pop ∷ [])
    ≡ run_queue (queue empty_buf) (push 7 ∷ push 8 ∷ pop ∷ count ∷ pop ∷ pop ∷ [])
run-run_queue_example =
    run-run_queue (push 7 ∷ push 8 ∷ pop ∷ count ∷ pop ∷ pop ∷ []) empty_buf-IsValid

abbrev memory : Ram
memory a = a % 251

-- The cursor in the last cell of the screen.
abbrev corner : Console
corner = set_cursor 79 24 (record { csr_x = 0; csr_y = 0; vram = memory; ports = [] })

corner-InScreen : InScreen corner
unfolding set_cursor
corner-InScreen = record { x_in = omega arith; y_in = omega arith }

corner-Synced : Synced corner
unfolding set_cursor crtc_cursor
corner-Synced = refl

print_c-type_byte_example : grid (print_c b'A' 15 0 corner) ≡ type_byte b'A' 15 (grid corner)
print_c-type_byte_example = print_c-type_byte b'A' 15 0 corner-InScreen (omega arith)

print_c-Synced_example : InScreen (print_c 9 15 0 corner) × Synced (print_c 9 15 0 corner)
print_c-Synced_example = print_c-Synced 9 15 0 corner-InScreen corner-Synced

-- A tty with two bytes to write, and one with a line to read.
abbrev writing : Tty
writing = record main_tty { write_queue = (cb_push b'b' (cb_push b'a' empty_buf).1).1 }

abbrev reading : Tty
reading = record main_tty { read_queue = (cb_push 10 (cb_push b'a' empty_buf).1).1 }

two_bytes-IsValid : (c d : ℕ) → IsValid (cb_push d (cb_push c empty_buf).1).1
two_bytes-IsValid c d = cb_push-IsValid (cb_push-IsValid empty_buf-IsValid c) d

queue_empty : queue empty_buf ≡ []
unfolding queue from
queue_empty = refl

reading-IsReady : IsReady reading
reading-IsReady = record {
  reads = two_bytes-IsValid b'a' 10;
  writes = empty_buf-IsValid;
  written = queue_empty;
}

parse_key-echo_all_example :
    (tty' : Tty) × (parse_key reading corner
      ≡ some (tty', print_all (echo_all reading.termios (queue reading.read_queue)) corner))
    × IsReady tty'
    × (queue tty'.read_queue ≡ [])
    × (tty'.termios ≡ reading.termios)
parse_key-echo_all_example = parse_key-echo_all {tty = reading} corner reading-IsReady

abbrev idle : Keyboard
idle = record { key_mode = 0; tty = main_tty; console = corner; pic = [] }

idle-IsIdle : IsIdle idle
idle-IsIdle = record {
  ready = record { reads = empty_buf-IsValid; writes = empty_buf-IsValid; written = queue_empty };
  read = queue_empty;
  mode_in = omega arith;
}

-- Shift down, `a`, shift up, return.
abbrev codes : List ℕ
codes = 0x2a ∷ 0x1e ∷ 0xaa ∷ 0x1c ∷ []

codes-AllCodes : AllCodes codes
codes-AllCodes = (omega arith, (omega arith, (omega arith, (omega arith, tt))))

do_kbs-typed_all_example :
    (kb' : Keyboard) × (do_kbs codes idle ≡ some kb')
    × IsIdle kb'
    × (kb'.console ≡ print_all (typed_all idle.tty.termios 0 codes) idle.console)
do_kbs-typed_all_example = do_kbs-typed_all codes codes-AllCodes idle-IsIdle
