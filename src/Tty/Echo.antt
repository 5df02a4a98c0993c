-- ===== src/Tty/Echo.antt =====
-- The echo: what parse_key of src/kernel/tty.c shows of the bytes that it reads.
use bless_os.Prelude.{
  ℕ, zero, suc, ◌<◌, ◌≡◌, refl, ap, sym, ◌∙◌, none, some, List, [], ◌∷◌, ◌++◌, length, arith, leb,
  ◌==◌, ◌||◌, if◌then◌else◌, Bool-cases, Option-cases, inl, inr, is_true, true, false,
}
use mathlib.Core.Path.{ap₂}
use bless_os.CyclicBuffer.{CircularBuf, circ_buff_size, cb_push, cb_pop_from, cb_is_empty}
use bless_os.CyclicBuffer.Inv.{
  IsValid, held, cb_is_empty-held, cb_pop_from-IsValid, cb_push-IsValid,
}
use bless_os.CyclicBuffer.Refine.{queue, length-queue}
use bless_os.Console.{Console}
use bless_os.Tty.{
  Tty, Termios, flag, echo, kbd_lf, kbd_cr, input_char, echo_char, parse_byte, parse_loop,
  parse_key,
}
use bless_os.Tty.Write.{
  print_all, print_all-append, cb_pop_from-cons, cb_push-append, tty_write-print_all,
}

-- Both queues are well formed, and nothing waits to be written.
pub record IsReady (tty : Tty) : Type 0 where
  pub reads : IsValid tty.read_queue
  pub writes : IsValid tty.write_queue
  pub written : queue tty.write_queue ≡ []

-- What is shown for one character after the translation of the input.
unfoldable pub shown : ℕ → List ℕ
shown c = if c == kbd_lf then kbd_lf ∷ kbd_cr ∷ [] else if leb 32 c || c == 8 then c ∷ [] else []

-- What is shown for one byte of input.
unfoldable pub echo_of : Termios → ℕ → List ℕ
echo_of t c = elim (input_char t.c_iflag c) [
  | none ↦ []
  | some c' ↦ if flag t.c_lflag echo then shown c' else []
]

unfoldable pub echo_all : Termios → List ℕ → List ℕ
echo_all t [] = []
echo_all t (c ∷ cs) = echo_of t c ++ echo_all t cs

-- Into an empty queue the echo's pushes all fit.
echo_char-shown :
    (c : ℕ) {b : CircularBuf}
    → IsValid b
    → queue b ≡ []
    → IsValid (echo_char c b) × (queue (echo_char c b) ≡ shown c)
unfolding echo_char shown
echo_char-shown c {b} v e =
    let none_held : held b ≡ 0 = sym (length-queue b) ∙ ap length e in
    let once = cb_push-append c v (omega arith) ∙ ap (λ q. q ++ (c ∷ [])) e in
    let v' = cb_push-IsValid v c in
    let one_held : held (cb_push c b).1 ≡ 1 = sym (length-queue (cb_push c b).1) ∙ ap length once in
    let twice = cb_push-append kbd_cr v' (omega arith) ∙ ap (λ q. q ++ (kbd_cr ∷ [])) once in
    ground (arith, once, twice, v', cb_push-IsValid v' kbd_cr)

-- One byte of input: the console shows its echo, and the tty waits for the next.
parse_byte-echo_of :
    (c : ℕ) {tty : Tty} (con : Console)
    → IsReady tty
    → let (tty', con') = parse_byte c tty con in
      IsReady tty'
      × (tty'.read_queue ≡ tty.read_queue)
      × (tty'.termios ≡ tty.termios)
      × (con' ≡ print_all (echo_of tty.termios c) con)
unfolding parse_byte echo_of print_all
parse_byte-echo_of c {tty} con r = elim (Option-cases (input_char tty.termios.c_iflag c)) [
  | inl skipped ↦ rw (skipped, parse_byte, echo_of) (r, refl, refl, refl)
  | inr (c', got) ↦
      rw (got, parse_byte, echo_of)
        (elim (Bool-cases (flag tty.termios.c_lflag echo)) [
          | inl on ↦
              let pushed = echo_char-shown c' r.writes r.written in
              let tty' : Tty = record tty { write_queue = echo_char c' tty.write_queue } in
              let w = tty_write-print_all {tty = tty'} con pushed.0 in
              rw on (
                record { reads = rw w.2 r.reads; writes = w.0; written = w.1 },
                w.2,
                w.3,
                w.4 ∙ ap (λ q. print_all q con) pushed.1,
              )
          | inr off ↦ rw off (r, refl, refl, refl)
        ])
]

parse_loop-echo_all :
    (cs : List ℕ) (fuel : ℕ) {tty : Tty} (con : Console)
    → IsReady tty
    → queue tty.read_queue ≡ cs
    → length cs < fuel
    → (tty' : Tty) × (parse_loop fuel tty con
        ≡ some (tty', print_all (echo_all tty.termios cs) con))
      × IsReady tty'
      × (queue tty'.read_queue ≡ [])
      × (tty'.termios ≡ tty.termios)
unfolding parse_loop echo_all print_all
parse_loop-echo_all cs zero con r e fuel = absurd (omega arith)
parse_loop-echo_all [] (suc n) {tty} con r e fuel =
    let empty : held tty.read_queue ≡ 0 = sym (length-queue tty.read_queue) ∙ ap length e in
    let stop : is_true (cb_is_empty (some tty.read_queue)) ≡ true =
      ground (arith, cb_is_empty-held r.reads) in
    rw (stop, parse_loop) (tty, refl, r, e, refl)
parse_loop-echo_all (c ∷ cs) (suc n) {tty} con r e fuel =
    let more : held tty.read_queue ≡ suc (length cs) =
      sym (length-queue tty.read_queue) ∙ ap length e in
    let go : is_true (cb_is_empty (some tty.read_queue)) ≡ false =
      ground (arith, cb_is_empty-held r.reads) in
    let popped = cb_pop_from-cons c cs r.reads e in
    let (c', rest) = cb_pop_from tty.read_queue in
    let tm = tty.termios in
    let tty' : Tty = record tty { read_queue = rest } in
    let step =
      parse_byte-echo_of c' {tty = tty'} con
        (record { reads = cb_pop_from-IsValid r.reads; writes = r.writes; written = r.written }) in
    let (left, done, ready, none_left, same) =
      parse_loop-echo_all cs n {tty = (parse_byte c' tty' con).0} (parse_byte c' tty' con).1 step.0
        (ap queue step.1 ∙ popped.1) (omega arith) in
    let shows =
      ap₂ (λ t k. print_all (echo_all t cs) k) step.2 step.3
      ∙ sym (print_all-append (echo_of tm c') (echo_all tm cs) con)
      ∙ ap (λ b. print_all (echo_of tm b ++ echo_all tm cs) con) popped.0 in
    rw (go, parse_loop)
      (left, done ∙ ap (λ k. some (left, k)) shows, ready, none_left, same ∙ step.2)

-- If both queues are valid and nothing waits to be written, `parse_key` ends within its fuel,
-- having read the whole read queue and printed the echo of each byte in order; both queues are then
-- valid and empty, and the settings are as they were.
pub parse_key-echo_all :
    {tty : Tty} (con : Console)
    → IsReady tty
    → (tty' : Tty) × (parse_key tty con
        ≡ some (tty', print_all (echo_all tty.termios (queue tty.read_queue)) con))
      × IsReady tty'
      × (queue tty'.read_queue ≡ [])
      × (tty'.termios ≡ tty.termios)
unfolding parse_key
parse_key-echo_all {tty} con r =
    parse_loop-echo_all (queue tty.read_queue) circ_buff_size con r refl
      (omega (arith, length-queue tty.read_queue))
