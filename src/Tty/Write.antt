-- ===== src/Tty/Write.antt =====
-- tty_write of src/kernel/tty.c, on the bytes of the write queue.
use bless_os.Prelude.{ℕ, ◌<◌, ◌≡◌, refl, ap, ◌∙◌, List, [], ◌∷◌, ◌++◌, length, arith}
use mathlib.Core.Path.{subst}
use bless_os.CyclicBuffer.{CircularBuf, cb_push, cb_pop_from}
use bless_os.CyclicBuffer.Inv.{IsValid, held, cb_get_count-held, cb_pop_from-IsValid}
use bless_os.CyclicBuffer.Refine.{
  queue, enqueue, dequeue, length-queue, cb_push-enqueue, cb_pop_from-dequeue,
}
use bless_os.Console.{Console, print_c, bright_white, black}
use bless_os.Tty.{Tty, write_loop, tty_write}

-- Bytes printed one after the other, in the colours of a tty.
unfoldable pub print_all : List ℕ → Console → Console
print_all [] con = con
print_all (c ∷ cs) con = print_all cs (print_c c bright_white black con)

pub print_all-append :
    (cs ds : List ℕ) (con : Console) → print_all (cs ++ ds) con ≡ print_all ds (print_all cs con)
unfolding print_all
print_all-append [] ds con = refl
print_all-append (c ∷ cs) ds con = print_all-append cs ds (print_c c bright_white black con)

-- What `cb_pop` does to a buffer whose queue is known.
pub cb_pop_from-cons :
    (c : ℕ) (q : List ℕ) {b : CircularBuf}
    → IsValid b
    → queue b ≡ c ∷ q
    → ((cb_pop_from b).0 ≡ c) × (queue (cb_pop_from b).1 ≡ q)
unfolding dequeue
cb_pop_from-cons c q v e =
    let popped = cb_pop_from-dequeue v ∙ ap dequeue e in
    (ap (λ p. p.0) popped, ap (λ p. p.1) popped)

pub cb_push-append :
    (c : ℕ) {b : CircularBuf}
    → IsValid b
    → held b < 1023
    → queue (cb_push c b).1 ≡ queue b ++ (c ∷ [])
unfolding enqueue
cb_push-append c {b} v room = ground (arith, cb_push-enqueue v c, length-queue b)

pub write_loop-print_all :
    (q : List ℕ) {b : CircularBuf} (con : Console)
    → IsValid b
    → queue b ≡ q
    → let (b', con') = write_loop (length q) b con in
      IsValid b' × (queue b' ≡ []) × (con' ≡ print_all q con)
unfolding write_loop print_all
write_loop-print_all [] con v e = (v, e, refl)
write_loop-print_all (c ∷ q) {b} con v e =
    let popped = cb_pop_from-cons c q v e in
    rw (← popped.0) (
      write_loop-print_all q (print_c (cb_pop_from b).0 bright_white black con)
        (cb_pop_from-IsValid v) popped.1)

-- With a valid write queue, `tty_write` prints its bytes, oldest first, leaves it valid and empty,
-- and changes nothing else of the tty.
pub tty_write-print_all :
    {tty : Tty} (con : Console)
    → IsValid tty.write_queue
    → let (tty', con') = tty_write tty con in
      IsValid tty'.write_queue
      × (queue tty'.write_queue ≡ [])
      × (tty'.read_queue ≡ tty.read_queue)
      × (tty'.termios ≡ tty.termios)
      × (con' ≡ print_all (queue tty.write_queue) con)
unfolding tty_write
tty_write-print_all {tty} con v =
    let b = tty.write_queue in
    let whole : (let (b', con') = write_loop (held b) b con in
        IsValid b' × (queue b' ≡ []) × (con' ≡ print_all (queue b) con)) =
      subst
        (λ n.
          let (b', con') = write_loop n b con in
          IsValid b' × (queue b' ≡ []) × (con' ≡ print_all (queue b) con))
        (length-queue b) (write_loop-print_all (queue b) con v refl) in
    rw (cb_get_count-held v) (whole.0, whole.1, refl, refl, whole.2)
