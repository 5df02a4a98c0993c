-- ===== src/CyclicBuffer/Run.antt =====
-- Calls of src/kernel/cyclic_buffer.c in a row, against the same calls on the bounded queue.
use bless_os.Prelude.{ℕ, ◌≡◌, refl, some, List, [], ◌∷◌, length, ℤ, pos}
use bless_os.CyclicBuffer.{CircularBuf, cb_push, cb_pop_from, cb_get_count}
use bless_os.CyclicBuffer.Inv.{IsValid, cb_get_count-held, cb_push-IsValid, cb_pop_from-IsValid}
use bless_os.CyclicBuffer.Refine.{
  queue, enqueue, dequeue, length-queue, cb_push-enqueue, cb_pop_from-dequeue,
}

pub data Call : Type 0 where
  push : ℕ → Call
  pop count : Call

-- What the calls return, in order.
pub run : CircularBuf → List Call → List ℤ
run b [] = []
run b (push e ∷ calls) = let (s, b') = cb_push e b in s ∷ run b' calls
run b (pop ∷ calls) = let (c, b') = cb_pop_from b in pos c ∷ run b' calls
run b (count ∷ calls) = cb_get_count (some b) ∷ run b calls

pub run_queue : List ℕ → List Call → List ℤ
run_queue q [] = []
run_queue q (push e ∷ calls) = let (s, q') = enqueue e q in s ∷ run_queue q' calls
run_queue q (pop ∷ calls) = let (c, q') = dequeue q in pos c ∷ run_queue q' calls
run_queue q (count ∷ calls) = pos (length q) ∷ run_queue q calls

-- For a valid buffer (1024 bytes, both indices below 1024), any sequence of pushes, pops and counts
-- returns what it returns on the queue of at most 1023 bytes that the buffer holds.
pub run-run_queue :
    (calls : List Call) {b : CircularBuf} → IsValid b → run b calls ≡ run_queue (queue b) calls
unfolding run run_queue
run-run_queue [] v = refl
run-run_queue (push e ∷ calls) v =
    rw (run-run_queue calls (cb_push-IsValid v e), ← cb_push-enqueue v e)
run-run_queue (pop ∷ calls) v =
    rw (run-run_queue calls (cb_pop_from-IsValid v), ← cb_pop_from-dequeue v)
run-run_queue (count ∷ calls) v = rw (run-run_queue calls v, cb_get_count-held v, length-queue)
