-- ===== src/CyclicBuffer/Refine.antt =====
-- The ring of src/kernel/cyclic_buffer.c against a queue of bounded length.
use mathlib.Core.Path.{ap₂}
use bless_os.Prelude.{
  ℕ, zero, suc, ◌+◌, ◌-◌, ◌%◌, ◌<◌, ◌≡◌, ◌≢◌, refl, ap, List, [], ◌∷◌, ◌++◌, length, set, get_or,
  get_or-set_self, get_or-set_ne, add32, arith, ◌==◌, if◌then◌else◌, bit_and, Bool-cases, inl, inr,
  ℤ, pos, negsuc,
}
use bless_os.Prelude.Bits.{and_0x3ff}
use bless_os.CyclicBuffer.{CircularBuf, circ_buff_size, cb_push, cb_pop_from}
use bless_os.CyclicBuffer.Inv.{IsValid, held, cb_is_full-held, cb_is_empty-held}

-- The `n` bytes from position `t` on, positions going round at the size.
unfoldable pub from : List ℕ → ℕ → ℕ → List ℕ
from bytes t zero = []
from bytes t (suc n) = get_or bytes (t % circ_buff_size) 0 ∷ from bytes (t + 1) n

pub length-from : (bytes : List ℕ) (t n : ℕ) → length (from bytes t n) ≡ n
unfolding from
length-from bytes t zero = refl
length-from bytes t (suc n) = ap suc (length-from bytes (t + 1) n)

-- The bytes of a buffer, oldest first.
unfoldable pub queue : CircularBuf → List ℕ
queue b = from b.bytes b.tail (held b)

pub length-queue : (b : CircularBuf) → length (queue b) ≡ held b
unfolding queue
length-queue b = length-from b.bytes b.tail (held b)

-- The queue that a client may think of.
unfoldable pub enqueue : ℕ → List ℕ → ℤ × List ℕ
enqueue e q = if length q == 1023 then (negsuc 0, q) else (pos 0, q ++ (e ∷ []))

unfoldable pub dequeue : List ℕ → ℕ × List ℕ
dequeue [] = (255, [])
dequeue (c ∷ q) = (c, q)

-- Only the position's remainder counts.
from-mod :
    (bytes : List ℕ) (s t n : ℕ)
    → s % circ_buff_size ≡ t % circ_buff_size
    → from bytes s n ≡ from bytes t n
unfolding from
from-mod bytes s t zero e = refl
from-mod bytes s t (suc n) e =
    ap₂ ◌∷◌ (ap (λ k. get_or bytes k 0) e) (from-mod bytes (s + 1) (t + 1) n (omega arith))

-- Writing just past a window that leaves a slot free extends it by that byte.
from-set :
    (bytes : List ℕ) (t n i x : ℕ)
    → length bytes ≡ circ_buff_size
    → n < circ_buff_size
    → i ≡ (t + n) % circ_buff_size
    → from (set bytes i x) t (suc n) ≡ from bytes t n ++ (x ∷ [])
unfolding from
from-set bytes t zero i x size fits e =
    let here : i ≡ t % circ_buff_size = omega arith in
    rw (← here, get_or-set_self bytes i x 0 (omega arith))
from-set bytes t (suc n) i x size fits e =
    ap₂ ◌∷◌ (get_or-set_ne bytes x 0 (omega arith))
      (from-set bytes (t + 1) n i x size (omega arith) (omega arith))

from-suc :
    (bytes : List ℕ) (t n : ℕ)
    → n ≢ 0
    → from bytes t n ≡ get_or bytes (t % circ_buff_size) 0 ∷ from bytes (t + 1) (n - 1)
unfolding from
from-suc bytes t zero p = absurd (p refl)
from-suc bytes t (suc n) p = ap (λ k. from bytes t (suc k)) (omega arith)

module _ {b : CircularBuf} (v : IsValid b) where
  -- The window after a push that finds room.
  queue-set :
      (e : ℕ)
      → held b ≢ 1023
      → from
          (set b.bytes b.head e)
          b.tail
          ((bit_and (add32 b.head 1) 1023 + circ_buff_size - b.tail) % circ_buff_size)
        ≡ queue b ++ (e ∷ [])
  unfolding queue
  queue-set e room =
      let grown : (bit_and (add32 b.head 1) 1023 + circ_buff_size - b.tail) % circ_buff_size
          ≡ suc (held b) =
        omega (arith, and_0x3ff (add32 b.head 1)) in
      rw grown (from-set b.bytes b.tail (held b) b.head e v.size (omega arith) (omega arith))

  -- `cb_push` returns the status of the bounded queue, and leaves the buffer holding it.
  pub cb_push-enqueue : (e : ℕ) → let (s, b') = cb_push e b in (s, queue b') ≡ enqueue e (queue b)
  unfolding cb_push enqueue queue
  cb_push-enqueue e = elim (Bool-cases (held b == 1023)) [
    | inl full ↦ rw (cb_is_full-held v, length-from, full)
    | inr room ↦
        rw (cb_is_full-held v, length-from, room)
          (ap (λ q. (pos 0, q)) (queue-set e (ground arith)))
  ]

  -- The window after a pop.
  queue-advance :
      held b ≢ 0
      → from b.bytes
          (bit_and (add32 b.tail 1) 1023)
          ((b.head + circ_buff_size - bit_and (add32 b.tail 1) 1023) % circ_buff_size)
        ≡ from b.bytes (b.tail + 1) (held b - 1)
  queue-advance some_held =
      let shrunk : (b.head + circ_buff_size - bit_and (add32 b.tail 1) 1023) % circ_buff_size
          ≡ held b - 1 =
        omega (arith, and_0x3ff (add32 b.tail 1)) in
      rw shrunk (
        from-mod b.bytes (bit_and (add32 b.tail 1) 1023) (b.tail + 1) (held b - 1)
          (omega (arith, and_0x3ff (add32 b.tail 1))))

  -- `cb_pop` takes the oldest byte; on an empty buffer it returns 255 and changes nothing.
  pub cb_pop_from-dequeue : let (c, b') = cb_pop_from b in (c, queue b') ≡ dequeue (queue b)
  unfolding cb_pop_from dequeue from queue
  cb_pop_from-dequeue = elim (Bool-cases (held b == 0)) [
    | inl empty ↦
        let none_held : held b ≡ 0 = ground arith in rw (cb_is_empty-held v, empty, none_held)
    | inr some_held ↦
        let ne : held b ≢ 0 = ground arith in
        rw (cb_is_empty-held v, some_held, from-suc b.bytes b.tail (held b) ne, queue-advance ne)
          (ap (λ k. (get_or b.bytes k 0, from b.bytes (b.tail + 1) (held b - 1))) (omega arith))
  ]
