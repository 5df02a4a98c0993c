-- ===== src/CyclicBuffer.antt =====
-- src/kernel/cyclic_buffer.c and src/include/kernel/cyclic_buffer.h: the byte ring behind the two
-- queues of a tty. A function that updates `*buf` returns the new buffer beside its result; a
-- pointer that the code tests for NULL is an `Option`. Traces at KPL_DUMP are not modelled.
pub mod Inv
pub mod Refine
pub mod Run
use bless_os.Prelude.{
  ℕ, ◌+◌, ◌-◌, bit_and, Option, none, some, List, add32, sub32, set, get_or, replicate, ℤ, pos,
  negsuc, is_true, is_one, if◌then◌else◌, ◌==◌,
}

-- CIRC_BUFF_SIZE
abbrev pub circ_buff_size : ℕ
circ_buff_size = 1024

-- `circular_buf_t`; `bytes` is the array `data`.
pub record CircularBuf : Type 0 where
  pub bytes : List ℕ
  pub head : ℕ
  pub tail : ℕ

-- Everything that `cb_init` finds in the buffer is overwritten.
pub cb_init : CircularBuf → CircularBuf
cb_init buf = record { bytes = replicate circ_buff_size 0; head = 0; tail = 0 }

pub cb_is_full : Option CircularBuf → ℤ
cb_is_full none = negsuc 0
cb_is_full (some buf) =
    if bit_and (sub32 (sub32 buf.tail buf.head) 1) (circ_buff_size - 1) == 0 then pos 1 else pos 0

pub cb_is_empty : Option CircularBuf → ℤ
cb_is_empty none = negsuc 0
cb_is_empty (some buf) = if buf.head == buf.tail then pos 1 else pos 0

pub cb_get_count : Option CircularBuf → ℤ
cb_get_count none = negsuc 0
cb_get_count (some buf) = pos (bit_and (sub32 buf.head buf.tail) (circ_buff_size - 1))

-- A write outside of `bytes` would change nothing here; `head` is below the size in a valid buffer.
pub cb_push : ℕ → CircularBuf → ℤ × CircularBuf
cb_push element buf = if is_one (cb_is_full (some buf)) then (negsuc 0, buf) else (
  pos 0,
  record buf {
    bytes = set buf.bytes buf.head element;
    head = bit_and (add32 buf.head 1) (circ_buff_size - 1);
  },
)

-- `cb_pop` behind its NULL test; 255 is `(u8int)-1`.
pub cb_pop_from : CircularBuf → ℕ × CircularBuf
cb_pop_from buf = if is_true (cb_is_empty (some buf)) then (255, buf) else (
  get_or buf.bytes buf.tail 0,
  record buf { tail = bit_and (add32 buf.tail 1) (circ_buff_size - 1) },
)

pub cb_pop : Option CircularBuf → ℕ × Option CircularBuf
cb_pop none = (255, none)
cb_pop (some buf) = let (c, buf') = cb_pop_from buf in (c, some buf')
