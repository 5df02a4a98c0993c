-- ===== src/CyclicBuffer/Inv.antt =====
-- The representation invariant of `circular_buf_t`, and what the index arithmetic comes to.
use bless_os.Prelude.{
  ℕ, ◌+◌, ◌-◌, ◌%◌, ◌<◌, ◌≡◌, some, length, length-set, length-replicate, add32, sub32, arith, ◌==◌,
  pos, is_one, is_true,
}
use bless_os.Prelude.Bits.{and_0x3ff}
use bless_os.CyclicBuffer.{
  CircularBuf, circ_buff_size, cb_init, cb_push, cb_pop_from, cb_is_full, cb_is_empty, cb_get_count,
}

pub record IsValid (b : CircularBuf) : Type 0 where
  pub size : length b.bytes ≡ circ_buff_size
  pub head_in : b.head < circ_buff_size
  pub tail_in : b.tail < circ_buff_size

-- The number of bytes held.
abbrev pub held : CircularBuf → ℕ
held b = (b.head + circ_buff_size - b.tail) % circ_buff_size

module _ {b : CircularBuf} (v : IsValid b) where
  -- `cb_get_count` counts the bytes held: the unsigned difference does not disturb the mask.
  pub cb_get_count-held : cb_get_count (some b) ≡ pos (held b)
  unfolding cb_get_count
  cb_get_count-held = ground (arith, and_0x3ff (sub32 b.head b.tail))

  -- The buffer is full at 1023 bytes, not at 1024: one slot stays free.
  pub cb_is_full-held : is_one (cb_is_full (some b)) ≡ (held b == 1023)
  unfolding cb_is_full
  cb_is_full-held = ground (arith, and_0x3ff (sub32 (sub32 b.tail b.head) 1))

  pub cb_is_empty-held : is_true (cb_is_empty (some b)) ≡ (held b == 0)
  unfolding cb_is_empty
  cb_is_empty-held = ground arith

  -- `cb_push` keeps the invariant.
  pub cb_push-IsValid : (e : ℕ) → IsValid (cb_push e b).1
  unfolding cb_push
  cb_push-IsValid e = ground (arith, length-set b.bytes b.head e, and_0x3ff (add32 b.head 1))

  -- `cb_pop` keeps the invariant.
  pub cb_pop_from-IsValid : IsValid (cb_pop_from b).1
  unfolding cb_pop_from
  cb_pop_from-IsValid = ground (arith, and_0x3ff (add32 b.tail 1))

-- `cb_init` establishes the invariant, whatever stood in the buffer.
pub cb_init-IsValid : (b : CircularBuf) → IsValid (cb_init b)
unfolding cb_init
cb_init-IsValid b = record {
  size = length-replicate {A = ℕ} circ_buff_size 0;
  head_in = omega arith;
  tail_in = omega arith;
}
