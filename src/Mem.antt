-- ===== src/Mem.antt =====
-- src/kernel/mem.c: the byte loops `memcpy`, `memset` and `memsetw` on memory as a function from
-- addresses to bytes. `memcpy` takes its source before its destination, as in the source.
pub mod Copy
use bless_os.Prelude.{ℕ, zero, suc, ◌+◌, ◌%◌, ◌/◌}
use bless_os.Prelude.Ram.{Ram, store}

-- `for (; n != 0; --n) *dp++ = *sp++;`
pub memcpy : Ram → (src dst n : ℕ) → Ram
memcpy m src dst zero = m
memcpy m src dst (suc n) = memcpy (store m dst (m src)) (src + 1) (dst + 1) n

pub memset : Ram → (dest val count : ℕ) → Ram
memset m dest val zero = m
memset m dest val (suc count) = memset (store m dest (val % 256)) (dest + 1) val count

-- A store of an `unsigned short`, low byte first.
abbrev pub store_word : Ram → ℕ → ℕ → Ram
store_word m a w = store (store m a (w % 256)) (a + 1) (w / 256 % 256)

pub memsetw : Ram → (dest val count : ℕ) → Ram
memsetw m dest val zero = m
memsetw m dest val (suc count) = memsetw (store_word m dest val) (dest + 2) val count
