-- ===== src/Mem/Copy.antt =====
-- What the loops of src/kernel/mem.c leave in memory, at every address.
use bless_os.Prelude.{
  ℕ, zero, suc, ◌+◌, ◌-◌, ◌*◌, ◌%◌, ◌/◌, ◌≤◌, ◌≡◌, ◌⊎◌, arith, Bool, ltb, leb, ◌==◌, ◌&&◌,
  if◌then◌else◌,
}
use bless_os.Prelude.Ram.{Ram, store}
use bless_os.Mem.{memcpy, memset, memsetw, store_word}

-- `a` lies in the `n` cells from `base` on.
abbrev pub within : ℕ → ℕ → ℕ → Bool
within base n a = leb base a && ltb a (base + n)

-- If the destination does not stand above a source that it meets, `memcpy` moves the bytes that
-- stood at the source before, and changes no byte outside of the destination.
pub memcpy_lem :
    (m : Ram) (src dst n a : ℕ)
    → (dst ≤ src) ⊎ (src + n ≤ dst)
    → memcpy m src dst n a ≡ (if within dst n a then m (src + (a - dst)) else m a)
unfolding memcpy
memcpy_lem m src dst zero a h = ground arith
memcpy_lem m src dst (suc n) a h =
    ground (arith, memcpy_lem (store m dst (m src)) (src + 1) (dst + 1) n a)

pub memset_lem :
    (m : Ram) (dest val count a : ℕ)
    → memset m dest val count a ≡ (if within dest count a then val % 256 else m a)
unfolding memset
memset_lem m dest val zero a = ground arith
memset_lem m dest val (suc count) a =
    ground (arith, memset_lem (store m dest (val % 256)) (dest + 1) val count a)

-- `memsetw` fills `count` two-byte cells, low byte first, and changes no byte outside of them.
pub memsetw_lem :
    (m : Ram) (dest val count a : ℕ)
    → memsetw m dest val count a ≡ (
        if within dest (2 * count) a
        then (if (a - dest) % 2 == 0 then val % 256 else val / 256 % 256)
        else m a)
unfolding memsetw
memsetw_lem m dest val zero a = ground arith
memsetw_lem m dest val (suc count) a =
    ground (arith, memsetw_lem (store_word m dest val) (dest + 2) val count a)
