-- ===== src/Sched/Desc.antt =====
-- The base address in a descriptor that set_tss_ldt_desc of src/kernel/sched.c has written.
use bless_os.Prelude.{ℕ, ◌+◌, ◌*◌, ◌/◌, ◌%◌, ◌<◌, ◌^◌, ◌≡◌, ◌⊎◌, ◌∙◌, inl, arith}
use bless_os.Prelude.Bits.{and_0xff}
use bless_os.Prelude.Ram.{Ram}
use bless_os.Sched.{Sched, set_tss_ldt_desc, set_tss_desc, sched_init, first_tss, first_ldt}

-- Where the processor reads the base of the descriptor at `dest`: bytes 2, 3, 4 and 7.
abbrev pub base_at : Ram → ℕ → ℕ
base_at m dest = m (dest + 2) + 256 * m (dest + 3) + 65536 * m (dest + 4) + 16777216 * m (dest + 7)

-- For an address that is a word, the descriptor holds the address whole, with the type asked for
-- and byte 6 clear; byte 1 keeps what it was.
pub base_at-set_tss_ldt_desc :
    (dest addr type : ℕ) (m : Ram)
    → addr < 2 ^ 32
    → let m' = set_tss_ldt_desc dest addr type m in
      (base_at m' dest ≡ addr)
      × (m' (dest + 5) ≡ type)
      × (m' (dest + 6) ≡ 0)
      × (m' (dest + 1) ≡ m (dest + 1))
unfolding set_tss_ldt_desc
base_at-set_tss_ldt_desc dest addr type m h = ground (
  arith,
  and_0xff addr,
  and_0xff (addr / 2 ^ 8),
  and_0xff (addr / 2 ^ 16),
  and_0xff (addr / 2 ^ 24),
)

pub set_tss_ldt_desc-outside :
    (dest addr type a : ℕ) (m : Ram)
    → (a < dest) ⊎ (dest + 7 < a)
    → set_tss_ldt_desc dest addr type m a ≡ m a
unfolding set_tss_ldt_desc
set_tss_ldt_desc-outside dest addr type a m h = ground arith

-- `sched_init` makes the two descriptors lead to task 0 and to its local table.
pub sched_init-bases :
    (s : Sched)
    → s.task0 + 252 < 2 ^ 32
    → (base_at (sched_init s).gdt first_tss ≡ (sched_init s).task0)
      × (base_at (sched_init s).gdt first_ldt ≡ (sched_init s).task0 + 252)
unfolding sched_init
sched_init-bases s bound =
    let m : Ram = set_tss_desc s.task0 s.gdt in
    let addr : (s.task0 + 252) % 2 ^ 32 ≡ s.task0 + 252 = omega arith in
    let first = base_at-set_tss_ldt_desc first_tss s.task0 0x89 s.gdt (omega arith) in
    let second =
      base_at-set_tss_ldt_desc first_ldt ((s.task0 + 252) % 2 ^ 32) 0x82 m (omega arith) in
    let kept = λ (a : ℕ) (h : a < 40).
      set_tss_ldt_desc-outside first_ldt ((s.task0 + 252) % 2 ^ 32) 0x82 a m (inl h) in
    (
      rw
          (
            kept 34 (omega arith),
            kept 35 (omega arith),
            kept 36 (omega arith),
            kept 39 (omega arith),
          )
          (first.0),
      second.0 ∙ addr,
    )
