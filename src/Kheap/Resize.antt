-- ===== src/Kheap/Resize.antt =====
-- expand and contract of src/kernel/kheap.c. Each loop runs the rounds that its test leaves.
pub mod Mapped
pub mod Range
use bless_os.Prelude.{
  ℕ, zero, suc, ◌+◌, ◌-◌, ◌*◌, ◌/◌, ltb, leb, ◌==◌, if◌then◌else◌, Outcome, ok, halted, fault,
  ◌>>=◌, add32, sub32,
}
use bless_os.Memory.{Mm, get_free_page, get_page_addr, put_page, remove_page}
use bless_os.Kheap.{Heap, assert, round_size, heap_min_size}

-- `put_page((u32int)get_free_page(), address)`
unfoldable pub put_free_page : ℕ → Mm → Outcome Mm
put_free_page address mm =
    let (page, mm') = get_free_page mm in put_page page address mm' >>= λ r. ok r.1

-- One round of the loop of `expand`.
unfoldable pub map_page : ℕ → Mm → Outcome Mm
map_page address mm = if get_page_addr address mm == 0 then put_free_page address mm else ok mm

-- The loop over the pages of a range.
unfoldable pub each_page : (ℕ → Mm → Outcome Mm) → (rounds address : ℕ) → Mm → Outcome Mm
each_page step zero address mm = ok mm
each_page step (suc rounds) address mm =
    step address mm >>= each_page step rounds (add32 address 0x1000)

-- The rounds of `while (i < stop) { …; i += 0x1000; }`.
abbrev pub rounds : (i stop : ℕ) → ℕ
rounds i stop = (stop - i + 0xfff) / 0x1000

unfoldable pub expand : ℕ → Heap → Outcome Heap
expand new_size h =
    let old_size = sub32 h.end_address h.start_address in
    let size = round_size new_size in
    let h₁ = assert (ltb old_size new_size) h in
    let h₂ = assert (leb (add32 h.start_address size) h.max_address) h₁ in
    each_page map_page (rounds old_size size) (add32 h.start_address old_size) h.mm >>= λ mm.
    ok (record h₂ { end_address = add32 h.start_address size; mm = mm })

pub contract_loop : (rounds address : ℕ) → Mm → Outcome Mm
contract_loop zero address mm = ok mm
contract_loop (suc rounds) address mm =
    remove_page address mm >>= contract_loop rounds (sub32 address 0x1000)

-- The size that `contract` settles on.
abbrev pub contracted : ℕ → ℕ
contracted new_size =
    let size = round_size new_size in if ltb size heap_min_size then heap_min_size else size

pub contract : ℕ → Heap → Outcome (ℕ × Heap)
contract new_size h =
    let old_size = sub32 h.end_address h.start_address in
    let size = contracted new_size in
    let i = sub32 old_size 0x1000 in
    let h₁ = assert (ltb new_size old_size) h in
    contract_loop (rounds size i) (add32 h.start_address i) h.mm >>= λ mm.
    ok (size, record h₁ { end_address = add32 h.start_address size; mm = mm })
