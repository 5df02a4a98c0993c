-- ===== src/Memory.antt =====
-- src/mm/memory.c with src/include/kernel/config.h: the physical page map and the page tables. The
-- state is `mem_map`, the memory that holds the page directory (at address 0) and the page tables,
-- by 32-bit words at their addresses, and the number of panics printed: `printk(KPL_PANIC, …)`
-- does not stop the kernel. An index outside of `mem_map` is a fault.
pub mod Pages
pub mod Mapping
pub mod Fault
pub mod Usage
use bless_os.Prelude.{
  ℕ, zero, suc, ◌+◌, ◌-◌, ◌*◌, ◌/◌, ◌%◌, ◌^◌, bit_and, bit_or, not, ltb, ◌==◌, ◌||◌, if◌then◌else◌,
  Outcome, Bool, ok, fault, ◌>>=◌, sub32, u32_mod, List, [], ◌∷◌,
}
use bless_os.Prelude.Ram.{Ram, store}

abbrev pub high_mem : ℕ
high_mem = 0x800000

abbrev pub low_mem : ℕ
low_mem = 0x100000

-- PAGING_PAGES is PAGING_MEMORY / PAGE_SIZE.
abbrev pub paging_pages : ℕ
paging_pages = (high_mem - low_mem) / 4096

pub record Mm : Type 0 where
  pub mem_map : Ram
  pub ram : Ram
  pub panics : ℕ

abbrev pub panic : Mm → Mm
panic mm = record mm { panics = mm.panics + 1 }

abbrev pub panic_if : Bool → Mm → Mm
panic_if b mm = if b then panic mm else mm

-- `while (i > 0) { if (mem_map[i] == 0) break; --i; }`
unfoldable pub find_free : ℕ → Ram → ℕ
find_free zero map = zero
find_free (suc i) map = if map (suc i) == 0 then suc i else find_free i map

-- `i` does not go below 0, so the test `i < 0` is left out.
pub get_free_page : Mm → ℕ × Mm
get_free_page mm =
    let i = find_free (paging_pages - 1) mm.mem_map in
    (i * 2 ^ 12 + low_mem, record mm { mem_map = store mm.mem_map i 1 })

-- `(u32int *)((address >> 20) & 0xffc)`
abbrev pub page_dir_entry : ℕ → ℕ
page_dir_entry address = bit_and (address / 2 ^ 20) 0xffc

-- `&page_table[(address >> 12) & 0x3ff]`
abbrev pub page_slot : ℕ → ℕ → ℕ
page_slot page_table address = page_table + 4 * bit_and (address / 2 ^ 12) 0x3ff

abbrev pub is_present : ℕ → Bool
is_present entry = not (bit_and entry 1 == 0)

abbrev pub table_of : ℕ → ℕ
table_of entry = bit_and entry 0xfffff000

-- The write that ends `put_page`.
abbrev pub enter : ℕ → ℕ → ℕ → Mm → ℕ × Mm
enter page address page_table mm =
    (page, record mm { ram = store mm.ram (page_slot page_table address) (bit_or page 7) })

-- `put_page` behind its two tests.
unfoldable pub put_entry : ℕ → ℕ → Mm → ℕ × Mm
put_entry page address mm =
    let entry = mm.ram (page_dir_entry address) in
    if is_present entry
    then enter page address (table_of entry) mm
    else (let (tmp, mm') = get_free_page mm in
        if tmp == 0
        then (0, mm')
        else enter page address tmp
            (record mm' { ram = store mm'.ram (page_dir_entry address) (bit_or tmp 7) }))

pub put_page : ℕ → ℕ → Mm → Outcome (ℕ × Mm)
put_page page address mm =
    let mm₁ = panic_if (ltb page low_mem || ltb high_mem page) mm in
    let i = sub32 page low_mem / 2 ^ 12 in
    if ltb i paging_pages
    then ok (put_entry page address (panic_if (not (mm.mem_map i == 1)) mm₁))
    else fault

-- `~7` on a 32-bit word
abbrev pub not_7 : ℕ
not_7 = 0xfffffff8

unfoldable pub get_page_addr : ℕ → Mm → ℕ
get_page_addr addr mm =
    let entry = mm.ram (page_dir_entry addr) in
    if is_present entry then bit_and (mm.ram (page_slot (table_of entry) addr)) not_7 else 0

-- A count of 0 is taken to 0xffff, then set back to 0 with a panic.
pub free_page : ℕ → Mm → Outcome Mm
free_page address mm =
    if ltb address low_mem
    then ok mm
    else (let i = (address - low_mem) / 2 ^ 12 in
        let mm₁ = panic_if (ltb high_mem address) mm in
        if ltb i paging_pages
        then ok (
            if mm.mem_map i == 0
            then panic (record mm₁ { mem_map = store mm.mem_map i 0 })
            else record mm₁ { mem_map = store mm.mem_map i (mm.mem_map i - 1) })
        else fault)

-- `page_table[(addr >> 12) & 0x3ff] = 0;`
abbrev pub clear_slot : ℕ → ℕ → Mm → Mm
clear_slot page_table addr mm = record mm { ram = store mm.ram (page_slot page_table addr) 0 }

pub remove_page : ℕ → Mm → Outcome Mm
remove_page addr mm =
    let entry = mm.ram (page_dir_entry addr) in
    if is_present entry
    then (let page_table = table_of entry in
        if is_present (mm.ram (page_slot page_table addr))
        then (free_page (get_page_addr addr mm) mm >>= λ mm'. ok (clear_slot page_table addr mm'))
        else ok mm)
    else ok mm

-- What do_page_fault of src/kernel/isr.s calls; `error` is not read.
pub no_page : ℕ → ℕ → Mm → Outcome Mm
no_page error address mm =
    let (tmp, mm₁) = get_free_page mm in
    if tmp == 0
    then ok (panic mm₁)
    else (put_page tmp address mm₁ >>= λ r. ok (if r.0 == 0 then panic r.1 else r.1))

-- The first count of `calc_mem`: the free pages among the first `n`.
pub count_free : ℕ → Ram → ℕ
count_free zero map = 0
count_free (suc n) map = (if map n == 0 then 1 else 0) + count_free n map

-- The pages that a table uses, among its first `n` entries.
pub count_used : (n table : ℕ) → Ram → ℕ
count_used zero table ram = 0
count_used (suc n) table ram =
    (if bit_and (ram (table + 4 * n)) 1 == 0 then 0 else 1) + count_used n table ram

-- The loop over the directory from entry `i` on: the entries that are present, with their counts.
pub calc_dir : (rounds i : ℕ) → Ram → List (ℕ × ℕ)
calc_dir zero i ram = []
calc_dir (suc rounds) i ram =
    let rest = calc_dir rounds (i + 1) ram in
    if is_present (ram (4 * i))
    then (i, count_used 1024 (table_of (ram (4 * i))) ram) ∷ rest
    else rest

-- What `calc_mem` prints: the free pages, and the pages that each table uses.
pub calc_mem : Mm → ℕ × List (ℕ × ℕ)
calc_mem mm = (count_free paging_pages mm.mem_map, calc_dir (1024 - 2) 2 mm.ram)
