-- ===== src/Paging/Directory.antt =====
-- src/kernel/paging.c: the page directories and tables, and initialise_paging. A directory and a table
-- stand at addresses, with 0 for NULL; a pointer to an entry is its table's address and its index.
-- The array `frames` has memory of its own. A table that is new holds what its memory held.
pub mod Filled
pub mod Identity
use bless_os.Prelude.{
  ℕ, zero, suc, ◌+◌, ◌*◌, ◌/◌, ◌%◌, bit_or, not, ltb, ◌==◌, ◌&&◌, if◌then◌else◌, Option, none, some,
  Outcome, ok, halted, fault, ◌>>=◌,
}
use bless_os.Prelude.Ram.{Ram}
use bless_os.Kheap.Placement.{Kernel, kmalloc, kmalloc_a, kmalloc_ap}
use bless_os.Paging.{Page, index_from_bit, alloc_new_page}

-- `page_directory_t`
pub record Directory : Type 0 where
  pub tables : ℕ → ℕ
  pub tables_physical : ℕ → ℕ
  pub physical_addr : ℕ

-- The globals, the directories and tables by address, and the two control registers.
pub record Space : Type 0 where
  pub kernel : Kernel
  pub directory : ℕ → Directory
  pub page : ℕ → ℕ → Page
  pub frames_at : ℕ
  pub frames : Ram
  pub nframes : ℕ
  pub kernel_directory : ℕ
  pub current_directory : ℕ
  pub cr0 : ℕ
  pub cr3 : ℕ

abbrev pub put_directory : ℕ → Directory → (ℕ → Directory) → ℕ → Directory
put_directory a d m b = if a == b then d else m b

abbrev pub set_cell : ℕ → ℕ → (ℕ → ℕ) → ℕ → ℕ
set_cell a v m b = if a == b then v else m b

abbrev pub put_entry : ℕ → ℕ → Page → (ℕ → ℕ → Page) → ℕ → ℕ → Page
put_entry t i p m u j = if t == u && i == j then p else m u j

-- `sizeof(page_table_t)` and `sizeof(page_directory_t)`
abbrev pub table_size : ℕ
table_size = 1024 * 4

abbrev pub directory_size : ℕ
directory_size = 1024 * 4 + 1024 * 4 + 4

-- The new table is entered in the directory.
abbrev pub enter_table : (dir idx address phys : ℕ) → Kernel → Space → Space
enter_table dir idx address phys k s =
    let d = s.directory dir in
    record s {
      kernel = k;
      directory =
          put_directory dir
            (record d {
              tables = set_cell idx address d.tables;
              tables_physical = set_cell idx (bit_or phys 7) d.tables_physical;
            })
            s.directory;
    }

pub get_page : (fuel address make dir : ℕ) → Space → Outcome (Option (ℕ × ℕ) × Space)
get_page fuel address make dir s =
    let number = address / 0x1000 in
    let idx = number / 1024 in
    let table = (s.directory dir).tables idx in
    if dir == 0
    then ok (none, s)
    else if not (table == 0)
    then ok (some (table, number % 1024), s)
    else if not (make == 0)
    then (kmalloc_ap fuel table_size s.kernel >>= λ r.
        ok (some (r.address, number % 1024), enter_table dir idx r.address r.phys r.kernel s))
    else ok (none, s)

-- `alloc_new_page` of the entry that a pointer leads to.
pub alloc_entry : (is_kernel is_writeable : ℕ) → Option (ℕ × ℕ) → Space → Outcome Space
alloc_entry is_kernel is_writeable none s = ok s
alloc_entry is_kernel is_writeable (some (t, i)) s =
    alloc_new_page is_kernel is_writeable s.nframes (some (s.page t i)) s.frames
    >>= λ (entry, frames). ok (record s {
      page = elim entry [ none ↦ s.page | some p ↦ put_entry t i p s.page ];
      frames = frames;
    })

-- `tablesPhysical` stands behind `tables` in the directory. Bit 31 of cr0 turns paging on.
pub switch_page_directory : ℕ → Space → Space
switch_page_directory new_dir s = if new_dir == 0 then s else record s {
  current_directory = new_dir;
  cr3 = new_dir + 1024 * 4;
  cr0 = bit_or s.cr0 0x80000000;
}

abbrev pub mem_end_page : ℕ
mem_end_page = 0x800000

-- The loop of `initialise_paging`, on the rounds that its test leaves.
pub map_loop : (rounds fuel i : ℕ) → Space → Outcome Space
map_loop zero fuel i s = ok s
map_loop (suc rounds) fuel i s = get_page fuel i 1 s.kernel_directory s >>= λ (entry, s').
    alloc_entry 1 1 entry s' >>= map_loop rounds fuel (i + 0x1000)

-- `memset` of the first words of an array.
abbrev pub clear_words : ℕ → Ram → Ram
clear_words n m i = if ltb i n then 0 else m i

abbrev pub blank_directory : Directory
blank_directory = record {
  tables = λ (_ : ℕ). 0;
  tables_physical = λ (_ : ℕ). 0;
  physical_addr = 0;
}

-- Up to the loop.
pub prepare : (fuel : ℕ) → Space → Outcome Space
prepare fuel s =
    let nframes : ℕ = mem_end_page / 0x1000 in
    let words : ℕ = index_from_bit nframes in
    kmalloc fuel (words * 4) s.kernel >>= λ r. kmalloc_a fuel directory_size r.kernel >>= λ d.
    ok (record s {
      kernel = d.kernel;
      nframes = nframes;
      frames_at = r.address;
      frames = clear_words words s.frames;
      directory = put_directory d.address blank_directory s.directory;
      kernel_directory = d.address;
      current_directory = d.address;
    })

pub initialise_paging : (fuel : ℕ) → Space → Outcome Space
initialise_paging fuel s = prepare fuel s >>= λ s₁.
    map_loop (mem_end_page / 0x1000) fuel 0 s₁ >>= λ s₂.
    ok (switch_page_directory s₂.kernel_directory s₂)
