-- ===== src/Paging.antt =====
-- src/kernel/paging.c and src/include/mm/paging.h: the bitmap of page frames. `frames` gives the words
-- of the bitmap by index, `nframes` the number of frames, a multiple of 32.
pub mod Bitmap
pub mod Frames
pub mod Search
pub mod Alloc
pub mod Directory
use bless_os.Prelude.{
  ℕ, zero, suc, ◌+◌, ◌-◌, ◌*◌, ◌/◌, ◌%◌, ◌^◌, bit_and, bit_or, not, ◌==◌, if◌then◌else◌, Option,
  none, some, u32_mod, ltb, Outcome, ok, fault,
}
use bless_os.Prelude.Ram.{Ram, store}

-- `page_t`, the bit fields that the code reads or writes.
pub record Page : Type 0 where
  pub present : ℕ
  pub rw_flag : ℕ
  pub user : ℕ
  pub frame : ℕ

-- INDEX_FROM_BIT and OFFSET_FROM_BIT
abbrev pub index_from_bit : ℕ → ℕ
index_from_bit a = a / (8 * 4)

abbrev pub offset_from_bit : ℕ → ℕ
offset_from_bit a = a % (8 * 4)

pub set_frame : ℕ → Ram → Ram
set_frame addr frames =
    let frame = addr / 0x1000 in
    let idx = index_from_bit frame in
    store frames idx (bit_or (frames idx) (2 ^ offset_from_bit frame))

-- `~` on a 32-bit word
pub clear_frame : ℕ → Ram → Ram
clear_frame addr frames =
    let frame = addr / 0x1000 in
    let idx = index_from_bit frame in
    store frames idx (bit_and (frames idx) (0xffffffff - 2 ^ offset_from_bit frame))

-- `for (j = 0; j < 32; ++j)` over one word.
unfoldable pub find_in_word : (rounds j word : ℕ) → Option ℕ
find_in_word zero j word = none
find_in_word (suc rounds) j word =
    let rest = find_in_word rounds (j + 1) word in
    if bit_and word (2 ^ j) == 0 then some j else rest

-- `for (i = 0; i < INDEX_FROM_BIT(nframes); ++i)`
unfoldable pub find_in_frames : (rounds i : ℕ) → Ram → ℕ
find_in_frames zero i frames = 0xffffffff
find_in_frames (suc rounds) i frames =
    let rest = find_in_frames rounds (i + 1) frames in
    if frames i == 0xffffffff
    then rest
    else elim (find_in_word 32 0 (frames i)) [ none ↦ rest | some j ↦ i * 4 * 8 + j ]

unfoldable pub find_free_frame : (nframes : ℕ) → Ram → ℕ
find_free_frame nframes frames = find_in_frames (index_from_bit nframes) 0 frames

-- With no free frame the index is -1, and the rest is done all the same: the write of `set_frame` is a
-- fault where it is behind the words of the bitmap. `frame` has 20 bits.
pub alloc_new_page :
    (is_kernel is_writeable nframes : ℕ) → Option Page → Ram → Outcome (Option Page × Ram)
alloc_new_page is_kernel is_writeable nframes none frames = ok (none, frames)
alloc_new_page is_kernel is_writeable nframes (some page) frames =
    if not (page.frame == 0)
    then ok (some page, frames)
    else (let idx = find_free_frame nframes frames in
        let addr = idx * 0x1000 % u32_mod in
        if ltb (index_from_bit (addr / 0x1000)) (index_from_bit nframes)
        then ok (
          some (record {
            present = 1;
            rw_flag = if is_writeable == 0 then 0 else 1;
            user = if is_kernel == 0 then 1 else 0;
            frame = idx % 2 ^ 20;
          }),
          set_frame addr frames,
        )
        else fault)

-- `clear_frame` is handed the number of the frame, not its address.
pub free_page : Option Page → Ram → Option Page × Ram
free_page none frames = (none, frames)
free_page (some page) frames =
    if page.frame == 0
    then (some page, frames)
    else (some (record page { frame = 0 }), clear_frame page.frame frames)
