-- ===== src/Paging/Alloc.antt =====
-- Taking a frame for a page and giving it back, in src/kernel/paging.c.
use bless_os.Prelude.{
  ℕ, ◌*◌, ◌/◌, ◌%◌, ◌^◌, ◌<◌, ◌≡◌, ◌≢◌, ◌⊎◌, inl, inr, refl, arith, ◌==◌, if◌then◌else◌, some,
  u32_mod, false, true, ltb, ok, fault,
}
use bless_os.Prelude.Ram.{Ram}
use bless_os.Paging.{Page, set_frame, clear_frame, find_free_frame, alloc_new_page, free_page}
use bless_os.Paging.Search.{find_free_frame-lowest}
use bless_os.Paging.Frames.{taken, taken-set_frame, taken-clear_frame}

-- For a page without a frame, with the search finding frame `idx` within the words of the bitmap,
-- `alloc_new_page` makes the page present with that frame and takes that frame and no other.
pub alloc_new_page-taken :
    (is_kernel is_writeable nframes idx n : ℕ) (page : Page) (frames : Ram)
    → page.frame ≡ 0
    → find_free_frame nframes frames ≡ idx
    → idx < 2 ^ 20
    → idx / 32 < nframes / 32
    → (page' : Page) × (frames' : Ram) × (alloc_new_page is_kernel is_writeable nframes
          (some page)
          frames
        ≡ ok (some page', frames'))
      × (page'.frame ≡ idx)
      × (page'.present ≡ 1)
      × (taken frames' n ≡ (if n == idx then 1 else taken frames n))
unfolding alloc_new_page
alloc_new_page-taken is_kernel is_writeable nframes idx n page frames new found lt room =
    let index : idx % 2 ^ 20 ≡ idx = omega arith in
    let frame : idx * 4096 % 4294967296 / 4096 ≡ idx = omega arith in
    let inside : ltb (idx * 4096 % 4294967296 / 4096 / 32) (nframes / 32) ≡ true =
      ground (arith, frame) in
    rw (new, alloc_new_page, found, inside)
      (
        record {
          present = 1;
          rw_flag = if is_writeable == 0 then 0 else 1;
          user = if is_kernel == 0 then 1 else 0;
          frame = idx % 2 ^ 20;
        },
        set_frame (idx * 0x1000 % u32_mod) frames,
        refl,
        index,
        refl,
        ground (arith, taken-set_frame (idx * 0x1000 % u32_mod) n frames),
      )

alloc_new_page-full :
    (is_kernel is_writeable nframes : ℕ) (page : Page) (frames : Ram)
    → page.frame ≡ 0
    → nframes < 2 ^ 20
    → find_free_frame nframes frames ≡ 0xffffffff
    → alloc_new_page is_kernel is_writeable nframes (some page) frames ≡ fault
unfolding alloc_new_page
alloc_new_page-full is_kernel is_writeable nframes page frames new small nothing =
    let outside : ltb (0xffffffff * 4096 % 4294967296 / 4096 / 32) (nframes / 32) ≡ false =
      ground arith in
    rw (new, alloc_new_page, nothing, outside) refl

-- `alloc_new_page` for a page without a frame, with fewer than 2 ^ 20 frames: either the search answers
-- -1 and a word behind the bitmap is written; or the page is present afterwards with the frame that
-- the search found, that frame was free, and it and no other frame is taken.
pub alloc_new_page-takes :
    (is_kernel is_writeable nframes n : ℕ) (page : Page) (frames : Ram)
    → page.frame ≡ 0
    → nframes < 2 ^ 20
    → ((find_free_frame nframes frames ≡ 0xffffffff)
        × (alloc_new_page is_kernel is_writeable nframes (some page) frames ≡ fault))
      ⊎ ((taken frames (find_free_frame nframes frames) ≡ 0)
          × ((page' : Page) × (frames' : Ram) × (alloc_new_page is_kernel is_writeable nframes
                  (some page)
                  frames
                ≡ ok (some page', frames'))
              × (page'.frame ≡ find_free_frame nframes frames)
              × (page'.present ≡ 1)
              × (taken frames' n
                  ≡ (if n == find_free_frame nframes frames then 1 else taken frames n))))
alloc_new_page-takes is_kernel is_writeable nframes n page frames new small =
    elim ((find_free_frame-lowest nframes 0 frames (omega arith)).0) [
      | inl nothing ↦ inl (
        nothing,
        alloc_new_page-full is_kernel is_writeable nframes page frames new small nothing,
      )
      | inr (inside, free) ↦ inr (
        free,
        alloc_new_page-taken is_kernel is_writeable nframes (find_free_frame nframes frames) n page
            frames new refl (omega arith) (omega arith),
      )
    ]

-- `free_page` of a page whose frame is below 4096 frees frame 0 instead: the page's own frame stays
-- taken.
pub free_page-frame_0 :
    (n : ℕ) (page : Page) (frames : Ram)
    → page.frame ≢ 0
    → page.frame < 4096
    → (frames' : Ram) × (free_page (some page) frames ≡ (some (record page { frame = 0 }), frames'))
      × (taken frames' n ≡ (if n == 0 then 0 else taken frames n))
unfolding free_page
free_page-frame_0 n page frames used lt =
    let some_frame : (page.frame == 0) ≡ false = ground arith in
    let zeroth : page.frame / 4096 ≡ 0 = omega arith in
    rw (some_frame, free_page)
      (clear_frame page.frame frames, refl, ground (arith, taken-clear_frame page.frame n frames))
