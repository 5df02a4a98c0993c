-- ===== src/Examples/Frames.antt =====
-- The bitmap of page frames.
use bless_os.Prelude.{
  ◌≡◌, ◌≢◌, ◌<◌, ◌≤◌, ◌⊎◌, refl, arith, ◌==◌, if◌then◌else◌, some, none, ok, fault, ℕ,
}
use bless_os.Prelude.Ram.{Ram}
use bless_os.Paging.{Page, find_free_frame, find_in_frames, find_in_word, alloc_new_page, free_page}
use bless_os.Paging.Frames.{taken}
use bless_os.Paging.Search.{find_free_frame-lowest}
use bless_os.Paging.Directory.{Space, blank_directory, initialise_paging}
use bless_os.Paging.Directory.Identity.{Paged, initialise_paging-identity}
use bless_os.Paging.Alloc.{alloc_new_page-takes, free_page-frame_0}

-- The first word is full, and so are the low four frames of the second.
abbrev frames : Ram
frames i = if i == 0 then 0xffffffff else 0xf

find-frames : find_free_frame 2048 frames ≡ 36
unfolding find_free_frame find_in_frames find_in_word
find-frames = refl

find_free_frame-lowest_example :
    ((find_free_frame 2048 frames ≡ 0xffffffff)
      ⊎ ((find_free_frame 2048 frames < 2048) × (taken frames (find_free_frame 2048 frames) ≡ 0)))
    × ((2048 ≤ 33) ⊎ ((find_free_frame 2048 frames ≤ 33) ⊎ (taken frames 33 ≢ 0)))
find_free_frame-lowest_example = find_free_frame-lowest 2048 33 frames (omega arith)

abbrev new_page : Page
new_page = record { present = 0; rw_flag = 0; user = 0; frame = 0 }

alloc_new_page-takes_example :
    ((find_free_frame 2048 frames ≡ 0xffffffff)
      × (alloc_new_page 1 1 2048 (some new_page) frames ≡ fault))
    ⊎ ((taken frames (find_free_frame 2048 frames) ≡ 0)
        × ((page' : Page) × (frames' : Ram) × (alloc_new_page 1 1 2048 (some new_page) frames
              ≡ ok (some page', frames'))
            × (page'.frame ≡ find_free_frame 2048 frames)
            × (page'.present ≡ 1)
            × (taken frames' 36
                ≡ (if 36 == find_free_frame 2048 frames then 1 else taken frames 36))))
alloc_new_page-takes_example = alloc_new_page-takes 1 1 2048 36 new_page frames refl (omega arith)

free_page-frame_0_example :
    (frames' : Ram) × (free_page (some (record new_page { frame = 36 })) frames
      ≡ (some (record new_page { frame = 0 }), frames'))
    × (taken frames' 36 ≡ taken frames 36)
free_page-frame_0_example =
    free_page-frame_0 36 (record new_page { frame = 36 }) frames (omega arith) (omega arith)

-- Memory that holds zeroes, with 1 MiB given away.
abbrev start_space : Space
start_space = record {
  kernel = record { placement_address = 0x100000; kheap = none };
  directory = λ (_ : ℕ). blank_directory;
  page = λ (_ _ : ℕ). new_page;
  frames_at = 0;
  frames = λ (_ : ℕ). 0;
  nframes = 0;
  kernel_directory = 0;
  current_directory = 0;
  cr0 = 1;
  cr3 = 0;
}

initialise_paging-identity_example :
    (s : Space) × (initialise_paging 1 start_space ≡ ok s) × Paged 0x7ff123 s
initialise_paging-identity_example =
    initialise_paging-identity 1 0x7ff123 start_space refl (omega arith) (λ a i. refl)
