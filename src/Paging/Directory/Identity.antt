-- ===== src/Paging/Directory/Identity.antt =====
-- What `initialise_paging` of src/kernel/paging.c leaves.
use mathlib.Core.Path.{subst}
use bless_os.Prelude.{
  ℕ, zero, suc, ◌+◌, ◌*◌, ◌/◌, ◌%◌, ◌^◌, ◌<◌, ◌≡◌, ◌≢◌, refl, ap, ◌∙◌, ltb, ◌==◌, if◌then◌else◌,
  Bool-cases, inl, inr, ◌-◌, Option, none, some, false, ok, arith, bit_or,
}
use bless_os.Kheap.Placement.{Kernel}
use bless_os.Kheap.Placement.Bump.{next_place, kmalloc-place, kmalloc_a-place}
use bless_os.Prelude.Bits.{or_7}
use bless_os.Paging.{Page, find_free_frame}
use bless_os.Paging.Search.{find_free_frame-none}
use bless_os.Paging.Bitmap.{bit, bit-zero, bit-set}
use bless_os.Paging.Directory.{
  Space, get_page, map_loop, prepare, initialise_paging, switch_page_directory, clear_words,
  put_directory, blank_directory,
}
use bless_os.Paging.Directory.Filled.{
  Filled, identity, table_at, alloc_entry-Filled, get_page-present, get_page-made,
}

module _ (t d fuel : ℕ) (nz : d ≢ 0) (pos : 0 < t) (bound : t + 0x4000 < 2 ^ 32) where
  get_page-Filled :
      (n : ℕ) (s : Space)
      → n < 2048
      → Filled t d n n s
      → (s' : Space) × (get_page fuel (n * 0x1000) 1 d s
          ≡ ok (some (table_at t (n / 1024), n % 1024), s'))
        × Filled t d (suc n) n s'
  get_page-Filled n s lt x = elim (Bool-cases (n % 1024 == 0)) [
    | inl edge ↦ get_page-made t d n s lt fuel nz (ground arith) bound x
    | inr inside ↦
        let (got, y) = get_page-present t d n s lt fuel nz pos (ground arith) x in (s, got, y)
  ]

  map_loop-Filled :
      (rounds n : ℕ) (s : Space)
      → n + rounds ≡ 2048
      → Filled t d n n s
      → (s' : Space) × (map_loop rounds fuel (n * 0x1000) s ≡ ok s') × Filled t d 2048 2048 s'
  unfolding map_loop
  map_loop-Filled zero n s e x =
      let last : n ≡ 2048 = omega arith in (s, refl, subst (λ (m : ℕ). Filled t d m m s) last x)
  map_loop-Filled (suc rounds) n s e x =
      let (s', got, y) = get_page-Filled n s (omega arith) x in
      let (s₂, alloc, z) = alloc_entry-Filled t d n s' (omega arith) y in
      let next : n * 4096 + 4096 ≡ suc n * 4096 = omega arith in
      let got₀ = ap (λ (c : ℕ). get_page fuel (n * 0x1000) 1 c s) x.dir ∙ got in
      rw (got₀, map_loop, alloc, next) (map_loop-Filled rounds (suc n) s₂ (omega arith) z)

module _ (fuel : ℕ) (s : Space) (e : s.kernel.kheap ≡ none)
    (bound : s.kernel.placement_address + 0x10000 < 2 ^ 32) where
  -- Where the directory and the first table stand.
  abbrev dir_at : ℕ
  dir_at = next_place 1 (s.kernel.placement_address + 256)

  abbrev tables_at : ℕ
  tables_at = next_place 1 (dir_at + 8196)

  prepare-Filled :
      ((a i : ℕ) → (s.page a i).frame ≡ 0)
      → (s' : Space) × (prepare fuel s ≡ ok s') × Filled tables_at dir_at 0 0 s'
  unfolding prepare
  prepare-Filled empty =
      let p : ℕ = s.kernel.placement_address in
      let k : Kernel = record s.kernel { placement_address = p + 256 } in
      let first = kmalloc-place fuel 256 s.kernel e (omega arith) in
      let second = kmalloc_a-place fuel 8196 k e (omega arith) in
      (
        record s {
          kernel = record k { placement_address = dir_at + 8196 };
          nframes = 2048;
          frames_at = p;
          frames = clear_words 64 s.frames;
          directory = put_directory dir_at blank_directory s.directory;
          kernel_directory = dir_at;
          current_directory = dir_at;
        },
        rw (first, prepare, second) refl,
        record {
          total = refl;
          dir = refl;
          no_heap = e;
          next = omega arith;
          tables = λ j. ground arith;
          physical = λ j. ground arith;
          done = λ m below. absurd (omega arith);
          empty = λ m above below. empty (table_at tables_at (m / 1024)) (m % 1024);
          bitmap = λ j below. ground (arith, bit-zero (j % 32));
        },
      )

-- The entry that the processor finds for an address, from the directory that cr3 leads to.
pub entry_of : ℕ → Space → Option Page
entry_of address s =
    let e = (s.directory (s.cr3 - 4096)).tables_physical (address / 0x400000) in
    if e % 2 == 0 then none else some (s.page (e / 4096 * 4096) (address / 4096 % 1024))

entry_of-Filled :
    (t d address : ℕ) (s : Space)
    → t % 4096 ≡ 0
    → s.cr3 ≡ d + 4096
    → Filled t d 2048 2048 s
    → entry_of address s
      ≡ (if ltb address 0x800000 then some (identity (address / 0x1000)) else none)
unfolding entry_of
entry_of-Filled t d address s edge here x =
    let m = address / 4096 in
    let k : ℕ = address / 0x400000 in
    let upper : m / 1024 ≡ k = omega arith in
    let dir : d + 4096 - 4096 ≡ d = omega arith in
    rw (here, dir)
      (elim (Bool-cases (ltb address 0x800000)) [
        | inl low ↦
            let flags = or_7 (table_at t k) (omega arith) in
            let there : (s.directory d).tables_physical k ≡ table_at t k + 7 =
              ground (arith, x.physical k) in
            let present : ((table_at t k + 7) % 2 == 0) ≡ false = ground arith in
            let table : (table_at t k + 7) / 4096 * 4096 ≡ table_at t (m / 1024) = omega arith in
            rw (there, present, table, low) (ap some (x.done m (ground arith)))
        | inr high ↦
            let missing : (s.directory d).tables_physical k ≡ 0 = ground (arith, x.physical k) in
            rw (missing, high) refl
      ])

abbrev switched : ℕ → Space → Space
switched d s = record s { current_directory = d; cr3 = d + 4096; cr0 = bit_or s.cr0 0x80000000 }

-- The processor finds an entry for the kernel, to be written, with the frame of the address, if the
-- address is below 8 MiB, and else none; no frame is left; paging is on, with the current directory.
abbrev pub Paged : ℕ → Space → Type 0
Paged address s =
    (entry_of address s
      ≡ (if ltb address 0x800000 then some (identity (address / 0x1000)) else none))
    × (find_free_frame s.nframes s.frames ≡ 0xffffffff)
    × (bit 31 s.cr0 ≡ 1)
    × (s.cr3 ≡ s.current_directory + 4096)

Filled-switched :
    (t d : ℕ) (s : Space)
    → Filled t d 2048 2048 s
    → Filled t d 2048 2048 (switched s.kernel_directory s)
Filled-switched t d s x = record {
  total = x.total;
  dir = x.dir;
  no_heap = x.no_heap;
  next = x.next;
  tables = x.tables;
  physical = x.physical;
  done = x.done;
  empty = x.empty;
  bitmap = x.bitmap;
}

switch_page_directory-Paged :
    (t d address : ℕ) (s : Space)
    → d ≢ 0
    → t % 4096 ≡ 0
    → Filled t d 2048 2048 s
    → Paged address (switch_page_directory s.kernel_directory s)
unfolding switch_page_directory
switch_page_directory-Paged t d address s nz edge x =
    let dir : (s.kernel_directory == 0) ≡ false = ground (arith, x.dir) in
    rw dir (
      entry_of-Filled t d address (switched s.kernel_directory s) edge
          (ap (λ (c : ℕ). c + 4096) x.dir) (Filled-switched t d s x),
      find_free_frame-none s.nframes s.frames (λ j below. ground (arith, x.total, x.bitmap j)),
      bit-set 31 31 s.cr0,
      refl,
    )

-- Before there is a heap, with 64 KiB of room behind the placement address and no frame in any entry of
-- the memory that the tables take, `initialise_paging` returns. The processor then finds, for an
-- address below 8 MiB, an entry for the kernel, to be written, with the frame of the address, and for a
-- higher one no entry; no frame is left; and paging is on, with the current directory.
pub initialise_paging-identity :
    (fuel address : ℕ) (s : Space)
    → s.kernel.kheap ≡ none
    → s.kernel.placement_address + 0x10000 < 2 ^ 32
    → ((a i : ℕ) → (s.page a i).frame ≡ 0)
    → (s' : Space) × (initialise_paging fuel s ≡ ok s') × Paged address s'
unfolding initialise_paging
initialise_paging-identity fuel address s e bound empty =
    let d : ℕ = dir_at fuel s e bound in
    let t : ℕ = tables_at fuel s e bound in
    let (s₁, ready, x) = prepare-Filled fuel s e bound empty in
    let nz : d ≢ 0 = omega arith in
    let pos : 0 < t = omega arith in
    let (s₂, looped, y) = map_loop-Filled t d fuel nz pos (omega arith) 2048 0 s₁ refl x in
    (
      switch_page_directory s₂.kernel_directory s₂,
      rw (ready, looped) refl,
      switch_page_directory-Paged t d address s₂ nz (omega arith) y,
    )
