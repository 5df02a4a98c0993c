-- ===== src/Paging/Directory/Filled.antt =====
-- The page tables while `initialise_paging` fills them.
use bless_os.Prelude.{
  ℕ, suc, ◌+◌, ◌*◌, ◌/◌, ◌%◌, ◌^◌, ◌<◌, ◌≤◌, ◌≡◌, ◌≢◌, refl, ap, ◌∙◌, true, ltb, ◌==◌,
  if◌then◌else◌, Bool-cases, inl, inr, none, some, false, ok, bit_or, arith,
}
use mathlib.Core.Path.{subst}
use bless_os.Prelude.Ram.{Ram}
use bless_os.Kheap.Placement.{Kernel, kmalloc_ap}
use bless_os.Kheap.Placement.Bump.{next_place, kmalloc_ap-place}
use bless_os.Paging.{Page, alloc_new_page, set_frame, find_free_frame}
use bless_os.Paging.Frames.{taken, taken-set_frame}
use bless_os.Paging.Search.{find_free_frame-is}
use bless_os.Paging.Directory.{Space, get_page, alloc_entry, enter_table, put_entry}

-- The entry for the kernel that leads to the frame of the same number.
abbrev pub identity : ℕ → Page
identity m = record { present = 1; rw_flag = 1; user = 0; frame = m }

-- Where the table number `k` stands, if the first stands at `t`.
abbrev pub table_at : ℕ → ℕ → ℕ
table_at t k = t + 4096 * k

-- Tables are there for the pages below `u`; the pages below `n` have the frame of their number, and the
-- others of the first 2048 have none.
pub record Filled (t d u n : ℕ) (s : Space) : Type 0 where
  pub total : s.nframes ≡ 2048
  pub dir : s.kernel_directory ≡ d
  pub no_heap : s.kernel.kheap ≡ none
  pub next : next_place 1 s.kernel.placement_address ≡ t + 4096 * ((u + 1023) / 1024)
  pub tables : (k : ℕ) → (s.directory d).tables k ≡ (if ltb (1024 * k) u then table_at t k else 0)
  pub physical :
      (k : ℕ)
      → (s.directory d).tables_physical k
        ≡ (if ltb (1024 * k) u then bit_or (table_at t k) 7 else 0)
  pub done : (m : ℕ) → m < n → s.page (table_at t (m / 1024)) (m % 1024) ≡ identity m
  pub empty : (m : ℕ) → n ≤ m → m < 2048 → (s.page (table_at t (m / 1024)) (m % 1024)).frame ≡ 0
  pub bitmap : (j : ℕ) → j < 2048 → taken s.frames j ≡ (if ltb j n then 1 else 0)

alloc_new_page-identity :
    (n : ℕ) (page : Page) (frames : Ram)
    → page.frame ≡ 0
    → find_free_frame 2048 frames ≡ n
    → n < 2048
    → alloc_new_page 1 1 2048 (some page) frames
      ≡ ok (some (identity n), set_frame (n * 4096) frames)
unfolding alloc_new_page
alloc_new_page-identity n page frames new found lt =
    let index : n % 2 ^ 20 ≡ n = omega arith in
    let address : n * 4096 % 4294967296 ≡ n * 4096 = omega arith in
    let inside : ltb (n * 4096 / 4096 / 32) 64 ≡ true = ground arith in
    rw (new, alloc_new_page, found, index, address, inside) refl

-- The state with entry `i` of the table at `a` leading to frame `n`.
abbrev entered : (a i n : ℕ) → Space → Space
entered a i n s = record s {
  page = put_entry a i (identity n) s.page;
  frames = set_frame (n * 4096) s.frames;
}

alloc_entry-entered :
    (a i n : ℕ) (s : Space)
    → alloc_new_page 1 1 s.nframes (some (s.page a i)) s.frames
      ≡ ok (some (identity n), set_frame (n * 4096) s.frames)
    → alloc_entry 1 1 (some (a, i)) s ≡ ok (entered a i n s)
unfolding alloc_entry
alloc_entry-entered a i n s e = rw e refl

module _ (t d n : ℕ) (s : Space) (lt : n < 2048) where
  entered-Filled :
      Filled t d (suc n) n s
      → Filled t d (suc n) (suc n) (entered (table_at t (n / 1024)) (n % 1024) n s)
  entered-Filled x = record {
    total = x.total;
    dir = x.dir;
    no_heap = x.no_heap;
    next = x.next;
    tables = x.tables;
    physical = x.physical;
    done = λ m below. elim (Bool-cases (m == n)) [
      | inl same ↦ let e : m ≡ n = ground arith in rw e (ground arith)
      | inr other ↦ ground (arith, x.done m)
    ];
    empty = λ m above below. ground (arith, x.empty m);
    bitmap = λ j below. ground (arith, taken-set_frame (n * 4096) j s.frames, x.bitmap j);
  }

  -- The entry gets the frame of its number.
  pub alloc_entry-Filled :
      Filled t d (suc n) n s
      → (s' : Space) × (alloc_entry 1 1 (some (table_at t (n / 1024), n % 1024)) s ≡ ok s')
        × Filled t d (suc n) (suc n) s'
  alloc_entry-Filled x =
      let a : ℕ = table_at t (n / 1024) in
      let found =
        find_free_frame-is 2048 n s.frames (omega arith) (λ j below. ground (arith, x.bitmap j))
          (ground (arith, x.bitmap n)) in
      let alloc : alloc_new_page 1 1 s.nframes (some (s.page a (n % 1024))) s.frames
          ≡ ok (some (identity n), set_frame (n * 4096) s.frames) =
        ap (λ k. alloc_new_page 1 1 k (some (s.page a (n % 1024))) s.frames) x.total
        ∙ alloc_new_page-identity n (s.page a (n % 1024)) s.frames (x.empty n (omega arith) lt)
            found lt in
      (entered a (n % 1024) n s, alloc_entry-entered a (n % 1024) n s alloc, entered-Filled x)

  pub get_page-present :
      (fuel : ℕ)
      → d ≢ 0
      → 0 < t
      → n % 1024 ≢ 0
      → Filled t d n n s
      → (get_page fuel (n * 0x1000) 1 d s ≡ ok (some (table_at t (n / 1024), n % 1024), s))
        × Filled t d (suc n) n s
  unfolding get_page
  get_page-present fuel nz pos ne x =
      let number : n * 4096 / 4096 ≡ n = omega arith in
      let there : (s.directory d).tables (n / 1024) ≡ table_at t (n / 1024) =
        ground (arith, x.tables (n / 1024)) in
      let dir : (d == 0) ≡ false = ground arith in
      let table : (table_at t (n / 1024) == 0) ≡ false = ground arith in
      (
        rw (number, get_page, dir, there, table) refl,
        record {
          total = x.total;
          dir = x.dir;
          no_heap = x.no_heap;
          next = omega (arith, x.next);
          tables = λ k. ground (arith, x.tables k);
          physical = λ k. ground (arith, x.physical k);
          done = x.done;
          empty = x.empty;
          bitmap = x.bitmap;
        },
      )

  -- The table that is missing is made, behind those that are there.
  pub get_page-made :
      (fuel : ℕ)
      → d ≢ 0
      → n % 1024 ≡ 0
      → t + 0x4000 < 2 ^ 32
      → Filled t d n n s
      → (s' : Space) × (get_page fuel (n * 0x1000) 1 d s
          ≡ ok (some (table_at t (n / 1024), n % 1024), s'))
        × Filled t d (suc n) n s'
  unfolding get_page
  get_page-made fuel nz e bound x =
      let p : ℕ = s.kernel.placement_address in
      let a : ℕ = table_at t (n / 1024) in
      let start : next_place 1 p ≡ a = omega (arith, x.next) in
      let k : Kernel = record s.kernel { placement_address = a + 4096 } in
      let served : kmalloc_ap fuel 4096 s.kernel
          ≡ ok (record { address = a; phys = a; kernel = k }) =
        subst
          (λ (b : ℕ).
            kmalloc_ap fuel 4096 s.kernel
            ≡ ok (record {
              address = b;
              phys = b;
              kernel = record s.kernel { placement_address = b + 4096 };
            }))
          start (kmalloc_ap-place fuel 4096 s.kernel x.no_heap (omega (arith, x.next))) in
      let number : n * 4096 / 4096 ≡ n = omega arith in
      let missing : (s.directory d).tables (n / 1024) ≡ 0 = ground (arith, x.tables (n / 1024)) in
      let dir : (d == 0) ≡ false = ground arith in
      (
        enter_table d (n / 1024) a a k s,
        rw (number, get_page, dir, missing, served) refl,
        record {
          total = x.total;
          dir = x.dir;
          no_heap = x.no_heap;
          next = omega arith;
          tables = λ j. ground (arith, x.tables j);
          physical = λ j. ground (arith, x.physical j);
          done = x.done;
          empty = x.empty;
          bitmap = x.bitmap;
        },
      )
