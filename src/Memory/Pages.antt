-- ===== src/Memory/Pages.antt =====
-- The page map of src/mm/memory.c: `get_free_page` and `free_page`.
use mathlib.Core.Path.{fun_ext}
use bless_os.Prelude.{ℕ, zero, suc, ◌+◌, ◌-◌, ◌*◌, ◌/◌, ◌≤◌, ◌<◌, ◌^◌, ◌≡◌, ◌≢◌, refl, arith, ok}
use bless_os.Prelude.Ram.{Ram, store}
use bless_os.Memory.{Mm, low_mem, paging_pages, find_free, get_free_page, free_page}

find_free-le : (n : ℕ) (map : Ram) → find_free n map ≤ n
unfolding find_free
find_free-le zero map = omega arith
find_free-le (suc n) map = ground (arith, find_free-le n map)

-- Every page above the one found is in use.
find_free-above : (n j : ℕ) (map : Ram) → find_free n map < j → j ≤ n → map j ≢ 0
unfolding find_free
find_free-above zero j map above le = absurd (omega arith)
find_free-above (suc n) j map above le = ground (arith, find_free-above n j map)

-- If a page above page 0 is free, the page found is free.
find_free-free : (n j : ℕ) (map : Ram) → 0 < j → j ≤ n → map j ≡ 0 → map (find_free n map) ≡ 0
unfolding find_free
find_free-free zero j map pos le e = absurd (omega arith)
find_free-free (suc n) j map pos le e = ground (arith, find_free-free n j map)

find_free-full : (n : ℕ) (map : Ram) → ((j : ℕ) → 0 < j → j ≤ n → map j ≢ 0) → find_free n map ≡ 0
unfolding find_free
find_free-full zero map full = refl
find_free-full (suc n) map full =
    ground (arith, full (suc n), find_free-full n map (λ j pos le. full j pos (omega arith)))

-- A cell set to 1 and counted down again.
store_back : (map : Ram) (i : ℕ) → map i ≡ 0 → store (store map i 1) i (store map i 1 i - 1) ≡ map
store_back map i free = fun_ext λ k. ground arith

-- Where the search of `get_free_page` ends.
abbrev pub found : Mm → ℕ
found mm = find_free 1791 mm.mem_map

-- The first address of page `i`.
abbrev pub page_address : ℕ → ℕ
page_address i = i * 4096 + low_mem

pub get_free_page-page :
    (mm : Mm)
    → (found mm < paging_pages)
      × (get_free_page mm
          ≡ (page_address (found mm), record mm { mem_map = store mm.mem_map (found mm) 1 }))
unfolding get_free_page
get_free_page-page mm = (omega (arith, find_free-le 1791 mm.mem_map), refl)

-- `get_free_page` returns the address of a page of the managed range and marks that page alone; any
-- page above it is in use.
pub get_free_page-found :
    (mm : Mm) (j : ℕ)
    → found mm < j
    → j < paging_pages
    → (found mm < paging_pages)
      × (get_free_page mm
          ≡ (page_address (found mm), record mm { mem_map = store mm.mem_map (found mm) 1 }))
      × (mm.mem_map j ≢ 0)
get_free_page-found mm j above below =
    let (inside, takes) = get_free_page-page mm in
    (inside, takes, find_free-above 1791 j mm.mem_map above (omega arith))

-- As long as a page above page 0 is free, the page returned was free.
pub get_free_page-free :
    (mm : Mm) (j : ℕ) → 0 < j → j < paging_pages → mm.mem_map j ≡ 0 → mm.mem_map (found mm) ≡ 0
get_free_page-free mm j pos lt e = find_free-free 1791 j mm.mem_map pos (omega arith) e

-- With every page in use `get_free_page` does not fail: it returns the address of page 0, and the
-- same again when it is called again.
pub get_free_page-exhausted :
    (mm : Mm)
    → ((j : ℕ) → j < paging_pages → mm.mem_map j ≢ 0)
    → let (page, mm') = get_free_page mm in
      (page ≡ low_mem) × ((get_free_page mm').0 ≡ low_mem) × (mm'.mem_map 0 ≡ 1)
unfolding get_free_page
get_free_page-exhausted mm full =
    let none_free : found mm ≡ 0 =
      find_free-full 1791 mm.mem_map (λ j pos le. full j (omega arith)) in
    let still : find_free 1791 (store mm.mem_map (found mm) 1) ≡ 0 =
      find_free-full 1791 (store mm.mem_map (found mm) 1) (λ j pos le. ground (arith, full j)) in
    ground arith

-- If some page above page 0 is free, a page that is taken by `get_free_page` and given back by
-- `free_page` leaves the state as it was.
pub free_page-get_free_page :
    (mm : Mm) (j : ℕ)
    → 0 < j
    → j < paging_pages
    → mm.mem_map j ≡ 0
    → let (page, mm') = get_free_page mm in free_page page mm' ≡ ok mm
unfolding get_free_page free_page
free_page-get_free_page mm j pos lt e =
    let i = found mm in
    let free : mm.mem_map i ≡ 0 = get_free_page-free mm j pos lt e in
    let same : (i * 4096 + low_mem - low_mem) / 2 ^ 12 ≡ i = omega arith in
    let here : store mm.mem_map i 1 i ≡ 1 = ground arith in
    rw (free_page, same)
      (ground (arith, find_free-le 1791 mm.mem_map, store_back mm.mem_map i free))
