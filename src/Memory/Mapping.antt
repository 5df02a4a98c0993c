-- ===== src/Memory/Mapping.antt =====
-- The page tables of src/mm/memory.c as a map from virtual to physical pages: `put_page` against
-- `get_page_addr`.
use bless_os.Prelude.{
  ℕ, ◌-◌, ◌/◌, ◌%◌, ◌≤◌, ◌<◌, ◌^◌, ◌≡◌, ◌≢◌, refl, ◌∙◌, ap, arith, ◌==◌, ok, Bool-cases, inl, inr,
  true, false, not, bit_and, bit_or, sub32, ◌||◌, ltb,
}
use bless_os.Prelude.Bits.{and_0xffc, and_0xfffff000, and_not_7, or_7, and_1}
use bless_os.Prelude.Ram.{store}
use bless_os.Memory.{
  Mm, low_mem, high_mem, paging_pages, page_dir_entry, page_slot, is_present, table_of, not_7,
  enter, put_entry, put_page, get_page_addr, panic_if,
}
use bless_os.Memory.Pages.{found, page_address, get_free_page-page}

pub dir_in : (address : ℕ) → page_dir_entry address < 4096
dir_in address = omega (arith, and_0xffc (address / 2 ^ 20))

-- A directory entry is a word, and no page table lies on the directory itself.
pub record IsMapped (address : ℕ) (mm : Mm) : Type 0 where
  pub word : mm.ram (page_dir_entry address) < 2 ^ 32
  pub apart :
      is_present (mm.ram (page_dir_entry address)) ≡ true
      → 4096 ≤ table_of (mm.ram (page_dir_entry address))

pub present_or : (page : ℕ) → page % 4096 ≡ 0 → is_present (bit_or page 7) ≡ true
present_or page h = ground (arith, or_7 page, and_1 (bit_or page 7))

pub table_of_or : (page : ℕ) → page % 4096 ≡ 0 → page < 2 ^ 31 → table_of (bit_or page 7) ≡ page
table_of_or page h lt = ground (arith, or_7 page, and_0xfffff000 (bit_or page 7))

pub unflag : (page : ℕ) → page % 4096 ≡ 0 → page < 2 ^ 31 → bit_and (bit_or page 7) not_7 ≡ page
unflag page h lt = ground (arith, or_7 page, and_not_7 (bit_or page 7))

-- The write that ends `put_page` is found again through a directory entry that leads to its table.
get_page_addr-enter :
    (page address t : ℕ) (mm : Mm)
    → page % 4096 ≡ 0
    → page < 2 ^ 31
    → 4096 ≤ t
    → is_present (mm.ram (page_dir_entry address)) ≡ true
    → table_of (mm.ram (page_dir_entry address)) ≡ t
    → get_page_addr address (enter page address t mm).1 ≡ page
unfolding get_page_addr
get_page_addr-enter page address t mm h lt far p e =
    let d = page_dir_entry address in
    let kept : store mm.ram (page_slot t address) (bit_or page 7) d ≡ mm.ram d =
      ground (arith, dir_in address) in
    rw (kept, get_page_addr, p, e) (ground (arith, unflag page h lt))

-- The state when `put_page` has entered a new page table in the directory.
abbrev pub with_table : ℕ → Mm → Mm
with_table address mm = record mm {
  mem_map = store mm.mem_map (found mm) 1;
  ram = store mm.ram (page_dir_entry address) (bit_or (page_address (found mm)) 7);
}

pub put_entry-absent :
    (page address : ℕ) (mm : Mm)
    → is_present (mm.ram (page_dir_entry address)) ≡ false
    → put_entry page address mm
      ≡ enter page address (page_address (found mm)) (with_table address mm)
unfolding put_entry
put_entry-absent page address mm absent =
    let never_null : (page_address (found mm) == 0) ≡ false = ground arith in
    rw (absent, put_entry, (get_free_page-page mm).1, never_null)

-- Either way through `put_page`, with the table there or with a new page for it.
pub put_entry-get :
    (page address : ℕ) {mm : Mm}
    → page % 4096 ≡ 0
    → page < 2 ^ 31
    → IsMapped address mm
    → let (r, mm') = put_entry page address mm in (r ≡ page) × (get_page_addr address mm' ≡ page)
unfolding put_entry
put_entry-get page address {mm} h lt v =
    let d = page_dir_entry address in
    let t = page_address (found mm) in
    let in_range = (get_free_page-page mm).0 in
    elim (Bool-cases (is_present (mm.ram d))) [
      | inl there ↦
          rw (there, put_entry)
            (refl, get_page_addr-enter page address _ mm h lt (v.apart there) there refl)
      | inr absent ↦
          let written : store mm.ram d (bit_or t 7) d ≡ bit_or t 7 = ground arith in
          rw (put_entry-absent page address mm absent) (
            refl,
            get_page_addr-enter page address t (with_table address mm) h lt (omega arith)
                (rw written (present_or t (omega arith)))
                (rw written (table_of_or t (omega arith) (omega arith))),
          )
    ]

-- A page of the managed range.
pub record IsPage (page : ℕ) : Type 0 where
  pub aligned : page % 4096 ≡ 0
  pub low : low_mem ≤ page
  pub high : page < high_mem

-- The index of a page in `mem_map`.
abbrev pub index_of : ℕ → ℕ
index_of page = (page - low_mem) / 4096

-- What `put_page` has printed when it comes to the tables.
abbrev pub checked : ℕ → Mm → Mm
checked page mm = panic_if (not (mm.mem_map (index_of page) == 1)) mm

pub put_page_managed :
    (page address : ℕ) (mm : Mm)
    → IsPage page
    → put_page page address mm ≡ ok (put_entry page address (checked page mm))
unfolding put_page
put_page_managed page address mm p =
    let i : sub32 page low_mem / 2 ^ 12 ≡ index_of page = omega (arith, p.low, p.high, p.aligned) in
    let inside : ltb (index_of page) paging_pages ≡ true = ground (arith, p.high) in
    let range : (ltb page low_mem || ltb high_mem page) ≡ false = ground (arith, p.low, p.high) in
    rw (i, inside, range)

checked-IsMapped :
    (page address : ℕ) {mm : Mm} → IsMapped address mm → IsMapped address (checked page mm)
checked-IsMapped page address {mm} v = elim (Bool-cases (not (mm.mem_map (index_of page) == 1))) [
  | inl bad ↦ rw bad (record { word = v.word; apart = v.apart })
  | inr fine ↦ rw fine v
]

-- For a page of the managed range, and a directory entry that is a word and leads to no table below
-- address 4096, `put_page` does not fault and returns the page, and `get_page_addr` then finds the
-- page at the address, whether its table was there or had to be made.
pub get_page_addr-put_page :
    (page address : ℕ) {mm : Mm}
    → IsPage page
    → IsMapped address mm
    → (mm' : Mm) × (put_page page address mm ≡ ok (page, mm')) × (get_page_addr address mm' ≡ page)
get_page_addr-put_page page address {mm} p v =
    let mm₁ = checked page mm in
    let (r, found_again) =
      put_entry-get page address p.aligned (omega (arith, p.high))
        (checked-IsMapped page address v) in
    let mm' = (put_entry page address mm₁).1 in
    (mm', put_page_managed page address mm p ∙ ap (λ k. ok (k, mm')) r, found_again)

-- Where the table of the address is there, and the two addresses have different slots, `put_page`
-- behind its tests changes neither the mapping of the other address nor the page map.
pub put_entry-other :
    (page address other : ℕ) {mm : Mm}
    → IsMapped address mm
    → IsMapped other mm
    → is_present (mm.ram (page_dir_entry address)) ≡ true
    → page_slot (table_of (mm.ram (page_dir_entry address))) address
      ≢ page_slot (table_of (mm.ram (page_dir_entry other))) other
    → let mm' = (put_entry page address mm).1 in
      (get_page_addr other mm' ≡ get_page_addr other mm) × (mm'.mem_map ≡ mm.mem_map)
unfolding put_entry get_page_addr
put_entry-other page address other {mm} v w there ne =
    let slot = page_slot (table_of (mm.ram (page_dir_entry address))) address in
    let far = v.apart there in
    let kept : store mm.ram slot (bit_or page 7) (page_dir_entry other)
        ≡ mm.ram (page_dir_entry other) =
      ground (arith, dir_in other) in
    rw (there, put_entry, kept) (ground arith, refl)
