-- ===== src/Memory/Fault.antt =====
-- `no_page` of src/mm/memory.c, which do_page_fault of src/kernel/isr.s calls with cr2 as
-- `error` and eax as `address`, and the way back: `remove_page`.
use bless_os.Prelude.{ℕ, false, ◌≡◌, refl, arith, ◌==◌, ok, true, false, bit_or, ltb}
use bless_os.Prelude.Ram.{store}
use bless_os.Memory.{
  Mm, low_mem, high_mem, paging_pages, page_dir_entry, page_slot, is_present, table_of,
  get_page_addr, free_page, remove_page, no_page,
}
use bless_os.Memory.Pages.{found, page_address, get_free_page-page}
use bless_os.Memory.Mapping.{
  IsMapped, IsPage, dir_in, get_page_addr-put_page, index_of, unflag, present_or,
}

-- `no_page`, called with an address whose directory entry is a word and leads to no table below
-- address 4096, returns, and its second argument, `address`, is mapped to the page that the search
-- found, whatever `error` is.
pub no_page-maps :
    (error address : ℕ) {mm : Mm}
    → IsMapped address mm
    → (mm' : Mm) × (no_page error address mm ≡ ok mm')
      × (get_page_addr address mm' ≡ page_address (found mm))
unfolding no_page
no_page-maps error address {mm} v =
    let (in_range, takes) = get_free_page-page mm in
    let page : IsPage (page_address (found mm)) = record {
      aligned = omega arith;
      low = omega arith;
      high = omega arith;
    } in
    let mm₁ : Mm = record mm { mem_map = store mm.mem_map (found mm) 1 } in
    let v₁ : IsMapped address mm₁ = record { word = v.word; apart = v.apart } in
    let (mm', done, maps) = get_page_addr-put_page (page_address (found mm)) address page v₁ in
    let never_null : (page_address (found mm) == 0) ≡ false = ground arith in
    rw (takes, never_null, done, never_null) (mm', refl, maps)

free_page_managed :
    (page : ℕ) (mm : Mm)
    → IsPage page
    → mm.mem_map (index_of page) ≡ 1
    → free_page page mm ≡ ok (record mm { mem_map = store mm.mem_map (index_of page) 0 })
unfolding free_page
free_page_managed page mm p once =
    let low : ltb page low_mem ≡ false = ground (arith, p.low) in
    let high : ltb high_mem page ≡ false = ground (arith, p.high) in
    let inside : ltb (index_of page) paging_pages ≡ true = ground (arith, p.high) in
    rw (low, high, inside, once)

-- For a managed page that is mapped at the address, through a table that is present, and is counted
-- once, `remove_page` leaves the address unmapped and the page free; no other count changes, and no
-- panic is printed.
pub remove_page-unmaps :
    (addr page : ℕ) {mm : Mm}
    → IsMapped addr mm
    → IsPage page
    → is_present (mm.ram (page_dir_entry addr)) ≡ true
    → mm.ram (page_slot (table_of (mm.ram (page_dir_entry addr))) addr) ≡ bit_or page 7
    → mm.mem_map (index_of page) ≡ 1
    → (mm' : Mm) × (remove_page addr mm ≡ ok mm')
      × (get_page_addr addr mm' ≡ 0)
      × (mm'.mem_map ≡ store mm.mem_map (index_of page) 0)
      × (mm'.panics ≡ mm.panics)
unfolding remove_page get_page_addr
remove_page-unmaps addr page {mm} v p there entry once =
    let d = page_dir_entry addr in
    let slot = page_slot (table_of (mm.ram d)) addr in
    let far = v.apart there in
    let kept : store mm.ram slot 0 d ≡ mm.ram d = ground (arith, dir_in addr) in
    let gone : store mm.ram slot 0 slot ≡ 0 = ground arith in
    let maps = unflag page p.aligned (omega (arith, p.high)) in
    let present = present_or page p.aligned in
    rw (there, entry, present, maps, free_page_managed page mm p once)
      (
        record mm { mem_map = store mm.mem_map (index_of page) 0; ram = store mm.ram slot 0 },
        refl,
        rw (kept, get_page_addr, there, gone) refl,
        refl,
        refl,
      )
