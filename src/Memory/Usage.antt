-- ===== src/Memory/Usage.antt =====
-- What calc_mem of src/mm/memory.c counts, before and after a call of no_page.
use bless_os.Prelude.{
  ℕ, zero, suc, ◌+◌, ◌*◌, ◌/◌, ◌%◌, ◌^◌, ◌≤◌, ◌<◌, ◌≡◌, refl, bit_and, bit_or, ◌==◌, if◌then◌else◌,
  true, false, Bool-cases, inl, inr, ok, arith,
}
use mathlib.Core.List.{map}
use bless_os.Prelude.Bits.{and_0x3ff, and_0xfffff000}
use bless_os.Prelude.Ram.{Ram, store}
use bless_os.Memory.{
  Mm, paging_pages, page_dir_entry, page_slot, is_present, table_of, count_free, count_used,
  calc_dir, calc_mem, put_entry, no_page,
}
use bless_os.Memory.Mapping.{IsMapped, IsPage, index_of, put_page_managed, present_or}
use bless_os.Memory.Pages.{found, page_address, get_free_page-page, get_free_page-free}

count_free-outside :
    (n i v : ℕ) (map : Ram) → n ≤ i → count_free n (store map i v) ≡ count_free n map
unfolding count_free
count_free-outside zero i v map le = refl
count_free-outside (suc n) i v map le = ground (arith, count_free-outside n i v map)

-- Taking a free page counts one off.
count_free-store :
    (n i : ℕ) (map : Ram) → i < n → map i ≡ 0 → count_free n map ≡ count_free n (store map i 1) + 1
unfolding count_free
count_free-store zero i map lt free = absurd (omega arith)
count_free-store (suc n) i map lt free = elim (Bool-cases (i == n)) [
  | inl last ↦ ground (arith, count_free-outside n i 1 map)
  | inr before ↦ ground (arith, count_free-store n i map)
]

module _ (t x v : ℕ) (ram : Ram) (edge : t % 4096 ≡ 0) (inside : x < 1024) where
  -- Another table, or the entries before the one that is written.
  count_used-outside :
      (n u : ℕ)
      → u % 4096 ≡ 0
      → n ≤ 1024
      → (u == t) ≡ false
      → count_used n u (store ram (t + 4 * x) v) ≡ count_used n u ram
  unfolding count_used
  count_used-outside zero u e le ne = refl
  count_used-outside (suc n) u e le ne = ground (arith, count_used-outside n u)

  count_used-before :
      (n : ℕ) → n ≤ x → count_used n t (store ram (t + 4 * x) v) ≡ count_used n t ram
  unfolding count_used
  count_used-before zero le = refl
  count_used-before (suc n) le = ground (arith, count_used-before n)

  -- A present entry where there was none.
  count_used-store :
      (n : ℕ)
      → x < n
      → n ≤ 1024
      → is_present (ram (t + 4 * x)) ≡ false
      → is_present v ≡ true
      → count_used n t (store ram (t + 4 * x) v) ≡ count_used n t ram + 1
  unfolding count_used
  count_used-store zero lt le old new = absurd (omega arith)
  count_used-store (suc n) lt le old new = elim (Bool-cases (x == n)) [
    | inl last ↦ ground (arith, count_used-before n)
    | inr before ↦ ground (arith, count_used-store n)
  ]

-- One page more for each entry whose table is the one at `t`.
abbrev pub one_more : (t : ℕ) → Ram → ℕ × ℕ → ℕ × ℕ
one_more t ram (i, k) = (i, if table_of (ram (4 * i)) == t then k + 1 else k)

module _ (t x v : ℕ) (ram : Ram) (edge : t % 4096 ≡ 0) (far : 4096 ≤ t) (inside : x < 1024)
    (words : (a : ℕ) → ram a < 2 ^ 32) (old : is_present (ram (t + 4 * x)) ≡ false)
    (new : is_present v ≡ true) where
  count_used-table :
      (i : ℕ)
      → count_used 1024 (table_of (ram (4 * i))) (store ram (t + 4 * x) v)
        ≡ (one_more t ram (i, count_used 1024 (table_of (ram (4 * i))) ram)).1
  count_used-table i =
      let u : ℕ = table_of (ram (4 * i)) in
      let aligned : u % 4096 ≡ 0 = ground (arith, and_0xfffff000 (ram (4 * i)) (words (4 * i))) in
      elim (Bool-cases (u == t)) [
        | inl same ↦
            let e : u ≡ t = ground arith in
            rw (same, e) (count_used-store t x v ram edge inside 1024 inside (omega arith) old new)
        | inr other ↦
            rw other (count_used-outside t x v ram edge inside 1024 u aligned (omega arith) other)
      ]

  calc_dir-store :
      (rounds i : ℕ)
      → i + rounds ≤ 1024
      → calc_dir rounds i (store ram (t + 4 * x) v) ≡ map (one_more t ram) (calc_dir rounds i ram)
  unfolding calc_dir
  calc_dir-store zero i le = refl
  calc_dir-store (suc rounds) i le =
      let kept : store ram (t + 4 * x) v (4 * i) ≡ ram (4 * i) = ground arith in
      let rest = calc_dir-store rounds (i + 1) (omega arith) in
      rw (kept, rest, calc_dir)
        (elim (Bool-cases (is_present (ram (4 * i)))) [
          | inl there ↦ rw (there, count_used-table i) refl
          | inr absent ↦ rw absent refl
        ])

-- The table that the directory has for an address.
abbrev pub table_for : ℕ → Mm → ℕ
table_for address mm = table_of (mm.ram (page_dir_entry address))

-- A call for an address whose table is there.
no_page-entered :
    (error address : ℕ) {mm : Mm}
    → IsMapped address mm
    → is_present (mm.ram (page_dir_entry address)) ≡ true
    → no_page error address mm
      ≡ ok (record mm {
        mem_map = store mm.mem_map (found mm) 1;
        ram =
            store mm.ram
              (page_slot (table_for address mm) address)
              (bit_or (page_address (found mm)) 7);
      })
unfolding no_page put_entry
no_page-entered error address {mm} v there =
    let (in_range, takes) = get_free_page-page mm in
    let page : IsPage (page_address (found mm)) = record {
      aligned = omega arith;
      low = omega arith;
      high = omega arith;
    } in
    let mm₁ : Mm = record mm { mem_map = store mm.mem_map (found mm) 1 } in
    let own : index_of (page_address (found mm)) ≡ found mm = omega arith in
    let counted : (store mm.mem_map (found mm) 1 (index_of (page_address (found mm))) == 1) ≡ true =
      ground (arith, own) in
    let never_null : (page_address (found mm) == 0) ≡ false = ground arith in
    rw
      (
        takes,
        never_null,
        put_page_managed (page_address (found mm)) address mm₁ page,
        counted,
        there,
        never_null,
      )
      refl

-- A call of `no_page` with an address that has a table but no page, with a page above page 0 free: it
-- returns, `calc_mem` then counts one free page less, and one page more for each entry of the directory
-- whose table is that of the address, and for no other. The memory of the tables holds words, and the
-- table is not below address 4096.
pub calc_mem-no_page :
    (error address j : ℕ) {mm : Mm}
    → ((a : ℕ) → mm.ram a < 2 ^ 32)
    → IsMapped address mm
    → is_present (mm.ram (page_dir_entry address)) ≡ true
    → is_present (mm.ram (page_slot (table_for address mm) address)) ≡ false
    → 0 < j
    → j < paging_pages
    → mm.mem_map j ≡ 0
    → (mm' : Mm) × (no_page error address mm ≡ ok mm')
      × ((calc_mem mm).0 ≡ (calc_mem mm').0 + 1)
      × ((calc_mem mm').1 ≡ map (one_more (table_for address mm) mm.ram) (calc_mem mm).1)
unfolding calc_mem
calc_mem-no_page error address j {mm} words v there empty pos lt free =
    let t : ℕ = table_for address mm in
    let x : ℕ = bit_and (address / 2 ^ 12) 0x3ff in
    let page = page_address (found mm) in
    let inside : x < 1024 = omega (arith, and_0x3ff (address / 2 ^ 12)) in
    let aligned : t % 4096 ≡ 0 =
      omega (arith, and_0xfffff000 (mm.ram (page_dir_entry address)) v.word) in
    (
      record mm {
        mem_map = store mm.mem_map (found mm) 1;
        ram = store mm.ram (page_slot t address) (bit_or page 7);
      },
      no_page-entered error address v there,
      count_free-store paging_pages (found mm) mm.mem_map (get_free_page-page mm).0
          (get_free_page-free mm j pos lt free),
      calc_dir-store t x (bit_or page 7) mm.ram aligned (v.apart there) inside words empty
          (present_or page (omega arith)) 1022 2 (omega arith),
    )
