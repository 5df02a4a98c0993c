-- ===== src/Examples/Paging.antt =====
-- Page frames and page tables.
use bless_os.Prelude.{ℕ, ◌+◌, ◌≡◌, refl, arith, ok, ◌==◌, if◌then◌else◌}
use bless_os.Prelude.Ram.{store}
use bless_os.Memory.{
  Mm, low_mem, get_free_page, put_page, get_page_addr, no_page, remove_page, calc_mem,
}
use bless_os.Memory.Pages.{found, page_address, get_free_page-exhausted}
use bless_os.Memory.Mapping.{IsMapped, IsPage, get_page_addr-put_page}
use mathlib.Core.List.{map}
use bless_os.Memory.Usage.{one_more, calc_mem-no_page}
use bless_os.Memory.Fault.{no_page-maps, remove_page-unmaps}

-- Nothing is mapped, and the highest page is in use.
abbrev fresh : Mm
fresh = record { mem_map = λ i. if i == 1791 then 1 else 0; ram = λ a. 0; panics = 0 }

fresh-IsMapped : (address : ℕ) → IsMapped address fresh
fresh-IsMapped address = record { word = omega arith; apart = λ e. absurd (ground arith) }

third : IsPage 0x103000
third = record { aligned = omega arith; low = omega arith; high = omega arith }

get_page_addr-put_page_example :
    (mm' : Mm) × (put_page 0x103000 0xc0401000 fresh ≡ ok (0x103000, mm'))
    × (get_page_addr 0xc0401000 mm' ≡ 0x103000)
get_page_addr-put_page_example =
    get_page_addr-put_page 0x103000 0xc0401000 third (fresh-IsMapped 0xc0401000)

no_page-maps_example :
    (mm' : Mm) × (no_page 2 0xc0401000 fresh ≡ ok mm')
    × (get_page_addr 0xc0401000 mm' ≡ page_address (found fresh))
no_page-maps_example = no_page-maps 2 0xc0401000 (fresh-IsMapped 0xc0401000)

-- Every page is in use.
abbrev exhausted : Mm
exhausted = record fresh { mem_map = λ i. 1 }

get_free_page-exhausted_example :
    let (page, mm') = get_free_page exhausted in
    (page ≡ low_mem) × ((get_free_page mm').0 ≡ low_mem) × (mm'.mem_map 0 ≡ 1)
get_free_page-exhausted_example = get_free_page-exhausted exhausted (λ j lt. omega arith)

-- A table at 0x104000 in the first entry of the directory, with page 0x103000 at address 0x5000.
abbrev mapped : Mm
mapped = record {
  mem_map = λ i. 1;
  ram = λ a. if a == 0 then 0x104007 else if a == 0x104014 then 0x103007 else 0;
  panics = 0;
}

mapped-IsMapped_low : IsMapped 0x5000 mapped
mapped-IsMapped_low = record { word = omega arith; apart = λ e. omega arith }

mapped-IsMapped_next : IsMapped 0x6000 mapped
mapped-IsMapped_next = record { word = omega arith; apart = λ e. omega arith }

remove_page-unmaps_example :
    (mm' : Mm) × (remove_page 0x5000 mapped ≡ ok mm')
    × (get_page_addr 0x5000 mm' ≡ 0)
    × (mm'.mem_map ≡ store mapped.mem_map 3 0)
    × (mm'.panics ≡ mapped.panics)
remove_page-unmaps_example =
    remove_page-unmaps 0x5000 0x103000 mapped-IsMapped_low third refl refl refl

-- A table at 0x104000 for the addresses from 0xc0400000 on, with nothing in it.
abbrev one_table : Mm
one_table = record {
  mem_map = λ (i : ℕ). if i == 1791 then 1 else 0;
  ram = λ (a : ℕ). if a == 3076 then 0x104007 else 0;
  panics = 0;
}

calc_mem-no_page_example :
    (mm' : Mm) × (no_page 2 0xc0401000 one_table ≡ ok mm')
    × ((calc_mem one_table).0 ≡ (calc_mem mm').0 + 1)
    × ((calc_mem mm').1 ≡ map (one_more 0x104000 one_table.ram) (calc_mem one_table).1)
calc_mem-no_page_example =
    calc_mem-no_page 2 0xc0401000 5 {mm = one_table} (λ a. ground arith)
      (record { word = omega arith; apart = λ e. omega arith }) refl refl (omega arith)
      (omega arith) refl
