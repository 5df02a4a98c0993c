-- ===== src/Kheap.antt =====
-- src/kernel/kheap.c and src/include/mm/kheap.h: the kernel's heap. Its blocks lie in memory by bytes,
-- each with a header of 12 bytes (magic, is_hole, size) and a footer of 8 (magic, header). The index of
-- the holes is an ordered array, which stands on memory of its own below the heap. `mm` is the state
-- that the page tables are in. An ASSERT prints and goes on: it counts up `panics`. The fields
-- `supervisor` and `readonly` are never used.
pub mod Blocks
pub mod Holes
pub mod Write
pub mod Index
pub mod Valid
pub mod Around
pub mod Create
pub mod RoundTrip
pub mod Resize
pub mod Alloc
pub mod Free
pub mod Placement
use bless_os.Prelude.{
  ℕ, zero, suc, ◌+◌, ◌*◌, ◌%◌, ◌^◌, bit_and, Bool, ◌==◌, ltb, not, if◌then◌else◌, Option, none,
  some, Outcome, ok, halted, fault, ◌>>=◌, add32, sub32,
}
use bless_os.Prelude.Ram.{Ram, store}
use bless_os.Prelude.Ram.Words.{load32, store32}
use bless_os.OrderedArray.{OrderedArray, LessThan, place_ordered_array, insert_ordered_array}
use bless_os.Memory.{Mm}

abbrev pub heap_index_size : ℕ
heap_index_size = 0x20000

abbrev pub heap_magic : ℕ
heap_magic = 0x123890AB

abbrev pub heap_min_size : ℕ
heap_min_size = 0x8000

-- `sizeof(header_t)` and `sizeof(footer_t)`
abbrev pub header_size : ℕ
header_size = 12

abbrev pub footer_size : ℕ
footer_size = 8

pub record Heap : Type 0 where
  pub index : OrderedArray
  pub start_address : ℕ
  pub end_address : ℕ
  pub max_address : ℕ
  pub ram : Ram
  pub mm : Mm
  pub panics : ℕ

-- The fields of the header at an address, and those of the footer.
abbrev pub magic_of : Ram → ℕ → ℕ
magic_of m p = load32 m p

abbrev pub hole_of : Ram → ℕ → ℕ
hole_of m p = m (p + 4)

abbrev pub size_of : Ram → ℕ → ℕ
size_of m p = load32 m (p + 8)

abbrev pub header_of : Ram → ℕ → ℕ
header_of m f = load32 m (f + 4)

abbrev pub set_hole : ℕ → ℕ → Ram → Ram
set_hole p is_hole m = store m (p + 4) is_hole

abbrev pub set_size : ℕ → ℕ → Ram → Ram
set_size p size m = store32 m (p + 8) size

unfoldable pub set_header : (p is_hole size : ℕ) → Ram → Ram
set_header p is_hole size m = set_size p size (set_hole p is_hole (store32 m p heap_magic))

unfoldable pub set_footer : (f header : ℕ) → Ram → Ram
set_footer f header m = store32 (store32 m f heap_magic) (f + 4) header

abbrev pub assert : Bool → Heap → Heap
assert b h = if b then h else record h { panics = h.panics + 1 }

abbrev pub header_less_than : Ram → LessThan
header_less_than m a b = ltb (size_of m a) (size_of m b)

-- The rounding to pages, as `expand` and `contract` have it: a size of at least a page goes up to the
-- next multiple, also where it is one.
abbrev pub round_size : ℕ → ℕ
round_size size =
    if bit_and size 0xfffff000 == 0 then size else add32 (bit_and size 0xfffff000) 0x1000

-- The call of `insert_ordered_array`: the predicate reads the sizes in memory.
unfoldable pub insert_hole : ℕ → Heap → Outcome Heap
insert_hole header h =
    insert_ordered_array header (record h.index { less_than = some (header_less_than h.ram) })
    >>= λ index. ok (record h { index = index })

-- The rounding of an address that has bits below a page.
abbrev pub round_address : ℕ → ℕ
round_address a = if bit_and a 0xfff == 0 then a else add32 (bit_and a 0xfffff000) 0x1000

-- `create_heap`, on the memory and the page tables that it finds. The array is cleared whole.
unfoldable pub create_heap : (start end max : ℕ) → Ram → Mm → Outcome Heap
create_heap start end max ram mm =
    let place = round_address (add32 start (4 * heap_index_size)) in
    let empty : Heap = record {
      index = place_ordered_array heap_index_size (some (header_less_than ram));
      start_address = place;
      end_address = end;
      max_address = max;
      ram = set_header place 1 (sub32 end place) ram;
      mm = mm;
      panics = 0;
    } in
    insert_hole place (assert (end % 0x1000 == 0) (assert (start % 0x1000 == 0) empty))
