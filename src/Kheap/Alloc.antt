-- ===== src/Kheap/Alloc.antt =====
-- find_smallest_hole and alloc of src/kernel/kheap.c. `none` is the index -1.
pub mod Search
pub mod Split
pub mod Fit
pub mod BestFit
pub mod Aligned
pub mod Grow
use bless_os.Prelude.{
  ℕ, zero, suc, ◌+◌, ◌-◌, ◌*◌, ◌/◌, ◌%◌, ◌^◌, bit_and, Bool, true, false, ltb, leb, ◌==◌, ◌&&◌, not,
  if◌then◌else◌, Option, none, some, Outcome, ok, halted, fault, ◌>>=◌, add32, sub32, u32_mod,
}
use bless_os.Prelude.Ram.{Ram}
use bless_os.OrderedArray.{OrderedArray, lookup_ordered_array, remove_ordered_array}
use bless_os.Kheap.{
  Heap, size_of, set_header, set_footer, set_size, insert_hole, header_size, footer_size,
}
use bless_os.Kheap.Resize.{expand}

-- `a <= b` of two words as `s32int`.
abbrev pub s32_leb : ℕ → ℕ → Bool
s32_leb a b = leb ((a + 2 ^ 31) % u32_mod) ((b + 2 ^ 31) % u32_mod)

-- The bytes before the first place in a hole whose content starts on a page.
abbrev pub align_offset : ℕ → ℕ
align_offset location =
    let content = add32 location header_size in
    if bit_and content 0xfff == 0 then 0 else 0x1000 - content % 0x1000

-- The test on one hole.
unfoldable pub fits : (size page_align : ℕ) → Ram → ℕ → Bool
fits size page_align m header =
    if page_align == 0
    then leb size (size_of m header)
    else s32_leb size (sub32 (size_of m header) (align_offset header))

unfoldable pub find_hole_loop :
    (rounds iterator size page_align : ℕ) → Ram → OrderedArray → Outcome (Option ℕ)
find_hole_loop zero it size page_align m index = ok none
find_hole_loop (suc rounds) it size page_align m index =
    let rest = find_hole_loop rounds (suc it) size page_align m index in
    lookup_ordered_array it index >>= λ header.
    if fits size page_align m header then ok (some it) else rest

unfoldable pub find_smallest_hole : (size page_align : ℕ) → Heap → Outcome (Option ℕ)
find_smallest_hole size page_align h = find_hole_loop h.index.size 0 size page_align h.ram h.index

-- The loop over the index for the hole at the highest address: the place in the index and the address.
unfoldable pub highest_loop :
    (rounds iterator : ℕ) → Option ℕ → (value : ℕ) → OrderedArray → Outcome (Option ℕ)
highest_loop zero it idx value index = ok idx
highest_loop (suc rounds) it idx value index = lookup_ordered_array it index >>= λ tmp.
    highest_loop rounds (suc it) (if ltb value tmp then some it else idx)
      (if ltb value tmp then tmp else value) index

-- What `alloc` does when no hole fits, up to its call of itself.
unfoldable pub grow : ℕ → Heap → Outcome Heap
grow new_size h =
    let old_length = sub32 h.end_address h.start_address in
    let old_end_address = h.end_address in
    expand (add32 old_length new_size) h >>= λ h₁.
    highest_loop h₁.index.size 0 none 0 h₁.index >>= λ idx.
    let added = sub32 (sub32 h₁.end_address h₁.start_address) old_length in
    elim idx [
      | none ↦ insert_hole old_end_address (record h₁ {
        ram =
            set_footer (sub32 (add32 old_end_address added) footer_size) old_end_address
              (set_header old_end_address 1 added h₁.ram);
      })
      | some it ↦ lookup_ordered_array it h₁.index >>= λ header.
          let size = add32 (size_of h₁.ram header) added in
          ok (record h₁ {
            ram =
                set_footer (sub32 (add32 header size) footer_size) header
                  (set_size header size h₁.ram);
          })
    ]

-- The block that is cut out of a hole: its place, what is left of the hole from there on, and the heap.
pub record Cut : Type 0 where
  pub place : ℕ
  pub left : ℕ
  pub heap : Heap

-- For an aligned block the hole keeps the bytes before the page's edge; else it leaves the index.
unfoldable pub cut_hole : (iterator page_align pos size : ℕ) → Heap → Outcome Cut
cut_hole it page_align pos size h =
    if not (page_align == 0) && not (bit_and pos 0xfff == 0)
    then (let before = sub32 (0x1000 - bit_and pos 0xfff) header_size in
        let place = add32 pos before in
        let m = set_footer (sub32 place footer_size) pos (set_header pos 1 before h.ram) in
        ok (record {
          place = place;
          left = sub32 size (size_of m pos);
          heap = record h { ram = m };
        }))
    else (remove_ordered_array it h.index >>= λ index.
        ok (record { place = pos; left = size; heap = record h { index = index } }))

-- What is left of the hole behind the block becomes a hole.
unfoldable pub put_rest : (place new_size left : ℕ) → Heap → Outcome Heap
put_rest place new_size left h =
    let rest = sub32 left new_size in
    if rest == 0
    then ok h
    else (let header = add32 place new_size in
        let footer = sub32 (add32 header rest) footer_size in
        let m = set_header header 1 rest h.ram in
        insert_hole header
          (record h { ram = if ltb footer h.end_address then set_footer footer header m else m }))

-- What `alloc` does with the hole that it has found. `new_size` counts header and footer in; the block
-- takes the whole hole if the rest could not hold them.
unfoldable pub take_hole : (new_size page_align iterator : ℕ) → Heap → Outcome (ℕ × Heap)
take_hole new_size page_align it h = lookup_ordered_array it h.index >>= λ pos.
    let hole_size = size_of h.ram pos in
    let taken =
      if ltb (sub32 hole_size new_size) (header_size + footer_size) then hole_size else new_size in
    cut_hole it page_align pos hole_size h >>= λ c.
    put_rest c.place taken c.left (record c.heap {
      ram =
          set_footer (sub32 (add32 c.place taken) footer_size) c.place
            (set_header c.place 0 taken c.heap.ram);
    })
    >>= λ h'. ok (add32 c.place header_size, h')

-- Without fuel the result is `halted`.
unfoldable pub alloc : (fuel size page_align : ℕ) → Heap → Outcome (ℕ × Heap)
alloc zero size page_align h = halted
alloc (suc fuel) size page_align h =
    let new_size = add32 (add32 size header_size) footer_size in
    find_smallest_hole new_size page_align h >>= λ found. elim found [
      | none ↦ grow new_size h >>= alloc fuel size page_align
      | some it ↦ take_hole new_size page_align it h
    ]
