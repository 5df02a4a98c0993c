-- ===== src/Kheap/Create.antt =====
-- create_heap of src/kernel/kheap.c.
use bless_os.Prelude.{
  ℕ, zero, suc, ◌+◌, ◌-◌, ◌*◌, ◌/◌, ◌%◌, ◌^◌, ◌<◌, ◌≤◌, ◌≡◌, refl, ap, ◌∙◌, true, false, Bool, ◌==◌,
  if◌then◌else◌, arith, Option, some, List, [], ◌∷◌, ok, replicate, add32, sub32,
}
use bless_os.Prelude.Bits.{and-low_mask, and_0xfffff000}
use bless_os.Prelude.Ram.{Ram}
use bless_os.Memory.{Mm}
use bless_os.OrderedArray.{LessThan, place_ordered_array}
use bless_os.OrderedArray.Insert.{Holds}
use bless_os.Kheap.{
  Heap, create_heap, assert, round_address, heap_index_size, header_less_than, set_header,
  insert_hole,
}
use bless_os.Kheap.Blocks.{hole_block}
use bless_os.Kheap.Write.{set_header-IsBlock}
use bless_os.Kheap.Index.{insert_hole-Holds}
use bless_os.Kheap.Valid.{IsHeap}

-- A new array has no items and all its cells are free.
place_ordered_array-Holds :
    (n : ℕ) (lt : Option LessThan)
    → 2 ≤ n
    → (spare : List ℕ) × Holds (place_ordered_array n lt) [] (0 ∷ 0 ∷ spare)
      × ((place_ordered_array n lt).size ≡ 0)
unfolding place_ordered_array
place_ordered_array-Holds zero lt h = absurd (omega arith)
place_ordered_array-Holds (suc zero) lt h = absurd (omega arith)
place_ordered_array-Holds (suc (suc n)) lt h =
    (replicate n 0, record { cells = refl; count = refl }, refl)

pub round_address-up : (a : ℕ) → a + 4095 < 2 ^ 32 → round_address a ≡ (a + 4095) / 4096 * 4096
round_address-up a h = ground (arith, and-low_mask 12 a, and_0xfffff000 a (omega arith))

-- Two ASSERTs on a heap that has counted none.
asserts :
    (b c : Bool) (h : Heap)
    → assert c (assert b (record h { panics = 0 }))
      ≡ record h { panics = (if b then 0 else 1) + (if c then 0 else 1) }
asserts true true h = refl
asserts true false h = refl
asserts false true h = refl
asserts false false h = refl

-- The ASSERTs of `create_heap` that fail.
abbrev pub unaligned : ℕ → ℕ
unaligned a = if a % 0x1000 == 0 then 0 else 1

-- The heap's first address: behind the index, on a page.
abbrev pub first_page : ℕ → ℕ
first_page start = (start + 0x80000 + 4095) / 4096 * 4096

-- With room for a block behind the index, `create_heap` makes a heap that keeps the invariant: one hole
-- fills it, from the first page behind the index to `end`. Each ASSERT that fails counts a panic, and
-- the heap is made all the same.
pub create_heap-IsHeap :
    (start end max : ℕ) (ram : Ram) (mm : Mm)
    → first_page start + 20 ≤ end
    → end < 2 ^ 32
    → (h : Heap) × (items : List ℕ) × (spare : List ℕ) × (create_heap start end max ram mm ≡ ok h)
      × IsHeap h (hole_block (end - first_page start) ∷ []) items spare 0
      × (h.start_address ≡ first_page start)
      × (h.end_address ≡ end)
      × (h.mm ≡ mm)
      × (h.panics ≡ unaligned start + unaligned end)
unfolding create_heap
create_heap-IsHeap start end max ram mm room bound =
    let p : ℕ = first_page start in
    let at : round_address (add32 start 0x80000) ≡ p =
      let word : add32 start 0x80000 ≡ start + 0x80000 = omega arith in
      ap round_address word ∙ round_address-up (start + 0x80000) (omega arith) in
    let size : sub32 end p ≡ end - p = omega arith in
    let (spare, empty, size_0) =
      place_ordered_array-Holds heap_index_size (some (header_less_than ram)) (omega arith) in
    let made : ℕ → ℕ → ℕ → Heap = λ q s k. record {
      index = place_ordered_array heap_index_size (some (header_less_than ram));
      start_address = q;
      end_address = end;
      max_address = max;
      ram = set_header q 1 s ram;
      mm = mm;
      panics = k;
    } in
    let checked : ℕ → ℕ → Heap =
      λ q s. assert (end % 0x1000 == 0) (assert (start % 0x1000 == 0) (made q s 0)) in
    let h : Heap = made p (end - p) (unaligned start + unaligned end) in
    let run : create_heap start end max ram mm ≡ insert_hole p h =
      ap (λ q. insert_hole q (checked q (sub32 end q))) at
      ∙ ap (λ s. insert_hole p (checked p s)) size
      ∙ ap (insert_hole p) (asserts (start % 0x1000 == 0) (end % 0x1000 == 0) h) in
    let (index, items, done, holds, sorted, perm) = insert_hole-Holds p 0 h empty tt in
    let block = set_header-IsBlock p (end - p) ram (omega arith) (omega arith) in
    (
      record h { index = index },
      items,
      spare,
      run ∙ done,
      record {
        tiles = (block, omega arith);
        bound = bound;
        index = holds;
        same = perm;
        sorted = sorted;
      },
      refl,
      refl,
      refl,
      refl,
    )
