-- ===== src/Kheap/Index.antt =====
-- The index of the holes in src/kernel/kheap.c, as the heap uses it.
use mathlib.Core.List.{Perm}
use bless_os.Prelude.{ℕ, ◌≡◌, refl, ap, true, arith, some, List, ◌∷◌, has, ok, ◌>>=◌}
use bless_os.Prelude.Ram.{Ram}
use bless_os.OrderedArray.{OrderedArray}
use bless_os.OrderedArray.Insert.{Holds, insert_ordered_array-insert_sorted}
use bless_os.OrderedArray.Order.{IsSorted, IsOrder, insert_ordered_array-IsSorted}
use bless_os.OrderedArray.Sorted.{IsSorted-agree}
use bless_os.Kheap.{Heap, header_less_than, insert_hole, size_of}

header_less_than-IsOrder : (m : Ram) → IsOrder (header_less_than m)
header_less_than-IsOrder m = record {
  asym = λ x y h. ground arith;
  trans = λ x y z h k. ground arith;
}

-- Memories that agree on the sizes of the items sort them alike.
pub header_less_than-agree :
    (m m' : Ram) (items : List ℕ)
    → ((x : ℕ) → has x items ≡ true → size_of m' x ≡ size_of m x)
    → IsSorted (header_less_than m) items
    → IsSorted (header_less_than m') items
header_less_than-agree m m' items same =
    IsSorted-agree (header_less_than m) (header_less_than m') items
      (λ x y h k. ground (arith, same x h, same y k))

pub insert_hole-Holds :
    (header z : ℕ) (h : Heap) {items spare : List ℕ}
    → Holds h.index items (z ∷ spare)
    → IsSorted (header_less_than h.ram) items
    → (index : OrderedArray) × (items' : List ℕ) × (insert_hole header h
        ≡ ok (record h { index = index }))
      × Holds index items' spare
      × IsSorted (header_less_than h.ram) items'
      × Perm items' (header ∷ items)
unfolding insert_hole
insert_hole-Holds header z h {items} {spare} x s =
    let (index, items', done, holds, sorted, perm) =
      insert_ordered_array-IsSorted header z
        {a = record h.index { less_than = some (header_less_than h.ram) }}
        (header_less_than-IsOrder h.ram) (record { cells = x.cells; count = x.count }) refl s in
    (
      index,
      items',
      ap (λ o. o >>= λ index. ok (record h { index = index })) done,
      holds,
      sorted,
      perm,
    )

-- The call returns where there is a free cell, whatever the order of the items.
pub insert_hole-returns :
    (header z : ℕ) (h : Heap) {items spare : List ℕ}
    → Holds h.index items (z ∷ spare)
    → (h' : Heap) × (insert_hole header h ≡ ok h')
unfolding insert_hole
insert_hole-returns header z h x =
    let (index, done, holds, less) =
      insert_ordered_array-insert_sorted (header_less_than h.ram) header z
        {a = record h.index { less_than = some (header_less_than h.ram) }}
        (record { cells = x.cells; count = x.count }) refl in
    (record h { index = index }, ap (λ o. o >>= λ index. ok (record h { index = index })) done)
