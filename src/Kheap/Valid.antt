-- ===== src/Kheap/Valid.antt =====
-- The invariant of the heap of src/kernel/kheap.c, with the blocks that it holds.
use mathlib.Core.List.{Perm}
use bless_os.Prelude.{ℕ, ◌^◌, ◌<◌, arith, List, ◌∷◌}
use bless_os.Kheap.Holes.{length-Perm, length-holes}
use bless_os.OrderedArray.Insert.{Holds}
use bless_os.OrderedArray.Order.{IsSorted}
use bless_os.Kheap.{Heap, header_less_than}
use bless_os.Kheap.Blocks.{Block, Tiles, holes}

-- The blocks fill the heap, the index holds the holes and no more, smaller ones first, and it has a
-- free cell.
pub record IsHeap (h : Heap) (blocks : List Block) (items spare : List ℕ) (z : ℕ) : Type 0 where
  pub tiles : Tiles h.ram h.start_address blocks h.end_address
  pub bound : h.end_address < 2 ^ 32
  pub index : Holds h.index items (z ∷ spare)
  pub same : Perm items (holes h.start_address blocks)
  pub sorted : IsSorted (header_less_than h.ram) items

-- So the count of the items is a word.
pub IsHeap-counted :
    (h : Heap) (blocks : List Block) (items spare : List ℕ) (z : ℕ)
    → IsHeap h blocks items spare z
    → h.index.size < 2 ^ 32
IsHeap-counted h blocks items spare z x = omega (
  arith,
  x.bound,
  x.index.count,
  length-Perm x.same,
  length-holes h.ram h.start_address blocks h.end_address x.tiles,
)
