-- ===== src/Examples/Blocks.antt =====
-- The heap.
use mathlib.Core.List.{Perm}
use mathlib.Core.List.Perm
use bless_os.Prelude.{ℕ, ◌+◌, ◌≡◌, refl, none, List, [], ◌∷◌, ◌++◌, ◌-◌, arith, ok}
use bless_os.Prelude.Ram.{Ram}
use bless_os.Prelude.Ram.Words.{load32, store32}
use bless_os.Memory.{Mm}
use bless_os.Kheap.Create.{create_heap-IsHeap, first_page, unaligned}
use bless_os.Kheap.Alloc.Split.{Took}
use bless_os.Kheap.Alloc.BestFit.{alloc-best_fit, carved, carved_spare}
use bless_os.Kheap.Free.Apart.{Freed}
use bless_os.Kheap.Free.Joined.{free-joined}
use bless_os.Kheap.{Heap, create_heap, set_header, set_footer}
use bless_os.Kheap.Blocks.{Block, hole_block, used_block, total, holes, Tiles}
use bless_os.Kheap.Write.{Within, write_block}
use bless_os.Kheap.Valid.{IsHeap}
use bless_os.Kheap.Alloc.{alloc, take_hole}
use bless_os.Kheap.Alloc.Aligned.{take_hole-aligned}
use bless_os.Kheap.Alloc.Fit.{best_fit}
use bless_os.Kheap.Free.{free}
use bless_os.Kheap.Free.Leftward.{HoleBefore, free-leftward}
use bless_os.Kheap.RoundTrip.{free-alloc}

-- A heap of three blocks from 0x1000 on: the hole of 60 bytes stands between two blocks in use.
abbrev three_blocks : List Block
three_blocks = used_block 20 ∷ hole_block 60 ∷ used_block 40 ∷ []

abbrev three_ram : Ram
three_ram = write_block 0x1000 0 20 (write_block 0x1014 1 60 (write_block 0x1050 0 40 (λ a. 0)))

abbrev no_pages : Mm
no_pages = record { mem_map = λ a. 0; ram = λ a. 0; panics = 0 }

abbrev three_heap : Heap
three_heap = record {
  index = record { array = 0x1014 ∷ 0 ∷ 0 ∷ []; size = 1; max_size = 3; less_than = none };
  start_address = 0x1000;
  end_address = 0x1078;
  max_address = 0x2000;
  ram = three_ram;
  mm = no_pages;
  panics = 0;
}

three_heap-IsHeap : IsHeap three_heap three_blocks (0x1014 ∷ []) (0 ∷ []) 0
unfolding load32 store32 set_header set_footer
three_heap-IsHeap = record {
  tiles = (
    record { magic = refl; hole = refl; size = refl; room = omega arith; footed = (refl, refl) },
    (
      record { magic = refl; hole = refl; size = refl; room = omega arith; footed = tt },
      (
        record {
          magic = refl;
          hole = refl;
          size = refl;
          room = omega arith;
          footed = (refl, refl);
        },
        refl,
      ),
    ),
  );
  bound = omega arith;
  index = record { cells = refl; count = refl };
  same = Perm.refl (0x1014 ∷ []);
  sorted = (tt, tt);
}

alloc-best_fit_example :
    (pre : List Block) × (post : List Block) × (three_blocks ≡ pre ++ hole_block 60 ∷ post)
    × Took three_heap
        (0x1000 + total pre)
        60
        (pre ++ (carved 40 60 ++ post))
        (carved_spare 40 60 0 (0 ∷ []))
        (alloc 1 20 0 three_heap)
unfolding best_fit
alloc-best_fit_example =
    alloc-best_fit 0 20 60 0 three_heap three_blocks three_heap-IsHeap (omega arith) refl

free-alloc_example :
    (p : ℕ) × (h₁ : Heap) × (h₂ : Heap) × (items' : List ℕ) × (z' : ℕ) × (alloc 1 20 0 three_heap
      ≡ ok (p, h₁))
    × (free p h₁ ≡ ok h₂)
    × IsHeap h₂ three_blocks items' (0 ∷ []) z'
unfolding best_fit
free-alloc_example =
    free-alloc 0 20 60 0 three_heap three_blocks three_heap-IsHeap (omega arith) refl refl

create_heap-IsHeap_example :
    (h : Heap) × (items : List ℕ) × (spare : List ℕ) × (create_heap 0x300000 0x400000 0xCFFFF000
        (λ a. 0)
        no_pages
      ≡ ok h)
    × IsHeap h (hole_block (0x400000 - first_page 0x300000) ∷ []) items spare 0
    × (h.start_address ≡ first_page 0x300000)
    × (h.end_address ≡ 0x400000)
    × (h.mm ≡ no_pages)
    × (h.panics ≡ unaligned 0x300000 + unaligned 0x400000)
create_heap-IsHeap_example =
    create_heap-IsHeap 0x300000 0x400000 0xCFFFF000 (λ a. 0) no_pages (omega arith) (omega arith)

-- The first block of a heap in use, a hole behind it, and one in use at the end; and the heap with
-- two of its blocks in use that the middle one is freed from.
abbrev full_blocks : List Block
full_blocks = used_block 20 ∷ used_block 60 ∷ hole_block 40 ∷ used_block 30 ∷ []

abbrev full_heap : Heap
full_heap = record three_heap {
  index = record { array = 0x1050 ∷ 0 ∷ 0 ∷ []; size = 1; max_size = 3; less_than = none };
  end_address = 0x1096;
  ram =
      write_block 0x1000 0 20
        (write_block 0x1014 0 60 (write_block 0x1050 1 40 (write_block 0x1078 0 30 (λ a. 0))));
}

full_heap-IsHeap : IsHeap full_heap full_blocks (0x1050 ∷ []) (0 ∷ []) 0
unfolding load32 store32 set_header set_footer
full_heap-IsHeap = record {
  tiles = (
    record { magic = refl; hole = refl; size = refl; room = omega arith; footed = (refl, refl) },
    (
      record { magic = refl; hole = refl; size = refl; room = omega arith; footed = (refl, refl) },
      (
        record { magic = refl; hole = refl; size = refl; room = omega arith; footed = tt },
        (
          record {
            magic = refl;
            hole = refl;
            size = refl;
            room = omega arith;
            footed = (refl, refl);
          },
          refl,
        ),
      ),
    ),
  );
  bound = omega arith;
  index = record { cells = refl; count = refl };
  same = Perm.refl (0x1050 ∷ []);
  sorted = (tt, tt);
}

free-joined_example :
    Freed full_heap 0x1014 100
      (used_block 20 ∷ hole_block 100 ∷ used_block 30 ∷ [])
      (0 ∷ [])
      (free 0x1020 full_heap)
free-joined_example =
    free-joined 60 40 0 full_heap (used_block 20 ∷ []) (used_block 30) [] full_heap-IsHeap refl

take_hole-aligned_example : (h' : Heap) × (take_hole 40 1 0 three_heap ≡ ok (0x2000, h'))
take_hole-aligned_example =
    take_hole-aligned 40 0 1 0x1014 0 three_heap three_heap-IsHeap.index (omega arith) refl
      (omega arith) (omega arith)

-- A hole with a footer, and two blocks in use behind it.
abbrev left_blocks : List Block
left_blocks = used_block 20 ∷ hole_block 60 ∷ used_block 40 ∷ used_block 30 ∷ []

abbrev left_heap : Heap
left_heap = record three_heap {
  end_address = 0x1096;
  ram =
      write_block 0x1000 0 20
        (write_block 0x1014 1 60 (write_block 0x1050 0 40 (write_block 0x1078 0 30 (λ a. 0))));
}

left_heap-IsHeap : IsHeap left_heap left_blocks (0x1014 ∷ []) (0 ∷ []) 0
unfolding load32 store32 set_header set_footer
left_heap-IsHeap = record {
  tiles = (
    record { magic = refl; hole = refl; size = refl; room = omega arith; footed = (refl, refl) },
    (
      record { magic = refl; hole = refl; size = refl; room = omega arith; footed = tt },
      (
        record {
          magic = refl;
          hole = refl;
          size = refl;
          room = omega arith;
          footed = (refl, refl);
        },
        (
          record {
            magic = refl;
            hole = refl;
            size = refl;
            room = omega arith;
            footed = (refl, refl);
          },
          refl,
        ),
      ),
    ),
  );
  bound = omega arith;
  index = record { cells = refl; count = refl };
  same = Perm.refl (0x1014 ∷ []);
  sorted = (tt, tt);
}

left_heap-HoleBefore : HoleBefore left_heap.ram 0x1014 60
unfolding load32 store32 set_header set_footer
left_heap-HoleBefore = record { magic = refl; leads = refl }

free-leftward_example :
    (m : Ram) × (free 0x105c left_heap ≡ ok (record left_heap { ram = m }))
    × Tiles m 0x1000 (used_block 20 ∷ hole_block 100 ∷ used_block 30 ∷ []) 0x1096
    × Perm (0x1014 ∷ []) (holes 0x1000 (used_block 20 ∷ hole_block 100 ∷ used_block 30 ∷ []))
    × Within 0x1014 0x1078 left_heap.ram m
free-leftward_example =
    free-leftward 60 40 30 0 left_heap (used_block 20 ∷ []) [] left_heap-IsHeap left_heap-HoleBefore
