-- ===== src/Boot/Start.antt =====
-- What main of src/init/print.c has set up when it comes to try the heap.
use bless_os.Prelude.{ℕ, ◌+◌, ◌*◌, ◌≡◌, ◌≢◌, List, [], ◌∷◌, get_or, some}
use bless_os.Prelude.Ram.{Ram}
use bless_os.Memory.{Mm, get_page_addr}
use bless_os.Console.Bounds.{InScreen}
use bless_os.Console.Cursor.{Synced}
use bless_os.Console.Grid.{cells}
use bless_os.Exceptions.Gates.{gate_offset}
use bless_os.Sched.{Sched, sched_init, first_tss, first_ldt}
use bless_os.Sched.Desc.{base_at}
use bless_os.Kheap.{Heap}
use bless_os.Kheap.Placement.{Kernel}
use bless_os.Kheap.Blocks.{hole_block}
use bless_os.Kheap.Valid.{IsHeap}
use bless_os.Kheap.Resize.Mapped.{entered}
use bless_os.Boot.Pages.{SetUp}
use bless_os.Boot.{Machine}

-- The screen is blank at cell `p`, with the cursor on it, and interrupt `n` leads to its address.
record Devices (table : List ℕ) (n p : ℕ) (m : Machine) (m' : Machine) : Type 0 where
  blank : cells m'.console.vram p ≡ (0x20, 0x0f)
  in_screen : InScreen m'.console
  synced : Synced m'.console
  gate : gate_offset (m'.idt n) ≡ get_or table (2 * n + 1) 0
  mm : m'.mm ≡ m.mm
  sched : m'.sched ≡ m.sched
  kernel : m'.kernel ≡ m.kernel

-- What the start has made: the screen is blank at cell `p`, with the cursor on it; interrupt `n` leads to
-- its address; the two descriptors lead to task 0; the first test address and the address `a` have a
-- page, the second test address its own;
-- and there is a heap with one hole.
pub record Started (table : List ℕ) (n p a : ℕ) (m : Machine) : Type 0 where
  pub blank : cells m.console.vram p ≡ (0x20, 0x0f)
  pub in_screen : InScreen m.console
  pub synced : Synced m.console
  pub gate : gate_offset (m.idt n) ≡ get_or table (2 * n + 1) 0
  pub task_state : base_at m.sched.gdt first_tss ≡ m.sched.task0
  pub local_table : base_at m.sched.gdt first_ldt ≡ m.sched.task0 + 252
  pub first_test : get_page_addr 0x200000 m.mm ≢ 0
  pub second_test : get_page_addr 0x500000 m.mm ≡ 0x500000
  pub heap_page : get_page_addr a m.mm ≢ 0
  pub heap : Heap
  pub items : List ℕ
  pub spare : List ℕ
  pub holds : m.kernel.kheap ≡ some heap
  pub valid : IsHeap heap (hole_block 0x80000 ∷ []) items spare 0

-- The page tables when the heap's pages have come.
module _ (mm : Mm) (x : SetUp mm) where
  abbrev given : Mm
  given = entered 0x200000 0x1000 mm

abbrev finished : Machine → Heap → Kernel → Machine
finished m h k = record m { sched = sched_init m.sched; mm = h.mm; kernel = k }
