-- ===== src/Examples/Kernel.antt =====
-- The start of the kernel: the pages of the heap and the memory before there is one.
use bless_os.Prelude.{
  ℕ, ◌+◌, ◌%◌, ◌≤◌, ◌≡◌, ◌≢◌, refl, none, if◌then◌else◌, ◌==◌, List, [], ◌∷◌, arith, ok,
}
use bless_os.Prelude.{◌<◌, ◌⊎◌, halted, fault, length, get_or, replicate}
use bless_os.Console.{Console}
use bless_os.Exceptions.{Frame, Idt, title, info, handler, traps_init}
use bless_os.Exceptions.Gates.{gate_offset, traps_init-gates}
use bless_os.Printk.{kpl_panic}
use bless_os.Exceptions.Dump.{dump, print_texts}
use bless_os.Exceptions.Halts.{handler-halts}
use bless_os.Memory.{Mm, get_page_addr}
use mathlib.Core.List.Perm
use bless_os.Prelude.{◌++◌}
use bless_os.Prelude.Ram.Words.{load32, store32}
use bless_os.Kheap.{Heap, set_header, set_footer}
use bless_os.Kheap.Write.{write_block}
use bless_os.Kheap.Alloc.{alloc}
use bless_os.Kheap.Alloc.BestFit.{carved, carved_spare}
use bless_os.Kheap.Alloc.Grow.{alloc-grows}
use bless_os.Kheap.Blocks.{Block, hole_block, used_block, total}
use bless_os.Kheap.Valid.{IsHeap}
use bless_os.Kheap.Resize.{expand}
use bless_os.Kheap.Resize.Mapped.{Table}
use bless_os.Kheap.Resize.Range.{expanded, expand-maps}
use bless_os.Kheap.Placement.{Kernel, Allocated, kmalloc_int}
use bless_os.Kheap.Placement.Bump.{kmalloc_int-apart}

-- The directory's first entry leads to a page table at 0x1000.
abbrev one_table : Mm
one_table = record { mem_map = λ a. 0; ram = λ a. if a == 0 then 0x1007 else 0; panics = 0 }

one_table-Table : Table 0 0x1000 one_table
one_table-Table = record { present = refl; leads = refl; far = omega arith }

abbrev no_kheap : Kernel
no_kheap = record { placement_address = 0x150010; kheap = none }

abbrev small_heap : Heap
small_heap = record {
  index = record { array = []; size = 0; max_size = 0; less_than = none };
  start_address = 0x380000;
  end_address = 0x388000;
  max_address = 0x3ff000;
  ram = λ a. 0;
  mm = one_table;
  panics = 0;
}

expand-maps_example :
    (mm : Mm) × (expand 0x8800 small_heap ≡ ok (expanded 0x9000 small_heap mm))
    × (get_page_addr 0x388004 mm ≢ 0)
expand-maps_example =
    expand-maps 0x8800 0 0x1000 0x388004 small_heap (omega arith) refl (omega arith) (omega arith)
      (omega arith) (omega arith) (omega arith) refl one_table-Table (omega arith) (omega arith)

kmalloc_int-apart_example :
    (a : Allocated) × (b : Allocated) × (kmalloc_int 0 32 0 no_kheap ≡ ok a)
    × (kmalloc_int 0 4096 1 a.kernel ≡ ok b)
    × (0x150010 ≤ a.address)
    × (a.address + 32 ≤ b.address)
    × (b.kernel.placement_address ≡ b.address + 4096)
    × ((if 0 == 1 then a.address % 4096 else 0) ≡ 0)
    × ((if 1 == 1 then b.address % 4096 else 0) ≡ 0)
    × (a.phys ≡ a.address)
    × (b.phys ≡ b.address)
kmalloc_int-apart_example = kmalloc_int-apart 0 32 0 0 4096 1 no_kheap refl (omega arith)

-- A machine with a blank screen, and a general protection fault.
abbrev blank : Console
blank = record { csr_x = 0; csr_y = 0; vram = λ a. 0; ports = [] }

abbrev fault_frame : Frame
fault_frame = record {
  ss = 0x10;
  gs = 0x10;
  fs = 0x10;
  es = 0x10;
  ds = 0x10;
  edi = 0;
  esi = 0;
  ebp = 0;
  esp = 0x9000;
  ebx = 0;
  edx = 0;
  ecx = 0;
  eax = 0xdeadbeef;
  isr_nr = 13;
  err = 0;
  eip = 0x100000;
  cs = 8;
  eflags = 2;
  old_esp = 0;
  old_ss = 0;
  cr2 = 0;
  cr3 = 0;
}

handler-halts_example :
    ((16 < 13) × (13 < 68) × (handler fault_frame blank ≡ fault))
    ⊎ (((13 ≤ 16) ⊎ (68 ≤ 13))
        × ((heading : List ℕ) × (title kpl_panic fault_frame blank
              ≡ ok (print_texts 14 4 (heading ∷ []) blank))
            × (info kpl_panic fault_frame blank
                ≡ ok (print_texts 14 4 (heading ∷ dump fault_frame) blank)))
        × (handler fault_frame blank ≡ halted))
handler-halts_example = handler-halts fault_frame blank (omega arith)

-- A table as long as the one of the kernel.
abbrev handlers : List ℕ
handlers = replicate 94 0x1234

traps_init-gates_example :
    ((length handlers < 512) × (traps_init handlers (λ n. record { a = 0; b = 0 }) ≡ fault))
    ⊎ ((512 ≤ length handlers)
        × ((idt' : Idt) × (traps_init handlers (λ n. record { a = 0; b = 0 }) ≡ ok idt')
            × (gate_offset (idt' 3) ≡ get_or handlers 7 0)))
traps_init-gates_example =
    traps_init-gates 3 handlers (λ n. record { a = 0; b = 0 }) (omega arith) (omega arith)

-- A heap that one block in use fills.
abbrev packed_heap : Heap
packed_heap = record small_heap {
  index = record { array = 0 ∷ 0 ∷ 0 ∷ []; size = 0; max_size = 3; less_than = none };
  ram = write_block 0x380000 0 0x8000 (λ a. 0);
}

packed_heap-IsHeap : IsHeap packed_heap (used_block 0x8000 ∷ []) [] (0 ∷ 0 ∷ []) 0
unfolding load32 store32 set_header set_footer
packed_heap-IsHeap = record {
  tiles = (
    record { magic = refl; hole = refl; size = refl; room = omega arith; footed = (refl, refl) },
    refl,
  );
  bound = omega arith;
  index = record { cells = refl; count = refl };
  same = Perm.refl [];
  sorted = tt;
}

alloc-grows_example :
    (s : ℕ) × (v : ℕ) × (pre : List Block) × (post : List Block) × (h₂ : Heap) × (items : List ℕ)
    × (free_cell : ℕ) × (used_block 0x8000 ∷ hole_block s ∷ [] ≡ pre ++ hole_block v ∷ post)
    × (alloc 2 100 0 packed_heap ≡ ok (0x380000 + total pre + 12, h₂))
    × IsHeap h₂ (pre ++ (carved 120 v ++ post)) items (carved_spare 120 v 0 (0 ∷ [])) free_cell
alloc-grows_example =
    alloc-grows 0 100 0 0x1000 0 0 packed_heap (used_block 0x8000 ∷ []) packed_heap-IsHeap refl refl
      (omega arith) (omega arith) (omega arith) (omega arith) one_table-Table
