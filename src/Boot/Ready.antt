-- ===== src/Boot/Ready.antt =====
-- The heap that main of src/init/print.c makes.
use bless_os.Prelude.{
  ℕ, ◌+◌, ◌<◌, ◌≤◌, ◌≡◌, ◌≢◌, refl, sym, ap, ◌∙◌, arith, none, some, List, [], ◌∷◌, Outcome, ok,
}
use bless_os.Prelude.Ram.{Ram}
use bless_os.Memory.{Mm, get_page_addr}
use bless_os.Kheap.{Heap, create_heap}
use bless_os.Kheap.Blocks.{hole_block}
use bless_os.Kheap.Valid.{IsHeap}
use bless_os.Kheap.Create.{create_heap-IsHeap}
use bless_os.Kheap.Resize.{each_page, put_free_page}
use bless_os.Kheap.Resize.Mapped.{Table, put_free_page-Mapping}
use bless_os.Kheap.Resize.Range.{each_page-Mapped, in_range}
use bless_os.Kheap.Placement.{Kernel, place, kmalloc, new_heap}
use bless_os.Kheap.Placement.Bump.{kmalloc_int-place}
use bless_os.Boot.{map_heap, make_kheap, kheap_start, kheap_initial_size}

new_heap-made :
    (fuel start end max : ℕ) (ram : Ram) (mm : Mm) (k : Kernel) (h : Heap)
    → k.kheap ≡ none
    → create_heap start end max ram mm ≡ ok h
    → new_heap fuel start end max ram mm k ≡ ok (h, (place 32 0 k).kernel)
unfolding new_heap kmalloc
new_heap-made fuel start end max ram mm k h e made =
    simp (kmalloc_int-place fuel 32 0 k e, made) refl

make_kheap-run :
    (fuel : ℕ) (ram : Ram) (mm mm' : Mm) (k : Kernel) (h : Heap)
    → k.kheap ≡ none
    → each_page put_free_page 256 kheap_start mm ≡ ok mm'
    → create_heap kheap_start 0x400000 0xCFFFF000 ram mm' ≡ ok h
    → make_kheap fuel ram mm k ≡ ok (record (place 32 0 k).kernel { kheap = some h })
unfolding make_kheap map_heap
make_kheap-run fuel ram mm mm' k h e loop made =
    simp (loop, new_heap-made fuel kheap_start 0x400000 0xCFFFF000 ram mm' k h e made) refl

-- The heap, with the page tables as the loop leaves them.
pub record Made (a : ℕ) (k : Kernel) (mm : Mm) (o : Outcome Kernel) : Type 0 where
  pub heap : Heap
  pub items : List ℕ
  pub spare : List ℕ
  pub kernel : Kernel
  pub done : o ≡ ok kernel
  pub holds : kernel.kheap ≡ some heap
  pub valid : IsHeap heap (hole_block 0x80000 ∷ []) items spare 0
  pub start : heap.start_address ≡ 0x380000
  pub panics : heap.panics ≡ 0
  pub here : get_page_addr a heap.mm ≢ 0
  pub pages : each_page put_free_page 256 kheap_start mm ≡ ok heap.mm

pub make_kheap-Made :
    (fuel t a : ℕ) (ram : Ram) (mm : Mm) (k : Kernel)
    → k.kheap ≡ none
    → Table 0 t mm
    → kheap_start ≤ a
    → a < kheap_start + kheap_initial_size
    → Made a k mm (make_kheap fuel ram mm k)
make_kheap-Made fuel t a ram mm k e x lo hi =
    let run =
      each_page-Mapped put_free_page 0 t (λ b mm at table. put_free_page-Mapping b 0 t mm at table)
        (omega arith) 256 kheap_start mm (omega arith) (omega arith) x in
    let (h, items, spare, made, heap, start, end, same, panics) =
      create_heap-IsHeap kheap_start 0x400000 0xCFFFF000 ram run.state (omega arith)
        (omega arith) in
    let mapped = in_range 256 kheap_start a run.state refl lo hi run.here in
    record {
      heap = h;
      items = items;
      spare = spare;
      kernel = record (place 32 0 k).kernel { kheap = some h };
      done = make_kheap-run fuel ram mm run.state k h e run.done made;
      holds = refl;
      valid = heap;
      start = start;
      panics = panics;
      here = rw same mapped;
      pages = run.done ∙ ap ok (sym same);
    }

-- With the page table of the first 4 MB there and no heap yet, the start of the kernel makes one: every
-- address `a` of the heap's range has a page, and one hole of 0x80000 bytes fills the heap from
-- 0x380000 on, behind the index.
pub make_kheap-IsHeap :
    (fuel t a : ℕ) (ram : Ram) (mm : Mm) (k : Kernel)
    → k.kheap ≡ none
    → Table 0 t mm
    → kheap_start ≤ a
    → a < kheap_start + kheap_initial_size
    → (k' : Kernel) × (h : Heap) × (items : List ℕ) × (spare : List ℕ) × (make_kheap fuel ram mm k
        ≡ ok k')
      × (k'.kheap ≡ some h)
      × IsHeap h (hole_block 0x80000 ∷ []) items spare 0
      × (h.start_address ≡ 0x380000)
      × (h.panics ≡ 0)
      × (get_page_addr a h.mm ≢ 0)
make_kheap-IsHeap fuel t a ram mm k e x lo hi =
    let m = make_kheap-Made fuel t a ram mm k e x lo hi in
    (m.kernel, m.heap, m.items, m.spare, m.done, m.holds, m.valid, m.start, m.panics, m.here)
