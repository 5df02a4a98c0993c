-- ===== src/Kheap/Placement.antt =====
-- kmalloc of src/kernel/kheap.c and its variants, before there is a heap and after. The variants that
-- take no `phys` leave the field of the result alone.
pub mod Bump
use bless_os.Prelude.{
  ℕ, ◌+◌, ◌*◌, ◌%◌, u32_mod, bit_and, ◌==◌, ◌&&◌, not, if◌then◌else◌, Option, none, some, Outcome,
  ok, halted, fault, ◌>>=◌, add32,
}
use bless_os.Prelude.Ram.{Ram}
use bless_os.Memory.{Mm, get_page_addr}
use bless_os.OrderedArray.{OrderedArray, LessThan, place_ordered_array}
use bless_os.Kheap.{Heap, create_heap}
use bless_os.Kheap.Alloc.{alloc}
use bless_os.Kheap.Free.{free}

-- The globals of the allocator.
pub record Kernel : Type 0 where
  pub placement_address : ℕ
  pub kheap : Option Heap

-- What a call returns: the address, and what it stores in `*phys` if that is asked for.
pub record Allocated : Type 0 where
  pub address : ℕ
  pub phys : ℕ
  pub kernel : Kernel

-- Without a heap the address is the next free one.
unfoldable pub place : (sz align : ℕ) → Kernel → Allocated
place sz align k =
    let p = k.placement_address in
    let start =
      if align == 1 && not (bit_and p 0xfff == 0) then add32 (bit_and p 0xfffff000) 0x1000 else p in
    record {
      address = start;
      phys = start;
      kernel = record k { placement_address = add32 start sz };
    }

unfoldable pub kmalloc_int : (fuel sz align : ℕ) → Kernel → Outcome Allocated
kmalloc_int fuel sz align k = elim k.kheap [
  | none ↦ ok (place sz align k)
  | some heap ↦ alloc fuel sz align heap >>= λ (addr, heap'). ok (record {
    address = addr;
    phys = get_page_addr addr heap'.mm;
    kernel = record k { kheap = some heap' };
  })
]

-- `kfree` with no heap would go through a NULL pointer.
pub kfree : ℕ → Kernel → Outcome Kernel
kfree p k = elim k.kheap [
  | none ↦ if p == 0 then ok k else fault
  | some heap ↦ free p heap >>= λ heap'. ok (record k { kheap = some heap' })
]

pub kmalloc_a : (fuel sz : ℕ) → Kernel → Outcome Allocated
kmalloc_a fuel sz k = kmalloc_int fuel sz 1 k

pub kmalloc_p : (fuel sz : ℕ) → Kernel → Outcome Allocated
kmalloc_p fuel sz k = kmalloc_int fuel sz 0 k

pub kmalloc_ap : (fuel sz : ℕ) → Kernel → Outcome Allocated
kmalloc_ap fuel sz k = kmalloc_int fuel sz 1 k

unfoldable pub kmalloc : (fuel sz : ℕ) → Kernel → Outcome Allocated
kmalloc fuel sz k = kmalloc_int fuel sz 0 k

-- `create_heap` with the memory for the `heap_t`, which is 32 bytes.
unfoldable pub new_heap : (fuel start end max : ℕ) → Ram → Mm → Kernel → Outcome (Heap × Kernel)
new_heap fuel start end max ram mm k =
    kmalloc fuel 32 k >>= λ r. create_heap start end max ram mm >>= λ h. ok (h, r.kernel)

-- `create_ordered_array`: the cells are words. The array stands on memory of its own, cleared.
pub create_ordered_array :
    (fuel max_size : ℕ) → Option LessThan → Kernel → Outcome (OrderedArray × Kernel)
create_ordered_array fuel max_size less_than k = kmalloc fuel (max_size * 4 % u32_mod) k >>= λ r.
    ok (place_ordered_array max_size less_than, r.kernel)
