-- ===== src/Kheap/Placement/Bump.antt =====
-- kmalloc of src/kernel/kheap.c while there is no heap.
use bless_os.Prelude.{
  ℕ, ◌+◌, ◌*◌, ◌/◌, ◌%◌, ◌^◌, ◌<◌, ◌≤◌, ◌≡◌, refl, ap, ◌∙◌, bit_and, ◌==◌, ◌&&◌, not, if◌then◌else◌,
  arith, none, Outcome, ok, add32,
}
use bless_os.Prelude.Bits.{and-low_mask, and_0xfffff000}
use bless_os.Kheap.Placement.{Kernel, Allocated, place, kmalloc_int, kmalloc_a, kmalloc_ap, kmalloc}

-- Where the memory for a request starts.
abbrev pub next_place : (align p : ℕ) → ℕ
next_place align p = if align == 1 then (p + 4095) / 4096 * 4096 else p

pub place-next :
    (sz align : ℕ) (k : Kernel)
    → k.placement_address + 0x1000 + sz < 2 ^ 32
    → let start = next_place align k.placement_address in
      place sz align k ≡ record {
        address = start;
        phys = start;
        kernel = record k { placement_address = start + sz };
      }
unfolding place
place-next sz align k bound =
    let p : ℕ = k.placement_address in
    let low = and-low_mask 12 p in
    let high = and_0xfffff000 p (omega arith) in
    let start : (if align == 1 && not (bit_and p 0xfff == 0)
          then add32 (bit_and p 0xfffff000) 0x1000
          else p)
        ≡ next_place align p =
      ground (arith, low, high) in
    let after : add32 (next_place align p) sz ≡ next_place align p + sz = ground arith in
    rw (start, after) refl

pub kmalloc_int-place :
    (fuel sz align : ℕ) (k : Kernel)
    → k.kheap ≡ none
    → kmalloc_int fuel sz align k ≡ ok (place sz align k)
unfolding kmalloc_int
kmalloc_int-place fuel sz align k e = simp (e, kmalloc_int) refl

-- Before there is a heap, and as long as the addresses stay below 2 ^ 32, two requests in a row are
-- served: each from a multiple of the page size if that is asked for, the first not below the free
-- address, the second behind the first, and the free address is then behind the second.
pub kmalloc_int-apart :
    (fuel sz align fuel' sz' align' : ℕ) (k : Kernel)
    → k.kheap ≡ none
    → k.placement_address + sz + sz' + 0x2000 < 2 ^ 32
    → (a : Allocated) × (b : Allocated) × (kmalloc_int fuel sz align k ≡ ok a)
      × (kmalloc_int fuel' sz' align' a.kernel ≡ ok b)
      × (k.placement_address ≤ a.address)
      × (a.address + sz ≤ b.address)
      × (b.kernel.placement_address ≡ b.address + sz')
      × ((if align == 1 then a.address % 4096 else 0) ≡ 0)
      × ((if align' == 1 then b.address % 4096 else 0) ≡ 0)
      × (a.phys ≡ a.address)
      × (b.phys ≡ b.address)
kmalloc_int-apart fuel sz align fuel' sz' align' k e bound =
    let p : ℕ = k.placement_address in
    let start : ℕ = next_place align p in
    let k₁ : Kernel = record k { placement_address = start + sz } in
    let near : start ≤ p + 4095 = ground arith in
    let first = place-next sz align k (omega arith) in
    let second = place-next sz' align' k₁ (omega arith) in
    (
      record { address = start; phys = start; kernel = k₁ },
      record {
        address = next_place align' (start + sz);
        phys = next_place align' (start + sz);
        kernel = record k₁ { placement_address = next_place align' (start + sz) + sz' };
      },
      kmalloc_int-place fuel sz align k e ∙ ap ok first,
      kmalloc_int-place fuel' sz' align' k₁ e ∙ ap ok second,
      ground arith,
      ground arith,
      refl,
      ground arith,
      ground arith,
      refl,
      refl,
    )

-- The variants while there is no heap.
module _ (fuel sz : ℕ) (k : Kernel) (e : k.kheap ≡ none) where
  abbrev pub Serves : (align : ℕ) → Outcome Allocated → Type 0
  Serves align o =
      let start = next_place align k.placement_address in
      o
      ≡ ok (record {
        address = start;
        phys = start;
        kernel = record k { placement_address = start + sz };
      })

  module _ (bound : k.placement_address + 0x1000 + sz < 2 ^ 32) where
    pub kmalloc_ap-place : Serves 1 (kmalloc_ap fuel sz k)
    unfolding kmalloc_ap
    kmalloc_ap-place = kmalloc_int-place fuel sz 1 k e ∙ ap ok (place-next sz 1 k bound)

    pub kmalloc_a-place : Serves 1 (kmalloc_a fuel sz k)
    unfolding kmalloc_a
    kmalloc_a-place = kmalloc_int-place fuel sz 1 k e ∙ ap ok (place-next sz 1 k bound)

    pub kmalloc-place : Serves 0 (kmalloc fuel sz k)
    unfolding kmalloc
    kmalloc-place = kmalloc_int-place fuel sz 0 k e ∙ ap ok (place-next sz 0 k bound)
