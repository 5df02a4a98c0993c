-- ===== src/Kheap/Alloc/Aligned.antt =====
-- take_hole of the heap, for a block that is to stand on a page's edge.
use bless_os.Prelude.{
  ℕ, ◌+◌, ◌-◌, ◌*◌, ◌/◌, ◌%◌, ◌^◌, bit_and, ◌<◌, ◌≡◌, refl, ◌∙◌, inl, inr, true, false, Bool-cases,
  ltb, ◌==◌, if◌then◌else◌, arith, some, List, ◌∷◌, ok, get_elem?, length, add32, sub32,
}
use bless_os.Prelude.Bits.{and-low_mask}
use bless_os.Prelude.Ram.{Ram}
use bless_os.OrderedArray.Insert.{Holds}
use bless_os.OrderedArray.Remove.{erase_at, remove_ordered_array-erase_at}
use bless_os.OrderedArray.Sorted.{lookup_ordered_array-Holds, get_elem?-bound}
use bless_os.Kheap.{Heap, size_of, set_header, set_footer}
use bless_os.Kheap.Alloc.{Cut, take_hole, cut_hole, put_rest}
use bless_os.Kheap.Index.{insert_hole-returns}

put_rest-returns :
    (place n left z : ℕ) (h : Heap) {items spare : List ℕ}
    → Holds h.index items (z ∷ spare)
    → (h' : Heap) × (put_rest place n left h ≡ ok h')
unfolding put_rest
put_rest-returns place n left z h x =
    let rest : ℕ = sub32 left n in
    elim (Bool-cases (rest == 0)) [
      | inl none_left ↦ (h, rw none_left refl)
      | inr some_left ↦
          let header : ℕ = add32 place n in
          let footer : ℕ = sub32 (add32 header rest) 8 in
          let m : Ram = set_header header 1 rest h.ram in
          let m' : Ram = if ltb footer h.end_address then set_footer footer header m else m in
          let (h', done) = insert_hole-returns header z (record h { ram = m' }) x in
          (h', rw some_left done)
    ]

-- Where the block is put: the next address below which a header ends on a page's edge, or where the
-- hole starts if that is an edge itself.
abbrev pub aligned_place : ℕ → ℕ
aligned_place p = if p % 0x1000 == 0 then p else p + (0x1000 - p % 0x1000) - 12

cut_hole-aligned :
    (it a p s z : ℕ) (h : Heap) {items spare : List ℕ}
    → Holds h.index items (z ∷ spare)
    → h.index.size < 2 ^ 32
    → it < length items
    → 0 < a
    → p + 0x1000 < 2 ^ 32
    → (c : Cut) × (items' : List ℕ) × (z' : ℕ) × (spare' : List ℕ) × (cut_hole it a p s h ≡ ok c)
      × (add32 c.place 12 ≡ aligned_place p + 12)
      × Holds c.heap.index items' (z' ∷ spare')
unfolding cut_hole
cut_hole-aligned it a p s z h {items} {spare} x counted inside pos bound =
    let asked : (a == 0) ≡ false = ground arith in
    let low = and-low_mask 12 p in
    elim (Bool-cases (bit_and p 0xfff == 0)) [
      | inl edge ↦
          let (index, done, holds, _) = remove_ordered_array-erase_at it z x inside counted in
          let on_edge : (p % 0x1000 == 0) ≡ true = ground (arith, low, edge) in
          (
            record { place = p; left = s; heap = record h { index = index } },
            erase_at it items,
            z,
            z ∷ spare,
            rw (asked, edge, done) refl,
            rw on_edge (omega arith),
            holds,
          )
      | inr off ↦
          let off_edge : (p % 0x1000 == 0) ≡ false = ground (arith, low, off) in
          let before : ℕ = sub32 (0x1000 - bit_and p 0xfff) 12 in
          let place : ℕ = add32 p before in
          let m : Ram = set_footer (sub32 place 8) p (set_header p 1 before h.ram) in
          (
            record { place = place; left = sub32 s (size_of m p); heap = record h { ram = m } },
            items,
            z,
            spare,
            rw (asked, off) refl,
            rw (off_edge, low) (omega arith),
            x,
          )
    ]

-- Where a page's edge is asked for, the hole is in the index, its address is not in the last page and
-- the index has a free cell, the part of `alloc` behind the search returns, and the address is the next
-- edge of a page behind the hole's address; for a hole that starts on an edge it is 12 bytes behind
-- that edge.
pub take_hole-aligned :
    (n it a p z : ℕ) (h : Heap) {items spare : List ℕ}
    → Holds h.index items (z ∷ spare)
    → h.index.size < 2 ^ 32
    → get_elem? items it ≡ some p
    → 0 < a
    → p + 0x1000 < 2 ^ 32
    → (h' : Heap) × (take_hole n a it h
        ≡ ok ((if p % 0x1000 == 0 then p + 12 else (p / 0x1000 + 1) * 0x1000), h'))
unfolding take_hole
take_hole-aligned n it a p z h {items} x counted at pos bound =
    let s : ℕ = size_of h.ram p in
    let taken : ℕ = if ltb (sub32 s n) 20 then s else n in
    let (c, items', z', spare', cut, place, holds) =
      cut_hole-aligned it a p s z h x counted (get_elem?-bound it p items at) pos bound in
    let m : Ram =
      set_footer (sub32 (add32 c.place taken) 8) c.place (set_header c.place 0 taken c.heap.ram) in
    let (h', put) = put_rest-returns c.place taken c.left z' (record c.heap { ram = m }) holds in
    let address : add32 c.place 12
        ≡ (if p % 0x1000 == 0 then p + 12 else (p / 0x1000 + 1) * 0x1000) =
      place ∙ ground arith in
    (h', rw (lookup_ordered_array-Holds it p x at, cut, put, address) refl)
