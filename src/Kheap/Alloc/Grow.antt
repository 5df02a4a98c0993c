-- ===== src/Kheap/Alloc/Grow.antt =====
-- alloc of src/kernel/kheap.c for a heap without holes.
use mathlib.Core.List.{Perm}
use mathlib.Core.List.Perm
use mathlib.Core.Path.{subst}
use bless_os.Prelude.{
  ℕ, suc, ◌+◌, ◌-◌, ◌*◌, ◌/◌, ◌%◌, ◌^◌, ◌<◌, ◌≤◌, ◌≡◌, refl, sym, ap, ◌∙◌, inl, inr, leb, ◌&&◌,
  true, Bool-cases, arith, none, some, List, [], ◌∷◌, ◌++◌, Outcome, ok, ◌>>=◌, add32, sub32,
}
use bless_os.Prelude.Ram.{Ram}
use bless_os.Memory.{Mm}
use bless_os.OrderedArray.Insert.{Holds}
use bless_os.Kheap.{Heap, insert_hole}
use bless_os.Kheap.Alloc.{alloc, grow, highest_loop, take_hole, find_smallest_hole}
use bless_os.Kheap.Alloc.Fit.{best_fit, smaller}
use bless_os.Kheap.Alloc.BestFit.{alloc-best_fit, carved, carved_spare}
use bless_os.Kheap.Alloc.Search.{find_smallest_hole-Search}
use bless_os.Kheap.Blocks.{Block, hole_block, Tiles, Tiles-Agree, Tiles-join, total, holes}
use bless_os.Kheap.Holes.{holes-append}
use bless_os.Kheap.Write.{write_block, write_block-Within, write_block-IsBlock}
use bless_os.Kheap.Index.{insert_hole-Holds}
use bless_os.Kheap.Valid.{IsHeap}
use bless_os.Kheap.Resize.{expand}
use bless_os.Kheap.Resize.Mapped.{Table}
use bless_os.Kheap.Resize.Range.{expanded, expand-maps}

Tiles-total : (m : Ram) (p : ℕ) (bs : List Block) (end : ℕ) → Tiles m p bs end → p + total bs ≡ end
Tiles-total m p [] end e = omega (arith, e)
Tiles-total m p (b ∷ bs) end (x, t) = omega (arith, Tiles-total m (p + b.size) bs end t)

-- The hole that `grow` makes at the end.
grow-run :
    (n old size : ℕ) (h h₁ : Heap) (mm : Mm)
    → expand (add32 (sub32 h.end_address h.start_address) n) h ≡ ok (expanded size h mm)
    → h.index.size ≡ 0
    → sub32 h.end_address h.start_address ≡ old
    → sub32 (sub32 (h.start_address + size) h.start_address) old ≡ size - old
    → sub32 (add32 h.end_address (size - old)) 8 ≡ h.end_address + (size - old) - 8
    → insert_hole h.end_address
        (record (expanded size h mm) { ram = write_block h.end_address 1 (size - old) h.ram })
      ≡ ok h₁
    → grow n h ≡ ok h₁
unfolding grow highest_loop
grow-run n old size h h₁ mm run empty length added footer done =
    rw (run, empty, length, added, footer) done

alloc-miss :
    (fuel size : ℕ) (h : Heap)
    → size + 20 < 2 ^ 32
    → find_smallest_hole (size + 20) 0 h ≡ ok none
    → alloc (suc fuel) size 0 h ≡ (grow (size + 20) h >>= alloc fuel size 0)
unfolding alloc
alloc-miss fuel size h small missed =
    let body : ℕ → Outcome (ℕ × Heap) = λ n. find_smallest_hole n 0 h >>= λ found. elim found [
      | none ↦ grow n h >>= alloc fuel size 0
      | some it ↦ take_hole n 0 it h
    ] in
    let new_size : add32 (add32 size 12) 8 ≡ size + 20 = omega arith in
    ap body new_size ∙ rw missed refl

none_fits :
    (n : ℕ) (h : Heap) {spare : List ℕ}
    → Holds h.index [] spare
    → find_smallest_hole n 0 h ≡ ok none
none_fits n h holds = elim (find_smallest_hole-Search n h holds) [
  | inl (missed, _) ↦ missed
  | inr hit ↦ let never = hit.at in cc
]

-- One round of `alloc` grows the heap by one hole, which holds the request, behind the other blocks.
alloc-grow :
    (fuel size r t z z' : ℕ) (h : Heap) (blocks : List Block) {spare : List ℕ}
    → IsHeap h blocks [] (z' ∷ spare) z
    → h.start_address % 4096 ≡ 0
    → h.end_address % 4096 ≡ 0
    → 4096 + h.start_address ≤ h.end_address
    → r < 1023
    → r * 2 ^ 22 ≤ h.end_address
    → h.end_address + size + 20 + 4096 ≤ (r + 1) * 2 ^ 22
    → Table (4 * r) t h.mm
    → (h₁ : Heap) × (items : List ℕ) × (s : ℕ) × (alloc (suc fuel) size 0 h ≡ alloc fuel size 0 h₁)
      × IsHeap h₁ (blocks ++ hole_block s ∷ []) items spare z'
      × (size + 20 ≤ s)
      × (h₁.start_address ≡ h.start_address)
alloc-grow fuel size r t z z' h blocks {spare} x start_page end_page some_blocks small lo hi table =
    let start : ℕ = h.start_address in
    let end : ℕ = h.end_address in
    let n : ℕ = size + 20 in
    let old : ℕ = end - start in
    let new : ℕ = ((old + n) / 4096 + 1) * 4096 in
    let added : ℕ = new - old in
    let (mm, grown, mapped) =
      expand-maps (old + n) r t end h (omega arith) end_page (omega arith) (omega arith) small lo
        (omega arith) start_page table (omega arith) (omega arith) in
    let length : sub32 end start ≡ old = omega (arith, x.bound) in
    let request : add32 (sub32 end start) n ≡ old + n = omega (arith, x.bound) in
    let m : Ram = write_block end 1 added h.ram in
    let (index, items, done, holds, sorted, perm) =
      insert_hole-Holds end z (record (expanded new h mm) { ram = m }) x.index tt in
    let h₁ : Heap = record (expanded new h mm) { index = index; ram = m } in
    let grows : grow n h ≡ ok h₁ =
      grow-run n old new h h₁ mm (ap (λ k. expand k h) request ∙ grown) x.index.count length
        (omega arith) (omega arith) done in
    let same : Tiles m start blocks end =
      Tiles-Agree h.ram m start blocks end
        (λ a from below. write_block-Within end 1 added h.ram (omega arith) a (inl below))
        x.tiles in
    let block = write_block-IsBlock end (hole_block added) h.ram (omega arith) (omega arith) in
    let no_holes = Perm.nil-eq x.same in
    let at = Tiles-total h.ram start blocks end x.tiles in
    let all : end ∷ [] ≡ holes start (blocks ++ hole_block added ∷ []) =
      ap (λ a. a ∷ []) (sym at)
      ∙ ap (λ l. l ++ (start + total blocks) ∷ []) no_holes
      ∙ sym (holes-append start blocks (hole_block added ∷ [])) in
    (
      h₁,
      items,
      added,
      alloc-miss fuel size h (omega arith) (none_fits n h x.index)
          ∙ ap (λ o. o >>= alloc fuel size 0) grows,
      record {
        tiles =
            Tiles-join m start blocks (hole_block added ∷ []) end (start + new) same
              (block, omega arith);
        bound = omega arith;
        index = holds;
        same = subst (λ l. Perm items l) all perm;
        sorted = sorted;
      },
      omega arith,
      refl,
    )

best_fit-last :
    (n s : ℕ) (bs : List Block) → n ≤ s → (v : ℕ) × (best_fit n (bs ++ hole_block s ∷ []) ≡ some v)
unfolding best_fit
best_fit-last n s [] le = let big : leb n s ≡ true = ground arith in (s, rw big refl)
best_fit-last n s (b ∷ bs) le =
    let (v, rest) = best_fit-last n s bs le in
    elim (Bool-cases (b.hole && leb n b.size)) [
      | inl here ↦ (smaller b.size (some v), rw (best_fit, here, rest) refl)
      | inr other ↦ (v, rw (best_fit, other) rest)
    ]

-- In a heap that keeps the invariant, has no hole, has room in its index for two holes at least, starts
-- and ends on a page's edge and is a page long at least, `alloc` for a block that need not stand on an
-- edge returns within two rounds, if one entry of the directory below the last, 1023, covers the pages
-- that the request takes, with a page table that is there: the heap is grown by one hole behind the other
-- blocks, the block is cut out of a hole of the heap that there is then, the address is that of the
-- block behind its header, and the invariant holds.
pub alloc-grows :
    (fuel size r t z z' : ℕ) (h : Heap) (blocks : List Block) {spare : List ℕ}
    → IsHeap h blocks [] (z' ∷ spare) z
    → h.start_address % 4096 ≡ 0
    → h.end_address % 4096 ≡ 0
    → 4096 + h.start_address ≤ h.end_address
    → r < 1023
    → r * 2 ^ 22 ≤ h.end_address
    → h.end_address + size + 20 + 4096 ≤ (r + 1) * 2 ^ 22
    → Table (4 * r) t h.mm
    → (s : ℕ) × (v : ℕ) × (pre : List Block) × (post : List Block) × (h₂ : Heap) × (items : List ℕ)
      × (free_cell : ℕ) × (blocks ++ hole_block s ∷ [] ≡ pre ++ hole_block v ∷ post)
      × (alloc (suc (suc fuel)) size 0 h ≡ ok (h.start_address + total pre + 12, h₂))
      × IsHeap h₂
          (pre ++ (carved (size + 20) v ++ post))
          items
          (carved_spare (size + 20) v z' spare)
          free_cell
alloc-grows fuel size r t z z' h blocks x start_page end_page some_blocks small lo hi table =
    let (h₁, items, s, again, x₁, enough, start) =
      alloc-grow (suc fuel) size r t z z' h blocks x start_page end_page some_blocks small lo hi
        table in
    let (v, best) = best_fit-last (size + 20) s blocks enough in
    let (pre, post, e, took) =
      alloc-best_fit fuel size v z' h₁ (blocks ++ hole_block s ∷ []) x₁ (omega arith) best in
    (
      s,
      v,
      pre,
      post,
      record h₁ { index = took.index; ram = took.ram },
      took.items,
      took.free_cell,
      e,
      again
          ∙ subst
              (λ a.
                alloc (suc fuel) size 0 h₁
                ≡ ok (a + total pre + 12, record h₁ { index = took.index; ram = took.ram }))
              start took.done,
      took.heap,
    )
