-- ===== src/Kheap/Alloc/BestFit.antt =====
-- What alloc of src/kernel/kheap.c does for a size that some hole can hold.
use bless_os.Prelude.{
  ℕ, suc, ◌+◌, ◌-◌, ◌^◌, ◌<◌, ◌≤◌, ◌≡◌, refl, sym, ap, ◌∙◌, inl, inr, Bool, Bool-cases, eq_of_some,
  ltb, if◌then◌else◌, arith, Option, none, some, List, [], ◌∷◌, ◌++◌, Outcome, ok, ◌>>=◌, get_elem?,
  add32,
}
use bless_os.Kheap.{Heap, size_of}
use bless_os.Kheap.Blocks.{Block, hole_block, used_block, total}
use bless_os.Kheap.Holes.{has-Perm, holes-split}
use bless_os.Kheap.Alloc.{alloc, grow, take_hole, find_smallest_hole}
use bless_os.Kheap.Alloc.Search.{Hit, Hit-smallest, find_smallest_hole-Search}
use bless_os.Kheap.Alloc.Split.{Took, take_whole, take_part}
use bless_os.Kheap.Around.{Tiles-Place}
use bless_os.Kheap.Valid.{IsHeap}
use bless_os.OrderedArray.Sorted.{get_elem?-has}
use bless_os.OrderedArray.Position.{has-get_elem?}
use mathlib.Core.Path.{subst}
use bless_os.Kheap.Alloc.Fit.{best_fit, best_fit-le, best_fit-hole}

-- What is made of a hole of `s` bytes for a block of `n`: a rest that has no room for a header and a
-- footer goes to the block. A hole that goes whole leaves a cell of the index free.
abbrev pub carve : Bool → (n s : ℕ) → List Block
carve whole n s = if whole then used_block s ∷ [] else used_block n ∷ hole_block (s - n) ∷ []

abbrev pub carve_spare : Bool → ℕ → List ℕ → List ℕ
carve_spare whole z spare = if whole then z ∷ spare else spare

abbrev pub carved : (n s : ℕ) → List Block
carved n s = carve (ltb (s - n) 20) n s

abbrev pub carved_spare : (n s z : ℕ) → List ℕ → List ℕ
carved_spare n s z spare = carve_spare (ltb (s - n) 20) z spare

take_hole-carved :
    (n it z s : ℕ) (h : Heap) (items spare : List ℕ) (pre post : List Block)
    → IsHeap h (pre ++ hole_block s ∷ post) items spare z
    → get_elem? items it ≡ some (h.start_address + total pre)
    → n ≤ s
    → 20 ≤ n
    → Took h
        (h.start_address + total pre)
        s
        (pre ++ (carved n s ++ post))
        (carved_spare n s z spare)
        (take_hole n 0 it h)
take_hole-carved n it z s h items spare pre post x at le room = elim (Bool-cases (ltb (s - n) 20)) [
  | inl small ↦ rw small (take_whole n it z s h items spare pre post x at le room (ground arith))
  | inr big ↦ rw big (take_part n it z s h items spare pre post x at room (ground arith))
]

-- The size of the hole that the search hits is the best fit.
Hit-best_fit :
    (n s z : ℕ) (h : Heap) {blocks : List Block} {items spare : List ℕ} {o : Outcome (Option ℕ)}
    → IsHeap h blocks items spare z
    → best_fit n blocks ≡ some s
    → (hit : Hit n 0 h.ram items o) → size_of h.ram hit.header ≡ s
Hit-best_fit n s z h {blocks} {items} x best hit =
    let start : ℕ = h.start_address in
    let in_items = get_elem?-has hit.place hit.header items hit.at in
    let in_holes = sym (has-Perm hit.header x.same) ∙ in_items in
    let (v, e, v_le) =
      best_fit-le n h.ram start blocks h.end_address hit.header x.tiles in_holes hit.enough in
    let (a, a_hole, a_size, n_le) =
      best_fit-hole n h.ram start blocks h.end_address s x.tiles best in
    let s_v : s ≡ v = eq_of_some (sym best ∙ e) in
    let le = Hit-smallest n h.ram items a x.sorted hit (has-Perm a x.same ∙ a_hole) (omega arith) in
    omega (arith, le, v_le, s_v, a_size)

-- `alloc` where the search hits.
alloc-hit :
    (fuel size it : ℕ) (h : Heap)
    → size + 20 < 2 ^ 32
    → find_smallest_hole (size + 20) 0 h ≡ ok (some it)
    → alloc (suc fuel) size 0 h ≡ take_hole (size + 20) 0 it h
unfolding alloc
alloc-hit fuel size it h small found =
    let body : ℕ → Outcome (ℕ × Heap) = λ n. find_smallest_hole n 0 h >>= λ found. elim found [
      | none ↦ grow n h >>= alloc fuel size 0
      | some it ↦ take_hole n 0 it h
    ] in
    let new_size : add32 (add32 size 12) 8 ≡ size + 20 = omega arith in
    ap body new_size ∙ rw found refl

-- In a heap that keeps the invariant, `alloc` for a block that need not stand on a page's edge, with a
-- size that some hole can hold with header and footer, takes a smallest such hole: its blocks then
-- stand where the hole stood, the others are as before, the address that it returns is that of the
-- block behind its header, the invariant holds and memory outside of the hole is as it was.
pub alloc-best_fit :
    (fuel size s z : ℕ) (h : Heap) (blocks : List Block) {items spare : List ℕ}
    → IsHeap h blocks items spare z
    → size + 20 < 2 ^ 32
    → best_fit (size + 20) blocks ≡ some s
    → (pre : List Block) × (post : List Block) × (blocks ≡ pre ++ hole_block s ∷ post)
      × Took h
          (h.start_address + total pre)
          s
          (pre ++ (carved (size + 20) s ++ post))
          (carved_spare (size + 20) s z spare)
          (alloc (suc fuel) size 0 h)
alloc-best_fit fuel size s z h blocks {items} {spare} x small best =
    let n : ℕ = size + 20 in
    elim (find_smallest_hole-Search n h x.index) [
      | inl (not_found, all) ↦
          let (a, a_hole, a_size, n_le) =
            best_fit-hole n h.ram h.start_address blocks h.end_address s x.tiles best in
          let (j, lt, at) = has-get_elem? a items (has-Perm a x.same ∙ a_hole) in
          absurd (omega (arith, all j a (omega arith) lt at, a_size, n_le))
      | inr hit ↦
          let here =
            sym (has-Perm hit.header x.same) ∙ get_elem?-has hit.place hit.header items hit.at in
          let (pre, s', post, e, at) = holes-split hit.header h.start_address blocks here in
          let x' : IsHeap h (pre ++ hole_block s' ∷ post) items spare z =
            subst (λ l. IsHeap h l items spare z) e x in
          let (place, block) =
            Tiles-Place h.ram h.start_address h.end_address pre (hole_block s') post x'.tiles in
          let size_s : s' ≡ s =
            sym block.size ∙ ap (size_of h.ram) (sym at) ∙ Hit-best_fit n s z h x best hit in
          let run = alloc-hit fuel size hit.place h small hit.done in
          let (a, a_hole, a_size, n_le) =
            best_fit-hole n h.ram h.start_address blocks h.end_address s x.tiles best in
          (
            pre,
            post,
            e ∙ ap (λ t. pre ++ hole_block t ∷ post) size_s,
            subst
                (λ o.
                  Took h (h.start_address + total pre) s (pre ++ (carved n s ++ post))
                    (carved_spare n s z spare) o)
                (sym run)
                (take_hole-carved n hit.place z s h items spare pre post
                  (subst (λ t. IsHeap h (pre ++ hole_block t ∷ post) items spare z) size_s x')
                  (hit.at ∙ ap some at) n_le (omega arith)),
          )
    ]
