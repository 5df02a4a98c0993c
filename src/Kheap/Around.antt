-- ===== src/Kheap/Around.antt =====
-- A hole of src/kernel/kheap.c that is taken apart: the blocks around it and the index without it.
use mathlib.Core.List.{Perm, perm_middle}
use mathlib.Core.List.Perm
use mathlib.Core.Path.{subst}
use bless_os.Prelude.{
  ℕ, ◌+◌, ◌^◌, ◌<◌, ◌≤◌, ◌≡◌, sym, ◌∙◌, inl, inr, true, Bool-cases, arith, some, List, ◌∷◌, ◌++◌,
  has, ok, get_elem?,
}
use bless_os.Prelude.Ram.{Ram}
use bless_os.OrderedArray.{OrderedArray, remove_ordered_array}
use bless_os.OrderedArray.Insert.{Holds}
use bless_os.OrderedArray.Order.{IsSorted}
use bless_os.OrderedArray.Remove.{erase_at, remove_ordered_array-erase_at}
use bless_os.OrderedArray.Sorted.{erase_at-perm, get_elem?-bound, IsSorted-erase_at}
use bless_os.Kheap.{Heap, header_less_than, size_of}
use bless_os.Kheap.Blocks.{
  Block, hole_block, IsBlock, Tiles, Tiles-le, Tiles-Agree, Tiles-split, Tiles-join, total, holes,
}
use bless_os.Kheap.Holes.{has-append, has-Perm, holes-append, holes-within}
use bless_os.Kheap.Write.{Within, load32-Within}
use bless_os.Kheap.Index.{header_less_than-agree}
use bless_os.Kheap.Valid.{IsHeap, IsHeap-counted}

-- What stands before a stretch of `s` bytes, and what stands behind it.
pub record Place (m : Ram) (start end : ℕ) (pre : List Block) (s : ℕ) (post : List Block)
    : Type 0 where
  pub before : Tiles m start pre (start + total pre)
  pub behind : Tiles m (start + total pre + s) post end
  pub inside : start + total pre + s ≤ end

pub Tiles-Place :
    (m : Ram) (start end : ℕ) (pre : List Block) (b : Block) (post : List Block)
    → Tiles m start (pre ++ b ∷ post) end
    → Place m start end pre b.size post × IsBlock m (start + total pre) b
Tiles-Place m start end pre b post t =
    let (before, (block, behind)) = Tiles-split m start pre (b ∷ post) end t in
    (
      record {
        before = before;
        behind = behind;
        inside = Tiles-le m (start + total pre + b.size) post end behind;
      },
      block,
    )

-- New blocks in its place.
pub Place-Tiles :
    {m m' : Ram} {start end : ℕ} {pre : List Block} {s : ℕ} {post : List Block} (mid : List Block)
    → Place m start end pre s post
    → Within (start + total pre) (start + total pre + s) m m'
    → Tiles m' (start + total pre) mid (start + total pre + s)
    → Tiles m' start (pre ++ (mid ++ post)) end
Place-Tiles {m} {m'} {start} {end} {pre} {s} {post} mid x same t =
    let p : ℕ = start + total pre in
    Tiles-join m' start pre (mid ++ post) p end
      (Tiles-Agree m m' start pre p (λ a lo hi. same a (inl hi)) x.before)
      (Tiles-join m' p mid post (p + s) end t
        (Tiles-Agree m m' (p + s) post end (λ a lo hi. same a (inr lo)) x.behind))

-- The holes but the one.
abbrev pub other_holes : (start : ℕ) (pre : List Block) (s : ℕ) (post : List Block) → List ℕ
other_holes start pre s post = holes start pre ++ holes (start + total pre + s) post

-- Their sizes stand outside of it.
pub other_sizes :
    {m m' : Ram} {start end : ℕ} {pre : List Block} {s : ℕ} {post : List Block} (x : ℕ)
    → Place m start end pre s post
    → Within (start + total pre) (start + total pre + s) m m'
    → has x (other_holes start pre s post) ≡ true
    → size_of m' x ≡ size_of m x
other_sizes {m} {m'} {start} {end} {pre} {s} {post} x at same h =
    let p : ℕ = start + total pre in
    let split = sym (has-append x (holes start pre) (holes (p + s) post)) ∙ h in
    load32-Within p (p + s) (x + 8) same (elim (Bool-cases (has x (holes start pre))) [
      | inl l ↦ inl (omega (arith, (holes-within m start pre p x at.before l).1))
      | inr l ↦
          let later : has x (holes (p + s) post) ≡ true = ground (arith, split) in
          inr (omega (arith, (holes-within m (p + s) post end x at.behind later).0))
    ])

-- The index without the item at place `it`, in any memory that has the sizes of the others.
pub record Removed (h : Heap) (it z : ℕ) (spare others : List ℕ) : Type 0 where
  pub index : OrderedArray
  pub items : List ℕ
  pub done : remove_ordered_array it h.index ≡ ok index
  pub holds : Holds index items (z ∷ z ∷ spare)
  pub same : Perm items others
  pub sorted :
      (m : Ram)
      → ((y : ℕ) → has y others ≡ true → size_of m y ≡ size_of h.ram y)
      → IsSorted (header_less_than m) items

pub remove_item :
    (it z q : ℕ) (h : Heap) {items spare : List ℕ} (others : List ℕ)
    → Holds h.index items (z ∷ spare)
    → h.index.size < 2 ^ 32
    → IsSorted (header_less_than h.ram) items
    → get_elem? items it ≡ some q
    → Perm items (q ∷ others)
    → Removed h it z spare others
remove_item it z q h {items} others holds counted sorted at first =
    let (index, done, holds', less) =
      remove_ordered_array-erase_at it z holds (get_elem?-bound it q items at) counted in
    let rest : List ℕ = erase_at it items in
    let same : Perm rest others =
      Perm.cons_inv (Perm.trans (Perm.symm (erase_at-perm it q items at)) first) in
    record {
      index = index;
      items = rest;
      done = done;
      holds = holds';
      same = same;
      sorted = λ m agree.
          header_less_than-agree h.ram m rest (λ y here. agree y (sym (has-Perm y same) ∙ here))
            (IsSorted-erase_at (header_less_than h.ram) it items sorted);
    }

pub remove_hole :
    (it z : ℕ) (h : Heap) {items spare : List ℕ} (pre : List Block) (s : ℕ) (post : List Block)
    → IsHeap h (pre ++ hole_block s ∷ post) items spare z
    → get_elem? items it ≡ some (h.start_address + total pre)
    → Removed h it z spare (other_holes h.start_address pre s post)
remove_hole it z h {items} {spare} pre s post x at =
    let p : ℕ = h.start_address + total pre in
    let all : Perm items (holes h.start_address pre ++ p ∷ holes (p + s) post) =
      subst (λ l. Perm items l) (holes-append h.start_address pre (hole_block s ∷ post)) x.same in
    remove_item it z p h (other_holes h.start_address pre s post) x.index
      (IsHeap-counted h _ items spare z x) x.sorted at
      (Perm.trans all (perm_middle (holes h.start_address pre) (holes (p + s) post)))
