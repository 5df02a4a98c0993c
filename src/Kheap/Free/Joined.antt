-- ===== src/Kheap/Free/Joined.antt =====
-- The heap of src/kernel/kheap.c after free has joined a block with the hole behind it.
use mathlib.Core.List.{Perm, perm_middle}
use mathlib.Core.List.Perm
use mathlib.Core.Path.{subst}
use bless_os.Prelude.{
  ℕ, ◌+◌, ◌-◌, ◌^◌, ◌<◌, ◌≡◌, refl, sym, ◌∙◌, true, if◌then◌else◌, arith, List, [], ◌∷◌, ◌++◌, ok,
  ◌>>=◌, has,
}
use bless_os.Prelude.Ram.{Ram}
use bless_os.OrderedArray.Sorted.{get_elem?-bound}
use bless_os.OrderedArray.Position.{has-get_elem?}
use bless_os.Kheap.{Heap, insert_hole}
use bless_os.Kheap.Blocks.{Block, hole_block, used_block, Tiles, Tiles-le, total, holes}
use bless_os.Kheap.Holes.{holes-append, has-Perm}
use bless_os.Kheap.Write.{Within}
use bless_os.Kheap.Index.{insert_hole-Holds}
use bless_os.Kheap.Valid.{IsHeap, IsHeap-counted}
use bless_os.Kheap.Around.{Place, Tiles-Place, Place-Tiles, other_holes, other_sizes, remove_item}
use bless_os.Kheap.Free.{Freeing, unify_right, give_back, free}
use bless_os.Kheap.Free.Left.{last_used, Tiles-UsedBefore, marked, free-marked}
use bless_os.Kheap.Free.Apart.{Freed, give_back-inside}
use bless_os.Kheap.Free.Merge.{
  index_loop-finds, joined, joined-Within, joined-IsBlock, unify_right-hole,
}

-- The last parts of `free`, where they leave the heap's end alone.
free-end :
    (right : ℕ) (s t : Freeing)
    → unify_right s ≡ ok t
    → t.do_add ≡ true
    → t.footer + 8 < t.heap.end_address
    → t.heap.end_address < 2 ^ 32
    → (unify_right s >>= give_back right >>= λ u.
        if u.do_add then insert_hole u.header u.heap else ok u.heap)
      ≡ insert_hole t.header t.heap
free-end right s t e add inside bound = rw (e, give_back-inside right t inside bound, add) refl

-- `free` for a block between a block in use and a hole that a further block follows, in a heap that
-- keeps the invariant: it returns, the block and the hole are one hole, memory outside of the two is as
-- it was, and the invariant holds, with the joined hole in the index in place of the other.
pub free-joined :
    (s t z : ℕ) (h : Heap) {items spare : List ℕ} (pre : List Block) (c : Block) (post : List Block)
    → IsHeap h (pre ++ used_block s ∷ hole_block t ∷ c ∷ post) items spare z
    → last_used pre ≡ true
    → Freed h
        (h.start_address + total pre)
        (s + t)
        (pre ++ hole_block (s + t) ∷ c ∷ post)
        spare
        (free (h.start_address + total pre + 12) h)
free-joined s t z h {items} {spare} pre c post x left =
    let start : ℕ = h.start_address in
    let p : ℕ = start + total pre in
    let end : ℕ = h.end_address in
    let (place₀, block) =
      Tiles-Place h.ram start end pre (used_block s) (hole_block t ∷ c ∷ post) x.tiles in
    let (hole, behind) = place₀.behind in
    let (next, rest_tiles) = behind in
    let room = block.room in
    let room' = hole.room in
    let room₃ = next.room in
    let le = Tiles-le h.ram (p + s + t + c.size) post end rest_tiles in
    let bound : p + s + t < 2 ^ 32 = omega (arith, x.bound) in
    let sum : p + s + t ≡ p + (s + t) = omega arith in
    let place : Place h.ram start end pre (s + t) (c ∷ post) = record {
      before = place₀.before;
      behind = subst (λ a. Tiles h.ram a (c ∷ post) end) sum behind;
      inside = omega arith;
    } in
    let m : Ram = joined p (s + t) h.ram in
    let within : Within p (p + (s + t)) h.ram m =
      λ a out. joined-Within p (s + t) s h.ram room a (omega (arith, out)) in
    let others : List ℕ = other_holes start pre (s + t) (c ∷ post) in
    let all : Perm items (holes start pre ++ (p + s) ∷ holes (p + (s + t)) (c ∷ post)) =
      subst (λ a. Perm items (holes start pre ++ (p + s) ∷ holes a (c ∷ post))) sum
        (subst (λ l. Perm items l) (holes-append start pre (used_block s ∷ hole_block t ∷ c ∷ post))
          x.same) in
    let first : Perm items ((p + s) ∷ others) =
      Perm.trans all (perm_middle (holes start pre) (holes (p + (s + t)) (c ∷ post))) in
    let here : has (p + s) items ≡ true = has-Perm (p + s) first ∙ ground arith in
    let (j, _, at_j) = has-get_elem? (p + s) items here in
    let (it, found, at) =
      index_loop-finds h.index.size 0 j (p + s) h.index x.index (omega (arith, x.index.count))
        (omega arith) at_j in
    let inside = get_elem?-bound it (p + s) items at in
    let r =
      remove_item it z (p + s) h others x.index (IsHeap-counted h _ items spare z x) x.sorted at
        first in
    let h₁ : Heap = record h { index = r.index; ram = m } in
    let (index, items', done, holds, sorted, perm) =
      insert_hole-Holds p z h₁ r.holds (r.sorted m (λ y here. other_sizes y place within here)) in
    let right =
      unify_right-hole p s t it h r.index block hole bound found (omega (arith, x.index.count))
        r.done in
    record {
      index = index;
      ram = m;
      items = items';
      free_cell = z;
      done =
          free-marked p s h (Tiles-UsedBefore h.ram start pre p place.before left) block
            (omega arith)
          ∙ free-end (p + s) (marked p s h)
              (record { header = p; footer = p + s + t - 8; do_add = true; heap = h₁ }) right refl
              (omega arith) x.bound
          ∙ done;
      heap = record {
        tiles =
            Place-Tiles (hole_block (s + t) ∷ []) place within
              (joined-IsBlock p s (s + t) h.ram block (omega arith) (omega arith), refl);
        bound = x.bound;
        index = holds;
        same =
            subst (λ l. Perm items' l)
              (sym (holes-append start pre (hole_block (s + t) ∷ c ∷ post)))
              (Perm.trans perm (
                Perm.trans (Perm.cons p r.same)
                  (Perm.symm (perm_middle (holes start pre) (holes (p + (s + t)) (c ∷ post))))));
        sorted = sorted;
      };
      within = within;
    }
