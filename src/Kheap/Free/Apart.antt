-- ===== src/Kheap/Free/Apart.antt =====
-- free of src/kernel/kheap.c for a block between two blocks in use.
use mathlib.Core.List.{Perm, perm_middle}
use mathlib.Core.List.Perm
use mathlib.Core.Path.{subst}
use bless_os.Prelude.{
  ℕ, ◌+◌, ◌-◌, ◌^◌, ◌<◌, ◌≤◌, ◌≡◌, refl, sym, ◌∙◌, inl, inr, true, false, not, ◌==◌, ◌&&◌, arith,
  List, [], ◌∷◌, ◌++◌, Outcome, ok, add32,
}
use bless_os.Prelude.Ram.{Ram}
use bless_os.Prelude.Ram.Words.{load32-store_far}
use bless_os.OrderedArray.{OrderedArray}
use bless_os.Kheap.{Heap, hole_of, set_hole}
use bless_os.Kheap.Blocks.{Block, hole_block, used_block, IsBlock, Tiles-le, total, holes}
use bless_os.Kheap.Holes.{holes-append, has-Perm}
use bless_os.Kheap.Write.{Within}
use bless_os.Kheap.Index.{insert_hole-Holds, header_less_than-agree}
use bless_os.Kheap.Valid.{IsHeap}
use bless_os.Kheap.Around.{Tiles-Place, Place-Tiles, other_holes, other_sizes}
use bless_os.Kheap.Free.{Freeing, is_magic, unify_right, give_back, free}
use bless_os.Kheap.Free.Left.{last_used, Tiles-UsedBefore, marked, free-marked}

-- What becomes of a heap in which the `s` bytes at `p` become one hole.
pub record Freed (h : Heap) (p s : ℕ) (blocks : List Block) (spare : List ℕ) (o : Outcome Heap)
    : Type 0 where
  pub index : OrderedArray
  pub ram : Ram
  pub items : List ℕ
  pub free_cell : ℕ
  pub done : o ≡ ok (record h { index = index; ram = ram })
  pub heap : IsHeap (record h { index = index; ram = ram }) blocks items spare free_cell
  pub within : Within p (p + s) h.ram ram

set_hole-Within : (p k : ℕ) (m : Ram) → Within (p + 4) (p + 5) m (set_hole p k m)
set_hole-Within p k m a out = ground arith

-- A block in use that is marked is a hole.
pub set_hole-IsBlock :
    (p s : ℕ) (m : Ram) → IsBlock m p (used_block s) → IsBlock (set_hole p 1 m) p (hole_block s)
set_hole-IsBlock p s m b = record {
  magic = load32-store_far m (p + 4) 1 p (inl (omega arith)) ∙ b.magic;
  hole = ground arith;
  size = load32-store_far m (p + 4) 1 (p + 8) (inr (omega arith)) ∙ b.size;
  room = b.room;
  footed = tt;
}

pub give_back-inside :
    (right : ℕ) (s : Freeing)
    → s.footer + 8 < s.heap.end_address
    → s.heap.end_address < 2 ^ 32
    → give_back right s ≡ ok s
unfolding give_back
give_back-inside right s inside bound =
    let not_end : (add32 s.footer 8 == s.heap.end_address) ≡ false = ground arith in rw not_end refl

unify_right-used :
    (p s t : ℕ) (h : Heap)
    → IsBlock h.ram (p + s) (used_block t)
    → 20 ≤ s
    → p + s < 2 ^ 32
    → unify_right (marked p s h) ≡ ok (marked p s h)
unfolding unify_right
unify_right-used p s t h b room bound =
    let right : add32 (p + s - 8) 8 ≡ p + s = omega arith in
    let far : set_hole p 1 h.ram (p + s + 4) ≡ h.ram (p + s + 4) = ground arith in
    let in_use = far ∙ b.hole in
    let no_hole : (is_magic (set_hole p 1 h.ram) (p + s)
          && not (hole_of (set_hole p 1 h.ram) (p + s) == 0))
        ≡ false =
      ground (arith, in_use) in
    rw (right, no_hole) refl

-- `free` between two blocks in use, with a free cell left in the index: the block becomes a hole.
pub free-apart :
    (s t z z' : ℕ) (h : Heap) {items spare : List ℕ} (pre post : List Block)
    → IsHeap h (pre ++ used_block s ∷ used_block t ∷ post) items (z' ∷ spare) z
    → last_used pre ≡ true
    → Freed h
        (h.start_address + total pre)
        s
        (pre ++ hole_block s ∷ used_block t ∷ post)
        spare
        (free (h.start_address + total pre + 12) h)
free-apart s t z z' h {items} {spare} pre post x left =
    let start : ℕ = h.start_address in
    let p : ℕ = start + total pre in
    let (place, block) =
      Tiles-Place h.ram start h.end_address pre (used_block s) (used_block t ∷ post) x.tiles in
    let (next, behind) = place.behind in
    let room = block.room in
    let room' = next.room in
    let le = Tiles-le h.ram (p + s + t) post h.end_address behind in
    let bound : p + s < 2 ^ 32 = omega (arith, x.bound) in
    let m : Ram = set_hole p 1 h.ram in
    let small = set_hole-Within p 1 h.ram in
    let within : Within p (p + s) h.ram m = λ a out. small a (omega (arith, out)) in
    let all : Perm items (other_holes start pre s (used_block t ∷ post)) =
      subst (λ l. Perm items l) (holes-append start pre (used_block s ∷ used_block t ∷ post))
        x.same in
    let sorted =
      header_less_than-agree h.ram m items
        (λ y here. other_sizes y place within (sym (has-Perm y all) ∙ here)) x.sorted in
    let (index, items', done, holds, sorted', perm) =
      insert_hole-Holds p z (record h { ram = m }) x.index sorted in
    record {
      index = index;
      ram = m;
      items = items';
      free_cell = z';
      done =
          free-marked p s h (Tiles-UsedBefore h.ram start pre p place.before left) block bound
          ∙ rw
              (
                unify_right-used p s t h next room bound,
                give_back-inside (p + s) (marked p s h) (omega arith) x.bound,
              )
              done;
      heap = record {
        tiles =
            Place-Tiles (hole_block s ∷ []) place within (set_hole-IsBlock p s h.ram block, refl);
        bound = x.bound;
        index = holds;
        same =
            subst (λ l. Perm items' l)
              (sym (holes-append start pre (hole_block s ∷ used_block t ∷ post)))
              (Perm.trans perm (
                Perm.trans (Perm.cons p all) (
                  Perm.symm
                    (perm_middle (holes start pre) (holes (p + s) (used_block t ∷ post))))));
        sorted = sorted';
      };
      within = within;
    }
