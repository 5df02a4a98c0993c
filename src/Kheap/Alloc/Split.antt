-- ===== src/Kheap/Alloc/Split.antt =====
-- take_hole of the heap, for a block that need not stand on a page's edge.
use mathlib.Core.List.{Perm, perm_middle}
use mathlib.Core.List.Perm
use mathlib.Core.Path.{subst}
use bless_os.Kheap.Holes.{holes-append}
use bless_os.Prelude.{
  ℕ, ◌+◌, ◌-◌, ◌^◌, ◌<◌, ◌≤◌, ◌≡◌, refl, sym, ap, ◌∙◌, inl, true, false, ltb, ◌==◌, if◌then◌else◌,
  arith, some, List, [], ◌∷◌, ◌++◌, Outcome, ok, ◌>>=◌, get_elem?, add32, sub32,
}
use bless_os.Prelude.Ram.{Ram}
use bless_os.OrderedArray.{OrderedArray, lookup_ordered_array, remove_ordered_array}
use bless_os.OrderedArray.Sorted.{lookup_ordered_array-Holds}
use bless_os.Kheap.{Heap, size_of, insert_hole}
use bless_os.Kheap.Alloc.{take_hole, cut_hole, put_rest}
use bless_os.Kheap.Blocks.{
  Block, hole_block, used_block, IsBlock, IsBlock-Agree, Tiles, total, holes,
}
use bless_os.Kheap.Write.{
  Within, Within-trans, write_block, write_block-Within, write_block-IsBlock,
}
use bless_os.Kheap.Index.{insert_hole-Holds}
use bless_os.Kheap.Valid.{IsHeap}
use bless_os.Kheap.Around.{Place-Tiles, Tiles-Place, remove_hole, other_sizes}

-- The size of the block that is made of a hole of `s` bytes for a request of `n`.
abbrev pub taken : (n s : ℕ) → ℕ
taken n s = if ltb (s - n) 20 then s else n

-- Up to the rest.
take_hole-cut :
    (n it p s t : ℕ) (h : Heap) (index : OrderedArray)
    → lookup_ordered_array it h.index ≡ ok p
    → remove_ordered_array it h.index ≡ ok index
    → size_of h.ram p ≡ s
    → taken n s ≡ t
    → n ≤ s
    → 20 ≤ n
    → p + s < 2 ^ 32
    → take_hole n 0 it h ≡ (
        put_rest p t s (record h { index = index; ram = write_block p 0 t h.ram }) >>= λ h'.
        ok (p + 12, h'))
unfolding take_hole cut_hole
take_hole-cut n it p s t h index look done size size_t le room bound =
    let sub : sub32 s n ≡ s - n = omega arith in
    let at : add32 p 12 ≡ p + 12 = omega arith in
    let foot : sub32 (add32 p t) 8 ≡ p + t - 8 = ground arith in
    rw (look, size, sub, size_t, done, at, foot) refl

put_rest-none : (p s : ℕ) (h : Heap) → p + s < 2 ^ 32 → put_rest p s s h ≡ ok h
unfolding put_rest
put_rest-none p s h bound = let none_left : sub32 s s ≡ 0 = omega arith in rw none_left refl

put_rest-some :
    (p n s : ℕ) (h : Heap)
    → n + 20 ≤ s
    → p + s ≤ h.end_address
    → h.end_address < 2 ^ 32
    → put_rest p n s h
      ≡ insert_hole (p + n) (record h { ram = write_block (p + n) 1 (s - n) h.ram })
unfolding put_rest
put_rest-some p n s h room inside bound =
    let sub : sub32 s n ≡ s - n = omega arith in
    let left : (s - n == 0) ≡ false = ground arith in
    let at : add32 p n ≡ p + n = omega arith in
    let foot : sub32 (add32 (p + n) (s - n)) 8 ≡ p + n + (s - n) - 8 = omega arith in
    let before : ltb (p + n + (s - n) - 8) h.end_address ≡ true = ground arith in
    rw (sub, left, at, foot, before) refl

-- What becomes of a heap whose hole at `p` of `s` bytes is taken: memory changes in the hole only.
pub record Took (h : Heap) (p s : ℕ) (blocks : List Block) (spare : List ℕ) (o : Outcome (ℕ × Heap))
    : Type 0 where
  pub index : OrderedArray
  pub ram : Ram
  pub items : List ℕ
  pub free_cell : ℕ
  pub done : o ≡ ok (p + 12, record h { index = index; ram = ram })
  pub heap : IsHeap (record h { index = index; ram = ram }) blocks items spare free_cell
  pub within : Within p (p + s) h.ram ram

pub take_whole :
    (n it z s : ℕ) (h : Heap) (items spare : List ℕ) (pre post : List Block)
    → IsHeap h (pre ++ hole_block s ∷ post) items spare z
    → get_elem? items it ≡ some (h.start_address + total pre)
    → n ≤ s
    → 20 ≤ n
    → s < n + 20
    → Took h
        (h.start_address + total pre)
        s
        (pre ++ used_block s ∷ post)
        (z ∷ spare)
        (take_hole n 0 it h)
take_whole n it z s h items spare pre post x at le room small =
    let p : ℕ = h.start_address + total pre in
    let (place, block) =
      Tiles-Place h.ram h.start_address h.end_address pre (hole_block s) post x.tiles in
    let r = remove_hole it z h pre s post x at in
    let all : taken n s ≡ s = ground arith in
    let bound : p + s < 2 ^ 32 = omega (arith, place.inside, x.bound) in
    let m : Ram = write_block p 0 s h.ram in
    let within = write_block-Within p 0 s h.ram (omega arith) in
    let cut =
      take_hole-cut n it p s s h r.index (lookup_ordered_array-Holds it p x.index at) r.done
        block.size all le room bound in
    record {
      index = r.index;
      ram = m;
      items = r.items;
      free_cell = z;
      done =
          cut
          ∙ ap (λ o. o >>= λ h'. ok (p + 12, h'))
              (put_rest-none p s (record h { index = r.index; ram = m }) bound);
      heap = record {
        tiles =
            Place-Tiles (used_block s ∷ []) place within
              (write_block-IsBlock p (used_block s) h.ram (omega arith) bound, refl);
        bound = x.bound;
        index = r.holds;
        same =
            subst (λ l. Perm r.items l)
              (sym (holes-append h.start_address pre (used_block s ∷ post))) r.same;
        sorted = r.sorted m (λ y here. other_sizes y place within here);
      };
      within = within;
    }

pub take_part :
    (n it z s : ℕ) (h : Heap) (items spare : List ℕ) (pre post : List Block)
    → IsHeap h (pre ++ hole_block s ∷ post) items spare z
    → get_elem? items it ≡ some (h.start_address + total pre)
    → 20 ≤ n
    → n + 20 ≤ s
    → Took h
        (h.start_address + total pre)
        s
        (pre ++ used_block n ∷ hole_block (s - n) ∷ post)
        spare
        (take_hole n 0 it h)
take_part n it z s h items spare pre post x at room rest =
    let start : ℕ = h.start_address in
    let p : ℕ = start + total pre in
    let (place, block) = Tiles-Place h.ram start h.end_address pre (hole_block s) post x.tiles in
    let r = remove_hole it z h pre s post x at in
    let some_left : taken n s ≡ n = ground arith in
    let bound : p + s < 2 ^ 32 = omega (arith, place.inside, x.bound) in
    let m₁ : Ram = write_block p 0 n h.ram in
    let m₂ : Ram = write_block (p + n) 1 (s - n) m₁ in
    let second = write_block-Within (p + n) 1 (s - n) m₁ (omega arith) in
    let within : Within p (p + s) h.ram m₂ =
      Within-trans p (p + n) (p + n) (p + n + (s - n)) p (p + s)
        (write_block-Within p 0 n h.ram room) second (omega arith) (omega arith) (omega arith)
        (omega arith) in
    let (index, items', done, holds, sorted, perm) =
      insert_hole-Holds (p + n) z (record h { index = r.index; ram = m₂ }) r.holds
        (r.sorted m₂ (λ y here. other_sizes y place within here)) in
    let cut =
      take_hole-cut n it p s n h r.index (lookup_ordered_array-Holds it p x.index at) r.done
        block.size some_left (omega arith) room bound in
    let put =
      put_rest-some p n s (record h { index = r.index; ram = m₁ }) rest place.inside x.bound in
    let used : IsBlock m₁ p (used_block n) =
      write_block-IsBlock p (used_block n) h.ram room (omega arith) in
    let mid : Tiles m₂ p (used_block n ∷ hole_block (s - n) ∷ []) (p + s) = (
      IsBlock-Agree m₁ m₂ p (λ a lo hi. second a (inl hi)) used,
      (
        write_block-IsBlock (p + n) (hole_block (s - n)) m₁ (omega arith) (omega arith),
        omega arith,
      ),
    ) in
    let sum : p + n + (s - n) ≡ p + s = omega arith in
    let moved : Perm items' (holes start pre ++ (p + n) ∷ holes (p + n + (s - n)) post) =
      subst (λ k. Perm items' (holes start pre ++ (p + n) ∷ holes k post)) (sym sum)
        (Perm.trans perm (
          Perm.trans (Perm.cons (p + n) r.same)
            (Perm.symm (perm_middle (holes start pre) (holes (p + s) post))))) in
    record {
      index = index;
      ram = m₂;
      items = items';
      free_cell = z;
      done = cut ∙ ap (λ o. o >>= λ h'. ok (p + 12, h')) (put ∙ done);
      heap = record {
        tiles = Place-Tiles (used_block n ∷ hole_block (s - n) ∷ []) place within mid;
        bound = x.bound;
        index = holds;
        same =
            subst (λ l. Perm items' l)
              (sym (holes-append start pre (used_block n ∷ hole_block (s - n) ∷ post))) moved;
        sorted = sorted;
      };
      within = within;
    }
