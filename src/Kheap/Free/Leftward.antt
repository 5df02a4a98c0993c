-- ===== src/Kheap/Free/Leftward.antt =====
-- free of src/kernel/kheap.c for a block with a hole before it and a block in use behind it.
use mathlib.Core.List.{Perm}
use mathlib.Core.Path.{subst}
use bless_os.Prelude.{
  ℕ, ◌+◌, ◌-◌, ◌^◌, ◌<◌, ◌≤◌, ◌≡◌, refl, sym, ◌∙◌, inl, inr, true, false, not, ◌==◌, ◌&&◌, arith,
  List, [], ◌∷◌, ◌++◌, ok, add32, sub32,
}
use bless_os.Prelude.Ram.{Ram}
use bless_os.Prelude.Ram.Words.{
  store32, load32-store_far, load32-store32, load32-store32_far, store32-outside,
}
use bless_os.Kheap.{Heap, magic_of, hole_of, size_of, header_of, set_hole, set_size, heap_magic}
use bless_os.Kheap.Blocks.{Block, hole_block, used_block, IsBlock, Tiles, Tiles-le, total, holes}
use bless_os.Kheap.Holes.{holes-append}
use bless_os.Kheap.Write.{Within}
use bless_os.Kheap.Valid.{IsHeap}
use bless_os.Kheap.Around.{Place, Tiles-Place, Place-Tiles}
use bless_os.Kheap.Free.{Freeing, is_magic, unify_left, unify_right, free}
use bless_os.Kheap.Free.Apart.{give_back-inside}

-- A footer before the block, as `alloc` writes it, that leads to the hole.
pub record HoleBefore (m : Ram) (p a : ℕ) : Type 0 where
  pub magic : magic_of m (p + a - 8) ≡ heap_magic
  pub leads : header_of m (p + a - 8) ≡ p

-- The memory in which the block at `p + a` has become part of the hole at `p`.
abbrev pub merged : (p a s : ℕ) → Ram → Ram
merged p a s m = set_size p (a + s) (store32 (set_hole (p + a) 1 m) (p + a + s - 4) p)

abbrev pub left_freed : (p a s : ℕ) → Heap → Freeing
left_freed p a s h = record {
  header = p;
  footer = p + a + s - 8;
  do_add = false;
  heap = record h { ram = merged p a s h.ram };
}

merged-Within : (p a s : ℕ) (m : Ram) → 20 ≤ a → 20 ≤ s → Within p (p + (a + s)) m (merged p a s m)
merged-Within p a s m room room' b out =
    store32-outside (store32 (set_hole (p + a) 1 m) (p + a + s - 4) p) (p + 8) (a + s) b
      (omega (arith, out))
    ∙ store32-outside (set_hole (p + a) 1 m) (p + a + s - 4) p b (omega (arith, out))
    ∙ ground (arith, out)

merged-IsBlock :
    (p a s : ℕ) (m : Ram)
    → IsBlock m p (hole_block a)
    → 20 ≤ s
    → a + s < 2 ^ 32
    → IsBlock (merged p a s m) p (hole_block (a + s))
merged-IsBlock p a s m b room' bound =
    let room = b.room in
    let m₀ : Ram = set_hole (p + a) 1 m in
    let m₁ : Ram = store32 m₀ (p + a + s - 4) p in
    record {
      magic =
          load32-store32_far m₁ (p + 8) (a + s) p (inl (omega arith))
          ∙ load32-store32_far m₀ (p + a + s - 4) p p (inl (omega arith))
          ∙ load32-store_far m (p + a + 4) 1 p (inl (omega arith))
          ∙ b.magic;
      hole =
          store32-outside m₁ (p + 8) (a + s) (p + 4) (inl (omega arith))
          ∙ store32-outside m₀ (p + a + s - 4) p (p + 4) (inl (omega arith))
          ∙ ground (arith, b.hole);
      size = load32-store32 m₁ (p + 8) (a + s) bound;
      room = omega arith;
      footed = tt;
    }

unify_left-hole :
    (p a s : ℕ) (h : Heap)
    → IsBlock h.ram p (hole_block a)
    → IsBlock h.ram (p + a) (used_block s)
    → HoleBefore h.ram p a
    → p + a + s < 2 ^ 32
    → unify_left (record {
      header = p + a;
      footer = p + a + s - 8;
      do_add = true;
      heap = record h { ram = set_hole (p + a) 1 h.ram };
    })
      ≡ left_freed p a s h
unfolding unify_left
unify_left-hole p a s h b c x bound =
    let room = b.room in
    let room' = c.room in
    let m : Ram = set_hole (p + a) 1 h.ram in
    let before : sub32 (p + a) 8 ≡ p + a - 8 = omega arith in
    let left : header_of m (p + a - 8) ≡ p =
      load32-store_far h.ram (p + a + 4) 1 (p + a - 8 + 4) (inl (omega arith)) ∙ x.leads in
    let magic : magic_of m (p + a - 8) ≡ heap_magic =
      load32-store_far h.ram (p + a + 4) 1 (p + a - 8) (inl (omega arith)) ∙ x.magic in
    let hole : hole_of m p ≡ 1 = ground (arith, b.hole) in
    let is_hole : (is_magic m (p + a - 8) && hole_of m p == 1) ≡ true =
      ground (arith, magic, hole) in
    let field : p + a + s - 8 + 4 ≡ p + a + s - 4 = omega arith in
    let size : size_of m (p + a) ≡ s =
      load32-store_far h.ram (p + a + 4) 1 (p + a + 8) (inr (omega arith)) ∙ c.size in
    let size' : size_of (store32 m (p + a + s - 4) p) p ≡ a =
      load32-store32_far m (p + a + s - 4) p (p + 8) (inl (omega arith))
      ∙ load32-store_far h.ram (p + a + 4) 1 (p + 8) (inl (omega arith))
      ∙ b.size in
    let sum : add32 a s ≡ a + s = omega arith in
    rw (before, left, is_hole, field, size, size', sum) refl

unify_right-in_use :
    (p a s t : ℕ) (h : Heap)
    → IsBlock h.ram (p + a + s) (used_block t)
    → 20 ≤ a
    → 20 ≤ s
    → p + a + s < 2 ^ 32
    → unify_right (left_freed p a s h) ≡ ok (left_freed p a s h)
unfolding unify_right
unify_right-in_use p a s t h b room room' bound =
    let right : add32 (p + a + s - 8) 8 ≡ p + a + s = omega arith in
    let far : merged p a s h.ram (p + a + s + 4) ≡ h.ram (p + a + s + 4) =
      merged-Within p a s h.ram room room' (p + a + s + 4) (inr (omega arith)) in
    let in_use = far ∙ b.hole in
    let no_hole : (is_magic (merged p a s h.ram) (p + a + s)
          && not (hole_of (merged p a s h.ram) (p + a + s) == 0))
        ≡ false =
      ground (arith, in_use) in
    rw (right, no_hole) refl

free-left_run :
    (p a s t : ℕ) (h : Heap)
    → IsBlock h.ram p (hole_block a)
    → IsBlock h.ram (p + a) (used_block s)
    → IsBlock h.ram (p + a + s) (used_block t)
    → HoleBefore h.ram p a
    → p + a + s + t ≤ h.end_address
    → h.end_address < 2 ^ 32
    → free (p + a + 12) h ≡ ok (record h { ram = merged p a s h.ram })
unfolding free
free-left_run p a s t h b c d x inside end =
    let room = b.room in
    let room' = c.room in
    let room₃ = d.room in
    let not_null : (p + a + 12 == 0) ≡ false = ground arith in
    let header : sub32 (p + a + 12) 12 ≡ p + a = omega arith in
    let footer : sub32 (add32 (p + a) s) 8 ≡ p + a + s - 8 = omega arith in
    let good : is_magic h.ram (p + a) ≡ true = ground (arith, c.magic) in
    let good_footer : is_magic h.ram (p + a + s - 8) ≡ true = ground (arith, c.footed.0) in
    rw
      (
        not_null,
        header,
        c.size,
        footer,
        good,
        good_footer,
        unify_left-hole p a s h b c x (omega arith),
        unify_right-in_use p a s t h d room room' (omega arith),
        give_back-inside (add32 (p + a + s - 8) 8) (left_freed p a s h) (omega arith) end,
      )
      refl

-- `free` for a block between a hole that has a footer and a block in use, in a heap that keeps the
-- invariant: it returns, the hole and the block are one hole, memory outside of the two and the index
-- are as they were, and the index still holds the holes. The index may no longer be in order: the
-- hole has grown where it stands.
pub free-leftward :
    (a s t z : ℕ) (h : Heap) {items spare : List ℕ} (pre post : List Block)
    → IsHeap h (pre ++ hole_block a ∷ used_block s ∷ used_block t ∷ post) items spare z
    → HoleBefore h.ram (h.start_address + total pre) a
    → (m : Ram) × (free (h.start_address + total pre + a + 12) h ≡ ok (record h { ram = m }))
      × Tiles m h.start_address (pre ++ hole_block (a + s) ∷ used_block t ∷ post) h.end_address
      × Perm items (holes h.start_address (pre ++ hole_block (a + s) ∷ used_block t ∷ post))
      × Within (h.start_address + total pre) (h.start_address + total pre + (a + s)) h.ram m
free-leftward a s t z h {items} {spare} pre post x left =
    let start : ℕ = h.start_address in
    let end : ℕ = h.end_address in
    let p : ℕ = start + total pre in
    let (place₀, block) =
      Tiles-Place h.ram start end pre (hole_block a) (used_block s ∷ used_block t ∷ post) x.tiles in
    let (middle, behind) = place₀.behind in
    let (next, rest) = behind in
    let room = block.room in
    let room' = middle.room in
    let sum : p + a + s ≡ p + (a + s) = omega arith in
    let inside = Tiles-le h.ram (p + a + s + t) post end rest in
    let place : Place h.ram start end pre (a + s) (used_block t ∷ post) = record {
      before = place₀.before;
      behind = subst (λ b. Tiles h.ram b (used_block t ∷ post) end) sum behind;
      inside = omega (arith, inside);
    } in
    let within = merged-Within p a s h.ram room room' in
    let bound = x.bound in
    let merged_block = merged-IsBlock p a s h.ram block room' (omega (arith, inside, bound)) in
    let all : Perm items (holes start pre ++ p ∷ holes (p + a + s) (used_block t ∷ post)) =
      subst (λ l. Perm items l)
        (holes-append start pre (hole_block a ∷ used_block s ∷ used_block t ∷ post)) x.same in
    (
      merged p a s h.ram,
      free-left_run p a s t h block middle next left inside bound,
      Place-Tiles (hole_block (a + s) ∷ []) place within (merged_block, refl),
      subst (λ l. Perm items l)
          (sym (holes-append start pre (hole_block (a + s) ∷ used_block t ∷ post)))
          (subst (λ b. Perm items (holes start pre ++ p ∷ holes b (used_block t ∷ post))) sum all),
      within,
    )
