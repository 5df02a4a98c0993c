-- ===== src/Kheap/Free/Merge.antt =====
-- free of src/kernel/kheap.c for a block with a block in use before it and a hole behind it.
use bless_os.Prelude.{
  ℕ, zero, suc, ◌+◌, ◌-◌, ◌^◌, ◌<◌, ◌≤◌, ◌≡◌, refl, sym, ap, ◌∙◌, inl, inr, true, Bool-cases, not,
  ltb, ◌==◌, ◌&&◌, arith, some, eq_of_some, List, ok, add32, sub32, length, get_elem?,
}
use bless_os.Prelude.Ram.{Ram}
use bless_os.Prelude.Ram.Words.{
  load32-store_far, load32-store32, load32-store32_far, store32-outside,
}
use bless_os.OrderedArray.{OrderedArray, remove_ordered_array}
use bless_os.OrderedArray.Insert.{Holds}
use bless_os.OrderedArray.Sorted.{lookup_ordered_array-Holds, get_elem?-bound}
use bless_os.OrderedArray.Position.{get_elem?-total}
use bless_os.Kheap.{Heap, hole_of, size_of, set_hole, set_size}
use bless_os.Kheap.Blocks.{hole_block, used_block, IsBlock}
use bless_os.Kheap.Write.{Within}
use bless_os.Kheap.Free.{is_magic, index_loop, unify_right}
use bless_os.Kheap.Free.Left.{marked}
use bless_os.Kheap.Free.Apart.{set_hole-IsBlock}

-- The search finds a place of a header that is in the index.
pub index_loop-finds :
    (rounds it j header : ℕ) (index : OrderedArray) {items spare : List ℕ}
    → Holds index items spare
    → rounds + it ≡ length items
    → it ≤ j
    → get_elem? items j ≡ some header
    → (k : ℕ) × (index_loop rounds it header index ≡ ok k) × (get_elem? items k ≡ some header)
unfolding index_loop
index_loop-finds zero it j header index {items} h e le at =
    absurd (omega (arith, get_elem?-bound j header items at))
index_loop-finds (suc rounds) it j header index {items} h e le at =
    let (x, here) = get_elem?-total it items (omega arith) in
    let look = lookup_ordered_array-Holds it x h here in
    elim (Bool-cases (x == header)) [
      | inl same ↦
          let eq : x ≡ header = ground (arith, same) in
          (it, rw (look, index_loop, same) refl, here ∙ ap some eq)
      | inr other ↦
          let later : suc it ≤ j = elim (Bool-cases (ltb it j)) [
            | inl behind ↦ ground (arith, behind)
            | inr not_behind ↦
                let same : it ≡ j = ground (arith, not_behind) in
                let eq : x ≡ header = eq_of_some (sym here ∙ ap (get_elem? items) same ∙ at) in
                absurd (ground (arith, other, eq))
          ] in
          let (k, found, there) =
            index_loop-finds rounds (suc it) j header index h (omega arith) later at in
          (k, rw (look, index_loop, other) found, there)
    ]

-- The memory that the two become one hole in.
abbrev pub joined : (p n : ℕ) → Ram → Ram
joined p n m = set_size p n (set_hole p 1 m)

pub joined-Within : (p n s : ℕ) (m : Ram) → 20 ≤ s → Within p (p + s) m (joined p n m)
joined-Within p n s m room a out =
    store32-outside (set_hole p 1 m) (p + 8) n a (omega (arith, out)) ∙ ground (arith, out)

pub joined-IsBlock :
    (p s n : ℕ) (m : Ram)
    → IsBlock m p (used_block s)
    → s ≤ n
    → n < 2 ^ 32
    → IsBlock (joined p n m) p (hole_block n)
joined-IsBlock p s n m b le bound =
    let marked_block = set_hole-IsBlock p s m b in
    let m₀ : Ram = set_hole p 1 m in
    let room = b.room in
    record {
      magic = load32-store32_far m₀ (p + 8) n p (inl (omega arith)) ∙ marked_block.magic;
      hole = store32-outside m₀ (p + 8) n (p + 4) (inl (omega arith)) ∙ marked_block.hole;
      size = load32-store32 m₀ (p + 8) n bound;
      room = omega arith;
      footed = tt;
    }

pub unify_right-hole :
    (p s t it : ℕ) (h : Heap) (index : OrderedArray)
    → IsBlock h.ram p (used_block s)
    → IsBlock h.ram (p + s) (hole_block t)
    → p + s + t < 2 ^ 32
    → index_loop h.index.size 0 (p + s) h.index ≡ ok it
    → it < h.index.size
    → remove_ordered_array it h.index ≡ ok index
    → unify_right (marked p s h)
      ≡ ok (record {
        header = p;
        footer = p + s + t - 8;
        do_add = true;
        heap = record h { index = index; ram = joined p (s + t) h.ram };
      })
unfolding unify_right
unify_right-hole p s t it h index b c bound found inside removed =
    let room = b.room in
    let room' = c.room in
    let m₀ : Ram = set_hole p 1 h.ram in
    let right : add32 (p + s - 8) 8 ≡ p + s = omega arith in
    let marked_block = set_hole-IsBlock p s h.ram b in
    let magic = load32-store_far h.ram (p + 4) 1 (p + s) (inr (omega arith)) ∙ c.magic in
    let far : hole_of m₀ (p + s) ≡ 1 = ground (arith, c.hole) in
    let is_hole : (is_magic m₀ (p + s) && not (hole_of m₀ (p + s) == 0)) ≡ true =
      ground (arith, magic, far) in
    let size : size_of m₀ (p + s) ≡ t =
      load32-store_far h.ram (p + 4) 1 (p + s + 8) (inr (omega arith)) ∙ c.size in
    let sum : add32 s t ≡ s + t = omega arith in
    let size' : size_of (joined p (s + t) h.ram) (p + s) ≡ t =
      load32-store32_far m₀ (p + 8) (s + t) (p + s + 8) (inr (omega arith)) ∙ size in
    let footer : sub32 (add32 (p + s) t) 8 ≡ p + s + t - 8 = omega arith in
    let in_index : ltb it h.index.size ≡ true = ground arith in
    rw (right, is_hole, marked_block.size, size, sum, found, in_index, removed, size', footer) refl
