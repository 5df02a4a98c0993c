-- ===== src/Kheap/RoundTrip.antt =====
-- alloc of src/kernel/kheap.c and then free of what it returned.
use mathlib.Core.Path.{subst}
use bless_os.Prelude.{
  ℕ, suc, ◌+◌, ◌-◌, ◌^◌, ◌<◌, ◌≤◌, ◌≡◌, sym, ap, ◌∙◌, inl, inr, true, false, Bool, Bool-cases, not,
  ltb, ◌&&◌, if◌then◌else◌, arith, some, List, [], ◌∷◌, ◌++◌, ok,
}
use bless_os.Kheap.{Heap}
use bless_os.Kheap.Blocks.{Block, hole_block, used_block, total}
use bless_os.Kheap.Valid.{IsHeap}
use bless_os.Kheap.Alloc.{alloc}
use bless_os.Kheap.Alloc.BestFit.{carve, carve_spare, carved, carved_spare, alloc-best_fit}
use bless_os.Kheap.Alloc.Fit.{best_fit, best_fit-hole}
use bless_os.Kheap.Free.{free}
use bless_os.Kheap.Free.Left.{last_from, last_used}
use bless_os.Kheap.Free.Apart.{Freed, free-apart}
use bless_os.Kheap.Free.Joined.{free-joined}

-- Every hole stands between two blocks in use; `used` says so of what stands before the blocks.
abbrev pub apart : Bool → List Block → Bool
apart used [] = used
apart used (b ∷ bs) = if b.hole then used && apart false bs else apart true bs

apart-next :
    (used : Bool) (b : Block) (bs : List Block)
    → apart used (b ∷ bs) ≡ true
    → apart (not b.hole) bs ≡ true
apart-next used b bs e = ground (arith, e)

apart-around :
    (used : Bool) (pre : List Block) (s : ℕ) (post : List Block)
    → apart used (pre ++ hole_block s ∷ post) ≡ true
    → (last_from used pre ≡ true) × (t : ℕ) × (post' : List Block) × (post ≡ used_block t ∷ post')
apart-around used [] s [] e = absurd (ground (arith, e))
apart-around used [] s (b ∷ post) e = elim (Bool-cases b.hole) [
  | inl k ↦ absurd (ground (arith, e, k))
  | inr k ↦
      let with_hole : Bool → List Block = λ c. record { size = b.size; hole = c } ∷ post in
      (ground (arith, e), b.size, post, ap with_hole k)
]
apart-around used (b ∷ pre) s post e =
    apart-around (not b.hole) pre s post (apart-next used b (pre ++ hole_block s ∷ post) e)

-- What `free` makes of the address that `alloc` returned, in a heap as it was before.
free-carved :
    (n s z z' : ℕ) (h : Heap) {items spare : List ℕ} (pre : List Block) (t : ℕ) (post : List Block)
    → IsHeap h (pre ++ (carved n s ++ used_block t ∷ post)) items (carved_spare n s z spare) z'
    → n ≤ s
    → last_used pre ≡ true
    → Freed h
        (h.start_address + total pre)
        s
        (pre ++ hole_block s ∷ used_block t ∷ post)
        spare
        (free (h.start_address + total pre + 12) h)
free-carved n s z z' h {items} {spare} pre t post x le left =
    let p : ℕ = h.start_address + total pre in
    let heap : Bool → Type 0 = λ b.
      IsHeap h (pre ++ (carve b n s ++ used_block t ∷ post)) items (carve_spare b z spare) z' in
    elim (Bool-cases (ltb (s - n) 20)) [
      | inl small ↦ free-apart s t z' z h pre post (subst heap small x) left
      | inr big ↦
          let sum : n + (s - n) ≡ s = omega arith in
          subst
            (λ k. Freed h p k (pre ++ hole_block k ∷ used_block t ∷ post) spare (free (p + 12) h))
            sum (free-joined n (s - n) z' h pre (used_block t) post (subst heap big x) left)
    ]

-- In a heap that keeps the invariant and whose holes all stand between blocks in use, a block that
-- `alloc` has cut out of a hole (with no edge of a page asked for) is taken back by `free`: both
-- return, and the blocks are what they were.
pub free-alloc :
    (fuel size s z : ℕ) (h : Heap) (blocks : List Block) {items spare : List ℕ}
    → IsHeap h blocks items spare z
    → size + 20 < 2 ^ 32
    → best_fit (size + 20) blocks ≡ some s
    → apart false blocks ≡ true
    → (p : ℕ) × (h₁ : Heap) × (h₂ : Heap) × (items' : List ℕ) × (z' : ℕ) × (alloc
          (suc fuel)
          size
          0
          h
        ≡ ok (p, h₁))
      × (free p h₁ ≡ ok h₂)
      × IsHeap h₂ blocks items' spare z'
free-alloc fuel size s z h blocks {items} {spare} x small best around =
    let n : ℕ = size + 20 in
    let (pre, post, e, took) = alloc-best_fit fuel size s z h blocks x small best in
    let (left, t, post', e') =
      apart-around false pre s post (subst (λ l. apart false l ≡ true) e around) in
    let h₁ : Heap = record h { index = took.index; ram = took.ram } in
    let p : ℕ = h.start_address + total pre in
    let x₁ =
      subst
        (λ l.
          IsHeap h₁ (pre ++ (carved n s ++ l)) took.items (carved_spare n s z spare) took.free_cell)
        e' took.heap in
    let (_, _, _, enough) =
      best_fit-hole n h.ram h.start_address blocks h.end_address s x.tiles best in
    let freed = free-carved n s z took.free_cell h₁ pre t post' x₁ enough left in
    (
      p + 12,
      h₁,
      record h₁ { index = freed.index; ram = freed.ram },
      freed.items,
      freed.free_cell,
      took.done,
      freed.done,
      subst
          (λ l.
            IsHeap (record h₁ { index = freed.index; ram = freed.ram }) l freed.items spare
              freed.free_cell)
          (sym (e ∙ ap (λ l. pre ++ hole_block s ∷ l) e')) freed.heap,
    )
