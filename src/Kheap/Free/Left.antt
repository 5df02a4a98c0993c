-- ===== src/Kheap/Free/Left.antt =====
-- free of src/kernel/kheap.c up to the block behind, for a block with a block in use before it.
use mathlib.Core.Path.{subst}
use bless_os.Prelude.{
  ℕ, ◌+◌, ◌-◌, ◌^◌, ◌<◌, ◌≤◌, ◌≡◌, refl, ◌∙◌, inl, true, false, Bool, not, ◌==◌, ◌&&◌,
  if◌then◌else◌, arith, List, [], ◌∷◌, ok, ◌>>=◌, add32, sub32,
}
use bless_os.Prelude.Ram.{Ram}
use bless_os.Prelude.Ram.Words.{load32-store_far}
use bless_os.Kheap.{Heap, magic_of, hole_of, header_of, set_hole, heap_magic, insert_hole}
use bless_os.Kheap.Blocks.{Block, used_block, IsBlock, Tiles, Footed}
use bless_os.Kheap.Free.{Freeing, is_magic, unify_left, unify_right, give_back, free}

-- The last of the blocks is in use; if there are none, `used`.
abbrev pub last_from : Bool → List Block → Bool
last_from used [] = used
last_from used (b ∷ bs) = last_from (not b.hole) bs

abbrev pub last_used : List Block → Bool
last_used bs = last_from false bs

-- What the memory before an address then is: a footer that leads to a block in use.
pub record UsedBefore (m : Ram) (p : ℕ) : Type 0 where
  pub header : ℕ
  pub magic : magic_of m (p - 8) ≡ heap_magic
  pub leads : header_of m (p - 8) ≡ header
  pub used : hole_of m header ≡ 0
  pub apart : header + 20 ≤ p

IsBlock-UsedBefore :
    (m : Ram) (p : ℕ) (b : Block) (end : ℕ)
    → IsBlock m p b
    → p + b.size ≡ end
    → b.hole ≡ false
    → UsedBefore m end
IsBlock-UsedBefore m p b end x e k =
    let footed : Footed false m (p + b.size - 8) p =
      subst (λ c. Footed c m (p + b.size - 8) p) k x.footed in
    let room = x.room in
    subst (UsedBefore m) e (record {
      header = p;
      magic = footed.0;
      leads = footed.1;
      used = ground (arith, x.hole, k);
      apart = omega arith;
    })

last_from-UsedBefore :
    (used : Bool) (m : Ram) (p : ℕ) (bs : List Block) (end : ℕ)
    → (used ≡ true → UsedBefore m p)
    → Tiles m p bs end
    → last_from used bs ≡ true
    → UsedBefore m end
last_from-UsedBefore used m p [] end before e k = subst (UsedBefore m) e (before k)
last_from-UsedBefore used m p (b ∷ bs) end before (x, t) k =
    last_from-UsedBefore (not b.hole) m (p + b.size) bs end
      (λ in_use. IsBlock-UsedBefore m p b (p + b.size) x refl (ground (arith, in_use))) t k

pub Tiles-UsedBefore :
    (m : Ram) (p : ℕ) (bs : List Block) (end : ℕ)
    → Tiles m p bs end
    → last_used bs ≡ true
    → UsedBefore m end
Tiles-UsedBefore m p bs end t k = last_from-UsedBefore false m p bs end (λ e. cc) t k

-- The state of `free` before it looks to the right.
abbrev pub marked : (p s : ℕ) → Heap → Freeing
marked p s h = record {
  header = p;
  footer = p + s - 8;
  do_add = true;
  heap = record h { ram = set_hole p 1 h.ram };
}

unify_left-used :
    (p s : ℕ) (h : Heap)
    → UsedBefore h.ram p
    → p < 2 ^ 32
    → unify_left (marked p s h) ≡ marked p s h
unfolding unify_left
unify_left-used p s h x bound =
    let apart = x.apart in
    let before : sub32 p 8 ≡ p - 8 = omega arith in
    let m : Ram = set_hole p 1 h.ram in
    let left : header_of m (p - 8) ≡ x.header =
      load32-store_far h.ram (p + 4) 1 (p - 8 + 4) (inl (omega arith)) ∙ x.leads in
    let in_use : hole_of m x.header ≡ 0 = ground (arith, x.used) in
    let no_hole : (is_magic m (p - 8) && hole_of m x.header == 1) ≡ false =
      ground (arith, in_use) in
    rw (before, left, no_hole) refl

pub free-marked :
    (p s : ℕ) (h : Heap)
    → UsedBefore h.ram p
    → IsBlock h.ram p (used_block s)
    → p + s < 2 ^ 32
    → free (p + 12) h ≡ (
        unify_right (marked p s h) >>= give_back (p + s) >>= λ t.
        if t.do_add then insert_hole t.header t.heap else ok t.heap)
unfolding free
free-marked p s h x b bound =
    let room = b.room in
    let not_null : (p + 12 == 0) ≡ false = ground arith in
    let header : sub32 (p + 12) 12 ≡ p = omega arith in
    let footer : sub32 (add32 p s) 8 ≡ p + s - 8 = omega arith in
    let behind : add32 (p + s - 8) 8 ≡ p + s = omega arith in
    let good : is_magic h.ram p ≡ true = ground (arith, b.magic) in
    let good_footer : is_magic h.ram (p + s - 8) ≡ true = ground (arith, b.footed.0) in
    rw
      (
        not_null,
        header,
        b.size,
        footer,
        good,
        good_footer,
        unify_left-used p s h x (omega arith),
        behind,
      )
      refl
