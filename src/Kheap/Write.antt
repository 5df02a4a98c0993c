-- ===== src/Kheap/Write.antt =====
-- What the writes of a header and a footer in src/kernel/kheap.c leave in memory.
use bless_os.Prelude.{
  ℕ, ◌+◌, ◌-◌, ◌^◌, ◌<◌, ◌≤◌, ◌≡◌, ◌⊎◌, ◌∙◌, inl, arith, Bool, true, false, if◌then◌else◌,
}
use bless_os.Prelude.Ram.{Ram}
use bless_os.Prelude.Ram.Words.{
  load32, store32, load32-store32, load32-store32_far, load32-store_far, store32-outside,
}
use bless_os.Kheap.{
  set_hole, set_header, set_footer, heap_magic, magic_of, hole_of, size_of, header_of,
}
use bless_os.Kheap.Blocks.{Block, hole_block, IsBlock, Footed, load32-Agree}

-- `m'` differs from `m` only from `lo` to `hi`.
abbrev pub Within : (lo hi : ℕ) → Ram → Ram → Type 0
Within lo hi m m' = (a : ℕ) → (a < lo) ⊎ (hi ≤ a) → m' a ≡ m a

pub set_header-Within : (p k s : ℕ) (m : Ram) → Within p (p + 12) m (set_header p k s m)
unfolding set_header
set_header-Within p k s m a out = ground (
  arith,
  store32-outside (set_hole p k (store32 m p heap_magic)) (p + 8) s a,
  store32-outside m p heap_magic a,
)

pub set_footer-Within : (f p : ℕ) (m : Ram) → Within f (f + 8) m (set_footer f p m)
unfolding set_footer
set_footer-Within f p m a out =
    ground (
      arith,
      store32-outside (store32 m f heap_magic) (f + 4) p a,
      store32-outside m f heap_magic a,
    )

set_header-magic : (p k s : ℕ) (m : Ram) → magic_of (set_header p k s m) p ≡ heap_magic
unfolding set_header
set_header-magic p k s m =
    load32-store32_far (set_hole p k (store32 m p heap_magic)) (p + 8) s p (inl (omega arith))
    ∙ load32-store_far (store32 m p heap_magic) (p + 4) k p (inl (omega arith))
    ∙ load32-store32 m p heap_magic (omega arith)

set_header-hole : (p k s : ℕ) (m : Ram) → hole_of (set_header p k s m) p ≡ k
unfolding set_header
set_header-hole p k s m =
    store32-outside (set_hole p k (store32 m p heap_magic)) (p + 8) s (p + 4) (inl (omega arith))
    ∙ ground arith

set_header-size : (p k s : ℕ) (m : Ram) → s < 2 ^ 32 → size_of (set_header p k s m) p ≡ s
unfolding set_header
set_header-size p k s m h = load32-store32 (set_hole p k (store32 m p heap_magic)) (p + 8) s h

set_footer-magic : (f p : ℕ) (m : Ram) → magic_of (set_footer f p m) f ≡ heap_magic
unfolding set_footer
set_footer-magic f p m =
    load32-store32_far (store32 m f heap_magic) (f + 4) p f (inl (omega arith))
    ∙ load32-store32 m f heap_magic (omega arith)

set_footer-header : (f p : ℕ) (m : Ram) → p < 2 ^ 32 → header_of (set_footer f p m) f ≡ p
unfolding set_footer
set_footer-header f p m h = load32-store32 (store32 m f heap_magic) (f + 4) p h

pub Within-trans :
    (lo hi lo' hi' a b : ℕ) {m m' m'' : Ram}
    → Within lo hi m m'
    → Within lo' hi' m' m''
    → a ≤ lo
    → a ≤ lo'
    → hi ≤ b
    → hi' ≤ b
    → Within a b m m''
Within-trans lo hi lo' hi' a b first second l l' h h' =
    λ x out. second x (omega (arith, out)) ∙ first x (omega (arith, out))

pub load32-Within :
    (lo hi : ℕ) {m m' : Ram} (a : ℕ)
    → Within lo hi m m'
    → (a + 4 ≤ lo) ⊎ (hi ≤ a)
    → load32 m' a ≡ load32 m a
load32-Within lo hi {m} {m'} a same out =
    load32-Agree a (a + 4) m m' a (λ b l h. same b (omega (arith, out))) (omega arith) (omega arith)

-- A block as `alloc` writes it: the header, then the footer that the size leads to.
abbrev pub write_block : (p k s : ℕ) → Ram → Ram
write_block p k s m = set_footer (p + s - 8) p (set_header p k s m)

pub write_block-Within : (p k s : ℕ) (m : Ram) → 20 ≤ s → Within p (p + s) m (write_block p k s m)
write_block-Within p k s m room =
    Within-trans p (p + 12) (p + s - 8) (p + s - 8 + 8) p (p + s) (set_header-Within p k s m)
      (set_footer-Within (p + s - 8) p (set_header p k s m)) (omega arith) (omega arith)
      (omega arith) (omega arith)

any_Footed :
    (k : Bool) (m : Ram) (f p : ℕ) → magic_of m f ≡ heap_magic → header_of m f ≡ p → Footed k m f p
any_Footed true m f p magic header = tt
any_Footed false m f p magic header = (magic, header)

pub write_block-IsBlock :
    (p : ℕ) (b : Block) (m : Ram)
    → 20 ≤ b.size
    → p + b.size < 2 ^ 32
    → IsBlock (write_block p (if b.hole then 1 else 0) b.size m) p b
write_block-IsBlock p b m room bound =
    let k : ℕ = if b.hole then 1 else 0 in
    let m₁ : Ram = set_header p k b.size m in
    let f : ℕ = p + b.size - 8 in
    let same = set_footer-Within f p m₁ in
    record {
      magic = load32-Within f (f + 8) p same (omega arith) ∙ set_header-magic p k b.size m;
      hole = same (p + 4) (omega arith) ∙ set_header-hole p k b.size m;
      size =
          load32-Within f (f + 8) (p + 8) same (omega arith)
          ∙ set_header-size p k b.size m (omega arith);
      room = room;
      footed =
          any_Footed b.hole (set_footer f p m₁) f p (set_footer-magic f p m₁)
            (set_footer-header f p m₁ (omega arith));
    }

-- A hole's header alone: the first hole has no footer.
pub set_header-IsBlock :
    (p s : ℕ) (m : Ram) → 20 ≤ s → s < 2 ^ 32 → IsBlock (set_header p 1 s m) p (hole_block s)
set_header-IsBlock p s m room bound = record {
  magic = set_header-magic p 1 s m;
  hole = set_header-hole p 1 s m;
  size = set_header-size p 1 s m bound;
  room = room;
  footed = tt;
}
