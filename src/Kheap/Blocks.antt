-- ===== src/Kheap/Blocks.antt =====
-- The heap of src/kernel/kheap.c as a row of blocks in memory.
use bless_os.Prelude.{
  ℕ, ◌+◌, ◌-◌, ◌<◌, ◌≤◌, ◌≡◌, refl, ◌∙◌, arith, Bool, true, false, if◌then◌else◌, List, [], ◌∷◌,
  ◌++◌,
}
use bless_os.Prelude.Ram.{Ram}
use bless_os.Prelude.Ram.Words.{load32}
use bless_os.Kheap.{magic_of, hole_of, size_of, header_of, heap_magic}

pub record Block : Type 0 where
  pub size : ℕ
  pub hole : Bool

abbrev pub hole_block : ℕ → Block
hole_block s = record { size = s; hole = true }

abbrev pub used_block : ℕ → Block
used_block s = record { size = s; hole = false }

-- The footer of a block in use leads to its header. Nothing is asked of a hole's footer: the first
-- hole has none.
abbrev pub Footed : Bool → Ram → (f p : ℕ) → Type 0
Footed true m f p = Unit
Footed false m f p = (magic_of m f ≡ heap_magic) × (header_of m f ≡ p)

pub record IsBlock (m : Ram) (p : ℕ) (b : Block) : Type 0 where
  pub magic : magic_of m p ≡ heap_magic
  pub hole : hole_of m p ≡ (if b.hole then 1 else 0)
  pub size : size_of m p ≡ b.size
  pub room : 20 ≤ b.size
  pub footed : Footed b.hole m (p + b.size - 8) p

-- From `p` to `end` memory is a row of blocks.
abbrev pub Tiles : Ram → ℕ → List Block → ℕ → Type 0
Tiles m p [] end = p ≡ end
Tiles m p (b ∷ bs) end = IsBlock m p b × Tiles m (p + b.size) bs end

abbrev pub total : List Block → ℕ
total [] = 0
total (b ∷ bs) = b.size + total bs

-- The addresses of the holes.
abbrev pub holes : ℕ → List Block → List ℕ
holes p [] = []
holes p (b ∷ bs) = if b.hole then p ∷ holes (p + b.size) bs else holes (p + b.size) bs

-- `m'` differs from `m` at most outside of `lo` to `hi`.
abbrev pub Agree : (lo hi : ℕ) → Ram → Ram → Type 0
Agree lo hi m m' = (a : ℕ) → lo ≤ a → a < hi → m' a ≡ m a

pub load32-Agree :
    (lo hi : ℕ) (m m' : Ram) (a : ℕ)
    → Agree lo hi m m'
    → lo ≤ a
    → a + 4 ≤ hi
    → load32 m' a ≡ load32 m a
unfolding load32
load32-Agree lo hi m m' a same le lt = rw (
  same a le (omega arith),
  same (a + 1) (omega arith) (omega arith),
  same (a + 2) (omega arith) (omega arith),
  same (a + 3) (omega arith) (omega arith),
)

Footed-Agree :
    (k : Bool) (m m' : Ram) (lo hi f p : ℕ)
    → Agree lo hi m m'
    → lo ≤ f
    → f + 8 ≤ hi
    → Footed k m f p
    → Footed k m' f p
Footed-Agree true m m' lo hi f p same le lt x = tt
Footed-Agree false m m' lo hi f p same le lt (magic, header) = (
  load32-Agree lo hi m m' f same le (omega arith) ∙ magic,
  load32-Agree lo hi m m' (f + 4) same (omega arith) (omega arith) ∙ header,
)

pub IsBlock-Agree :
    (m m' : Ram) (p : ℕ) {b : Block} → Agree p (p + b.size) m m' → IsBlock m p b → IsBlock m' p b
IsBlock-Agree m m' p {b} same x =
    let room = x.room in
    record {
      magic = load32-Agree p (p + b.size) m m' p same (omega arith) (omega arith) ∙ x.magic;
      hole = same (p + 4) (omega arith) (omega arith) ∙ x.hole;
      size = load32-Agree p (p + b.size) m m' (p + 8) same (omega arith) (omega arith) ∙ x.size;
      room = x.room;
      footed =
          Footed-Agree b.hole m m' p (p + b.size) (p + b.size - 8) p same (omega arith)
            (omega arith) x.footed;
    }

pub Tiles-le : (m : Ram) (p : ℕ) (bs : List Block) (end : ℕ) → Tiles m p bs end → p ≤ end
Tiles-le m p [] end e = omega arith
Tiles-le m p (b ∷ bs) end (x, t) = omega (arith, Tiles-le m (p + b.size) bs end t)

pub Tiles-Agree :
    (m m' : Ram) (p : ℕ) (bs : List Block) (end : ℕ)
    → Agree p end m m'
    → Tiles m p bs end
    → Tiles m' p bs end
Tiles-Agree m m' p [] end same e = e
Tiles-Agree m m' p (b ∷ bs) end same (x, t) =
    let le = Tiles-le m (p + b.size) bs end t in
    (
      IsBlock-Agree m m' p (λ a lo hi. same a lo (omega arith)) x,
      Tiles-Agree m m' (p + b.size) bs end (λ a lo hi. same a (omega arith) hi) t,
    )

-- A row of blocks in two parts.
pub Tiles-split :
    (m : Ram) (p : ℕ) (bs cs : List Block) (end : ℕ)
    → Tiles m p (bs ++ cs) end
    → Tiles m p bs (p + total bs) × Tiles m (p + total bs) cs end
Tiles-split m p [] cs end t = let e : p + 0 ≡ p = omega arith in rw e (refl, t)
Tiles-split m p (b ∷ bs) cs end (x, t) =
    let e : p + (b.size + total bs) ≡ p + b.size + total bs = omega arith in
    let (left, right) = Tiles-split m (p + b.size) bs cs end t in rw e ((x, left), right)

pub Tiles-join :
    (m : Ram) (p : ℕ) (bs cs : List Block) (mid end : ℕ)
    → Tiles m p bs mid
    → Tiles m mid cs end
    → Tiles m p (bs ++ cs) end
Tiles-join m p [] cs mid end e t = rw e t
Tiles-join m p (b ∷ bs) cs mid end (x, s) t = (x, Tiles-join m (p + b.size) bs cs mid end s t)
