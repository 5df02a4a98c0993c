-- ===== src/Kheap/Holes.antt =====
-- The holes among the blocks of src/kernel/kheap.c.
use mathlib.Core.List.{Perm, Permᴰ}
use mathlib.Core.Bool.{Bool-set}
use mathlib.Core.HLevel.{hedberg}
use mathlib.Core.Logic.{∥∥₁_elim}
use bless_os.Prelude.{
  ℕ, suc, ◌+◌, ◌*◌, ◌≤◌, ◌≡◌, ◌⊎◌, refl, ap, ◌∙◌, inl, inr, arith, Bool, true, false, ◌||◌,
  if◌then◌else◌, List, [], ◌∷◌, ◌++◌, has, length, ℕ_discrete,
}
use bless_os.Prelude.Ram.{Ram}
use bless_os.Kheap.Blocks.{Block, hole_block, Tiles, Tiles-le, total, holes}

pub has-append : (a : ℕ) (xs ys : List ℕ) → has a (xs ++ ys) ≡ (has a xs || has a ys)
has-append a [] ys = refl
has-append a (x ∷ xs) ys = ground (arith, has-append a xs ys)

-- A list under a test, in front of another.
if-append :
    (k : Bool) (p : ℕ) (l r : List ℕ) {l' : List ℕ}
    → l' ≡ l ++ r
    → (if k then p ∷ l' else l') ≡ (if k then p ∷ l else l) ++ r
if-append true p l r e = ap (λ k. p ∷ k) e
if-append false p l r e = e

pub holes-append :
    (p : ℕ) (bs cs : List Block) → holes p (bs ++ cs) ≡ holes p bs ++ holes (p + total bs) cs
holes-append p [] cs = ap (λ k. holes k cs) (omega arith)
holes-append p (b ∷ bs) cs =
    let e : p + (b.size + total bs) ≡ p + b.size + total bs = omega arith in
    rw e (if-append b.hole p _ _ (holes-append (p + b.size) bs cs))

pub if-has :
    (k : Bool) (a p : ℕ) (l : List ℕ)
    → has a (if k then p ∷ l else l) ≡ true
    → ((k ≡ true) × (a ≡ p)) ⊎ (has a l ≡ true)
if-has true a p l h = ground arith
if-has false a p l h = inr h

pub has-if : (k : Bool) (p : ℕ) (l : List ℕ) → k ≡ true → has p (if k then p ∷ l else l) ≡ true
has-if true p l e = ground arith
has-if false p l e = cc

pub has-if_later :
    (k : Bool) (a p : ℕ) (l : List ℕ) → has a l ≡ true → has a (if k then p ∷ l else l) ≡ true
has-if_later true a p l h = ground arith
has-if_later false a p l h = h

-- A hole's header lies in the row.
pub holes-within :
    (m : Ram) (p : ℕ) (bs : List Block) (end a : ℕ)
    → Tiles m p bs end
    → has a (holes p bs) ≡ true
    → (p ≤ a) × (a + 20 ≤ end)
holes-within m p [] end a t h = cc
holes-within m p (b ∷ bs) end a (x, t) h =
    let room = x.room in
    elim (if-has b.hole a p (holes (p + b.size) bs) h) [
      | inl (k, e) ↦ (omega arith, omega (arith, Tiles-le m (p + b.size) bs end t))
      | inr later ↦ let (lo, hi) = holes-within m (p + b.size) bs end a t later in (omega arith, hi)
    ]

-- A hole takes at least 20 bytes.
length-if : (k : Bool) (p : ℕ) (l : List ℕ) → length (if k then p ∷ l else l) ≤ suc (length l)
length-if true p l = omega arith
length-if false p l = omega arith

pub length-holes :
    (m : Ram) (p : ℕ) (bs : List Block) (end : ℕ)
    → Tiles m p bs end
    → 20 * length (holes p bs) + p ≤ end
length-holes m p [] end e = omega arith
length-holes m p (b ∷ bs) end (x, t) =
    let room = x.room in
    omega (arith, length-holes m (p + b.size) bs end t, length-if b.hole p (holes (p + b.size) bs))

-- The blocks before a hole and behind it.
pub holes-split :
    (a p : ℕ) (bs : List Block)
    → has a (holes p bs) ≡ true
    → (pre : List Block) × (s : ℕ) × (post : List Block) × (bs ≡ pre ++ hole_block s ∷ post)
      × (a ≡ p + total pre)
holes-split a p [] h = cc
holes-split a p (b ∷ bs) h = elim (if-has b.hole a p (holes (p + b.size) bs) h) [
  | inl (k, e) ↦
      let with_hole : Bool → List Block = λ c. record { size = b.size; hole = c } ∷ bs in
      ([], b.size, bs, ap with_hole k, omega arith)
  | inr later ↦
      let (pre, s, post, e, at) = holes-split a (p + b.size) bs later in
      (b ∷ pre, s, post, ap (λ l. b ∷ l) e, omega arith)
]

-- Lists that are permutations of each other have the same items.
has-swaps : (a : ℕ) {xs ys : List ℕ} → Permᴰ xs ys → has a xs ≡ has a ys
has-swaps a Permᴰ.nil = refl
has-swaps a (Permᴰ.cons e d) = ground (arith, has-swaps a d)
has-swaps a (Permᴰ.swap e f) = ground arith
has-swaps a (Permᴰ.trans d₁ d₂) = has-swaps a d₁ ∙ has-swaps a d₂

pub has-Perm : (a : ℕ) {xs ys : List ℕ} → Perm xs ys → has a xs ≡ has a ys
has-Perm a {xs} {ys} p = ∥∥₁_elim p (Bool-set (has a xs) (has a ys)) (has-swaps a)

length-swaps : {xs ys : List ℕ} → Permᴰ xs ys → length xs ≡ length ys
length-swaps Permᴰ.nil = refl
length-swaps (Permᴰ.cons e d) = ap suc (length-swaps d)
length-swaps (Permᴰ.swap e f) = refl
length-swaps (Permᴰ.trans d₁ d₂) = length-swaps d₁ ∙ length-swaps d₂

pub length-Perm : {xs ys : List ℕ} → Perm xs ys → length xs ≡ length ys
length-Perm {xs} {ys} p = ∥∥₁_elim p (hedberg ℕ_discrete (length xs) (length ys)) length-swaps
