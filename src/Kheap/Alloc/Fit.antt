-- ===== src/Kheap/Alloc/Fit.antt =====
-- The smallest hole that is large enough, by the blocks: what alloc of src/kernel/kheap.c looks for.
use bless_os.Prelude.{
  ℕ, ◌+◌, ◌≤◌, ◌≡◌, ◌⊎◌, refl, sym, ap, ◌∙◌, inl, inr, true, Bool-cases, eq_of_some, leb, ◌&&◌,
  if◌then◌else◌, arith, Option, none, some, List, [], ◌∷◌, has,
}
use bless_os.Prelude.Ram.{Ram}
use bless_os.Kheap.{size_of}
use bless_os.Kheap.Blocks.{Block, Tiles, holes}
use bless_os.Kheap.Holes.{if-has, has-if, has-if_later}

abbrev pub smaller : ℕ → Option ℕ → ℕ
smaller s none = s
smaller s (some t) = if leb s t then s else t

-- The size of the smallest hole that is large enough.
unfoldable pub best_fit : ℕ → List Block → Option ℕ
best_fit n [] = none
best_fit n (b ∷ bs) =
    let rest = best_fit n bs in if b.hole && leb n b.size then some (smaller b.size rest) else rest

smaller-le : (s : ℕ) (o : Option ℕ) → smaller s o ≤ s
smaller-le s none = omega arith
smaller-le s (some t) = ground arith

smaller-cases : (s : ℕ) (o : Option ℕ) → (smaller s o ≡ s) ⊎ (o ≡ some (smaller s o))
smaller-cases s none = inl refl
smaller-cases s (some t) = ground arith

-- A hole that is large enough bounds it.
pub best_fit-le :
    (n : ℕ) (m : Ram) (p : ℕ) (bs : List Block) (end a : ℕ)
    → Tiles m p bs end
    → has a (holes p bs) ≡ true
    → n ≤ size_of m a
    → (v : ℕ) × (best_fit n bs ≡ some v) × (v ≤ size_of m a)
unfolding best_fit
best_fit-le n m p [] end a t h le = cc
best_fit-le n m p (b ∷ bs) end a (x, t) h le =
    let rest : Option ℕ = best_fit n bs in
    elim (if-has b.hole a p (holes (p + b.size) bs) h) [
      | inl (k, e) ↦
          let size : size_of m a ≡ b.size = ap (size_of m) e ∙ x.size in
          let big : leb n b.size ≡ true = ground arith in
          (smaller b.size rest, rw (k, big) refl, omega (arith, smaller-le b.size rest))
      | inr later ↦
          let (v, found, small) = best_fit-le n m (p + b.size) bs end a t later le in
          elim (Bool-cases (b.hole && leb n b.size)) [
            | inl here ↦ (smaller b.size (some v), rw (best_fit, here, found) refl, ground arith)
            | inr not_here ↦ (v, rw (best_fit, not_here) found, small)
          ]
    ]

-- It is the size of a hole.
pub best_fit-hole :
    (n : ℕ) (m : Ram) (p : ℕ) (bs : List Block) (end v : ℕ)
    → Tiles m p bs end
    → best_fit n bs ≡ some v
    → (a : ℕ) × (has a (holes p bs) ≡ true) × (size_of m a ≡ v) × (n ≤ v)
unfolding best_fit
best_fit-hole n m p [] end v t e = cc
best_fit-hole n m p (b ∷ bs) end v (x, t) e =
    let rest : Option ℕ = best_fit n bs in
    let behind : List ℕ = holes (p + b.size) bs in
    let from_rest : rest ≡ some v
        → (a : ℕ) × (has a (holes p (b ∷ bs)) ≡ true) × (size_of m a ≡ v) × (n ≤ v) =
      λ found.
        let (a, here, size, le) = best_fit-hole n m (p + b.size) bs end v t found in
        (a, has-if_later b.hole a p behind here, size, le) in
    elim (Bool-cases (b.hole && leb n b.size)) [
      | inl here ↦
          let k : b.hole ≡ true = ground (arith, here) in
          let enough : n ≤ b.size = ground (arith, here) in
          let step : best_fit n (b ∷ bs) ≡ some (smaller b.size rest) = rw (best_fit, here) refl in
          let least : smaller b.size rest ≡ v = eq_of_some (sym step ∙ e) in
          elim (smaller-cases b.size rest) [
            | inl this ↦ (p, has-if b.hole p behind k, omega (arith, x.size), omega arith)
            | inr later ↦ from_rest (later ∙ ap some least)
          ]
      | inr not_here ↦
          let step : best_fit n (b ∷ bs) ≡ rest = rw (best_fit, not_here) refl in
          from_rest (sym step ∙ e)
    ]
