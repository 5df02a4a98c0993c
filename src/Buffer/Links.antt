-- ===== src/Buffer/Links.antt =====
-- Doubly linked lists, as the buffers of src/drivers/buffer.c stand in them, and taking one item out.
-- `nx` and `pv` give the links of an item.
use mathlib.Core.Path.{fun_ext, subst}
use bless_os.Prelude.{
  ℕ, ◌≡◌, ◌≢◌, refl, sym, ◌∙◌, not, ◌&&◌, ◌==◌, if◌then◌else◌, false, List, [], ◌∷◌, ◌++◌, has,
  Distinct, last, last-ne, has-append, arith,
}
use bless_os.Prelude.Ram.{Ram}

-- From `v` on the items `ids`, with `prev` before them and NULL behind.
abbrev pub Chain : (nx pv : Ram) → (prev v : ℕ) → List ℕ → Type 0
Chain nx pv prev v [] = v ≡ 0
Chain nx pv prev v (a ∷ ids) = (v ≡ a) × (a ≢ 0) × (pv a ≡ prev) × Chain nx pv a (nx a) ids

-- Behind the item `a` the items `ids`, and then `z`.
abbrev pub Run : (nx pv : Ram) → (a : ℕ) → List ℕ → (z : ℕ) → Type 0
Run nx pv a [] z = (nx a ≡ z) × (pv z ≡ a)
Run nx pv a (b ∷ ids) z = (nx a ≡ b) × (pv b ≡ a) × Run nx pv b ids z

-- A list that is closed to a ring; an empty one says nothing.
abbrev pub Ring : (nx pv : Ram) → List ℕ → Type 0
Ring nx pv [] = Unit
Ring nx pv (a ∷ ids) = Run nx pv a ids a

-- The links after a write at `p`, which is left out at NULL.
unfoldable pub relinked : (p n : ℕ) → Ram → Ram
relinked p n f a = if not (p == 0) && (p == a) then n else f a

relinked_other : (p n : ℕ) (f : Ram) (a : ℕ) → (p == a) ≡ false → f a ≡ relinked p n f a
unfolding relinked
relinked_other p n f a e = ground arith

relinked_self : (p n : ℕ) (f : Ram) (a : ℕ) → p ≢ 0 → p ≡ a → n ≡ relinked p n f a
unfolding relinked
relinked_self p n f a nz e = ground arith

-- Writes at items outside of a list do not matter.
Chain-outside :
    (nx pv : Ram) (p n prev v : ℕ) (ids : List ℕ)
    → has p ids ≡ false
    → has n ids ≡ false
    → Chain nx pv prev v ids
    → Chain (relinked p n nx) (relinked n p pv) prev v ids
Chain-outside nx pv p n prev v [] out out' c = c
Chain-outside nx pv p n prev v (a ∷ ids) out out' (e, nz, back, c) =
    let here : (p == a) ≡ false = ground arith in
    let here' : (n == a) ≡ false = ground arith in
    (
      e,
      nz,
      sym (relinked_other n p pv a here') ∙ back,
      subst (λ (w : ℕ). Chain (relinked p n nx) (relinked n p pv) a w ids)
          (relinked_other p n nx a here)
          (Chain-outside nx pv p n a (nx a) ids (ground arith) (ground arith) c),
    )

Chain-last :
    (nx pv : Ram) (prev v buf : ℕ) (xs ys : List ℕ)
    → Chain nx pv prev v (xs ++ buf ∷ ys)
    → pv buf ≡ last prev xs
Chain-last nx pv prev v buf [] ys c = c.2
Chain-last nx pv prev v buf (a ∷ xs) ys c = Chain-last nx pv a (nx a) buf xs ys c.3

-- What stands behind an item is not an item that the rest does not hold.
Chain-next-ne :
    (nx pv : Ram) (a prev v buf : ℕ) (xs ys : List ℕ)
    → a ≢ 0
    → has a (xs ++ buf ∷ ys) ≡ false
    → Chain nx pv prev v (xs ++ buf ∷ ys)
    → (nx buf == a) ≡ false
Chain-next-ne nx pv a prev v buf [] [] nz out (e, bz, back, c) =
    let h : nx buf ≡ 0 = c in ground arith
Chain-next-ne nx pv a prev v buf [] (b ∷ ys) nz out (e, bz, back, c) =
    let h : nx buf ≡ b = c.0 in ground arith
Chain-next-ne nx pv a prev v buf (x ∷ xs) ys nz out (e, bz, back, c) =
    Chain-next-ne nx pv a x (nx x) buf xs ys nz (ground arith) c

-- What a list without its item `buf` starts with.
abbrev pub front : List ℕ → (n v : ℕ) → ℕ
front [] n v = n
front (a ∷ xs) n v = v

-- The list behind the item that goes, now behind `p`.
Chain-behind :
    (nx pv : Ram) (p n buf : ℕ) (ys : List ℕ)
    → has p ys ≡ false
    → Distinct ys
    → Chain nx pv buf n ys
    → Chain (relinked p n nx) (relinked n p pv) p n ys
Chain-behind nx pv p n buf [] out d c = c
Chain-behind nx pv p n buf (b ∷ ys) out (once, d) (e, nz, back, c) =
    let other : (p == b) ≡ false = ground arith in
    let out' : has n ys ≡ false = rw e once in
    let same : n ≢ 0 = λ z. nz (sym e ∙ z) in
    (
      e,
      nz,
      sym (relinked_self n p pv b same e),
      subst (λ (w : ℕ). Chain (relinked p n nx) (relinked n p pv) b w ys)
          (relinked_other p n nx b other)
          (Chain-outside nx pv p n b (nx b) ys (ground arith) out' c),
    )

front-relinked :
    (nx pv : Ram) (a buf : ℕ) (xs ys : List ℕ)
    → a ≢ 0
    → has a (xs ++ buf ∷ ys) ≡ false
    → Chain nx pv a (nx a) (xs ++ buf ∷ ys)
    → front xs (nx buf) (nx a) ≡ relinked (pv buf) (nx buf) nx a
front-relinked nx pv a buf [] ys nz once c =
    let back : pv buf ≡ a = c.2 in
    relinked_self (pv buf) (nx buf) nx a (λ z. nz (sym back ∙ z)) back
front-relinked nx pv a buf (b ∷ xs) ys nz once c =
    let back : pv buf ≡ last b xs = Chain-last nx pv a (nx a) buf (b ∷ xs) ys c in
    let out : has a (b ∷ xs) ≡ false = ground (arith, has-append a xs (buf ∷ ys)) in
    let other : (pv buf == a) ≡ false = rw back (last-ne a b xs out) in
    relinked_other (pv buf) (nx buf) nx a other

-- Taking `buf` out of a list.
pub Chain-without :
    (nx pv : Ram) (prev v buf : ℕ) (xs ys : List ℕ)
    → has prev (xs ++ buf ∷ ys) ≡ false
    → Distinct (xs ++ buf ∷ ys)
    → Chain nx pv prev v (xs ++ buf ∷ ys)
    → Chain
        (relinked (pv buf) (nx buf) nx)
        (relinked (nx buf) (pv buf) pv)
        prev
        (front xs (nx buf) v)
        (xs ++ ys)
Chain-without nx pv prev v buf [] ys out (once, d) (e, nz, back, c) =
    subst (λ (p : ℕ). Chain (relinked p (nx buf) nx) (relinked (nx buf) p pv) prev (nx buf) ys)
      (sym back) (Chain-behind nx pv prev (nx buf) buf ys (ground arith) d c)
Chain-without nx pv prev v buf (a ∷ xs) ys out (once, d) (e, nz, back, c) =
    let p : ℕ = pv buf in
    let n : ℕ = nx buf in
    let far = Chain-next-ne nx pv a a (nx a) buf xs ys nz once c in
    let rest = Chain-without nx pv a (nx a) buf xs ys once d c in
    (
      e,
      nz,
      sym (relinked_other n p pv a far) ∙ back,
      subst (λ (w : ℕ). Chain (relinked p n nx) (relinked n p pv) a w (xs ++ ys))
          (front-relinked nx pv a buf xs ys nz once c) rest,
    )

pub Run-last : (nx pv : Ram) (a z : ℕ) (ids : List ℕ) → Run nx pv a ids z → pv z ≡ last a ids
Run-last nx pv a z [] r = r.1
Run-last nx pv a z (b ∷ ids) r = Run-last nx pv b z ids r.2

-- The way to `buf`, that then goes on to what stood behind.
Run-without :
    (nx pv : Ram) (a buf : ℕ) (ids : List ℕ)
    → pv buf ≢ 0
    → nx buf ≢ 0
    → has (nx buf) ids ≡ false
    → Distinct (a ∷ ids)
    → Run nx pv a ids buf
    → Run (relinked (pv buf) (nx buf) nx) (relinked (nx buf) (pv buf) pv) a ids (nx buf)
Run-without nx pv a buf [] pz nz out d (to, back) = (
  sym (relinked_self (pv buf) (nx buf) nx a pz back),
  sym (relinked_self (nx buf) (pv buf) pv (nx buf) nz refl) ∙ back,
)
Run-without nx pv a buf (b ∷ ids) pz nz out (once, d) (to, back, r) =
    let end = Run-last nx pv b buf ids r in
    let other : (pv buf == a) ≡ false = rw end (last-ne a b ids once) in
    let other' : (nx buf == b) ≡ false = ground arith in
    (
      sym (relinked_other (pv buf) (nx buf) nx a other) ∙ to,
      sym (relinked_other (nx buf) (pv buf) pv b other') ∙ back,
      Run-without nx pv b buf ids pz nz (ground arith) d r,
    )

-- Taking `buf` out of a ring of more than one.
pub Ring-without :
    (nx pv : Ram) (buf z : ℕ) (ids : List ℕ)
    → pv buf ≢ 0
    → nx buf ≢ 0
    → Distinct (buf ∷ z ∷ ids)
    → Ring nx pv (buf ∷ z ∷ ids)
    → Ring (relinked (pv buf) (nx buf) nx) (relinked (nx buf) (pv buf) pv) (z ∷ ids)
Ring-without nx pv buf z ids pz nz (once, d) (to, back, r) =
    subst (λ (w : ℕ). Run (relinked (pv buf) (nx buf) nx) (relinked (nx buf) (pv buf) pv) z ids w)
      to (Run-without nx pv z buf ids pz nz (rw to d.0) d r)

-- Lists and rings see no more of the links than their values.
module _ (nx nx' pv pv' : Ram) (e : (a : ℕ) → nx' a ≡ nx a) (e' : (a : ℕ) → pv' a ≡ pv a) where
  pub Chain-same : (prev v : ℕ) (ids : List ℕ) → Chain nx pv prev v ids → Chain nx' pv' prev v ids
  Chain-same prev v ids c =
      subst (λ f. Chain f pv' prev v ids) (sym (fun_ext e))
        (subst (λ f. Chain nx f prev v ids) (sym (fun_ext e')) c)

  pub Ring-same : (ids : List ℕ) → Ring nx pv ids → Ring nx' pv' ids
  Ring-same ids r =
      subst (λ f. Ring f pv' ids) (sym (fun_ext e))
        (subst (λ f. Ring nx f ids) (sym (fun_ext e')) r)
