-- ===== src/Prelude/Members.antt =====
-- Membership in a list of numbers, as a test.
use Prim.Native.Nat.{ℕ}
use mathlib.Core.Path.{◌≡◌, refl, sym, ◌∙◌, subst}
use mathlib.Core.Logic.{inl, inr}
use mathlib.Core.Bool.{Bool, true, false, ◌||◌, false≢true}
use mathlib.Core.List.{List, [], ◌∷◌, ◌++◌}
use native.Mathlib.Omega.{arith}
use bless_os.Prelude.Tests.{◌==◌, Bool-cases}

abbrev pub has : ℕ → List ℕ → Bool
has a [] = false
has a (b ∷ ids) = (a == b) || has a ids

-- No number stands in the list twice.
abbrev pub Distinct : List ℕ → Type 0
Distinct [] = Unit
Distinct (a ∷ ids) = (has a ids ≡ false) × Distinct ids

abbrev pub last : ℕ → List ℕ → ℕ
last a [] = a
last a (b ∷ ids) = last b ids

pub has-last : (a : ℕ) (ids : List ℕ) → has (last a ids) (a ∷ ids) ≡ true
has-last a [] = ground arith
has-last a (b ∷ ids) = ground (arith, has-last b ids)

pub last-ne : (a b : ℕ) (ids : List ℕ) → has a (b ∷ ids) ≡ false → (last b ids == a) ≡ false
last-ne a b ids out = elim (Bool-cases (last b ids == a)) [
  | inl same ↦
      let e : last b ids ≡ a = ground arith in
      absurd (false≢true (sym out ∙ subst (λ k. has k (b ∷ ids) ≡ true) e (has-last b ids)))
  | inr other ↦ other
]

pub has-append : (a : ℕ) (xs ys : List ℕ) → has a (xs ++ ys) ≡ (has a xs || has a ys)
has-append a [] ys = refl
has-append a (b ∷ xs) ys = ground (arith, has-append a xs ys)
