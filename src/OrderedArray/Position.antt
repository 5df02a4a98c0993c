-- ===== src/OrderedArray/Position.antt =====
-- The places of the items of src/kernel/ordered_array.c.
use bless_os.Prelude.{
  ℕ, zero, suc, ◌<◌, ◌≡◌, refl, sym, ap, ◌∙◌, true, false, Bool-cases, inl, inr, ◌==◌, arith, some,
  eq_of_some, List, [], ◌∷◌, length, get_elem?, has,
}
use bless_os.OrderedArray.{LessThan}
use bless_os.OrderedArray.Order.{NoneLess, IsSorted}

pub get_elem?-total : (i : ℕ) (xs : List ℕ) → i < length xs → (x : ℕ) × (get_elem? xs i ≡ some x)
get_elem?-total i [] h = absurd (omega arith)
get_elem?-total zero (x ∷ xs) h = (x, refl)
get_elem?-total (suc i) (x ∷ xs) h = get_elem?-total i xs (omega arith)

pub has-get_elem? :
    (x : ℕ) (xs : List ℕ) → has x xs ≡ true → (i : ℕ) × (i < length xs) × (get_elem? xs i ≡ some x)
has-get_elem? x [] h = cc
has-get_elem? x (y ∷ ys) h = elim (Bool-cases (x == y)) [
  | inl here ↦ let same : y ≡ x = ground (arith, here) in (0, omega arith, ap some same)
  | inr not_here ↦
      let (i, lt, e) = has-get_elem? x ys (ground (arith, h, not_here)) in (suc i, omega arith, e)
]

NoneLess-at :
    (lt : LessThan) (x j y : ℕ) (xs : List ℕ)
    → NoneLess lt x xs
    → get_elem? xs j ≡ some y
    → lt y x ≡ false
NoneLess-at lt x j y [] n e = cc
NoneLess-at lt x zero y (z ∷ zs) n e = ap (λ w. lt w x) (sym (eq_of_some e)) ∙ n.0
NoneLess-at lt x (suc j) y (z ∷ zs) n e = NoneLess-at lt x j y zs n.1 e

-- A later item is not less.
pub IsSorted-at :
    (lt : LessThan) (i j x y : ℕ) (xs : List ℕ)
    → IsSorted lt xs
    → i < j
    → get_elem? xs i ≡ some x
    → get_elem? xs j ≡ some y
    → lt y x ≡ false
IsSorted-at lt i j x y [] s h e f = cc
IsSorted-at lt i zero x y (z ∷ zs) s h e f = absurd (omega arith)
IsSorted-at lt zero (suc j) x y (z ∷ zs) s h e f =
    ap (λ w. lt y w) (sym (eq_of_some e)) ∙ NoneLess-at lt z j y zs s.0 f
IsSorted-at lt (suc i) (suc j) x y (z ∷ zs) s h e f =
    IsSorted-at lt i j x y zs s.1 (omega arith) e f
