-- ===== src/OrderedArray/Order.antt =====
-- Insertion in src/kernel/ordered_array.c and the order of the items.
use mathlib.Core.List.{Perm}
use mathlib.Core.List.Perm
use bless_os.Prelude.{ℕ, ◌≡◌, true, false, List, [], ◌∷◌, Bool-cases, inl, inr, ok}
use bless_os.OrderedArray.{LessThan, OrderedArray, insert_ordered_array}
use bless_os.OrderedArray.Insert.{insert_sorted, Holds, insert_ordered_array-insert_sorted}
use bless_os.Prelude.{some, ◌≡◌}

-- No item of the list is less than `x`.
abbrev pub NoneLess : LessThan → ℕ → List ℕ → Type 0
NoneLess lt x [] = Unit
NoneLess lt x (y ∷ ys) = (lt y x ≡ false) × NoneLess lt x ys

-- No item is less than one before it.
abbrev pub IsSorted : LessThan → List ℕ → Type 0
IsSorted lt [] = Unit
IsSorted lt (x ∷ xs) = NoneLess lt x xs × IsSorted lt xs

-- What the array relies on of the predicate that it is given.
pub record IsOrder (lt : LessThan) : Type 0 where
  pub asym : (x y : ℕ) → lt x y ≡ true → lt y x ≡ false
  pub trans : (x y z : ℕ) → lt y x ≡ false → lt z y ≡ false → lt z x ≡ false

module _ {lt : LessThan} (order : IsOrder lt) where
  NoneLess-trans : (x y : ℕ) (ys : List ℕ) → lt y x ≡ false → NoneLess lt y ys → NoneLess lt x ys
  NoneLess-trans x y [] h n = tt
  NoneLess-trans x y (z ∷ zs) h n = (order.trans x y z h n.0, NoneLess-trans x y zs h n.1)

  NoneLess-insert_sorted :
      (x item : ℕ) (xs : List ℕ)
      → lt item x ≡ false
      → NoneLess lt x xs
      → NoneLess lt x (insert_sorted lt item xs)
  unfolding insert_sorted
  NoneLess-insert_sorted x item [] h n = (h, tt)
  NoneLess-insert_sorted x item (y ∷ ys) h n = elim (Bool-cases (lt y item)) [
    | inl less ↦ rw (less, insert_sorted) (n.0, NoneLess-insert_sorted x item ys h n.1)
    | inr stop ↦ rw (stop, insert_sorted) (h, (n.0, n.1))
  ]

  insert_sorted-IsSorted :
      (item : ℕ) (xs : List ℕ) → IsSorted lt xs → IsSorted lt (insert_sorted lt item xs)
  unfolding insert_sorted
  insert_sorted-IsSorted item [] s = (tt, tt)
  insert_sorted-IsSorted item (x ∷ xs) s = elim (Bool-cases (lt x item)) [
    | inl less ↦
        rw (less, insert_sorted)
          (
            NoneLess-insert_sorted x item xs (order.asym x item less) s.0,
            insert_sorted-IsSorted item xs s.1,
          )
    | inr stop ↦ rw (stop, insert_sorted) ((stop, NoneLess-trans item x xs stop s.0), s)
  ]

insert_sorted-perm :
    (lt : LessThan) (item : ℕ) (xs : List ℕ) → Perm (insert_sorted lt item xs) (item ∷ xs)
unfolding insert_sorted
insert_sorted-perm lt item [] = Perm.refl _
insert_sorted-perm lt item (x ∷ xs) = elim (Bool-cases (lt x item)) [
  | inl less ↦
      rw (less, insert_sorted)
        (Perm.trans (Perm.cons x (insert_sorted-perm lt item xs)) (Perm.swap item x xs))
  | inr stop ↦ rw (stop, insert_sorted) (Perm.refl _)
]

-- An insertion with room behind the items, by a predicate that is an order, into items that are
-- sorted succeeds, leaves the items sorted, and they are those there were and the new one.
pub insert_ordered_array-IsSorted :
    {lt : LessThan} (item z : ℕ) {a : OrderedArray} {items spare : List ℕ}
    → IsOrder lt
    → Holds a items (z ∷ spare)
    → a.less_than ≡ some lt
    → IsSorted lt items
    → (a' : OrderedArray) × (items' : List ℕ) × (insert_ordered_array item a ≡ ok a')
      × Holds a' items' spare
      × IsSorted lt items'
      × Perm items' (item ∷ items)
insert_ordered_array-IsSorted {lt} item z {items} order h e s =
    let (a', done, holds, less) = insert_ordered_array-insert_sorted lt item z h e in
    (
      a',
      insert_sorted lt item items,
      done,
      holds,
      insert_sorted-IsSorted order item items s,
      insert_sorted-perm lt item items,
    )
