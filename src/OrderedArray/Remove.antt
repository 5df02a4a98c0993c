-- ===== src/OrderedArray/Remove.antt =====
-- Removal by index in src/kernel/ordered_array.c.
use bless_os.Prelude.{
  ℕ, zero, suc, ◌-◌, ◌<◌, ◌^◌, ◌≡◌, refl, ap, ◌∙◌, List, [], ◌∷◌, ◌++◌, length, ok, fault, ◌>>=◌,
  arith, sub32,
}
use mathlib.Core.List.{append-nil}
use mathlib.Core.Path.{ap₂}
use bless_os.OrderedArray.{OrderedArray, close_gap, remove_ordered_array}
use bless_os.OrderedArray.Shift.{map_ok, close_gap-cons}
use bless_os.OrderedArray.Insert.{Holds}

-- The list without its `i`-th item.
unfoldable pub erase_at : ℕ → List ℕ → List ℕ
erase_at i [] = []
erase_at zero (x ∷ xs) = xs
erase_at (suc i) (x ∷ xs) = x ∷ erase_at i xs

pub length-erase_at :
    (i : ℕ) (xs : List ℕ) → i < length xs → suc (length (erase_at i xs)) ≡ length xs
unfolding erase_at
length-erase_at i [] h = elim h [ ]
length-erase_at zero (x ∷ xs) h = refl
length-erase_at (suc i) (x ∷ xs) h = ap suc (length-erase_at i xs (omega arith))

close_gap_first :
    (x z : ℕ) (xs spare : List ℕ)
    → close_gap (suc (length xs)) 0 (x ∷ xs ++ z ∷ spare) ≡ ok (xs ++ z ∷ z ∷ spare)
unfolding close_gap
close_gap_first x z [] spare = refl
close_gap_first x z (y ∷ ys) spare =
    close_gap-cons (suc (length ys)) 0 y (y ∷ ys ++ z ∷ spare)
    ∙ ap (map_ok (λ l. y ∷ l)) (close_gap_first y z ys spare)

close_gap-erase_at :
    (i z : ℕ) (items spare : List ℕ)
    → i < length items
    → close_gap (length items - i) i (items ++ z ∷ spare) ≡ ok (erase_at i items ++ z ∷ z ∷ spare)
unfolding erase_at
close_gap-erase_at i z [] spare h = elim h [ ]
close_gap-erase_at zero z (x ∷ xs) spare h =
    let rounds : suc (length xs) - 0 ≡ suc (length xs) = omega arith in
    rw rounds (close_gap_first x z xs spare)
close_gap-erase_at (suc i) z (x ∷ xs) spare h =
    let rounds : suc (length xs) - suc i ≡ length xs - i = omega arith in
    rw (rounds, close_gap-cons)
      (ap (map_ok (λ l. x ∷ l)) (close_gap-erase_at i z xs spare (omega arith)))

-- In an array that is not full and whose size is a word, `remove_ordered_array` at an index in use
-- takes out that item alone and keeps the others in their order.
pub remove_ordered_array-erase_at :
    (i z : ℕ) {a : OrderedArray} {items spare : List ℕ}
    → Holds a items (z ∷ spare)
    → i < length items
    → a.size < 2 ^ 32
    → (a' : OrderedArray) × (remove_ordered_array i a ≡ ok a')
      × Holds a' (erase_at i items) (z ∷ z ∷ spare)
      × (a'.less_than ≡ a.less_than)
unfolding remove_ordered_array
remove_ordered_array-erase_at i z {a} {items} {spare} h lt word = (
  record a { array = erase_at i items ++ z ∷ z ∷ spare; size = sub32 a.size 1 },
  ap (λ o. o >>= λ array. ok (record a { array = array; size = sub32 a.size 1 }))
      (ap₂ (λ n l. close_gap (n - i) i l) h.count h.cells ∙ close_gap-erase_at i z items spare lt),
  record { cells = refl; count = omega (arith, h.count, length-erase_at i items lt) },
  refl,
)

close_gap_first_full : (x : ℕ) (xs : List ℕ) → close_gap (suc (length xs)) 0 (x ∷ xs) ≡ fault
unfolding close_gap
close_gap_first_full x [] = refl
close_gap_first_full x (y ∷ ys) =
    close_gap-cons (suc (length ys)) 0 y (y ∷ ys)
    ∙ ap (map_ok (λ l. y ∷ l)) (close_gap_first_full y ys)

close_gap_full :
    (i : ℕ) (items : List ℕ) → i < length items → close_gap (length items - i) i items ≡ fault
close_gap_full i [] h = elim h [ ]
close_gap_full zero (x ∷ xs) h =
    let rounds : suc (length xs) - 0 ≡ suc (length xs) = omega arith in
    rw rounds (close_gap_first_full x xs)
close_gap_full (suc i) (x ∷ xs) h =
    let rounds : suc (length xs) - suc i ≡ length xs - i = omega arith in
    rw (rounds, close_gap-cons) (ap (map_ok (λ l. x ∷ l)) (close_gap_full i xs (omega arith)))

-- In an array with no room behind the items, removing any item reads one cell past the storage.
pub remove_ordered_array-full :
    (i : ℕ) {a : OrderedArray} {items : List ℕ}
    → Holds a items []
    → i < length items
    → remove_ordered_array i a ≡ fault
unfolding remove_ordered_array
remove_ordered_array-full i {a} {items} h lt =
    ap (λ o. o >>= λ array. ok (record a { array = array; size = sub32 a.size 1 }))
      (ap₂ (λ n l. close_gap (n - i) i l) h.count (h.cells ∙ append-nil items)
        ∙ close_gap_full i items lt)
