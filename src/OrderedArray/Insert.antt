-- ===== src/OrderedArray/Insert.antt =====
-- Insertion in src/kernel/ordered_array.c: where the item goes, and the full array.
use mathlib.Core.List.{append-nil}
use mathlib.Core.Path.{ap₂}
use bless_os.Prelude.{
  ℕ, suc, ◌-◌, ◌≡◌, refl, ap, ◌∙◌, ◌==◌, if◌then◌else◌, true, false, none, some, List, [], ◌∷◌,
  ◌++◌, length, Outcome, ok, halted, fault, ◌>>=◌, arith, Bool-cases, inl, inr,
}
use bless_os.OrderedArray.{OrderedArray, LessThan, slot, shift, insert_at, insert_ordered_array}
use bless_os.OrderedArray.Shift.{map_ok, slot-cons, shift-cons, insert_at-cons}

-- The array holds the items, and behind them stands storage that is not in use.
pub record Holds (a : OrderedArray) (items spare : List ℕ) : Type 0 where
  pub cells : a.array ≡ items ++ spare
  pub count : a.size ≡ length items

-- The item goes in front of the first that is not less than it.
unfoldable pub insert_sorted : LessThan → ℕ → List ℕ → List ℕ
insert_sorted lt item [] = item ∷ []
insert_sorted lt item (x ∷ xs) = if lt x item then x ∷ insert_sorted lt item xs else item ∷ x ∷ xs

length-insert_sorted :
    (lt : LessThan) (item : ℕ) (xs : List ℕ) → length (insert_sorted lt item xs) ≡ suc (length xs)
unfolding insert_sorted
length-insert_sorted lt item [] = refl
length-insert_sorted lt item (x ∷ xs) = ground (arith, length-insert_sorted lt item xs)

-- Moving up: each cell takes the item before it, the last takes an unused cell.
shift_first :
    (c t z : ℕ) (xs spare : List ℕ)
    → shift (suc (length xs)) 0 t (c ∷ xs ++ z ∷ spare) ≡ ok (c ∷ t ∷ xs ++ spare)
unfolding shift
shift_first c t z [] spare = refl
shift_first c t z (x ∷ xs) spare =
    shift-cons (suc (length xs)) 0 x c (t ∷ xs ++ z ∷ spare)
    ∙ ap (map_ok (λ l. c ∷ l)) (shift_first t x z xs spare)

shift-full : (c t : ℕ) (xs : List ℕ) → shift (suc (length xs)) 0 t (c ∷ xs) ≡ fault
unfolding shift
shift-full c t [] = refl
shift-full c t (x ∷ xs) =
    shift-cons (suc (length xs)) 0 x c (t ∷ xs) ∙ ap (map_ok (λ l. c ∷ l)) (shift-full t x xs)

-- The search and the insertion, from a given place on.
abbrev pub placed : LessThan → ℕ → ℕ → List ℕ → Outcome (List ℕ)
placed lt item size array = slot lt item size 0 array >>= λ it. insert_at it size item array

slot-less :
    (lt : LessThan) (item x n : ℕ) (array : List ℕ)
    → lt x item ≡ true
    → slot lt item (suc n) 0 (x ∷ array) ≡ map_ok suc (slot lt item n 0 array)
unfolding slot
slot-less lt item x n array less = rw (less, slot) (slot-cons lt item n 0 x array)

placed-cons :
    (lt : LessThan) (item x n : ℕ) (array : List ℕ)
    → lt x item ≡ true
    → placed lt item (suc n) (x ∷ array) ≡ map_ok (λ l. x ∷ l) (placed lt item n array)
placed-cons lt item x n array less =
    rw (slot-less lt item x n array less) (go (slot lt item n 0 array))
  where
    go :
        (o : Outcome ℕ)
        → (map_ok suc o >>= λ it. insert_at it (suc n) item (x ∷ array))
          ≡ map_ok (λ l. x ∷ l) (o >>= λ it. insert_at it n item array)
    go (ok it) = insert_at-cons it n item x array
    go halted = refl
    go fault = refl

placed-insert_sorted :
    (lt : LessThan) (item z : ℕ) (items spare : List ℕ)
    → placed lt item (length items) (items ++ z ∷ spare) ≡ ok (insert_sorted lt item items ++ spare)
unfolding slot insert_at insert_sorted
placed-insert_sorted lt item z [] spare = ground arith
placed-insert_sorted lt item z (x ∷ xs) spare = elim (Bool-cases (lt x item)) [
  | inl less ↦
      placed-cons lt item x (length xs) (xs ++ z ∷ spare) less
      ∙ ap (map_ok (λ l. x ∷ l)) (placed-insert_sorted lt item z xs spare)
      ∙ rw (less, insert_sorted)
  | inr stop ↦
      let inside : (0 == suc (length xs)) ≡ false = ground arith in
      let rounds : suc (length xs) - 0 ≡ suc (length xs) = omega arith in
      rw (stop, slot, insert_at, insert_sorted, inside, rounds) (shift_first item x z xs spare)
]

insert_ordered_array-placed :
    (lt : LessThan) (item : ℕ) (a : OrderedArray)
    → a.less_than ≡ some lt
    → insert_ordered_array item a ≡ (
        placed lt item a.size a.array >>= λ array.
        ok (record a { array = array; size = suc a.size }))
unfolding insert_ordered_array
insert_ordered_array-placed lt item a e = λ i. elim (e i) [
  | none ↦ halted
  | some lt' ↦
      placed lt' item a.size a.array >>= λ array. ok (record a { array = array; size = suc a.size })
]

-- With room behind the items, `insert_ordered_array` puts the item in front of the first that is
-- not less than it, and takes one cell of the room.
pub insert_ordered_array-insert_sorted :
    (lt : LessThan) (item z : ℕ) {a : OrderedArray} {items spare : List ℕ}
    → Holds a items (z ∷ spare)
    → a.less_than ≡ some lt
    → (a' : OrderedArray) × (insert_ordered_array item a ≡ ok a')
      × Holds a' (insert_sorted lt item items) spare
      × (a'.less_than ≡ some lt)
insert_ordered_array-insert_sorted lt item z {a} {items} {spare} h e =
    let finish =
      λ (o : Outcome (List ℕ)). o >>= λ array. ok (record a { array = array; size = suc a.size }) in
    (
      record a { array = insert_sorted lt item items ++ spare; size = suc a.size },
      insert_ordered_array-placed lt item a e
          ∙ ap finish
              (ap₂ (placed lt item) h.count h.cells ∙ placed-insert_sorted lt item z items spare),
      record { cells = refl; count = omega (arith, h.count, length-insert_sorted lt item items) },
      e,
    )

placed-full :
    (lt : LessThan) (item : ℕ) (items : List ℕ) → placed lt item (length items) items ≡ fault
unfolding slot insert_at
placed-full lt item [] = ground arith
placed-full lt item (x ∷ xs) = elim (Bool-cases (lt x item)) [
  | inl less ↦
      placed-cons lt item x (length xs) xs less ∙ ap (map_ok (λ l. x ∷ l)) (placed-full lt item xs)
  | inr stop ↦
      let inside : (0 == suc (length xs)) ≡ false = ground arith in
      let rounds : suc (length xs) - 0 ≡ suc (length xs) = omega arith in
      rw (stop, slot, insert_at, inside, rounds) (shift-full item x xs)
]

-- With no room behind the items, `insert_ordered_array` goes outside of the storage: `max_size` is
-- not looked at.
pub insert_ordered_array-full :
    (lt : LessThan) (item : ℕ) {a : OrderedArray} {items : List ℕ}
    → Holds a items []
    → a.less_than ≡ some lt
    → insert_ordered_array item a ≡ fault
insert_ordered_array-full lt item {a} {items} h e =
    insert_ordered_array-placed lt item a e
    ∙ ap (λ o. o >>= λ array. ok (record a { array = array; size = suc a.size }))
        (ap₂ (placed lt item) h.count (h.cells ∙ append-nil items) ∙ placed-full lt item items)
