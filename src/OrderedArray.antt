-- ===== src/OrderedArray.antt =====
-- src/kernel/ordered_array.c and src/include/kernel/ordered_array.h: the sorted array of pointers behind
-- the heap's index. `array` is the storage, `max_size` cells; an access outside of it is a fault. A
-- pointer is a number, and the predicate `less_than` is an `Option` for its NULL test.
pub mod Shift
pub mod Insert
pub mod Remove
pub mod Order
pub mod Sorted
pub mod Position
use bless_os.Prelude.{
  ℕ, zero, suc, ◌-◌, leb, ltb, ◌==◌, if◌then◌else◌, Bool, Option, none, some, List, [], ◌∷◌,
  get_elem?, set, replicate, Outcome, ok, halted, fault, ◌>>=◌, sub32, length,
}

-- `lessthan_predicate_t`; anything but 0 is true.
abbrev pub LessThan : Type 0
LessThan = ℕ → ℕ → Bool

pub record OrderedArray : Type 0 where
  pub array : List ℕ
  pub size : ℕ
  pub max_size : ℕ
  pub less_than : Option LessThan

abbrev pub standard_lessthan_predicate : LessThan
standard_lessthan_predicate a b = ltb a b

-- The array is placed on memory that the caller owns, and cleared.
unfoldable pub place_ordered_array : ℕ → Option LessThan → OrderedArray
place_ordered_array max_size less_than = record {
  array = replicate max_size 0;
  size = 0;
  max_size = max_size;
  less_than = less_than;
}

abbrev pub or_fault : Option ℕ → Outcome ℕ
or_fault none = fault
or_fault (some x) = ok x

abbrev pub read : List ℕ → ℕ → Outcome ℕ
read array i = or_fault (get_elem? array i)

abbrev pub write : List ℕ → ℕ → ℕ → Outcome (List ℕ)
write array i x = if ltb i (length array) then ok (set array i x) else fault

-- `while (iterator < array->size && array->less_than(array->array[iterator], item)) iterator++;` with
-- the rounds that `iterator < array->size` leaves.
pub slot : LessThan → ℕ → (rounds iterator : ℕ) → List ℕ → Outcome ℕ
slot lt item zero it array = ok it
slot lt item (suc r) it array = elim (get_elem? array it) [
  | none ↦ fault
  | some x ↦ let rest = slot lt item r (suc it) array in if lt x item then rest else ok it
]

-- The loop that moves the items up, with `tmp` in hand.
pub shift : (rounds iterator tmp : ℕ) → List ℕ → Outcome (List ℕ)
shift zero it tmp array = ok array
shift (suc r) it tmp array = elim (get_elem? array (suc it)) [
  | none ↦ fault
  | some tmp₂ ↦ shift r (suc it) tmp₂ (set array (suc it) tmp)
]

-- What `insert_ordered_array` does when the iterator has stopped.
pub insert_at : (iterator size item : ℕ) → List ℕ → Outcome (List ℕ)
insert_at it size item array =
    if it == size
    then write array size item
    else (read array it >>= λ tmp. shift (size - it) it tmp (set array it item))

pub insert_ordered_array : ℕ → OrderedArray → Outcome OrderedArray
insert_ordered_array item a = elim a.less_than [
  | none ↦ halted
  | some lt ↦
      (slot lt item a.size 0 a.array >>= λ it. insert_at it a.size item a.array) >>= λ array.
      ok (record a { array = array; size = suc a.size })
]

unfoldable pub lookup_ordered_array : ℕ → OrderedArray → Outcome ℕ
lookup_ordered_array i a = if leb a.size i then halted else read a.array i

-- `while (i < array->size) { array->array[i] = array->array[i+1]; i++; }`
pub close_gap : (rounds i : ℕ) → List ℕ → Outcome (List ℕ)
close_gap zero i array = ok array
close_gap (suc r) i array = elim (get_elem? array (suc i)) [
  | none ↦ fault
  | some x ↦ close_gap r (suc i) (set array i x)
]

pub remove_ordered_array : ℕ → OrderedArray → Outcome OrderedArray
remove_ordered_array i a = close_gap (a.size - i) i a.array >>= λ array.
    ok (record a { array = array; size = sub32 a.size 1 })
