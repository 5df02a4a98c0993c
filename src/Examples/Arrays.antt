-- ===== src/Examples/Arrays.antt =====
-- The sorted array.
use mathlib.Core.List.{Perm}
use bless_os.Prelude.{ℕ, ◌≡◌, refl, some, List, [], ◌∷◌, arith, ok}
use bless_os.OrderedArray.{
  OrderedArray, standard_lessthan_predicate, insert_ordered_array, remove_ordered_array,
}
use bless_os.OrderedArray.Insert.{Holds}
use bless_os.OrderedArray.Order.{IsSorted, IsOrder, insert_ordered_array-IsSorted}
use bless_os.OrderedArray.Remove.{erase_at, remove_ordered_array-erase_at}

-- Two items and two free cells, and two items with no free cell.
abbrev roomy : OrderedArray
roomy = record {
  array = 3 ∷ 8 ∷ 0 ∷ 0 ∷ [];
  size = 2;
  max_size = 4;
  less_than = some standard_lessthan_predicate;
}

abbrev full : OrderedArray
full = record roomy { array = 3 ∷ 8 ∷ []; max_size = 2 }

roomy-Holds : Holds roomy (3 ∷ 8 ∷ []) (0 ∷ 0 ∷ [])
roomy-Holds = record { cells = refl; count = refl }

standard-IsOrder : IsOrder standard_lessthan_predicate
standard-IsOrder = record { asym = λ x y h. ground arith; trans = λ x y z h k. ground arith }

sorted : IsSorted standard_lessthan_predicate (3 ∷ 8 ∷ [])
sorted = ((refl, tt), (tt, tt))

insert_ordered_array-IsSorted_example :
    (a' : OrderedArray) × (items' : List ℕ) × (insert_ordered_array 5 roomy ≡ ok a')
    × Holds a' items' (0 ∷ [])
    × IsSorted standard_lessthan_predicate items'
    × Perm items' (5 ∷ 3 ∷ 8 ∷ [])
insert_ordered_array-IsSorted_example =
    insert_ordered_array-IsSorted 5 0 standard-IsOrder roomy-Holds refl sorted

remove_ordered_array-erase_at_example :
    (a' : OrderedArray) × (remove_ordered_array 0 roomy ≡ ok a')
    × Holds a' (erase_at 0 (3 ∷ 8 ∷ [])) (0 ∷ 0 ∷ 0 ∷ [])
    × (a'.less_than ≡ some standard_lessthan_predicate)
remove_ordered_array-erase_at_example =
    remove_ordered_array-erase_at 0 0 roomy-Holds (omega arith) (omega arith)
