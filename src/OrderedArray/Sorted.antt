-- ===== src/OrderedArray/Sorted.antt =====
-- Items of src/kernel/ordered_array.c in order: what removal and a change of the predicate keep.
use mathlib.Core.List.{Perm}
use mathlib.Core.List.Perm
use bless_os.Prelude.{
  ℕ, zero, suc, ◌<◌, ◌≡◌, ap, ◌∙◌, true, false, arith, some, eq_of_some, List, [], ◌∷◌, length,
  get_elem?, has, leb, ok, ◌++◌,
}
use bless_os.OrderedArray.{OrderedArray, LessThan, lookup_ordered_array, read, or_fault}
use bless_os.OrderedArray.Insert.{Holds}
use bless_os.OrderedArray.Order.{NoneLess, IsSorted}
use bless_os.OrderedArray.Remove.{erase_at}

NoneLess-erase_at :
    (lt : LessThan) (x i : ℕ) (xs : List ℕ) → NoneLess lt x xs → NoneLess lt x (erase_at i xs)
unfolding erase_at
NoneLess-erase_at lt x i [] n = tt
NoneLess-erase_at lt x zero (y ∷ ys) n = n.1
NoneLess-erase_at lt x (suc i) (y ∷ ys) n = (n.0, NoneLess-erase_at lt x i ys n.1)

pub IsSorted-erase_at :
    (lt : LessThan) (i : ℕ) (xs : List ℕ) → IsSorted lt xs → IsSorted lt (erase_at i xs)
unfolding erase_at
IsSorted-erase_at lt i [] s = tt
IsSorted-erase_at lt zero (x ∷ xs) s = s.1
IsSorted-erase_at lt (suc i) (x ∷ xs) s =
    (NoneLess-erase_at lt x i xs s.0, IsSorted-erase_at lt i xs s.1)

-- Predicates that agree on the items sort them alike.
NoneLess-agree :
    (lt lt' : LessThan) (x : ℕ) (xs : List ℕ)
    → ((y : ℕ) → has y xs ≡ true → lt' y x ≡ lt y x)
    → NoneLess lt x xs
    → NoneLess lt' x xs
NoneLess-agree lt lt' x [] same n = tt
NoneLess-agree lt lt' x (y ∷ ys) same n =
    (same y (ground arith) ∙ n.0, NoneLess-agree lt lt' x ys (λ z h. same z (ground arith)) n.1)

pub IsSorted-agree :
    (lt lt' : LessThan) (xs : List ℕ)
    → ((x y : ℕ) → has x xs ≡ true → has y xs ≡ true → lt' y x ≡ lt y x)
    → IsSorted lt xs
    → IsSorted lt' xs
IsSorted-agree lt lt' [] same s = tt
IsSorted-agree lt lt' (x ∷ xs) same s = (
  NoneLess-agree lt lt' x xs (λ y h. same x y (ground arith) (ground arith)) s.0,
  IsSorted-agree lt lt' xs (λ y z h k. same y z (ground arith) (ground arith)) s.1,
)

pub erase_at-perm : (i x : ℕ) (xs : List ℕ) → get_elem? xs i ≡ some x → Perm xs (x ∷ erase_at i xs)
unfolding erase_at
erase_at-perm i x [] e = cc
erase_at-perm zero x (y ∷ ys) e = Perm.cons' (eq_of_some e) (Perm.refl ys)
erase_at-perm (suc i) x (y ∷ ys) e =
    Perm.trans (Perm.cons y (erase_at-perm i x ys e)) (Perm.swap x y (erase_at i ys))

pub get_elem?-bound : (i x : ℕ) (xs : List ℕ) → get_elem? xs i ≡ some x → i < length xs
get_elem?-bound i x [] e = cc
get_elem?-bound zero x (y ∷ ys) e = omega arith
get_elem?-bound (suc i) x (y ∷ ys) e = omega (arith, get_elem?-bound i x ys e)

pub get_elem?-has : (i x : ℕ) (xs : List ℕ) → get_elem? xs i ≡ some x → has x xs ≡ true
get_elem?-has i x [] e = cc
get_elem?-has zero x (y ∷ ys) e = let same = eq_of_some e in ground arith
get_elem?-has (suc i) x (y ∷ ys) e = ground (arith, get_elem?-has i x ys e)

get_elem?-append :
    (i x : ℕ) (xs ys : List ℕ) → get_elem? xs i ≡ some x → get_elem? (xs ++ ys) i ≡ some x
get_elem?-append i x [] ys e = cc
get_elem?-append zero x (z ∷ xs) ys e = e
get_elem?-append (suc i) x (z ∷ xs) ys e = get_elem?-append i x xs ys e

pub lookup_ordered_array-Holds :
    (i x : ℕ) {a : OrderedArray} {items spare : List ℕ}
    → Holds a items spare
    → get_elem? items i ≡ some x
    → lookup_ordered_array i a ≡ ok x
unfolding lookup_ordered_array
lookup_ordered_array-Holds i x {a} {items} {spare} h e =
    let inside : leb a.size i ≡ false = ground (arith, h.count, get_elem?-bound i x items e) in
    rw inside (ap (λ l. read l i) h.cells ∙ ap or_fault (get_elem?-append i x items spare e))
