-- ===== src/Kheap/Alloc/Search.antt =====
-- find_smallest_hole of src/kernel/kheap.c, for a block that need not stand on a page's edge.
use mathlib.Core.Path.{subst}
use bless_os.Prelude.{
  ℕ, zero, suc, ◌+◌, ◌<◌, ◌≤◌, ◌≡◌, ◌⊎◌, refl, sym, ap, ◌∙◌, inl, inr, true, Bool-cases, leb, ltb,
  arith, Option, none, some, eq_of_some, List, Outcome, ok, length, get_elem?, has,
}
use bless_os.Prelude.Ram.{Ram}
use bless_os.OrderedArray.{OrderedArray}
use bless_os.OrderedArray.Insert.{Holds}
use bless_os.OrderedArray.Order.{IsSorted}
use bless_os.OrderedArray.Sorted.{lookup_ordered_array-Holds}
use bless_os.OrderedArray.Position.{get_elem?-total, has-get_elem?, IsSorted-at}
use bless_os.Kheap.{Heap, size_of, header_less_than}
use bless_os.Kheap.Alloc.{fits, find_hole_loop, find_smallest_hole}

-- From place `it` on the items up to place `k` are too small.
abbrev pub TooSmall : (n it k : ℕ) → Ram → List ℕ → Type 0
TooSmall n it k m items = (j y : ℕ) → it ≤ j → j < k → get_elem? items j ≡ some y → size_of m y < n

-- What the search comes to.
pub record Hit (n it : ℕ) (m : Ram) (items : List ℕ) (o : Outcome (Option ℕ)) : Type 0 where
  pub place : ℕ
  pub header : ℕ
  pub done : o ≡ ok (some place)
  pub at : get_elem? items place ≡ some header
  pub enough : n ≤ size_of m header
  pub before : TooSmall n it place m items

abbrev pub Search : (n it : ℕ) → Ram → List ℕ → Outcome (Option ℕ) → Type 0
Search n it m items o = ((o ≡ ok none) × TooSmall n it (length items) m items) ⊎ Hit n it m items o

-- One item that is too small.
TooSmall-step :
    (n it k x : ℕ) (m : Ram) (items : List ℕ)
    → get_elem? items it ≡ some x
    → size_of m x < n
    → TooSmall n (suc it) k m items
    → TooSmall n it k m items
TooSmall-step n it k x m items at small later j y lo hi e = elim (Bool-cases (ltb it j)) [
  | inl behind ↦ later j y (ground arith) hi e
  | inr here ↦
      let same : it ≡ j = ground arith in
      let xy : x ≡ y = eq_of_some (sym at ∙ ap (get_elem? items) same ∙ e) in
      subst (λ w. size_of m w < n) xy small
]

find_hole_loop-Search :
    (rounds it n : ℕ) (m : Ram) (index : OrderedArray) {items spare : List ℕ}
    → Holds index items spare
    → rounds + it ≡ length items
    → Search n it m items (find_hole_loop rounds it n 0 m index)
unfolding find_hole_loop fits
find_hole_loop-Search zero it n m index h e = inl (refl, λ j y lo hi f. absurd (omega arith))
find_hole_loop-Search (suc rounds) it n m index {items} h e =
    let (x, at) = get_elem?-total it items (omega arith) in
    let look = lookup_ordered_array-Holds it x h at in
    elim (Bool-cases (leb n (size_of m x))) [
      | inl big ↦ inr (record {
        place = it;
        header = x;
        done = rw (look, find_hole_loop, fits, big) refl;
        at = at;
        enough = ground arith;
        before = λ j y lo hi f. absurd (omega arith);
      })
      | inr small ↦
          let step : find_hole_loop (suc rounds) it n 0 m index
              ≡ find_hole_loop rounds (suc it) n 0 m index =
            rw (look, find_hole_loop, fits, small) refl in
          let less : size_of m x < n = ground arith in
          elim (find_hole_loop-Search rounds (suc it) n m index h (omega arith)) [
            | inl (none_found, all) ↦
                inl (step ∙ none_found, TooSmall-step n it (length items) x m items at less all)
            | inr hit ↦ inr (record {
              place = hit.place;
              header = hit.header;
              done = step ∙ hit.done;
              at = hit.at;
              enough = hit.enough;
              before = TooSmall-step n it hit.place x m items at less hit.before;
            })
          ]
    ]

-- The search over the whole index.
pub find_smallest_hole-Search :
    (n : ℕ) (h : Heap) {items spare : List ℕ}
    → Holds h.index items spare
    → Search n 0 h.ram items (find_smallest_hole n 0 h)
unfolding find_smallest_hole
find_smallest_hole-Search n h e =
    find_hole_loop-Search h.index.size 0 n h.ram h.index e (omega (arith, e.count))

-- In an index in order a hit is a smallest hole that is large enough.
pub Hit-smallest :
    (n : ℕ) (m : Ram) (items : List ℕ) {o : Outcome (Option ℕ)} (x : ℕ)
    → IsSorted (header_less_than m) items
    → (hit : Hit n 0 m items o) → has x items ≡ true
    → n ≤ size_of m x
    → size_of m hit.header ≤ size_of m x
Hit-smallest n m items x sorted hit here enough =
    let (j, lt, at) = has-get_elem? x items here in
    let k : ℕ = hit.place in
    elim (Bool-cases (ltb j k)) [
      | inl early ↦ absurd (omega (arith, hit.before j x (omega arith) (ground arith) at))
      | inr not_early ↦ elim (Bool-cases (ltb k j)) [
        | inl late ↦
            let order =
              IsSorted-at (header_less_than m) k j hit.header x items sorted (ground arith) hit.at
                at in
            ground (arith, order)
        | inr not_late ↦
            let same : k ≡ j = ground (arith, not_early, not_late) in
            let xy : hit.header ≡ x = eq_of_some (sym hit.at ∙ ap (get_elem? items) same ∙ at) in
            subst (λ w. size_of m hit.header ≤ size_of m w) xy (omega arith)
      ]
    ]
