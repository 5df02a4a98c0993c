-- ===== src/OrderedArray/Shift.antt =====
-- The loops of src/kernel/ordered_array.c on a later part of the storage.
use bless_os.Prelude.{
  ℕ, zero, suc, ◌-◌, ◌≡◌, refl, ◌==◌, true, false, Option, none, some, List, ◌∷◌, get_elem?, set,
  Outcome, ok, halted, fault, ◌>>=◌, arith, Bool-cases, Option-cases, inl, inr,
}
use bless_os.OrderedArray.{or_fault, LessThan, slot, shift, insert_at, close_gap}

abbrev pub map_ok {ℓ κ} : {A : Type ℓ} {B : Type κ} → (A → B) → Outcome A → Outcome B
map_ok f (ok a) = ok (f a)
map_ok f halted = halted
map_ok f fault = fault

pub slot-cons :
    (lt : LessThan) (item r it a : ℕ) (array : List ℕ)
    → slot lt item r (suc it) (a ∷ array) ≡ map_ok suc (slot lt item r it array)
unfolding slot
slot-cons lt item zero it a array = refl
slot-cons lt item (suc r) it a array = ground (arith, slot-cons lt item r (suc it) a array)

pub shift-cons :
    (r it tmp a : ℕ) (array : List ℕ)
    → shift r (suc it) tmp (a ∷ array) ≡ map_ok (λ l. a ∷ l) (shift r it tmp array)
unfolding shift
shift-cons zero it tmp a array = refl
shift-cons (suc r) it tmp a array = elim (Option-cases (get_elem? array (suc it))) [
  | inl out ↦ rw (out, shift)
  | inr (t, got) ↦ rw (got, shift) (shift-cons r (suc it) t a (set array (suc it) tmp))
]

pub insert_at-cons :
    (it size item a : ℕ) (array : List ℕ)
    → insert_at (suc it) (suc size) item (a ∷ array)
      ≡ map_ok (λ l. a ∷ l) (insert_at it size item array)
unfolding insert_at
insert_at-cons it size item a array = elim (Bool-cases (it == size)) [
  | inl ends ↦
      let ends' : (suc it == suc size) ≡ true = ground arith in rw (ends, ends') (ground arith)
  | inr inside ↦
      let inside' : (suc it == suc size) ≡ false = ground arith in
      let rounds : suc size - suc it ≡ size - it = omega arith in
      rw (inside, inside', rounds) (moved (get_elem? array it))
]
  where
    moved :
        (o : Option ℕ)
        → ((or_fault o) >>= λ tmp. shift (size - it) (suc it) tmp (a ∷ set array it item))
          ≡ map_ok
              (λ l. a ∷ l)
              ((or_fault o) >>= λ tmp. shift (size - it) it tmp (set array it item))
    moved none = refl
    moved (some t) = shift-cons (size - it) it t a (set array it item)

pub close_gap-cons :
    (r i a : ℕ) (array : List ℕ)
    → close_gap r (suc i) (a ∷ array) ≡ map_ok (λ l. a ∷ l) (close_gap r i array)
unfolding close_gap
close_gap-cons zero i a array = refl
close_gap-cons (suc r) i a array = elim (Option-cases (get_elem? array (suc i))) [
  | inl out ↦ rw (out, close_gap)
  | inr (x, got) ↦ rw (got, close_gap) (close_gap-cons r (suc i) a (set array i x))
]
