-- ===== src/Hd/Listed.antt =====
-- The requests that a queue of src/drivers/hd.c holds, as a list.
use bless_os.Prelude.{
  ◌||◌, ℕ, ◌≡◌, ◌≢◌, refl, has, Distinct, last, last-ne, ◌==◌, true, false, List, [], ◌∷◌, ◌++◌,
  arith,
}
use bless_os.Hd.{Request, Disk, put_request, link}

-- From `v` the links `next` lead through the requests `ids`, and then to NULL.
abbrev pub Linked : (ℕ → Request) → ℕ → List ℕ → Type 0
Linked r v [] = v ≡ 0
Linked r v (a ∷ ids) = (v ≡ a) × (v ≢ 0) × Linked r (r v).next ids

abbrev pub last_of : List ℕ → ℕ
last_of [] = 0
last_of (a ∷ ids) = last a ids

-- The queue at `q` holds the requests `ids`, oldest first.
pub record Holds (d : Disk) (q : ℕ) (ids : List ℕ) : Type 0 where
  pub linked : Linked d.request (d.queue q).head ids
  pub tail : (d.queue q).tail ≡ last_of ids
  pub distinct : Distinct ids

-- A request outside of the list does not matter.
pub Linked-put_request :
    (a : ℕ) (x : Request) (d : Disk) (v : ℕ) (ids : List ℕ)
    → has a ids ≡ false
    → Linked d.request v ids
    → Linked (put_request a x d).request v ids
Linked-put_request a x d v [] out c = c
Linked-put_request a x d v (b ∷ ids) out (e, ne, c) =
    let other : (a == v) ≡ false = ground arith in
    (e, ne, rw other (Linked-put_request a x d (d.request v).next ids (ground arith) c))

-- Linking a request behind the last.
pub Linked-link :
    (req a : ℕ) (ids : List ℕ) (d : Disk) (v : ℕ)
    → req ≢ 0
    → has req (a ∷ ids) ≡ false
    → Distinct (a ∷ ids)
    → (d.request req).next ≡ 0
    → Linked d.request v (a ∷ ids)
    → Linked (link (last a ids) req d).request v (a ∷ ids ++ (req ∷ []))
Linked-link req a [] d v ne out distinct ends (e, nz, c) =
    let here : (a == v) ≡ true = ground arith in
    let other : (a == req) ≡ false = ground arith in (e, nz, rw (here, other) (refl, ne, ends))
Linked-link req a (b ∷ ids) d v ne out (once, distinct) ends (e, nz, c) =
    let other : (last b ids == v) ≡ false = rw e (last-ne a b ids once) in
    (e, nz, rw other (Linked-link req b ids d (d.request v).next ne (ground arith) distinct ends c))

pub last-snoc : (a r : ℕ) (ids : List ℕ) → last a (ids ++ (r ∷ [])) ≡ r
last-snoc a r [] = refl
last-snoc a r (b ∷ ids) = last-snoc b r ids

has-snoc : (a r : ℕ) (ids : List ℕ) → has a (ids ++ (r ∷ [])) ≡ (has a ids || (a == r))
has-snoc a r [] = ground arith
has-snoc a r (b ∷ ids) = ground (arith, has-snoc a r ids)

pub Distinct-snoc :
    (r : ℕ) (ids : List ℕ) → has r ids ≡ false → Distinct ids → Distinct (ids ++ (r ∷ []))
Distinct-snoc r [] out d = (refl, tt)
Distinct-snoc r (b ∷ ids) out (once, d) =
    (ground (arith, has-snoc b r ids), Distinct-snoc r ids (ground arith) d)

-- Two queues' requests have none in common.
abbrev pub Apart : List ℕ → List ℕ → Type 0
Apart [] js = Unit
Apart (a ∷ ids) js = (has a js ≡ false) × Apart ids js

pub last-Apart : (a : ℕ) (ids js : List ℕ) → Apart (a ∷ ids) js → has (last a ids) js ≡ false
last-Apart a [] js apart = apart.0
last-Apart a (b ∷ ids) js apart = last-Apart b ids js apart.1

pub not-has-Apart : (r : ℕ) (js ids : List ℕ) → Apart js (r ∷ ids) → has r js ≡ false
not-has-Apart r [] ids apart = refl
not-has-Apart r (b ∷ js) ids (out, apart) = ground (arith, not-has-Apart r js ids apart)

pub Apart-tail : (r : ℕ) (js ids : List ℕ) → Apart js (r ∷ ids) → Apart js ids
Apart-tail r [] ids apart = tt
Apart-tail r (b ∷ js) ids (out, apart) = (ground arith, Apart-tail r js ids apart)
