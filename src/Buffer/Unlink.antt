-- ===== src/Buffer/Unlink.antt =====
-- Taking a buffer of src/drivers/buffer.c out of its two lists.
use mathlib.Core.Path.{fun_ext, subst}
use bless_os.Prelude.{
  ℕ, ◌≡◌, ◌≢◌, refl, sym, ◌∙◌, ◌||◌, ◌==◌, if◌then◌else◌, false, ok, List, [], ◌∷◌, ◌++◌, has,
  Distinct, last, last-ne, has-append, arith,
}
use bless_os.Prelude.Ram.{Ram}
use bless_os.Buffer.{BufferHead, Cache, bucket, unhash, unfree, remove_from_lists}
use bless_os.Buffer.Links.{
  Chain, Ring, Chain-without, Ring-without, Run-last, Chain-same, Ring-same, relinked, front,
}

-- The links of the buffers.
abbrev pub next_of : Cache → Ram
next_of c a = (c.buffer a).next

abbrev pub prev_of : Cache → Ram
prev_of c a = (c.buffer a).prev

abbrev pub free_next_of : Cache → Ram
free_next_of c a = (c.buffer a).free_next

abbrev pub free_prev_of : Cache → Ram
free_prev_of c a = (c.buffer a).free_prev

-- The list of the hash table from entry `h`, and the free list as a ring.
abbrev pub HashList : Cache → ℕ → List ℕ → Type 0
HashList c h ids = Chain (next_of c) (prev_of c) 0 (c.hash_table h) ids

abbrev pub FreeRing : Cache → List ℕ → Type 0
FreeRing c ids = Ring (free_next_of c) (free_prev_of c) ids

-- The fields that are no links.
abbrev pub content : BufferHead → ℕ × ℕ × ℕ × ℕ × ℕ × ℕ × ℕ
content b = (b.block_data, b.dev, b.block_no, b.uptodate, b.dirt, b.count, b.lock)

module _ (buf a : ℕ) (c : Cache) where
  unhash-next : next_of (unhash buf c) a ≡ relinked (prev_of c buf) (next_of c buf) (next_of c) a
  unfolding unhash relinked
  unhash-next = ground arith

  unhash-prev : prev_of (unhash buf c) a ≡ relinked (next_of c buf) (prev_of c buf) (prev_of c) a
  unfolding unhash relinked
  unhash-prev = ground arith

  unhash-free_next : free_next_of (unhash buf c) a ≡ free_next_of c a
  unfolding unhash
  unhash-free_next = ground arith

  unhash-free_prev : free_prev_of (unhash buf c) a ≡ free_prev_of c a
  unfolding unhash
  unhash-free_prev = ground arith

  unhash-content : content ((unhash buf c).buffer a) ≡ content (c.buffer a)
  unfolding unhash
  unhash-content = ground arith

unhash-table :
    (buf : ℕ) (c : Cache)
    → let h = bucket buf c in
      (unhash buf c).hash_table h
      ≡ (if c.hash_table h == buf then next_of c buf else c.hash_table h)
unfolding unhash
unhash-table buf c = ground arith

unhash-free_list : (buf : ℕ) (c : Cache) → (unhash buf c).free_list ≡ c.free_list
unfolding unhash
unhash-free_list buf c = ground arith

-- What `unfree` leaves.
record Unfreed (buf : ℕ) (c c' : Cache) : Type 0 where
  next :
      (a : ℕ)
      → free_next_of c' a ≡ relinked (free_prev_of c buf) (free_next_of c buf) (free_next_of c) a
  prev :
      (a : ℕ)
      → free_prev_of c' a ≡ relinked (free_next_of c buf) (free_prev_of c buf) (free_prev_of c) a
  hash_next : (a : ℕ) → next_of c' a ≡ next_of c a
  hash_prev : (a : ℕ) → prev_of c' a ≡ prev_of c a
  same : content (c'.buffer buf) ≡ content (c.buffer buf)
  table : c'.hash_table ≡ c.hash_table
  list : c'.free_list ≡ (if c.free_list == buf then free_next_of c buf else c.free_list)

unfree-Unfreed :
    (buf : ℕ) (c : Cache)
    → free_prev_of c buf ≢ 0
    → free_next_of c buf ≢ 0
    → (c' : Cache) × (unfree buf c ≡ ok c') × Unfreed buf c c'
unfolding unfree relinked
unfree-Unfreed buf c pz nz =
    let test : ((free_prev_of c buf == 0) || (free_next_of c buf == 0)) ≡ false = ground arith in
    rw test (
      _,
      refl,
      record {
        next = λ a. ground arith;
        prev = λ a. ground arith;
        hash_next = λ a. ground arith;
        hash_prev = λ a. ground arith;
        same = ground arith;
        table = ground arith;
        list = ground arith;
      },
    )

-- The head of the list becomes what it starts with then.
front-head :
    (nx pv : Ram) (prev v buf : ℕ) (xs ys : List ℕ)
    → Distinct (xs ++ buf ∷ ys)
    → Chain nx pv prev v (xs ++ buf ∷ ys)
    → front xs (nx buf) v ≡ (if v == buf then nx buf else v)
front-head nx pv prev v buf [] ys d (e, nz, back, c) = ground arith
front-head nx pv prev v buf (a ∷ xs) ys (once, d) (e, nz, back, c) =
    ground (arith, has-append a xs (buf ∷ ys))

-- No item of a list is NULL.
not-has-zero :
    (nx pv : Ram) (prev v : ℕ) (ids : List ℕ) → Chain nx pv prev v ids → has 0 ids ≡ false
not-has-zero nx pv prev v [] c = refl
not-has-zero nx pv prev v (a ∷ ids) (e, nz, back, c) =
    ground (arith, not-has-zero nx pv a (nx a) ids c)

module _ (buf z : ℕ) (xs ys zs : List ℕ) (c : Cache)
    (listed : HashList c (bucket buf c) (xs ++ buf ∷ ys)) (once : Distinct (xs ++ buf ∷ ys))
    (ring : FreeRing c (buf ∷ z ∷ zs)) (apart : Distinct (0 ∷ buf ∷ z ∷ zs)) where
  HashList-unhash : HashList (unhash buf c) (bucket buf c) (xs ++ ys)
  HashList-unhash =
      let h : ℕ = bucket buf c in
      let out = not-has-zero (next_of c) (prev_of c) 0 (c.hash_table h) (xs ++ buf ∷ ys) listed in
      let rest =
        Chain-without (next_of c) (prev_of c) 0 (c.hash_table h) buf xs ys out once listed in
      let head =
        front-head (next_of c) (prev_of c) 0 (c.hash_table h) buf xs ys once listed
        ∙ sym (unhash-table buf c) in
      rw (fun_ext (λ a. unhash-next buf a c), fun_ext (λ a. unhash-prev buf a c))
        (subst
          (λ (w : ℕ).
            Chain (relinked (prev_of c buf) (next_of c buf) (next_of c))
              (relinked (next_of c buf) (prev_of c buf) (prev_of c)) 0 w (xs ++ ys))
          head rest)

  FreeRing-unhash : FreeRing (unhash buf c) (buf ∷ z ∷ zs)
  FreeRing-unhash =
      Ring-same (free_next_of c) (free_next_of (unhash buf c)) (free_prev_of c)
        (free_prev_of (unhash buf c)) (λ a. unhash-free_next buf a c)
        (λ a. unhash-free_prev buf a c) (buf ∷ z ∷ zs) ring

  -- Both links of the free list lead to a buffer.
  free_links : (free_prev_of (unhash buf c) buf ≢ 0) × (free_next_of (unhash buf c) buf ≢ 0)
  free_links =
      let (to, back, r) = FreeRing-unhash in
      let end = Run-last (free_next_of (unhash buf c)) (free_prev_of (unhash buf c)) z buf zs r in
      let other : (last z zs == 0) ≡ false = last-ne 0 z zs (ground arith) in
      (ground arith, ground arith)

-- The buffer `buf` goes from the list of its hash entry `h`, between `xs` and `ys`, and from the free
-- list, before `z` and `zs`; its other fields stay.
pub record Unlinked (buf z h : ℕ) (xs ys zs : List ℕ) (c c' : Cache) : Type 0 where
  pub hash_list : HashList c' h (xs ++ ys)
  pub free_ring : FreeRing c' (z ∷ zs)
  pub free_head : c'.free_list ≡ (if c.free_list == buf then z else c.free_list)
  pub kept : content (c'.buffer buf) ≡ content (c.buffer buf)

module _ (buf z : ℕ) (xs ys zs : List ℕ) (c : Cache)
    (listed : HashList c (bucket buf c) (xs ++ buf ∷ ys)) (once : Distinct (xs ++ buf ∷ ys))
    (ring : FreeRing c (buf ∷ z ∷ zs)) (apart : Distinct (0 ∷ buf ∷ z ∷ zs)) where
  pub remove_from_lists-Unlinked :
      (c' : Cache) × (remove_from_lists buf c ≡ ok c') × Unlinked buf z (bucket buf c) xs ys zs c c'
  unfolding remove_from_lists
  remove_from_lists-Unlinked =
      let u : Cache = unhash buf c in
      let h : ℕ = bucket buf c in
      let list = HashList-unhash buf z xs ys zs c listed once ring apart in
      let ring₁ = FreeRing-unhash buf z xs ys zs c listed once ring apart in
      let (pz, nz) = free_links buf z xs ys zs c listed once ring apart in
      let (c', done, x) = unfree-Unfreed buf u pz nz in
      (
        c',
        done,
        record {
          hash_list = rw x.table (
              Chain-same (next_of u) (next_of c') (prev_of u) (prev_of c') x.hash_next x.hash_prev 0
                (u.hash_table h) (xs ++ ys) list);
          free_ring =
              Ring-same (relinked (free_prev_of u buf) (free_next_of u buf) (free_next_of u))
                (free_next_of c')
                (relinked (free_next_of u buf) (free_prev_of u buf) (free_prev_of u))
                (free_prev_of c') x.next x.prev (z ∷ zs)
                (Ring-without (free_next_of u) (free_prev_of u) buf z zs pz nz apart.1 ring₁);
          free_head = ground (arith, x.list, unhash-free_list buf c);
          kept = x.same ∙ unhash-content buf buf c;
        },
      )
